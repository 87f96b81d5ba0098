-- ===== src/Wort.antt =====
-- The write-optimal radix tree of wort/wort.h and wort/wort.cpp: nodes of sixteen children, path
-- compression that keeps the first six digits of a skipped path, 64-bit keys read as sixteen
-- digits of four bits.
--
-- A `wort_node*` is a `Node`: NULL, a tagged leaf pointer, or an inner node. Each node is
-- reached from one place alone, so a write through `ref` is the node that the insertion returns.
-- A leaf holds the eight bytes that its `value` pointer leads to. `fault` stands where the C code
-- follows a null or an unset pointer. A cache flush changes no value and is left out. The callers of
-- `find_child` turn its NULL into a NULL node, so that the child under digit `i` is `c i`.
pub mod Digits
pub mod Shape
pub mod Lookup
pub mod Paths
pub mod SplitLeaf
pub mod SplitPath
pub mod Insert
pub mod Recovery
pub mod Map
mod Tests
mod Examples
use wrert.Prelude.{
  for_append, ℕ, zero, suc, ◌+◌, ◌-◌, ◌*◌, ◌/◌, ◌%◌, ◌^◌, Bool, true, false, ◌&&◌, Option, none,
  some, ltb, ◌==◌, if◌then◌else◌, update, first_diff, first_index, min, List, [], ◌∷◌, ◌++◌, not,
  leb, ◌||◌,
}

-- WORT_NODE_BITS, WORT_MAX_DEPTH, WORT_NUM_NODE_ENTRIES, WORT_MAX_PREFIX_LEN, WORT_MAX_HEIGHT
abbrev pub node_bits : ℕ
node_bits = 4

abbrev pub max_depth : ℕ
max_depth = 15

abbrev pub num_node_entries : ℕ
num_node_entries = 2 ^ node_bits

abbrev pub max_prefix_len : ℕ
max_prefix_len = 6

abbrev pub max_height : ℕ
max_height = max_depth + 1

pub record Leaf : Type 0 where
  pub value : ℕ
  pub key_len : ℕ
  pub key : ℕ

-- `wort_node`: of `pwortial` only the first `min(6, pwortial_len)` bytes are ever read.
pub record Header : Type 0 where
  pub depth : ℕ
  pub pwortial_len : ℕ
  pub pwortial : ℕ → ℕ

pub data Node : Type 0 where
  null : Node
  leaf : Leaf → Node
  node16 : Header → (ℕ → Node) → Node

pub record Tree : Type 0 where
  pub root : Node
  pub size : ℕ

-- The outcome of code that may follow a pointer that leads nowhere.
pub data Run {ℓ} (A : Type ℓ) : Type ℓ where
  ok : A → Run A
  fault : Run A

infixl 5 ◌>>=◌
abbrev pub ◌>>=◌ {ℓ κ} : {A : Type ℓ} {B : Type κ} → Run A → (A → Run B) → Run B
ok a >>= f = f a
fault >>= f = fault

-- `(key >> ((15 - depth) * 4)) & 15`, for a `depth` of at most 15, as in a tree whose prefixes fit its
-- keys; beyond that the C code shifts by a negative number, and the model by none.
pub get_index : ℕ → ℕ → ℕ
get_index key depth = key / 2 ^ ((max_depth - depth) * node_bits) % num_node_entries

pub new_wort_tree : Tree
new_wort_tree = record { root = null; size = 0 }

pub is_null : Node → Bool
is_null null = true
is_null (leaf l) = false
is_null (node16 h c) = false

pub check_prefix : Header → ℕ → ℕ → ℕ
check_prefix h key depth =
    first_diff h.pwortial (λ i. get_index key (depth + i))
      (min (min h.pwortial_len max_prefix_len) (max_height - depth)) 0

-- true where the C function answers 0
pub leaf_matches : Leaf → ℕ → ℕ → Bool
leaf_matches l key key_len = l.key_len == key_len && l.key == key

-- The least leaf under a node. The loop over the children has no bound of its own.
pub minimum : Node → Run Leaf
unfolding is_null
minimum null = fault
minimum (leaf l) = ok l
minimum (node16 h c) = elim (first_index (λ i. not (is_null (c i))) num_node_entries 0) [
  | none ↦ fault
  | some i ↦ minimum (c i)
]

pub longest_common_prefix : Leaf → Leaf → ℕ → ℕ
longest_common_prefix l1 l2 depth =
    first_diff (λ i. get_index l1.key (depth + i)) (λ i. get_index l2.key (depth + i))
      (max_height - depth) 0

-- The bytes `get_index(key, depth + i)` for `i < min(6, len)`.
pub path_of : ℕ → ℕ → ℕ → ℕ → ℕ
path_of key depth len i = if ltb i (min max_prefix_len len) then get_index key (depth + i) else 0

-- The header that `wort_get` and `recovery_prefix` compute from the least leaves of the first two
-- children.
pub old_path : (ℕ → Node) → ℕ → Run Header
unfolding is_null path_of
old_path c depth =
    let test : ℕ → Bool = λ i. not (is_null (c i)) in
    elim (first_index test num_node_entries 0) [
      | none ↦ fault
      | some i ↦ elim (first_index test (num_node_entries - (i + 1)) (i + 1)) [
        | none ↦ fault
        | some j ↦ minimum (c i) >>= λ l0. minimum (c j) >>= λ l1.
            let diff = longest_common_prefix l0 l1 depth in
            ok (record { depth = depth; pwortial_len = diff; pwortial = path_of l1.key depth diff })
      ]
    ]

-- The header that a lookup goes by, and the one that an insertion leaves in the node.
pub path_at : Header → (ℕ → Node) → ℕ → Run Header
path_at h c depth = if h.depth == depth then ok h else old_path c depth

-- The loop of `wort_get`: `none` where it returns NULL.
pub get_loop : Node → ℕ → ℕ → ℕ → Run (Option ℕ)
get_loop null key key_len depth = ok none
get_loop (leaf l) key key_len depth = ok (if leaf_matches l key key_len then some l.value else none)
get_loop (node16 h c) key key_len depth = path_at h c depth >>= λ p.
    let next =
      get_loop (c (get_index key (depth + p.pwortial_len))) key key_len
        (depth + p.pwortial_len + 1) in
    if check_prefix p key depth == min max_prefix_len p.pwortial_len then next else ok none

-- `wort_get` returns a `uint64_t`, and NULL as 0.
pub wort_get : Tree → ℕ → ℕ → Run ℕ
wort_get t key key_len =
    get_loop t.root key key_len 0 >>= λ r. ok (elim r [ none ↦ 0 | some v ↦ v ])

pub make_leaf : ℕ → ℕ → ℕ → Node
make_leaf key key_len value = leaf (record { value = value; key_len = key_len; key = key })

pub add_child : (ℕ → Node) → ℕ → Node → ℕ → Node
add_child = update

abbrev pub no_children : ℕ → Node
no_children i = null

-- The first digit at which the key leaves the path of the node, and the leaf that was consulted
-- for the digits past the sixth.
pub prefix_mismatch : Header → (ℕ → Node) → ℕ → ℕ → Run (ℕ × Option Leaf)
prefix_mismatch h c key depth =
    let max_cmp = min (min max_prefix_len h.pwortial_len) (max_height - depth) in
    let idx = first_diff h.pwortial (λ i. get_index key (depth + i)) max_cmp 0 in
    if ltb idx max_cmp
    then ok (idx, none)
    else if ltb max_prefix_len h.pwortial_len
    then (minimum (node16 h c) >>= λ l. ok (
      first_diff (λ i. get_index l.key (i + depth)) (λ i. get_index key (depth + i))
          (max_height - depth - idx) idx,
      some l,
    ))
    else ok (idx, none)

-- The leaf `l` of the C code: the one that `prefix_mismatch` found, or the least one.
pub leaf_or_minimum : Option Leaf → Node → Run Leaf
leaf_or_minimum (some l) n = ok l
leaf_or_minimum none n = minimum n

-- The digit under which the old node hangs below a split, and its shortened path.
pub shorten : Header → (ℕ → Node) → ℕ → ℕ → Option Leaf → Run (ℕ × Header)
unfolding leaf_or_minimum path_of
shorten h c depth diff seen =
    let len = h.pwortial_len - (diff + 1) in
    if leb h.pwortial_len max_prefix_len
    then ok (
      h.pwortial diff,
      record {
        depth = depth + diff + 1;
        pwortial_len = len;
        pwortial = λ i. if ltb i (min max_prefix_len len) then h.pwortial (diff + 1 + i) else 0;
      },
    )
    else (leaf_or_minimum seen (node16 h c) >>= λ l. ok (
      get_index l.key (depth + diff),
      record {
        depth = depth + diff + 1;
        pwortial_len = len;
        pwortial = path_of l.key (depth + diff + 1) len;
      },
    ))

-- A new node above the old one, with the new leaf beside it.
pub split_path : Header → (ℕ → Node) → ℕ → ℕ → ℕ → ℕ → ℕ → Option Leaf → Run Node
unfolding shorten add_child make_leaf
split_path h c key key_len value depth diff seen =
    shorten h c depth diff seen >>= λ (digit, temp_path). ok (
      node16
        (record {
          depth = depth;
          pwortial_len = diff;
          pwortial = λ i. if ltb i (min max_prefix_len diff) then h.pwortial i else 0;
        })
        (add_child (add_child no_children digit (node16 temp_path c)) (get_index key (depth + diff))
          (make_leaf key key_len value)))

-- A leaf that is replaced by a node above the old leaf and a new one.
pub split_leaf : Leaf → ℕ → ℕ → ℕ → ℕ → Node
unfolding longest_common_prefix path_of add_child make_leaf
split_leaf l key key_len value depth =
    let l2 : Leaf = record { value = value; key_len = key_len; key = key } in
    let longest_prefix = longest_common_prefix l l2 depth in
    node16
      (record {
        depth = depth;
        pwortial_len = longest_prefix;
        pwortial = path_of key depth longest_prefix;
      })
      (add_child (add_child no_children (get_index l.key (depth + longest_prefix)) (leaf l))
        (get_index key (depth + longest_prefix)) (leaf l2))

-- `recursive_insert`: what `*ref` holds afterwards, and the value that was replaced (`*old = 1`).
-- Where the child is missing the recursion puts the leaf there, as the last lines of the C
-- function do.
pub recursive_insert : Node → ℕ → ℕ → ℕ → ℕ → Run (Node × Option ℕ)
recursive_insert null key key_len value depth = ok (make_leaf key key_len value, none)
recursive_insert (leaf l) key key_len value depth =
    if leaf_matches l key key_len
    then ok (leaf (record l { value = value }), some l.value)
    else ok (split_leaf l key key_len value depth, none)
recursive_insert (node16 h c) key key_len value depth = path_at h c depth >>= λ p.
    prefix_mismatch p c key depth >>= λ (diff, seen).
    let d = depth + p.pwortial_len in
    let i = get_index key d in
    let inside = recursive_insert (c i) key key_len value (d + 1) >>= λ (child, old).
    ok (node16 p (add_child c i child), old) in
    if leb p.pwortial_len diff
    then inside
    else split_path p c key key_len value depth diff seen >>= λ n. ok (n, none)

pub wort_put : Tree → ℕ → ℕ → ℕ → Run (Tree × Option ℕ)
wort_put t key key_len value = recursive_insert t.root key key_len value 0 >>= λ (root, old).
    ok (record { root = root; size = elim old [ none ↦ t.size + 1 | some v ↦ t.size ] }, old)

pub record KeyValue : Type 0 where
  pub key : ℕ
  pub value : ℕ

pub wort_all_subtree_kv : Node → List KeyValue
wort_all_subtree_kv null = []
wort_all_subtree_kv (leaf l) = record { key = l.key; value = l.value } ∷ []
wort_all_subtree_kv (node16 h c) = for_append (λ i. wort_all_subtree_kv (c i)) num_node_entries 0

-- The first loop of `wort_node_scan` over the prefix: true where it returns.
pub below_left : (p left : ℕ → ℕ) (n i : ℕ) → Bool
below_left p left zero i = false
below_left p left (suc n) i =
    let rest = below_left p left n (i + 1) in
    if ltb (left i) (p i) then false else if ltb (p i) (left i) then true else rest

-- The second loop, which compares with the digits of both ends.
pub above_right : (p left right : ℕ → ℕ) (n i : ℕ) → Bool
above_right p left right zero i = false
above_right p left right (suc n) i =
    let rest = above_right p left right n (i + 1) in
    if ltb (p i) (right i) then false else if ltb (left i) (p i) then true else rest

-- `wort_node_scan`: the pairs that it appends.
pub wort_node_scan : Node → (left right depth : ℕ) → List KeyValue
wort_node_scan null left right depth = []
wort_node_scan (leaf l) left right depth =
    if leb left l.key && leb l.key right then record { key = l.key; value = l.value } ∷ [] else []
wort_node_scan (node16 h c) left right depth =
    let max_cmp = min (min h.pwortial_len max_prefix_len) (max_height - depth) in
    let left_digit : ℕ → ℕ = λ i. get_index left (depth + i) in
    let right_digit : ℕ → ℕ = λ i. get_index right (depth + i) in
    let d = depth + h.pwortial_len in
    let left_index = get_index left d in
    let right_index = get_index right d in
    let whole = wort_node_scan (c left_index) left right (d + 1) in
    let lower = wort_node_scan (c left_index) left (2 ^ 64 - 1) (d + 1) in
    let upper = wort_node_scan (c right_index) 0 right (d + 1) in
    let between =
      for_append (λ i. wort_all_subtree_kv (c i)) (right_index - (left_index + 1))
        (left_index + 1) in
    let returns =
      below_left h.pwortial left_digit max_cmp 0
      || above_right h.pwortial left_digit right_digit max_cmp 0 in
    if returns then [] else (if left_index == right_index then whole else lower ++ upper) ++ between

pub wort_scan : Tree → (left right : ℕ) → List KeyValue
wort_scan t left right = wort_node_scan t.root left right 0
