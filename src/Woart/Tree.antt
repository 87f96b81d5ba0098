-- ===== src/Woart/Tree.antt =====
-- The operations of woart/woart.cpp on whole trees. Where Wort recovers a node whose depth is not the
-- expected one, Woart ends the program: `fault`.
use wrert.Prelude.{
  for_append, ℕ, zero, suc, ◌+◌, ◌-◌, ◌*◌, ◌/◌, ◌%◌, ◌^◌, Bool, true, false, not, ◌&&◌, ◌||◌,
  Option, none, some, List, [], ◌∷◌, ◌++◌, ltb, leb, min, ◌==◌, if◌then◌else◌, update, first_index,
  first_diff,
}
use wrert.Woart.Bits.{find_next_bit}
use wrert.Woart.Node.{
  Leaf, PathComp, free, used, Index, node4, node16, node48, node256, Node, null, leaf, inner, Run,
  ok, fault, ◌>>=◌, is_null, no_children, type4, alloc_node, find_child, add_child,
  add_child4_noflush,
}

-- WOART_NODE_BITS, WOART_MAX_DEPTH, WOART_NUM_NODE_ENTRIES, WOART_MAX_PREFIX_LEN, WOART_MAX_HEIGHT
abbrev pub node_bits : ℕ
node_bits = 8

abbrev pub max_depth : ℕ
max_depth = 7

abbrev pub num_node_entries : ℕ
num_node_entries = 2 ^ node_bits

abbrev pub max_prefix_len : ℕ
max_prefix_len = 6

abbrev pub max_height : ℕ
max_height = max_depth + 1

pub record Tree : Type 0 where
  pub root : Node
  pub size : ℕ

pub record KeyValue : Type 0 where
  pub key : ℕ
  pub value : ℕ

-- `(key >> ((7 - depth) * 8)) & 255`, for a `depth` of at most 7, as in a tree whose prefixes fit its keys;
-- beyond that the C code shifts by a negative number, and the model by none.
unfoldable pub get_index : ℕ → ℕ → ℕ
get_index key depth = key / 2 ^ ((max_depth - depth) * node_bits) % num_node_entries

-- `woart_tree_init` and `new_woart_tree`
unfoldable pub new_woart_tree : Tree
new_woart_tree = record { root = null; size = 0 }

unfoldable pub check_prefix : PathComp → ℕ → ℕ → ℕ
check_prefix p key depth =
    first_diff p.pwoartial (λ i. get_index key (depth + i))
      (min (min p.pwoartial_len max_prefix_len) (max_height - depth)) 0

-- true where the C function answers 0
unfoldable pub leaf_matches : Leaf → ℕ → ℕ → Bool
leaf_matches l key key_len = l.key_len == key_len && l.key == key

-- The loop of `woart_get`: `none` where it returns NULL.
unfoldable pub get_loop : Node → ℕ → ℕ → ℕ → Run (Option ℕ)
get_loop null key key_len depth = ok none
get_loop (leaf l) key key_len depth = ok (if leaf_matches l key key_len then some l.value else none)
get_loop (inner p ix children) key key_len depth =
    let next : Run (Option ℕ) =
      elim (find_child ix children (get_index key (depth + p.pwoartial_len))) [
        | none ↦ ok none
        | some i ↦ get_loop (children i) key key_len (depth + p.pwoartial_len + 1)
      ] in
    if not (p.depth == depth)
    then fault
    else if p.pwoartial_len == 0
    then next
    else if check_prefix p key depth == min max_prefix_len p.pwoartial_len
    then next
    else ok none

-- `woart_get` returns a `uint64_t`, and NULL as 0.
unfoldable pub woart_get : Tree → ℕ → ℕ → Run ℕ
woart_get t key key_len =
    get_loop t.root key key_len 0 >>= λ r. ok (elim r [ none ↦ 0 | some v ↦ v ])

-- `for (i = i + 1; i < 16; i++)` over the keys that the bitmap has: the place of the least one. The C
-- code reads `keys[16]` where no bit is left, and drops what it read.
unfoldable pub min_loop : (bitmap : ℕ) (keys : ℕ → ℕ) (n i least idx : ℕ) → ℕ
min_loop bitmap keys zero i least idx = idx
min_loop bitmap keys (suc n) i least idx =
    let j = find_next_bit bitmap 16 i in
    let smaller = min_loop bitmap keys n (j + 1) (keys j) j in
    let same = min_loop bitmap keys n (j + 1) least idx in
    if ltb i 16 then if ltb j 16 && ltb (keys j) least then smaller else same else idx

-- The place of the child under the least byte; `none` where the C code leaves the arrays.
unfoldable pub least_child : Index → (ℕ → Node) → Option ℕ
least_child (node4 []) children = none
least_child (node4 (free ∷ ss)) children = none
least_child (node4 (used key p ∷ ss)) children = some p
least_child (node16 bitmap keys) children =
    let i = find_next_bit bitmap 16 0 in
    if i == 16 then none else some (min_loop bitmap keys 16 (i + 1) (keys i) i)
least_child (node48 keys) children = elim (first_index (λ i. not (keys i == 0)) 256 0) [
  | none ↦ none
  | some i ↦ some (keys i - 1)
]
least_child node256 children = first_index (λ i. not (is_null (children i))) 256 0

unfoldable pub minimum : Node → Run Leaf
minimum null = fault
minimum (leaf l) = ok l
minimum (inner p ix children) = elim (least_child ix children) [
  | none ↦ fault
  | some i ↦ minimum (children i)
]

unfoldable pub make_leaf : ℕ → ℕ → ℕ → Node
make_leaf key key_len value = leaf (record { value = value; key_len = key_len; key = key })

unfoldable pub longest_common_prefix : Leaf → Leaf → ℕ → ℕ
longest_common_prefix l1 l2 depth =
    first_diff (λ i. get_index l1.key (depth + i)) (λ i. get_index l2.key (depth + i))
      (max_height - depth) 0

-- The bytes `get_index(key, depth + i)` for `i < min(6, len)`.
unfoldable pub path_of : ℕ → ℕ → ℕ → ℕ → ℕ
path_of key depth len i = if ltb i (min max_prefix_len len) then get_index key (depth + i) else 0

-- The first digit at which the key leaves the path of the node, and the leaf that was consulted
-- for the digits past the sixth; `least` is `minimum(n)`, which the C code calls where it needs it.
unfoldable pub prefix_mismatch : PathComp → Run Leaf → ℕ → ℕ → Run (ℕ × Option Leaf)
prefix_mismatch p least key depth =
    let max_cmp = min (min max_prefix_len p.pwoartial_len) (max_height - depth) in
    let idx = first_diff p.pwoartial (λ i. get_index key (depth + i)) max_cmp 0 in
    if ltb idx max_cmp
    then ok (idx, none)
    else if ltb max_prefix_len p.pwoartial_len
    then (least >>= λ l. ok (
      first_diff (λ i. get_index l.key (i + depth)) (λ i. get_index key (depth + i))
          (max_height - depth - idx) idx,
      some l,
    ))
    else ok (idx, none)

-- The leaf `l` of the C code: the one that `prefix_mismatch` found, or the least one.
unfoldable pub leaf_or_minimum : Option Leaf → Run Leaf → Run Leaf
leaf_or_minimum (some l) least = ok l
leaf_or_minimum none least = least

-- The digit under which the old node hangs below a split, and its shortened path.
unfoldable pub shorten : PathComp → Run Leaf → ℕ → ℕ → Option Leaf → Run (ℕ × PathComp)
shorten p least depth diff seen =
    let len = p.pwoartial_len - (diff + 1) in
    if leb p.pwoartial_len max_prefix_len
    then ok (
      p.pwoartial diff,
      record {
        depth = depth + diff + 1;
        pwoartial_len = len;
        pwoartial = λ i. if ltb i (min max_prefix_len len) then p.pwoartial (diff + 1 + i) else 0;
      },
    )
    else (leaf_or_minimum seen least >>= λ l. ok (
      get_index l.key (depth + diff),
      record {
        depth = depth + diff + 1;
        pwoartial_len = len;
        pwoartial = path_of l.key (depth + diff + 1) len;
      },
    ))

-- `add_child4_noflush` on a node of four children.
unfoldable pub add_noflush : Index → (ℕ → Node) → ℕ → Node → Run (Index × (ℕ → Node))
add_noflush (node4 slots) children c child = add_child4_noflush slots children c child
add_noflush (node16 bitmap keys) children c child = fault
add_noflush (node48 keys) children c child = fault
add_noflush node256 children c child = fault

-- A new node of four with two children.
unfoldable pub node_of_two : PathComp → ℕ → Node → ℕ → Node → Run Node
node_of_two path c child c' child' =
    add_noflush (alloc_node type4) no_children c child >>= λ (ix, children).
    add_noflush ix children c' child' >>= λ (ix', children'). ok (inner path ix' children')

-- A new node above the old one, with the new leaf beside it.
unfoldable pub split_path :
    PathComp → Index → (ℕ → Node) → ℕ → ℕ → ℕ → ℕ → ℕ → Option Leaf → Run Node
split_path p ix children key key_len value depth diff seen =
    shorten p (minimum (inner p ix children)) depth diff seen >>= λ (digit, temp_path).
    node_of_two
      (record {
        depth = depth;
        pwoartial_len = diff;
        pwoartial = λ i. if ltb i (min max_prefix_len diff) then p.pwoartial i else 0;
      })
      digit (inner temp_path ix children) (get_index key (depth + diff))
      (make_leaf key key_len value)

-- A leaf that is replaced by a node above the old leaf and a new one.
unfoldable pub split_leaf : Leaf → ℕ → ℕ → ℕ → ℕ → Run Node
split_leaf l key key_len value depth =
    let l2 : Leaf = record { value = value; key_len = key_len; key = key } in
    let longest_prefix = longest_common_prefix l l2 depth in
    node_of_two
      (record {
        depth = depth;
        pwoartial_len = longest_prefix;
        pwoartial = path_of key depth longest_prefix;
      })
      (get_index l.key (depth + longest_prefix)) (leaf l) (get_index key (depth + longest_prefix))
      (leaf l2)

-- `recursive_insert`: what `*ref` holds afterwards, and the value that was replaced (`*old = 1`).
unfoldable pub recursive_insert : Node → ℕ → ℕ → ℕ → ℕ → Run (Node × Option ℕ)
recursive_insert null key key_len value depth = ok (make_leaf key key_len value, none)
recursive_insert (leaf l) key key_len value depth =
    if leaf_matches l key key_len
    then ok (leaf (record l { value = value }), some l.value)
    else (split_leaf l key key_len value depth >>= λ n. ok (n, none))
recursive_insert (inner p ix children) key key_len value depth =
    let d = depth + p.pwoartial_len in
    let c = get_index key d in
    let inside : Run (Node × Option ℕ) = elim (find_child ix children c) [
      | none ↦ add_child ix children c (make_leaf key key_len value) >>= λ (ix', children').
          ok (inner p ix' children', none)
      | some i ↦ recursive_insert (children i) key key_len value (d + 1) >>= λ (n, old).
          ok (inner p ix (update children i n), old)
    ] in
    if not (p.depth == depth)
    then fault
    else if p.pwoartial_len == 0
    then inside
    else prefix_mismatch p (minimum (inner p ix children)) key depth >>= λ (diff, seen).
        if leb p.pwoartial_len diff
        then inside
        else split_path p ix children key key_len value depth diff seen >>= λ n. ok (n, none)

unfoldable pub woart_put : Tree → ℕ → ℕ → ℕ → Run (Tree × Option ℕ)
woart_put t key key_len value = recursive_insert t.root key key_len value 0 >>= λ (root, old).
    ok (record { root = root; size = elim old [ none ↦ t.size + 1 | some v ↦ t.size ] }, old)

unfoldable pub woart_all_subtree_kv : Node → List KeyValue
woart_all_subtree_kv null = []
woart_all_subtree_kv (leaf l) = record { key = l.key; value = l.value } ∷ []
woart_all_subtree_kv (inner p ix children) =
    for_append
      (λ c. elim (find_child ix children c) [
        | none ↦ []
        | some i ↦ woart_all_subtree_kv (children i)
      ])
      256 0

-- The first loop of `woart_node_scan` over the prefix: true where it returns.
unfoldable pub below_left : (p left : ℕ → ℕ) (n i : ℕ) → Bool
below_left p left zero i = false
below_left p left (suc n) i =
    let rest = below_left p left n (i + 1) in
    if ltb (left i) (p i) then false else if ltb (p i) (left i) then true else rest

-- The second loop, which compares with the digits of both ends.
unfoldable pub above_right : (p left right : ℕ → ℕ) (n i : ℕ) → Bool
above_right p left right zero i = false
above_right p left right (suc n) i =
    let rest = above_right p left right n (i + 1) in
    if ltb (p i) (right i) then false else if ltb (left i) (p i) then true else rest

-- `woart_node_scan`: the pairs that it appends.
unfoldable pub woart_node_scan : Node → (left right depth : ℕ) → List KeyValue
woart_node_scan null left right depth = []
woart_node_scan (leaf l) left right depth =
    if leb left l.key && leb l.key right then record { key = l.key; value = l.value } ∷ [] else []
woart_node_scan (inner p ix children) left right depth =
    let max_cmp = min (min p.pwoartial_len max_prefix_len) (max_height - depth) in
    let left_digit : ℕ → ℕ = λ i. get_index left (depth + i) in
    let right_digit : ℕ → ℕ = λ i. get_index right (depth + i) in
    let d = depth + p.pwoartial_len in
    let left_index = get_index left d in
    let right_index = get_index right d in
    let scan : ℕ → ℕ → ℕ → List KeyValue = λ c from to. elim (find_child ix children c) [
      | none ↦ []
      | some i ↦ woart_node_scan (children i) from to (d + 1)
    ] in
    let ends =
      if left_index == right_index
      then scan left_index left right
      else scan left_index left (2 ^ 64 - 1) ++ scan right_index 0 right in
    let between =
      for_append
        (λ c. elim (find_child ix children c) [
          | none ↦ []
          | some i ↦ woart_all_subtree_kv (children i)
        ])
        (right_index - (left_index + 1)) (left_index + 1) in
    if below_left p.pwoartial left_digit max_cmp 0
      || above_right p.pwoartial left_digit right_digit max_cmp 0
    then []
    else ends ++ between

unfoldable pub woart_scan : Tree → (left right : ℕ) → List KeyValue
woart_scan t left right = woart_node_scan t.root left right 0
