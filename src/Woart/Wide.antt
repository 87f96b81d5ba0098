-- ===== src/Woart/Wide.antt =====
-- The tree without layouts: each node has an array of 256 children, as the nodes of wort/ have one of
-- sixteen. It is the specification that the adaptive nodes of woart/ are held against.
use wrert.Prelude.{
  for_append, ℕ, zero, suc, ◌+◌, ◌-◌, ◌&&◌, Bool, true, false, not, Option, none, some, List, [],
  ◌∷◌, leb, min, ◌==◌, if◌then◌else◌, update, first_index, ltb,
}
use wrert.Woart.Node.{Leaf, PathComp, Node, null, leaf, inner, Run, ok, fault, ◌>>=◌, find_child}
use wrert.Woart.Tree.{
  KeyValue, get_index, leaf_matches, max_prefix_len, max_height, prefix_mismatch, shorten, path_of,
  longest_common_prefix,
}

pub data Wide : Type 0 where
  void : Wide
  item : Leaf → Wide
  wide : PathComp → (ℕ → Wide) → Wide

-- What a node stands for: its children under their bytes.
unfoldable pub view : Node → Wide
view null = void
view (leaf l) = item l
view (inner p ix children) =
    wide p (λ c. elim (find_child ix children c) [ none ↦ void | some i ↦ view (children i) ])

unfoldable pub is_void : Wide → Bool
is_void void = true
is_void (item l) = false
is_void (wide p c) = false

-- The first `n` digits of a path, from `i` on, are those of a key.
unfoldable pub same_digits : (path digits : ℕ → ℕ) (n i : ℕ) → Bool
same_digits path digits zero i = true
same_digits path digits (suc n) i =
    let rest = same_digits path digits n (i + 1) in if path i == digits i then rest else false

-- The digits that a path stores, six at most, are those of a key that is long enough.
unfoldable pub on_path : PathComp → (key depth : ℕ) → Bool
unfolding same_digits
on_path p key depth =
    leb (min max_prefix_len p.pwoartial_len) (max_height - depth)
    && same_digits p.pwoartial (λ i. get_index key (depth + i)) (min max_prefix_len p.pwoartial_len)
        0

unfoldable pub get : Wide → ℕ → ℕ → ℕ → Run (Option ℕ)
unfolding on_path
get void key key_len depth = ok none
get (item l) key key_len depth =
    ok (if l.key == key && l.key_len == key_len then some l.value else none)
get (wide p c) key key_len depth =
    let next =
      get (c (get_index key (depth + p.pwoartial_len))) key key_len (depth + p.pwoartial_len + 1) in
    if not (p.depth == depth) then fault else if on_path p key depth then next else ok none

unfoldable pub first_leaf : Wide → Run Leaf
first_leaf void = fault
first_leaf (item l) = ok l
first_leaf (wide p c) = elim (first_index (λ i. not (is_void (c i))) 256 0) [
  | none ↦ fault
  | some i ↦ first_leaf (c i)
]

-- A node of two children; the digits of two keys that stand beside one another differ.
unfoldable pub pair : PathComp → ℕ → Wide → ℕ → Wide → Run Wide
pair path c child c' child' =
    if c == c' then fault else ok (wide path (update (update (λ i. void) c child) c' child'))

abbrev pub new_item : ℕ → ℕ → ℕ → Wide
new_item key key_len value = item (record { value = value; key_len = key_len; key = key })

unfoldable pub part_path : PathComp → (ℕ → Wide) → ℕ → ℕ → ℕ → ℕ → ℕ → Option Leaf → Run Wide
part_path p c key key_len value depth diff seen =
    shorten p (first_leaf (wide p c)) depth diff seen >>= λ (digit, temp_path).
    pair
      (record {
        depth = depth;
        pwoartial_len = diff;
        pwoartial = λ i. if ltb i (min max_prefix_len diff) then p.pwoartial i else 0;
      })
      digit (wide temp_path c) (get_index key (depth + diff)) (new_item key key_len value)

unfoldable pub part_leaf : Leaf → ℕ → ℕ → ℕ → ℕ → Run Wide
part_leaf l key key_len value depth =
    let l2 : Leaf = record { value = value; key_len = key_len; key = key } in
    let longest_prefix = longest_common_prefix l l2 depth in
    pair
      (record {
        depth = depth;
        pwoartial_len = longest_prefix;
        pwoartial = path_of key depth longest_prefix;
      })
      (get_index l.key (depth + longest_prefix)) (item l) (get_index key (depth + longest_prefix))
      (item l2)

unfoldable pub put : Wide → ℕ → ℕ → ℕ → ℕ → Run (Wide × Option ℕ)
put void key key_len value depth = ok (new_item key key_len value, none)
put (item l) key key_len value depth =
    if leaf_matches l key key_len
    then ok (item (record l { value = value }), some l.value)
    else (part_leaf l key key_len value depth >>= λ n. ok (n, none))
put (wide p c) key key_len value depth =
    let d = depth + p.pwoartial_len in
    let i = get_index key d in
    let inside : Run (Wide × Option ℕ) =
      put (c i) key key_len value (d + 1) >>= λ (n, old). ok (wide p (update c i n), old) in
    if not (p.depth == depth)
    then fault
    else if p.pwoartial_len == 0
    then inside
    else prefix_mismatch p (first_leaf (wide p c)) key depth >>= λ (diff, seen).
        if leb p.pwoartial_len diff
        then inside
        else part_path p c key key_len value depth diff seen >>= λ n. ok (n, none)

unfoldable pub pairs : Wide → List KeyValue
pairs void = []
pairs (item l) = record { key = l.key; value = l.value } ∷ []
pairs (wide p c) = for_append (λ i. pairs (c i)) 256 0
