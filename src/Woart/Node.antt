-- ===== src/Woart/Node.antt =====
-- The nodes of woart/woart.h and the four layouts in which woart/woart.cpp finds and adds a child.
--
-- A `woart_node*` is a `Node`: NULL, a tagged leaf pointer, or an inner node, whose layout is an
-- `Index` beside the array of children. `find_child` answers the place in the array instead of its
-- address. Memory that the code leaves unset and never reads is null or 0, and `fault` is a call of
-- `abort` or `exit`, or a read through a null pointer or outside an array. Flushes and fences change no
-- value. A key digit is a byte.
use wrert.Prelude.{
  ℕ, zero, suc, ◌+◌, ◌-◌, ◌^◌, Bool, true, false, not, ◌&&◌, Option, none, some, List, [], ◌∷◌,
  ◌++◌, ltb, ◌==◌, if◌then◌else◌, update,
}
use wrert.Woart.Bits.{find_next_bit, find_next_zero_bit}

pub record Leaf : Type 0 where
  pub value : ℕ
  pub key_len : ℕ
  pub key : ℕ

-- `path_comp`
pub record PathComp : Type 0 where
  pub depth : ℕ
  pub pwoartial_len : ℕ
  pub pwoartial : ℕ → ℕ

-- `slot_array`: a slot is free where its `i_ptr` is -1, and its key is not read then.
pub data Slot : Type 0 where
  free : Slot
  used : (key i_ptr : ℕ) → Slot

-- `slot[4]`, or `bitmap` and `keys[16]`, or `keys[256]`
pub data Index : Type 0 where
  node4 : List Slot → Index
  node16 : ℕ → (ℕ → ℕ) → Index
  node48 : (ℕ → ℕ) → Index
  node256 : Index

pub data Node : Type 0 where
  null : Node
  leaf : Leaf → Node
  inner : PathComp → Index → (ℕ → Node) → Node

pub data Run {ℓ} (A : Type ℓ) : Type ℓ where
  ok : A → Run A
  fault : Run A

infixl 5 ◌>>=◌
abbrev pub ◌>>=◌ {ℓ κ} : {A : Type ℓ} {B : Type κ} → Run A → (A → Run B) → Run B
ok a >>= f = f a
fault >>= f = fault

unfoldable pub is_null : Node → Bool
is_null null = true
is_null (leaf l) = false
is_null (inner p ix c) = false

abbrev pub no_children : ℕ → Node
no_children i = null

pub data NodeType : Type 0 where
  type4 : NodeType
  type16 : NodeType
  type48 : NodeType
  type256 : NodeType

-- `alloc_node`
unfoldable pub alloc_node : NodeType → Index
alloc_node type4 = node4 (free ∷ free ∷ free ∷ free ∷ [])
alloc_node type16 = node16 0 (λ i. 0)
alloc_node type48 = node48 (λ i. 0)
alloc_node type256 = node256

-- The loop over the slots, which ends at the first one that is not in use.
unfoldable pub find_slot : List Slot → ℕ → Option ℕ
find_slot [] c = none
find_slot (free ∷ ss) c = none
find_slot (used key p ∷ ss) c = if key == c then some p else find_slot ss c

-- The rounds of `for (i = 0; i < 16; i++)` from `i` on, of which at most `n` are left.
unfoldable pub find_bitmap : (bitmap : ℕ) (keys : ℕ → ℕ) (c n i : ℕ) → Option ℕ
find_bitmap bitmap keys c zero i = none
find_bitmap bitmap keys c (suc n) i =
    let j = find_next_bit bitmap 16 i in
    let rest = find_bitmap bitmap keys c n (j + 1) in
    if ltb i 16 then if ltb j 16 && keys j == c then some j else rest else none

unfoldable pub find_child : Index → (ℕ → Node) → ℕ → Option ℕ
find_child (node4 slots) children c = find_slot slots c
find_child (node16 bitmap keys) children c = find_bitmap bitmap keys c 16 0
find_child (node48 keys) children c = if keys c == 0 then none else some (keys c - 1)
find_child node256 children c = if is_null (children c) then none else some c

-- `child ? *child : NULL`
unfoldable pub child_at : Index → (ℕ → Node) → ℕ → Node
child_at ix children c = elim (find_child ix children c) [ none ↦ null | some i ↦ children i ]

unfoldable pub add_child256 : (ℕ → Node) → ℕ → Node → Run (Index × (ℕ → Node))
add_child256 children c child = ok (node256, update children c child)

-- The loop that collects the places in use: how many keys there are, and the bitmap.
unfoldable pub scan_keys : (keys : ℕ → ℕ) (n i num bitmap : ℕ) → ℕ × ℕ
scan_keys keys zero i num bitmap = (num, bitmap)
scan_keys keys (suc n) i num bitmap =
    let more = scan_keys keys n (i + 1) (num + 1) (bitmap + 2 ^ (keys i - 1)) in
    let same = scan_keys keys n (i + 1) num bitmap in
    if keys i == 0
    then same
    else if num + 1 == 48
    then (num + 1, bitmap + 2 ^ (keys i - 1))
    else more

-- The loop that copies the children to a node of 256, until `num` are copied.
unfoldable pub copy_children :
    (keys : ℕ → ℕ) (children : ℕ → Node) (n i num : ℕ) → (ℕ → Node) → ℕ → Node
copy_children keys children zero i num to = to
copy_children keys children (suc n) i num to =
    let to' = update to i (children (keys i - 1)) in
    let more = copy_children keys children n (i + 1) (num - 1) to' in
    let same = copy_children keys children n (i + 1) num to in
    if keys i == 0 then same else if num - 1 == 0 then to' else more

unfoldable pub add_child48 : (ℕ → ℕ) → (ℕ → Node) → ℕ → Node → Run (Index × (ℕ → Node))
add_child48 keys children c child =
    let (num, bitmap) = scan_keys keys 256 0 0 0 in
    let pos = find_next_zero_bit bitmap 48 in
    if ltb num 48
    then ok (node48 (update keys c (pos + 1)), update children pos child)
    else add_child256 (copy_children keys children 256 0 num no_children) c child

-- `for (idx = 0; idx < 16; idx++) new_node->keys[n->keys[idx]] = idx + 1`
unfoldable pub keys_of_16 : (keys : ℕ → ℕ) (n idx : ℕ) → (ℕ → ℕ) → ℕ → ℕ
keys_of_16 keys zero idx to = to
keys_of_16 keys (suc n) idx to = keys_of_16 keys n (idx + 1) (update to (keys idx) (idx + 1))

unfoldable pub add_child16 : ℕ → (ℕ → ℕ) → (ℕ → Node) → ℕ → Node → Run (Index × (ℕ → Node))
add_child16 bitmap keys children c child =
    let empty_idx = find_next_zero_bit bitmap 16 in
    if not (bitmap == 2 ^ 16 - 1)
    then if empty_idx == 16
      then fault
      else ok (
        node16 (bitmap + 2 ^ empty_idx) (update keys empty_idx c),
        update children empty_idx child,
      )
    else ok (
      node48 (update (keys_of_16 keys 16 0 (λ i. 0)) c 17),
      update (λ i. if ltb i 16 then children i else null) 16 child,
    )

unfoldable pub take {ℓ} : {A : Type ℓ} → ℕ → List A → List A
take zero xs = []
take (suc n) [] = []
take (suc n) (x ∷ xs) = x ∷ take n xs

unfoldable pub drop {ℓ} : {A : Type ℓ} → ℕ → List A → List A
drop zero xs = xs
drop (suc n) [] = []
drop (suc n) (x ∷ xs) = drop n xs

unfoldable pub empty_slots : ℕ → List Slot
empty_slots zero = []
empty_slots (suc n) = free ∷ empty_slots n

-- Where the loop over the slots ends: how many are in use, before which one the key belongs, and the
-- places in use.
pub record SlotScan : Type 0 where
  pub idx : ℕ
  pub mid : Option ℕ
  pub p_idx : ℕ

unfoldable pub scan_slots : List Slot → ℕ → SlotScan → SlotScan
scan_slots [] c r = r
scan_slots (free ∷ ss) c r = r
scan_slots (used key p ∷ ss) c r = scan_slots ss c (record {
  idx = r.idx + 1;
  mid = elim r.mid [ none ↦ if ltb c key then some r.idx else none | some m ↦ some m ];
  p_idx = r.p_idx + 2 ^ p;
})

-- `temp_slot`: the slots with the new one at `mid`, and the rest marked as not in use.
unfoldable pub temp_slot : List Slot → (mid idx : ℕ) → Slot → List Slot
temp_slot slots mid idx new =
    take mid slots ++ (new ∷ (take (idx - mid) (drop mid slots) ++ empty_slots (3 - idx)))

unfoldable pub add_child4_noflush : List Slot → (ℕ → Node) → ℕ → Node → Run (Index × (ℕ → Node))
add_child4_noflush slots children c child =
    let r = scan_slots slots c (record { idx = 0; mid = none; p_idx = 0 }) in
    let mid : ℕ = elim r.mid [ none ↦ r.idx | some m ↦ m ] in
    let place = find_next_zero_bit r.p_idx 4 in
    if place == 4
    then fault
    else ok (node4 (temp_slot slots mid r.idx (used c place)), update children place child)

-- `slot[3].i_ptr == -1`
unfoldable pub last_free : List Slot → Bool
last_free (a ∷ b ∷ c ∷ free ∷ ss) = true
last_free (a ∷ b ∷ c ∷ used key p ∷ ss) = false
last_free ss = true

pub record Grown : Type 0 where
  pub bitmap : ℕ
  pub keys : ℕ → ℕ
  pub children : ℕ → Node

-- The loop that copies the four slots to a node of 16.
unfoldable pub copy_slots : List Slot → (ℕ → Node) → Grown → Run Grown
copy_slots [] children g = ok g
copy_slots (free ∷ ss) children g = fault
copy_slots (used key p ∷ ss) children g = copy_slots ss children (record {
  bitmap = g.bitmap + 2 ^ p;
  keys = update g.keys p key;
  children = update g.children p (children p);
})

unfoldable pub add_child4 : List Slot → (ℕ → Node) → ℕ → Node → Run (Index × (ℕ → Node))
add_child4 slots children c child =
    if last_free slots
    then add_child4_noflush slots children c child
    else copy_slots slots children (record { bitmap = 0; keys = λ i. 0; children = no_children })
      >>= λ g. ok (node16 (g.bitmap + 2 ^ 4) (update g.keys 4 c), update g.children 4 child)

unfoldable pub add_child : Index → (ℕ → Node) → ℕ → Node → Run (Index × (ℕ → Node))
add_child (node4 slots) children c child = add_child4 slots children c child
add_child (node16 bitmap keys) children c child = add_child16 bitmap keys children c child
add_child (node48 keys) children c child = add_child48 keys children c child
add_child node256 children c child = add_child256 children c child
