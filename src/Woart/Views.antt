-- ===== src/Woart/Views.antt =====
-- Reading a tree through its layouts is reading the tree without them.
use wrert.Prelude.{
  for_append, ℕ, zero, suc, ◌+◌, ◌<◌, ◌≡◌, refl, sym, ◌∙◌, ap, inl, inr, Bool, true, false, not,
  ◌&&◌, ◌-◌, ◌==◌, leb, min, if◌then◌else◌, Bool-cases, arith, first_diff, first_diff_bounds, none,
  some, List, Option-cases, first_index, first_index_least, first_index_congr,
}
use wrert.Woart.Layout.{IsIndex}
use wrert.Woart.Least.{least_child-first, first_child, is_some}
use wrert.Woart.Node.{
  Leaf, PathComp, Index, Node, null, leaf, inner, Run, ok, fault, is_null, find_child,
}
use wrert.Woart.Tree.{
  KeyValue, get_loop, check_prefix, leaf_matches, max_prefix_len, minimum, woart_all_subtree_kv,
  get_index,
}
use wrert.Woart.Wide.{Wide, void, view, is_void, get, same_digits, on_path, first_leaf, pairs}

first_diff-same_digits :
    (f g : ℕ → ℕ) (n i : ℕ) → (first_diff f g n i == i + n) ≡ same_digits f g n i
unfolding first_diff same_digits
first_diff-same_digits f g zero i = ground arith
first_diff-same_digits f g (suc n) i = elim (Bool-cases (f i == g i)) [
  | inl e ↦
      let shift : i + suc n ≡ i + 1 + n = omega arith in
      rw (e, shift) (first_diff-same_digits f g n (i + 1))
  | inr e ↦ rw e (ground arith)
]

first_diff-all : (f g : ℕ → ℕ) (n : ℕ) → (first_diff f g n 0 == n) ≡ same_digits f g n 0
first_diff-all f g n =
    let start : 0 + n ≡ n = omega arith in rw start at (first_diff-same_digits f g n 0)

first_diff-short : (f g : ℕ → ℕ) (n m : ℕ) → n < m → (first_diff f g n 0 == m) ≡ false
first_diff-short f g n m lt = ground (arith, first_diff_bounds f g n 0)

first_diff-room :
    (f g : ℕ → ℕ) (len room : ℕ)
    → (first_diff f g (min (min len 6) room) 0 == min 6 len)
      ≡ (leb (min 6 len) room && same_digits f g (min 6 len) 0)
first_diff-room f g len room = elim (Bool-cases (leb (min 6 len) room)) [
  | inl e ↦
      let all : min (min len 6) room ≡ min 6 len = ground (arith, e) in
      rw (all, e) (first_diff-all f g (min 6 len))
  | inr e ↦
      let part : min (min len 6) room < min 6 len = ground (arith, e) in
      rw e (first_diff-short f g (min (min len 6) room) (min 6 len) part)
]

-- The test of the code, which ends with the key.
check_prefix-on_path :
    (p : PathComp) (key depth : ℕ)
    → (check_prefix p key depth == min max_prefix_len p.pwoartial_len) ≡ on_path p key depth
unfolding check_prefix on_path
check_prefix-on_path p key depth =
    first_diff-room p.pwoartial (λ i. get_index key (depth + i)) p.pwoartial_len (8 - depth)

on_path_empty :
    (p : PathComp) (key depth : ℕ) → (p.pwoartial_len == 0) ≡ true → on_path p key depth ≡ true
unfolding on_path same_digits
on_path_empty p key depth e =
    let none' : min 6 p.pwoartial_len ≡ 0 = ground (arith, e) in rw none' (ground arith)

path_test {ℓ} :
    {A : Type ℓ} (p : PathComp) (key depth : ℕ) (next stop : A)
    → (if p.pwoartial_len == 0
        then next
        else if check_prefix p key depth == min max_prefix_len p.pwoartial_len
        then next
        else stop)
      ≡ (if on_path p key depth then next else stop)
path_test p key depth next stop = elim (Bool-cases (p.pwoartial_len == 0)) [
  | inl e ↦ rw (e, on_path_empty p key depth e) refl
  | inr e ↦ rw (e, check_prefix-on_path p key depth) refl
]

leaf_matches-both :
    (l : Leaf) (key key_len : ℕ)
    → leaf_matches l key key_len ≡ (l.key == key && l.key_len == key_len)
unfolding leaf_matches
leaf_matches-both l key key_len = ground arith

-- A lookup goes by the children under their bytes alone.
pub get_loop-get :
    (n : Node) (key key_len depth : ℕ)
    → get_loop n key key_len depth ≡ get (view n) key key_len depth
unfolding get_loop view get
get_loop-get null key key_len depth = refl
get_loop-get (leaf l) key key_len depth = rw (leaf_matches-both l key key_len) refl
get_loop-get (inner p ix children) key key_len depth =
    elim (Option-cases (find_child ix children (get_index key (depth + p.pwoartial_len)))) [
      | inl none' ↦ rw none' (
          ap (λ r. if not (p.depth == depth) then fault else r)
            (path_test p key depth (ok none) (ok none)))
      | inr (i, some') ↦
          rw (some', get_loop-get (children i) key key_len (depth + p.pwoartial_len + 1))
            (ap (λ r. if not (p.depth == depth) then fault else r)
              (path_test p key depth
                (get (view (children i)) key key_len (depth + p.pwoartial_len + 1)) (ok none)))
    ]

for_append_congr :
    (f g : ℕ → List KeyValue) (n i : ℕ)
    → ((j : ℕ) → f j ≡ g j)
    → for_append f n i ≡ for_append g n i
unfolding for_append
for_append_congr f g zero i same = refl
for_append_congr f g (suc n) i same = rw (same i, for_append_congr f g n (i + 1) same) refl

-- So does the list of all pairs.
pub all_subtree-pairs : (n : Node) → woart_all_subtree_kv n ≡ pairs (view n)
unfolding woart_all_subtree_kv view pairs
all_subtree-pairs null = refl
all_subtree-pairs (leaf l) = refl
all_subtree-pairs (inner p ix children) = for_append_congr _ _ 256 0 (λ c.
    elim (Option-cases (find_child ix children c)) [
      | inl none' ↦ rw none' refl
      | inr (i, some') ↦ rw (some', all_subtree-pairs (children i)) refl
    ])

-- The digits of a path are bytes.
abbrev pub IsPath : PathComp → Type 0
IsPath p = (i : ℕ) → p.pwoartial i < 256

-- Every node of a tree is well formed, and leads to no null pointer.
unfoldable pub Laid : Node → Type 0
Laid null = Unit
Laid (leaf l) = Unit
Laid (inner p ix children) =
    IsPath p
    × IsIndex ix
    × ((c i : ℕ)
        → find_child ix children c ≡ some i
        → (is_null (children i) ≡ false) × Laid (children i))

is_void-view : (n : Node) → is_void (view n) ≡ is_null n
unfolding is_void view is_null
is_void-view null = refl
is_void-view (leaf l) = refl
is_void-view (inner p ix children) = refl

-- A child of a well-formed node is no null pointer.
abbrev NoNulls : Index → (ℕ → Node) → Type 0
NoNulls ix children = (c i : ℕ) → find_child ix children c ≡ some i → is_null (children i) ≡ false

abbrev pub views : Index → (ℕ → Node) → ℕ → Wide
views ix children c = elim (find_child ix children c) [ none ↦ void | some i ↦ view (children i) ]

is_void-views :
    (ix : Index) (children : ℕ → Node) (c : ℕ)
    → NoNulls ix children
    → not (is_void (views ix children c)) ≡ is_some (find_child ix children c)
is_void-views ix children c full = elim (Option-cases (find_child ix children c)) [
  | inl none' ↦ rw (none', views) (unfold is_void in refl)
  | inr (i, some') ↦ rw (some', views) (rw (is_void-view (children i), full c i some') refl)
]

leaf_below :
    (ix : Index) (children : ℕ → Node)
    → ((c i : ℕ)
        → find_child ix children c ≡ some i
        → minimum (children i) ≡ first_leaf (view (children i)))
    → elim (first_child ix children) as (λ x. Run Leaf) [
      | none ↦ fault
      | some i ↦ minimum (children i)
    ]
      ≡ elim (first_index (λ c. is_some (find_child ix children c)) 256 0) as (λ x. Run Leaf) [
        | none ↦ fault
        | some c ↦ first_leaf (views ix children c)
      ]
leaf_below ix children below = elim (Option-cases (first_index test 256 0)) [
  | inl none' ↦ rw (none', first_child) refl
  | inr (c, here) ↦ elim (Option-cases (find_child ix children c)) [
    | inl off ↦ absurd (cc (rw off at (first_index_least test 256 0 c here).0))
    | inr (i, some') ↦ rw (here, first_child) (rw (some', views) (below c i some'))
  ]
]
  where
    test : ℕ → Bool
    test c = is_some (find_child ix children c)

-- The least leaf is the one under the first byte that leads to a child.
pub minimum-first_leaf : (n : Node) → Laid n → minimum n ≡ first_leaf (view n)
unfolding minimum view first_leaf Laid
minimum-first_leaf null laid = refl
minimum-first_leaf (leaf l) laid = refl
minimum-first_leaf (inner p ix children) (path, is, below) =
    ap (λ o. elim o as (λ x. Run Leaf) [ none ↦ fault | some i ↦ minimum (children i) ])
      (least_child-first ix children is)
    ∙ leaf_below ix children (λ c i h. minimum-first_leaf (children i) (below c i h).1)
    ∙ ap
        (λ o. elim o as (λ x. Run Leaf) [
          | none ↦ fault
          | some c ↦ first_leaf (views ix children c)
        ])
        (sym (
          first_index_congr (λ c. not (is_void (views ix children c)))
            (λ c. is_some (find_child ix children c)) 256 0
            (λ j lo hi. is_void-views ix children j (λ c i h. (below c i h).0))))
