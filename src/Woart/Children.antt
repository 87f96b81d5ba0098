-- ===== src/Woart/Children.antt =====
-- The children under their bytes after a child is replaced or added.
use wrert.Prelude.{
  ℕ, ◌-◌, ◌≡◌, refl, sym, ◌∙◌, ap, inl, inr, false, none, some, List, [], ◌∷◌, arith, ◌==◌,
  if◌then◌else◌, update, Bool-cases, Option-cases, ==→eq, ==→ne, eq→==, ne→==,
}
use mathlib.Core.Option.{some-injective}
use wrert.Woart.Bitmap.{found_at, found_at-some}
use wrert.Woart.Keys.{IsKeys}
use wrert.Woart.Layout.{IsIndex}
use wrert.Woart.Node.{
  Slot, free, used, PathComp, Index, node4, node16, node48, node256, Node, inner, is_null,
  find_slot, find_child,
}
use wrert.Woart.Slots.{IsSlots}
use wrert.Woart.Views.{Laid, views}
use wrert.Woart.Wide.{view}

slot-own :
    (ss : List Slot) (k c i : ℕ)
    → IsSlots ss
    → find_slot ss k ≡ some i
    → find_slot ss c ≡ some i
    → k ≡ c
unfolding IsSlots find_slot
slot-own [] k c i is h h' = absurd (cc h)
slot-own (free ∷ ss) k c i is h h' = absurd (cc h)
slot-own (used key p ∷ ss) k c i (small, later, is) h h' = elim (Bool-cases (key == k)) [
  | inl this ↦ elim (Bool-cases (key == c)) [
    | inl this' ↦ sym (==→eq key k this) ∙ ==→eq key c this'
    | inr other' ↦
        let at : p ≡ i = some-injective p i (rw this at h) in
        absurd ((later c i (rw other' at h')).1 at)
  ]
  | inr other ↦ elim (Bool-cases (key == c)) [
    | inl this' ↦
        let at : p ≡ i = some-injective p i (rw this' at h') in
        absurd ((later k i (rw other at h)).1 at)
    | inr other' ↦ slot-own ss k c i is (rw other at h) (rw other' at h')
  ]
]

key-own :
    (keys : ℕ → ℕ) (k c i : ℕ)
    → IsKeys keys
    → (if keys k == 0 then none else some (keys k - 1)) ≡ some i
    → (if keys c == 0 then none else some (keys c - 1)) ≡ some i
    → k ≡ c
key-own keys k c i is h h' = elim (Bool-cases (keys k == 0)) [
  | inl off ↦ absurd (cc (rw off at h))
  | inr on ↦ elim (Bool-cases (keys c == 0)) [
    | inl off' ↦ absurd (cc (rw off' at h'))
    | inr on' ↦
        let at : keys k - 1 ≡ i = some-injective (keys k - 1) i (rw on at h) in
        let at' : keys c - 1 ≡ i = some-injective (keys c - 1) i (rw on' at h') in
        is.own k c (==→ne (keys k) 0 on)
          (omega (arith, at, at', ==→ne (keys k) 0 on, ==→ne (keys c) 0 on'))
  ]
]

all-place : (children : ℕ → Node) (k i : ℕ) → find_child node256 children k ≡ some i → k ≡ i
unfolding find_child
all-place children k i h = elim (Bool-cases (is_null (children k))) [
  | inl off ↦ absurd (cc (rw off at h))
  | inr on ↦ some-injective k i (rw on at h)
]

-- Two bytes lead to different places.
find_child-own :
    (ix : Index) (children : ℕ → Node) (k c i : ℕ)
    → IsIndex ix
    → find_child ix children k ≡ some i
    → find_child ix children c ≡ some i
    → k ≡ c
unfolding IsIndex find_child found_at
find_child-own (node4 slots) children k c i is h h' = slot-own slots k c i is.1 h h'
find_child-own (node16 bitmap keys) children k c i is h h' =
    sym (found_at-some bitmap keys k i h).1 ∙ (found_at-some bitmap keys c i h').1
find_child-own (node48 keys) children k c i is h h' = key-own keys k c i is h h'
find_child-own node256 children k c i is h h' =
    all-place children k i h ∙ sym (all-place children c i h')

-- The way to the children does not change where a child is replaced.
find_child-update :
    (ix : Index) (children : ℕ → Node) (c i k : ℕ) (n : Node)
    → find_child ix children c ≡ some i
    → is_null (children i) ≡ false
    → is_null n ≡ false
    → find_child ix (update children i n) k ≡ find_child ix children k
unfolding find_child
find_child-update (node4 slots) children c i k n h old new = refl
find_child-update (node16 bitmap keys) children c i k n h old new = refl
find_child-update (node48 keys) children c i k n h old new = refl
find_child-update node256 children c i k n h old new = elim (Bool-cases (i == k)) [
  | inl here ↦
      let old' : is_null (children k) ≡ false = rw (==→eq i k here) at old in
      rw (here, new, old') refl
  | inr other ↦ rw other refl
]

module _ (ix : Index) (children : ℕ → Node) (c i : ℕ) (n : Node) (is : IsIndex ix)
    (here : find_child ix children c ≡ some i) (old : is_null (children i) ≡ false)
    (new : is_null n ≡ false) where
  pub views-update :
      (k : ℕ) → views ix (update children i n) k ≡ update (views ix children) c (view n) k
  views-update k =
      rw (find_child-update ix children c i k n here old new, views)
        (elim (Option-cases (find_child ix children k)) [
          | inl none' ↦
              let other : (c == k) ≡ false =
                ne→== c k (λ e. absurd (cc (here, none', ap (find_child ix children) e))) in
              rw (none', views, other) refl
          | inr (j, some') ↦ elim (Bool-cases (c == k)) [
            | inl this ↦
                let at : i ≡ j =
                  some-injective i j
                    (sym here ∙ ap (find_child ix children) (==→eq c k this) ∙ some') in
                rw (some', views, this, eq→== i j at) refl
            | inr other ↦
                let apart : (i == j) ≡ false = ne→== i j (λ e.
                  ==→ne c k other
                    (find_child-own ix children c k i is here (some' ∙ ap some (sym e)))) in
                rw (some', views, other, apart) refl
          ]
        ])

  pub Laid-update :
      (p : PathComp) → Laid (inner p ix children) → Laid n → Laid (inner p ix (update children i n))
  unfolding Laid
  Laid-update p (path, is', below) laid = (
    path,
    is',
    λ k j h.
        let h' : find_child ix children k ≡ some j =
          sym (find_child-update ix children c i k n here old new) ∙ h in
        elim (Bool-cases (i == j)) [
          | inl this ↦ rw this (new, laid)
          | inr other ↦ rw other (below k j h')
        ],
  )
