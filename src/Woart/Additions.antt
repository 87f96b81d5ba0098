-- ===== src/Woart/Additions.antt =====
-- The children under their bytes after a child is added.
use wrert.Prelude.{
  ℕ, ◌<◌, ◌≡◌, ◌≢◌, refl, sym, ◌∙◌, ap, inl, inr, false, none, some, List, [], ◌∷◌, arith, ◌==◌,
  if◌then◌else◌, update, length, Bool-cases, Option-cases, ==→ne, ne→==,
}
use mathlib.Core.Path.{fun_ext}
use wrert.Woart.AddFour.{room-Adds}
use wrert.Woart.Layout.{IsIndex, Adds}
use wrert.Woart.Node.{
  Slot, free, PathComp, Index, node4, Node, inner, ok, is_null, find_slot, find_child, child_at,
  no_children, alloc_node, add_child4_noflush,
}
use wrert.Woart.Slots.{AllFree, IsSlots, in_use}
use wrert.Woart.Tree.{node_of_two, add_noflush}
use wrert.Woart.Views.{IsPath, Laid, views}
use wrert.Woart.Wide.{void, wide, view, pair}

views-child_at :
    (ix : Index) (children : ℕ → Node) (k : ℕ) → views ix children k ≡ view (child_at ix children k)
unfolding child_at view
views-child_at ix children k = elim (Option-cases (find_child ix children k)) [
  | inl none' ↦ rw (none', views, child_at) refl
  | inr (i, some') ↦ rw (some', views, child_at) refl
]

child_at-some :
    (ix : Index) (children : ℕ → Node) (k i : ℕ)
    → find_child ix children k ≡ some i
    → child_at ix children k ≡ children i
unfolding child_at
child_at-some ix children k i h = rw (h, child_at) refl

module _ (ix : Index) (children : ℕ → Node) (c : ℕ) (child : Node) (r : Index × (ℕ → Node))
    (adds : Adds ix children c child r) where
  pub views-add : (k : ℕ) → views r.0 r.1 k ≡ update (views ix children) c (view child) k
  views-add k = views-child_at r.0 r.1 k ∙ ap view (adds.found k) ∙ elim (Bool-cases (c == k)) [
    | inl this ↦ rw this refl
    | inr other ↦ rw other (sym (views-child_at ix children k))
  ]

  pub Laid-add :
      (p : PathComp)
      → Laid (inner p ix children)
      → Laid child
      → is_null child ≡ false
      → Laid (inner p r.0 r.1)
  unfolding Laid
  Laid-add p (path, is, below) laid new = (
    path,
    adds.shape,
    λ k j h. elim (Bool-cases (c == k)) [
      | inl this ↦
          let at : r.1 j ≡ child =
            sym (child_at-some r.0 r.1 k j h) ∙ adds.found k ∙ rw this refl in
          rw at (new, laid)
      | inr other ↦ elim (Option-cases (find_child ix children k)) [
        | inl none' ↦ absurd (cc (h, adds.free k (==→ne c k other) none'))
        | inr (i, some') ↦
            let at : r.1 j ≡ children i =
              sym (child_at-some r.0 r.1 k j h)
              ∙ adds.found k
              ∙ rw other (child_at-some ix children k i some') in
            rw at (below k i some')
      ]
    ],
  )

abbrev pub four_free : List Slot
four_free = free ∷ free ∷ free ∷ free ∷ []

pub four_free-IsIndex : IsIndex (node4 four_free)
unfolding IsIndex IsSlots AllFree find_slot length
four_free-IsIndex = (refl, tt, λ k q h. absurd (cc h))

pub four_free-none : (k : ℕ) → find_slot four_free k ≡ none
unfolding find_slot
four_free-none k = refl

four_free-in_use : in_use four_free ≡ 0
unfolding in_use
four_free-in_use = refl

four_free-Laid : (path : PathComp) → IsPath path → Laid (inner path (node4 four_free) no_children)
unfolding Laid find_child
four_free-Laid path bytes = (bytes, four_free-IsIndex, λ c i h. absurd (cc (h, four_free-none c)))

four_free-views : (k : ℕ) → views (node4 four_free) no_children k ≡ void
unfolding find_child
four_free-views k = rw (four_free-none k, views) refl

both :
    (path : PathComp) (c c' : ℕ) (child child' : Node) (slots1 slots2 : List Slot)
    (children1 children2 : ℕ → Node)
    → add_child4_noflush four_free no_children c child ≡ ok (node4 slots1, children1)
    → add_child4_noflush slots1 children1 c' child' ≡ ok (node4 slots2, children2)
    → node_of_two path c child c' child' ≡ ok (inner path (node4 slots2) children2)
unfolding node_of_two add_noflush alloc_node
both path c c' child child' slots1 slots2 children1 children2 run1 run2 = rw run1 (rw run2 refl)

paired :
    (path : PathComp) (c c' : ℕ) (child child' : Node) (slots1 slots2 : List Slot)
    (children1 children2 : ℕ → Node)
    → c ≢ c'
    → Adds (node4 four_free) no_children c child (node4 slots1, children1)
    → Adds (node4 slots1) children1 c' child' (node4 slots2, children2)
    → pair path c (view child) c' (view child') ≡ ok (view (inner path (node4 slots2) children2))
unfolding pair view
paired path c c' child child' slots1 slots2 children1 children2 apart adds1 adds2 =
    rw (ne→== c c' apart) (ap (λ f. ok (wide path f)) (fun_ext (λ k. sym (same k))))
  where
    same :
        (k : ℕ)
        → views (node4 slots2) children2 k
          ≡ update (update (λ i. void) c (view child)) c' (view child') k
    same k =
        views-add (node4 slots1) children1 c' child' (node4 slots2, children2) adds2 k
        ∙ ap (λ x. if c' == k then view child' else x)
            (views-add (node4 four_free) no_children c child (node4 slots1, children1) adds1 k
              ∙ ap (λ x. if c == k then view child else x) (four_free-views k))

-- A new node of four with two children under different bytes.
pub node_of_two-pair :
    (path : PathComp) (c c' : ℕ) (child child' : Node)
    → c < 256
    → c' < 256
    → c ≢ c'
    → IsPath path
    → Laid child
    → Laid child'
    → is_null child ≡ false
    → is_null child' ≡ false
    → (n : Node) × (node_of_two path c child c' child' ≡ ok n)
      × (pair path c (view child) c' (view child') ≡ ok (view n))
      × Laid n
      × (is_null n ≡ false)
node_of_two-pair path c c' child child' byte byte' apart bytes laid laid' new new' =
    let (slots1, children1, run1, adds1, one, rest1) =
      room-Adds four_free no_children c child four_free-IsIndex (omega (arith, four_free-in_use))
        byte (four_free-none c) in
    let laid1 =
      Laid-add (node4 four_free) no_children c child (node4 slots1, children1) adds1 path
        (four_free-Laid path bytes) laid new in
    let (slots2, children2, run2, adds2, two, rest2) =
      room-Adds slots1 children1 c' child' adds1.shape (omega (arith, one, four_free-in_use)) byte'
        (rest1 c' apart ∙ four_free-none c') in
    (
      inner path (node4 slots2) children2,
      both path c c' child child' slots1 slots2 children1 children2 run1 run2,
      paired path c c' child child' slots1 slots2 children1 children2 apart adds1 adds2,
      Laid-add (node4 slots1) children1 c' child' (node4 slots2, children2) adds2 path laid1 laid'
          new',
      unfold is_null in refl,
    )
