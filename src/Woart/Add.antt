-- ===== src/Woart/Add.antt =====
-- A new child of a node, whatever its layout.
use wrert.Prelude.{
  ℕ, ◌+◌, ◌-◌, ◌^◌, ◌<◌, ◌≡◌, ◌⊎◌, inl, inr, refl, sym, ◌∙◌, ap, none, update, Bool, true, false,
  ◌==◌, ltb, not, if◌then◌else◌,
}
use wrert.Woart.AddFour.{add_child4-Adds}
use wrert.Woart.AddMore.{add_child48-Adds}
use wrert.Woart.AddSixteen.{add_child16-Adds}
use wrert.Woart.Bitmap.{found_at}
use wrert.Woart.Layout.{IsIndex, Adds, Grows, add_child256-Adds}
use wrert.Woart.Node.{
  Node, Index, node4, node16, node48, node256, find_child, add_child, Run, ok, fault, ◌>>=◌, Grown,
  last_free, add_child4, add_child4_noflush, add_child16, add_child48, add_child256, scan_slots,
  scan_keys,
}
use wrert.Woart.Bits.{find_next_zero_bit}

-- Each layout.
pub add_child-Grows :
    (ix : Index) (children : ℕ → Node) (c : ℕ) (child : Node)
    → IsIndex ix
    → c < 256
    → find_child ix children c ≡ none
    → Grows ix children c child (add_child ix children c child)
unfolding add_child find_child IsIndex found_at
add_child-Grows (node4 slots) children c child is byte off =
    add_child4-Adds slots children c child is byte off
add_child-Grows (node16 bitmap keys) children c child is byte off =
    add_child16-Adds bitmap keys children c child is byte off
add_child-Grows (node48 keys) children c child is byte off =
    add_child48-Adds keys children c child is byte
add_child-Grows node256 children c child is byte off = add_child256-Adds children c child

-- The layouts in the order of their room.
unfoldable pub layout : Index → ℕ
layout (node4 slots) = 0
layout (node16 bitmap keys) = 1
layout (node48 keys) = 2
layout node256 = 3

-- A layout as it was, or the next larger one.
pub SameOrNext : Index → Index → Type 0
SameOrNext ix ix' = (layout ix' ≡ layout ix) ⊎ (layout ix' ≡ layout ix + 1)

layout_of : ℕ → Run (Index × (ℕ → Node)) → ℕ
layout_of other (ok r) = layout r.0
layout_of other fault = other

-- The layout of what a run answers, if it answers, is as it was, or the next one.
StaysOrGrows : ℕ → Run (Index × (ℕ → Node)) → Type 0
StaysOrGrows n run = (layout_of n run ≡ n) ⊎ (layout_of n run ≡ n + 1)

branch-StaysOrGrows :
    (n : ℕ) (test : Bool) (a b : Run (Index × (ℕ → Node)))
    → StaysOrGrows n a
    → StaysOrGrows n b
    → StaysOrGrows n (if test then a else b)
branch-StaysOrGrows n true a b ha hb = ha
branch-StaysOrGrows n false a b ha hb = hb

grown-StaysOrGrows :
    (run : Run Grown) (c : ℕ) (child : Node)
    → StaysOrGrows 0
        (run >>= λ g. ok (node16 (g.bitmap + 2 ^ 4) (update g.keys 4 c), update g.children 4 child))
unfolding StaysOrGrows layout_of layout
grown-StaysOrGrows fault c child = inl refl
grown-StaysOrGrows (ok g) c child = inr refl

add_child-StaysOrGrows :
    (ix : Index) (children : ℕ → Node) (c : ℕ) (child : Node)
    → StaysOrGrows (layout ix) (add_child ix children c child)
unfolding StaysOrGrows layout_of layout add_child add_child4 add_child4_noflush add_child16
    add_child48 add_child256
add_child-StaysOrGrows (node4 slots) children c child =
    branch-StaysOrGrows 0 (last_free slots) _ _
      (branch-StaysOrGrows 0
        (find_next_zero_bit (scan_slots slots c (record { idx = 0; mid = none; p_idx = 0 })).p_idx 4
          == 4)
        _ _ (inl refl) (inl refl))
      (grown-StaysOrGrows _ c child)
add_child-StaysOrGrows (node16 bitmap keys) children c child =
    branch-StaysOrGrows 1 (not (bitmap == 2 ^ 16 - 1)) _ _
      (branch-StaysOrGrows 1 (find_next_zero_bit bitmap 16 == 16) _ _ (inl refl) (inl refl))
      (inr refl)
add_child-StaysOrGrows (node48 keys) children c child =
    branch-StaysOrGrows 2 (ltb (scan_keys keys 256 0 0 0).0 48) _ _ (inl refl) (inr refl)
add_child-StaysOrGrows node256 children c child = inl refl

-- Under a byte that leads to no child, `add_child` stores the new child in a well-formed node, in the
-- same layout or in the next larger one: it does not abort, the node stays well formed, and afterwards
-- `find_child` leads to the new child under its byte, and under every other byte to the child that it led
-- to before.
pub add_child-Adds :
    (ix : Index) (children : ℕ → Node) (c : ℕ) (child : Node)
    → IsIndex ix
    → c < 256
    → find_child ix children c ≡ none
    → (r : Index × (ℕ → Node)) × (add_child ix children c child ≡ ok r)
      × Adds ix children c child r
      × SameOrNext ix r.0
unfolding SameOrNext StaysOrGrows layout_of layout
add_child-Adds ix children c child is byte off =
    let (r, run, adds) = add_child-Grows ix children c child is byte off in
    let at : layout_of (layout ix) (add_child ix children c child) ≡ layout r.0 =
      ap (layout_of (layout ix)) run in
    (
      r,
      run,
      adds,
      elim (add_child-StaysOrGrows ix children c child) [
        | inl e ↦ inl (sym at ∙ e)
        | inr e ↦ inr (sym at ∙ e)
      ],
    )
