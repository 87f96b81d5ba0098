-- ===== src/Woart/Layout.antt =====
-- Adding a child to a node in any of the four layouts, with the change to the next larger one where the
-- node is full.
use wrert.Prelude.{
  ℕ, ◌<◌, ◌≡◌, ◌≢◌, refl, sym, ◌∙◌, ap, inl, inr, Option, none, some, ◌==◌, if◌then◌else◌, update,
  update_ne, length, Bool-cases, Option-cases, ne→==,
}
use wrert.Woart.Bitmap.{IsBitmap}
use wrert.Woart.Keys.{IsKeys}
use wrert.Woart.Slots.{IsSlots}
use wrert.Woart.Node.{
  Node, null, leaf, inner, is_null, Index, node4, node16, node48, node256, Run, ok, find_slot,
  find_child, child_at, add_child256,
}

-- A layout that the operations keep.
unfoldable pub IsIndex : Index → Type 0
IsIndex (node4 slots) =
    (length slots ≡ 4) × IsSlots slots × ((k q : ℕ) → find_slot slots k ≡ some q → k < 256)
IsIndex (node16 bitmap keys) = IsBitmap bitmap keys
IsIndex (node48 keys) = IsKeys keys
IsIndex node256 = Unit

-- The node has one more child.
pub record Adds (ix : Index) (children : ℕ → Node) (c : ℕ) (child : Node) (r : Index × (ℕ → Node))
    : Type 0 where
  pub shape : IsIndex r.0
  pub found : (k : ℕ) → child_at r.0 r.1 k ≡ (if c == k then child else child_at ix children k)
  pub free : (k : ℕ) → c ≢ k → find_child ix children k ≡ none → find_child r.0 r.1 k ≡ none

-- A child in a place that no other key leads to.
pub placed :
    (ix ix' : Index) (children children' : ℕ → Node) (c place k : ℕ) (child : Node)
    → ((i : ℕ) → i ≢ place → find_child ix children k ≡ some i → children' i ≡ children i)
    → children' place ≡ child
    → find_child ix' children' k ≡ (if c == k then some place else find_child ix children k)
    → find_child ix children k ≢ some place
    → child_at ix' children' k ≡ (if c == k then child else child_at ix children k)
unfolding child_at
placed ix ix' children children' c place k child same new found fresh =
    rw (found, child_at)
      (elim (Bool-cases (c == k)) [
        | inl this ↦ rw this new
        | inr other ↦ rw other (elim (Option-cases (find_child ix children k)) [
          | inl none' ↦ rw (none', child_at) refl
          | inr (i, some') ↦ rw (some', child_at) (same i (λ e. fresh (some' ∙ ap some e)) some')
        ])
      ])

-- A byte that led nowhere still does.
pub still_free :
    (c place k : ℕ) (old new : Option ℕ)
    → new ≡ (if c == k then some place else old)
    → c ≢ k
    → old ≡ none
    → new ≡ none
still_free c place k old new found ne off = found ∙ rw (ne→== c k ne) off

pub find_child-null :
    (children : ℕ → Node) (k : ℕ) → children k ≡ null → find_child node256 children k ≡ none
unfolding find_child is_null
find_child-null children k off = rw off refl

pub child_at-free :
    (ix : Index) (children : ℕ → Node) (k : ℕ)
    → find_child ix children k ≡ none
    → child_at ix children k ≡ null
unfolding child_at
child_at-free ix children k off = rw (off, child_at) refl

-- In a node of 256 the child is the array's entry.
pub child_at-node256 : (children : ℕ → Node) (k : ℕ) → child_at node256 children k ≡ children k
unfolding child_at find_child is_null
child_at-node256 children k = go (children k) refl
  where
    go :
        (n : Node)
        → children k ≡ n
        → elim (if is_null n then none else some k) as (λ x. Node) [
          | none ↦ null
          | some i ↦ children i
        ]
          ≡ n
    go null e = refl
    go (leaf l) e = e
    go (inner p ix c) e = e

find_child-free :
    (children : ℕ → Node) (k : ℕ) → find_child node256 children k ≡ none → children k ≡ null
find_child-free children k off =
    sym (child_at-node256 children k) ∙ child_at-free node256 children k off

-- What each layout does with a new child.
abbrev pub Grows :
    (ix : Index) (children : ℕ → Node) (c : ℕ) (child : Node) → Run (Index × (ℕ → Node)) → Type 0
Grows ix children c child run = (r : Index × (ℕ → Node)) × (run ≡ ok r) × Adds ix children c child r

pub add_child256-Adds :
    (children : ℕ → Node) (c : ℕ) (child : Node)
    → Grows node256 children c child (add_child256 children c child)
unfolding add_child256 IsIndex
add_child256-Adds children c child = (
  (node256, update children c child),
  refl,
  record {
    shape = tt;
    found =
        λ k. rw (child_at-node256 (update children c child) k, child_at-node256 children k) refl;
    free = λ k ne off.
        find_child-null (update children c child) k
          (update_ne children c k child ne ∙ find_child-free children k off);
  },
)
