-- ===== src/Woart/AddFour.antt =====
-- A new child of a node of four.
use wrert.Prelude.{
  ℕ, suc, ◌+◌, ◌^◌, ◌≤◌, ◌<◌, ◌≡◌, ◌≢◌, refl, sym, ◌∙◌, inl, inr, false, none, some, List, [], ◌∷◌,
  arith, ◌==◌, if◌then◌else◌, update, update_ne, update_self, length, Bool-cases, ==→eq, ne→==,
}
use mathlib.Core.Option.{some-injective}
use wrert.Woart.Bitmap.{found_at, found_at-add, add-IsBitmap}
use wrert.Woart.Scan.{in_use-free, add_child4_noflush-Inserted}
use wrert.Woart.Slots.{IsSlots, AllFree, in_use}
use wrert.Woart.Grow.{AllUsed, copy_slots-Moved}
use wrert.Woart.Node.{
  Slot, free, used, Node, node4, node16, ok, find_slot, last_free, find_child, add_child4,
  add_child4_noflush,
}
use wrert.Woart.Layout.{still_free, IsIndex, Adds, Grows, placed}

find_slot-lt : (ss : List Slot) (k q : ℕ) → IsSlots ss → find_slot ss k ≡ some q → q < 4
unfolding find_slot IsSlots
find_slot-lt [] k q is h = absurd (cc h)
find_slot-lt (free ∷ ss) k q is h = absurd (cc h)
find_slot-lt (used k' p ∷ ss) k q (small, later, is) h = elim (Bool-cases (k' == k)) [
  | inl this ↦ omega (arith, small, some-injective p q (rw this at h))
  | inr other ↦ find_slot-lt ss k q is (rw other at h)
]

used_last : (b c : Slot) (n s : ℕ) (ss : List Slot) → ¬ AllFree (b ∷ c ∷ used n s ∷ ss)
unfolding AllFree
used_last free free n s ss is = absurd (omega (arith, is))
used_last free (used k p) n s ss is = absurd (omega (arith, is))
used_last (used k p) c n s ss is = absurd (omega (arith, is))

last_free-AllUsed :
    (ss : List Slot) → length ss ≡ 4 → IsSlots ss → last_free ss ≡ false → AllUsed ss
unfolding last_free length AllUsed IsSlots AllFree
last_free-AllUsed (used k p ∷ used l q ∷ used m r ∷ used n s ∷ []) four is h = tt
last_free-AllUsed [] four is h = absurd (omega (arith, four))
last_free-AllUsed (a ∷ []) four is h = absurd (omega (arith, four))
last_free-AllUsed (a ∷ b ∷ []) four is h = absurd (omega (arith, four))
last_free-AllUsed (a ∷ b ∷ c ∷ []) four is h = absurd (omega (arith, four))
last_free-AllUsed (a ∷ b ∷ c ∷ free ∷ ss) four is h = absurd (cc h)
last_free-AllUsed (free ∷ b ∷ c ∷ used n s ∷ ss) four is h = absurd (used_last b c n s ss is)
last_free-AllUsed (used k p ∷ free ∷ c ∷ used n s ∷ ss) four is h =
    absurd (used_last free c n s ss is.2)
last_free-AllUsed (used k p ∷ used l q ∷ free ∷ used n s ∷ ss) four is h =
    absurd (used_last free free n s ss is.2.2)
last_free-AllUsed (used k p ∷ used l q ∷ used m r ∷ used n s ∷ x ∷ ss) four is h =
    absurd (omega (arith, four))

new_byte :
    (slots slots' : List Slot) (c place k q : ℕ)
    → c < 256
    → ((k q : ℕ) → find_slot slots k ≡ some q → k < 256)
    → find_slot slots' k ≡ (if c == k then some place else find_slot slots k)
    → find_slot slots' k ≡ some q
    → k < 256
new_byte slots slots' c place k q byte bytes found h = elim (Bool-cases (c == k)) [
  | inl this ↦ omega (arith, ==→eq c k this)
  | inr other ↦ bytes k q (rw other at (sym found ∙ h))
]

pub room-Adds :
    (slots : List Slot) (children : ℕ → Node) (c : ℕ) (child : Node)
    → IsIndex (node4 slots)
    → in_use slots ≤ 3
    → c < 256
    → find_slot slots c ≡ none
    → (slots' : List Slot) × (children' : ℕ → Node) × (add_child4_noflush slots children c child
        ≡ ok (node4 slots', children'))
      × Adds (node4 slots) children c child (node4 slots', children')
      × (in_use slots' ≡ suc (in_use slots))
      × ((k : ℕ) → c ≢ k → find_slot slots' k ≡ find_slot slots k)
unfolding IsIndex find_child
room-Adds slots children c child (four, is, bytes) room byte off =
    let (slots', place, run, i) =
      add_child4_noflush-Inserted slots children c child four is room off in
    (
      slots',
      update children place child,
      run,
      record {
        shape =
            (i.four, i.shape, λ k q h. new_byte slots slots' c place k q byte bytes (i.found k) h);
        found = λ k.
            placed (node4 slots) (node4 slots') children (update children place child) c place k
              child (λ j ne h. update_ne children place j child (λ e. ne (sym e)))
              (update_self children place child) (i.found k) (i.fresh k);
        free = λ k ne none'.
            still_free c place k (find_slot slots k) (find_slot slots' k) (i.found k) ne none';
      },
      i.grown,
      λ k ne. i.found k ∙ rw (ne→== c k ne) refl,
    )

pub add_child4-Adds :
    (slots : List Slot) (children : ℕ → Node) (c : ℕ) (child : Node)
    → IsIndex (node4 slots)
    → c < 256
    → find_slot slots c ≡ none
    → Grows (node4 slots) children c child (add_child4 slots children c child)
unfolding add_child4 IsIndex find_child found_at
add_child4-Adds slots children c child (four, is, bytes) byte off =
    elim (Bool-cases (last_free slots)) [
      | inl room ↦
          let (slots', children', run, adds, more, rest) =
            room-Adds slots children c child (four, is, bytes) (in_use-free slots four room) byte
              off in
          ((node4 slots', children'), rw room run, adds)
      | inr full ↦
          let (g, run, m) =
            copy_slots-Moved slots children is (last_free-AllUsed slots four is full) bytes in
          let beyond : (k : ℕ) → find_slot slots k ≢ some 4 =
            λ k h. absurd (omega (arith, find_slot-lt slots k 4 is h)) in
          let absent : found_at g.bitmap g.keys c ≡ none = m.found c ∙ off in
          (
            (node16 (g.bitmap + 2 ^ 4) (update g.keys 4 c), update g.children 4 child),
            rw (full, run) refl,
            record {
              shape =
                  add-IsBitmap g.bitmap g.keys c 4 m.shape (omega arith) byte (m.clear 4 beyond)
                    absent;
              found = λ k.
                  placed (node4 slots) (node16 (g.bitmap + 2 ^ 4) (update g.keys 4 c)) children
                    (update g.children 4 child) c 4 k child
                    (λ j ne h. update_ne g.children 4 j child (λ e. ne (sym e)) ∙ m.moved k j h)
                    (update_self g.children 4 child)
                    (found_at-add g.bitmap g.keys c 4 k (omega arith) (m.clear 4 beyond) absent
                      ∙ rw (m.found k) refl)
                    (beyond k);
              free = λ k ne none'.
                  still_free c 4 k (found_at g.bitmap g.keys k)
                    (found_at (g.bitmap + 2 ^ 4) (update g.keys 4 c) k)
                    (found_at-add g.bitmap g.keys c 4 k (omega arith) (m.clear 4 beyond) absent) ne
                    (m.found k ∙ none');
            },
          )
    ]
