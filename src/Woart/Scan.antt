-- ===== src/Woart/Scan.antt =====
-- The loop of an insertion over the slots of a node of four children: it counts the slots in use, finds
-- the key's place in the order, and gathers the places in use.
use wrert.Prelude.{
  ℕ, suc, ◌+◌, ◌-◌, ◌^◌, ◌≤◌, ◌≡◌, ◌≢◌, refl, sym, ◌∙◌, ap, inl, inr, true, false, none, some, List,
  [], ◌∷◌, ◌++◌, arith, ltb, ◌==◌, if◌then◌else◌, Bool-cases, ==→ne, ne→==, length, update,
}
use mathlib.Core.Option.{some-injective}
use wrert.Woart.Bits.{bit, bit-add_power, bit-zero, find_next_zero_bit}
use wrert.Woart.Count.{count, count-zero, count-add_power, find_next_zero_bit-clear}
use wrert.Woart.Node.{
  Slot, free, used, Node, node4, ok, find_slot, take, drop, empty_slots, SlotScan, scan_slots,
  temp_slot, last_free, add_child4_noflush,
}
use wrert.Woart.Slots.{
  IsSlots, in_use, kept, insert_slot, find_slot-head, find_slot-tail, find_slot-behind,
  find_slot-insert_slot, length-insert_slot, in_use-insert_slot, insert_slot-IsSlots,
}

-- The place of a key in the order.
position : List Slot → ℕ → ℕ
position [] c = 0
position (free ∷ ss) c = 0
position (used k p ∷ ss) c = if ltb c k then 0 else suc (position ss c)

take-kept : (ss : List Slot) (n : ℕ) → take (in_use ss) ss ++ empty_slots n ≡ kept ss n
unfolding take in_use kept
take-kept [] n = refl
take-kept (free ∷ ss) n = refl
take-kept (used k p ∷ ss) n = ap (λ x. used k p ∷ x) (take-kept ss n)

take-insert_slot :
    (ss : List Slot) (c p n : ℕ)
    → take (position ss c) ss
        ++ (used c p
            ∷ (take (in_use ss - position ss c) (drop (position ss c) ss) ++ empty_slots n))
      ≡ insert_slot ss c p n
unfolding take drop in_use position insert_slot
take-insert_slot [] c p n = refl
take-insert_slot (free ∷ ss) c p n = refl
take-insert_slot (used k q ∷ ss) c p n = elim (Bool-cases (ltb c k)) [
  | inl here ↦
      let all : suc (in_use ss) - 0 ≡ suc (in_use ss) = omega arith in
      rw (here, all) (ap (λ x. used c p ∷ used k q ∷ x) (take-kept ss n))
  | inr on ↦
      let less : suc (in_use ss) - suc (position ss c) ≡ in_use ss - position ss c = omega arith in
      rw (on, less) (ap (λ x. used k q ∷ x) (take-insert_slot ss c p n))
]

-- What the loop over the slots finds.
abbrev scanned : SlotScan → (c k p : ℕ) → SlotScan
scanned r c k p = record {
  idx = r.idx + 1;
  mid = elim r.mid [ none ↦ if ltb c k then some r.idx else none | some m ↦ some m ];
  p_idx = r.p_idx + 2 ^ p;
}

scan_slots-idx :
    (ss : List Slot) (c : ℕ) (r : SlotScan) → (scan_slots ss c r).idx ≡ r.idx + in_use ss
unfolding scan_slots in_use
scan_slots-idx [] c r = omega arith
scan_slots-idx (free ∷ ss) c r = omega arith
scan_slots-idx (used k p ∷ ss) c r = omega (arith, scan_slots-idx ss c _)

scan_slots-mid_kept :
    (ss : List Slot) (c m : ℕ) (r : SlotScan) → r.mid ≡ some m → (scan_slots ss c r).mid ≡ some m
unfolding scan_slots
scan_slots-mid_kept [] c m r h = h
scan_slots-mid_kept (free ∷ ss) c m r h = h
scan_slots-mid_kept (used k p ∷ ss) c m r h = scan_slots-mid_kept ss c m _ (rw h refl)

scan_slots-mid :
    (ss : List Slot) (c : ℕ) (r : SlotScan)
    → r.mid ≡ none
    → elim (scan_slots ss c r).mid [ none ↦ (scan_slots ss c r).idx | some m ↦ m ]
      ≡ r.idx + position ss c
unfolding scan_slots position
scan_slots-mid [] c r h = rw h (omega arith)
scan_slots-mid (free ∷ ss) c r h = rw h (omega arith)
scan_slots-mid (used k p ∷ ss) c r h = elim (Bool-cases (ltb c k)) [
  | inl here ↦
      rw (here, scan_slots-mid_kept ss c r.idx (scanned r c k p) (rw (h, here) refl)) (omega arith)
  | inr on ↦ rw on (scan_slots-mid ss c (scanned r c k p) (rw (h, on) refl) ∙ omega arith)
]

-- The places in the bitmap `w` are those of slots that come before.
Apart : List Slot → ℕ → Type 0
Apart ss w = (k q : ℕ) → find_slot ss k ≡ some q → bit w q ≡ false

Apart-next :
    (ss : List Slot) (k p w : ℕ)
    → IsSlots (used k p ∷ ss)
    → Apart (used k p ∷ ss) w
    → Apart ss (w + 2 ^ p)
unfolding Apart IsSlots
Apart-next ss k p w (small, later, is) apart k' q h =
    bit-add_power p w q (apart k p (find_slot-head ss k p))
    ∙ rw (ne→== p q (later k' q h).1)
        (apart k' q (find_slot-behind ss k p k' q (small, later, is) h))

scan_slots-count :
    (ss : List Slot) (c : ℕ) (r : SlotScan)
    → IsSlots ss
    → Apart ss r.p_idx
    → count (bit (scan_slots ss c r).p_idx) 4 ≡ in_use ss + count (bit r.p_idx) 4
unfolding scan_slots in_use IsSlots Apart
scan_slots-count [] c r is apart = omega arith
scan_slots-count (free ∷ ss) c r is apart = omega arith
scan_slots-count (used k p ∷ ss) c r is apart =
    scan_slots-count ss c _ is.2 (Apart-next ss k p r.p_idx is apart)
    ∙ ap (λ x. in_use ss + x) (count-add_power r.p_idx p 4 (apart k p (find_slot-head ss k p)) is.0)
    ∙ omega arith

-- A place that the bitmap keeps clear is no slot's.
scan_slots-clear :
    (ss : List Slot) (c q : ℕ) (r : SlotScan)
    → IsSlots ss
    → Apart ss r.p_idx
    → bit (scan_slots ss c r).p_idx q ≡ false
    → (bit r.p_idx q ≡ false) × ((k : ℕ) → find_slot ss k ≢ some q)
unfolding scan_slots IsSlots
scan_slots-clear [] c q r is apart clear = (clear, unfold find_slot in λ k h. cc)
scan_slots-clear (free ∷ ss) c q r is apart clear = (clear, unfold find_slot in λ k h. cc)
scan_slots-clear (used k p ∷ ss) c q r is apart clear =
    let (old, other) = scan_slots-clear ss c q _ is.2 (Apart-next ss k p r.p_idx is apart) clear in
    let set = bit-add_power p r.p_idx q (unfold Apart in apart k p (find_slot-head ss k p)) in
    elim (Bool-cases (p == q)) [
      | inl here ↦ absurd (cc (rw here at set, old))
      | inr on ↦ (
        sym (set ∙ rw on refl) ∙ old,
        λ k' h. elim (Bool-cases (k == k')) [
          | inl same ↦
              let first : find_slot (used k p ∷ ss) k' ≡ some p =
                unfold find_slot in rw same refl in
              ==→ne p q on (some-injective p q (sym first ∙ h))
          | inr apart' ↦ other k' (sym (find_slot-tail ss k p k' (==→ne k k' apart')) ∙ h)
        ],
      )
    ]

pub in_use-free : (ss : List Slot) → length ss ≡ 4 → last_free ss ≡ true → in_use ss ≤ 3
unfolding length last_free in_use
in_use-free [] four h = omega arith
in_use-free (free ∷ ss) four h = omega arith
in_use-free (used k p ∷ []) four h = omega arith
in_use-free (used k p ∷ free ∷ ss) four h = omega arith
in_use-free (used k p ∷ used l q ∷ []) four h = omega arith
in_use-free (used k p ∷ used l q ∷ free ∷ ss) four h = omega arith
in_use-free (used k p ∷ used l q ∷ used m r ∷ []) four h = omega arith
in_use-free (used k p ∷ used l q ∷ used m r ∷ free ∷ ss) four h = omega arith
in_use-free (used k p ∷ used l q ∷ used m r ∷ used n s ∷ ss) four h = absurd (cc h)

-- What an insertion into free slots leaves.
pub record Inserted (slots : List Slot) (c : ℕ) (slots' : List Slot) (place : ℕ) : Type 0 where
  pub four : length slots' ≡ 4
  pub grown : in_use slots' ≡ suc (in_use slots)
  pub shape : IsSlots slots'
  pub found : (k : ℕ) → find_slot slots' k ≡ (if c == k then some place else find_slot slots k)
  pub fresh : (k : ℕ) → find_slot slots k ≢ some place

pub add_child4_noflush-Inserted :
    (slots : List Slot) (children : ℕ → Node) (c : ℕ) (child : Node)
    → length slots ≡ 4
    → IsSlots slots
    → in_use slots ≤ 3
    → find_slot slots c ≡ none
    → (slots' : List Slot) × (place : ℕ) × (add_child4_noflush slots children c child
        ≡ ok (node4 slots', update children place child))
      × Inserted slots c slots' place
unfolding add_child4_noflush temp_slot
add_child4_noflush-Inserted slots children c child four is few off =
    let start : SlotScan = record { idx = 0; mid = none; p_idx = 0 } in
    let r = scan_slots slots c start in
    let apart : Apart slots 0 = unfold Apart in λ k q h. bit-zero q in
    let total = scan_slots-count slots c start is apart in
    let (small, clear) =
      find_next_zero_bit-clear r.p_idx 4 (omega arith) (omega (arith, total, count-zero 4)) in
    let fresh = (scan_slots-clear slots c _ start is apart clear).1 in
    let place = find_next_zero_bit r.p_idx 4 in
    let in_range : (place == 4) ≡ false = ground arith in
    let idx : r.idx ≡ in_use slots = scan_slots-idx slots c start ∙ omega arith in
    let mid : elim r.mid as (λ x. ℕ) [ none ↦ r.idx | some m ↦ m ] ≡ position slots c =
      scan_slots-mid slots c start refl ∙ omega arith in
    (
      insert_slot slots c place (3 - in_use slots),
      place,
      rw (in_range, mid, idx)
          (ap (λ x. ok (node4 x, update children place child))
            (take-insert_slot slots c place (3 - in_use slots))),
      record {
        four = length-insert_slot slots c place (3 - in_use slots) ∙ omega arith;
        grown = in_use-insert_slot slots c place (3 - in_use slots);
        shape = insert_slot-IsSlots slots c place (3 - in_use slots) is off small fresh;
        found = λ k. find_slot-insert_slot slots c place (3 - in_use slots) k off;
        fresh = fresh;
      },
    )
