-- ===== src/Woart/Slots.antt =====
-- The slots of a node of four children: they stay in the order of their keys, and a new key takes a place
-- that is free.
use wrert.Prelude.{
  ℕ, zero, suc, ◌+◌, ◌<◌, ◌≡◌, ◌≢◌, refl, sym, ◌∙◌, ap, inl, inr, true, false, none, some, List, [],
  ◌∷◌, arith, ltb, ◌==◌, if◌then◌else◌, Bool-cases, ==→eq, ==→ne, eq→==, ne→==, length,
}
use mathlib.Core.Option.{some-injective}
use wrert.Woart.Node.{Slot, free, used, find_slot, empty_slots}

unfoldable pub AllFree : List Slot → Type 0
AllFree [] = Unit
AllFree (free ∷ ss) = AllFree ss
AllFree (used k p ∷ ss) = k < 0

-- The slots in use come first, with growing keys and places of their own.
unfoldable pub IsSlots : List Slot → Type 0
unfolding find_slot AllFree
IsSlots [] = Unit
IsSlots (free ∷ ss) = AllFree ss
IsSlots (used k p ∷ ss) =
    (p < 4) × ((k' q : ℕ) → find_slot ss k' ≡ some q → (k < k') × (p ≢ q)) × IsSlots ss

unfoldable pub in_use : List Slot → ℕ
in_use [] = 0
in_use (free ∷ ss) = 0
in_use (used k p ∷ ss) = suc (in_use ss)

-- The slots in use, and `n` free ones.
unfoldable pub kept : List Slot → ℕ → List Slot
kept [] n = empty_slots n
kept (free ∷ ss) n = empty_slots n
kept (used k p ∷ ss) n = used k p ∷ kept ss n

unfoldable pub insert_slot : List Slot → (c p n : ℕ) → List Slot
unfolding kept
insert_slot [] c p n = used c p ∷ empty_slots n
insert_slot (free ∷ ss) c p n = used c p ∷ empty_slots n
insert_slot (used k q ∷ ss) c p n =
    let rest = insert_slot ss c p n in
    if ltb c k then used c p ∷ used k q ∷ kept ss n else used k q ∷ rest

find_slot-empty : (n k : ℕ) → find_slot (empty_slots n) k ≡ none
unfolding find_slot empty_slots
find_slot-empty zero k = refl
find_slot-empty (suc n) k = refl

pub find_slot-head : (ss : List Slot) (k p : ℕ) → find_slot (used k p ∷ ss) k ≡ some p
unfolding find_slot
find_slot-head ss k p = rw (eq→== k k refl) refl

pub find_slot-tail :
    (ss : List Slot) (k p k' : ℕ) → k ≢ k' → find_slot (used k p ∷ ss) k' ≡ find_slot ss k'
unfolding find_slot
find_slot-tail ss k p k' ne = rw (ne→== k k' ne) refl

-- The keys behind the first slot are others.
pub find_slot-behind :
    (ss : List Slot) (k p k' q : ℕ)
    → IsSlots (used k p ∷ ss)
    → find_slot ss k' ≡ some q
    → find_slot (used k p ∷ ss) k' ≡ some q
unfolding IsSlots
find_slot-behind ss k p k' q (small, later, is) h =
    find_slot-tail ss k p k' (omega (arith, (later k' q h).0)) ∙ h

find_slot-kept : (ss : List Slot) (n k : ℕ) → find_slot (kept ss n) k ≡ find_slot ss k
unfolding find_slot kept
find_slot-kept [] n k = find_slot-empty n k
find_slot-kept (free ∷ ss) n k = find_slot-empty n k
find_slot-kept (used k' p ∷ ss) n k = rw (find_slot-kept ss n k) refl

-- A search after the insertion of a key that was absent.
pub find_slot-insert_slot :
    (ss : List Slot) (c p n k : ℕ)
    → find_slot ss c ≡ none
    → find_slot (insert_slot ss c p n) k ≡ (if c == k then some p else find_slot ss k)
unfolding find_slot insert_slot
find_slot-insert_slot [] c p n k off = rw (find_slot-empty n k) refl
find_slot-insert_slot (free ∷ ss) c p n k off = rw (find_slot-empty n k) refl
find_slot-insert_slot (used k' q ∷ ss) c p n k off = elim (Bool-cases (k' == c)) [
  | inl same ↦ absurd (cc (rw same at off))
  | inr apart ↦
      let off' : find_slot ss c ≡ none = rw apart at off in
      elim (Bool-cases (ltb c k')) [
        | inl here ↦ rw (here, find_slot-kept ss n k) refl
        | inr on ↦
            rw (on, find_slot-insert_slot ss c p n k off')
              (elim (Bool-cases (c == k)) [
                | inr other ↦ rw other refl
                | inl this ↦ rw this (ground (arith, ==→eq c k this, ==→ne k' c apart))
              ])
      ]
]

length-empty_slots : (n : ℕ) → length (empty_slots n) ≡ n
unfolding length empty_slots
length-empty_slots zero = refl
length-empty_slots (suc n) = ap suc (length-empty_slots n)

length-kept : (ss : List Slot) (n : ℕ) → length (kept ss n) ≡ in_use ss + n
unfolding length kept in_use
length-kept [] n = omega (arith, length-empty_slots n)
length-kept (free ∷ ss) n = omega (arith, length-empty_slots n)
length-kept (used k p ∷ ss) n = omega (arith, length-kept ss n)

pub length-insert_slot :
    (ss : List Slot) (c p n : ℕ) → length (insert_slot ss c p n) ≡ in_use ss + 1 + n
unfolding length insert_slot in_use
length-insert_slot [] c p n = omega (arith, length-empty_slots n)
length-insert_slot (free ∷ ss) c p n = omega (arith, length-empty_slots n)
length-insert_slot (used k q ∷ ss) c p n = elim (Bool-cases (ltb c k)) [
  | inl here ↦ rw here (omega (arith, length-kept ss n))
  | inr on ↦ rw on (omega (arith, length-insert_slot ss c p n))
]

in_use-empty : (n : ℕ) → in_use (empty_slots n) ≡ 0
unfolding in_use empty_slots
in_use-empty zero = refl
in_use-empty (suc n) = refl

in_use-kept : (ss : List Slot) (n : ℕ) → in_use (kept ss n) ≡ in_use ss
unfolding kept in_use
in_use-kept [] n = in_use-empty n
in_use-kept (free ∷ ss) n = in_use-empty n
in_use-kept (used k p ∷ ss) n = ap suc (in_use-kept ss n)

pub in_use-insert_slot :
    (ss : List Slot) (c p n : ℕ) → in_use (insert_slot ss c p n) ≡ suc (in_use ss)
unfolding insert_slot in_use
in_use-insert_slot [] c p n = ap suc (in_use-empty n)
in_use-insert_slot (free ∷ ss) c p n = ap suc (in_use-empty n)
in_use-insert_slot (used k q ∷ ss) c p n = elim (Bool-cases (ltb c k)) [
  | inl here ↦ rw here (ap (λ x. suc (suc x)) (in_use-kept ss n))
  | inr on ↦ rw on (ap suc (in_use-insert_slot ss c p n))
]

AllFree-empty : (n : ℕ) → AllFree (empty_slots n)
unfolding AllFree empty_slots
AllFree-empty zero = tt
AllFree-empty (suc n) = AllFree-empty n

IsSlots-empty : (n : ℕ) → IsSlots (empty_slots n)
unfolding IsSlots empty_slots
IsSlots-empty zero = tt
IsSlots-empty (suc n) = AllFree-empty n

IsSlots-kept : (ss : List Slot) (n : ℕ) → IsSlots ss → IsSlots (kept ss n)
unfolding IsSlots kept
IsSlots-kept [] n is = IsSlots-empty n
IsSlots-kept (free ∷ ss) n is = IsSlots-empty n
IsSlots-kept (used k p ∷ ss) n (small, later, is) =
    (small, λ k' q h. later k' q (sym (find_slot-kept ss n k') ∙ h), IsSlots-kept ss n is)

-- The insertion keeps the order of the keys and the places apart.
pub insert_slot-IsSlots :
    (ss : List Slot) (c p n : ℕ)
    → IsSlots ss
    → find_slot ss c ≡ none
    → p < 4
    → ((k : ℕ) → find_slot ss k ≢ some p)
    → IsSlots (insert_slot ss c p n)
unfolding IsSlots insert_slot
insert_slot-IsSlots [] c p n is off lt fresh =
    (lt, λ k q h. absurd (cc (find_slot-empty n k, h)), IsSlots-empty n)
insert_slot-IsSlots (free ∷ ss) c p n is off lt fresh =
    (lt, λ k q h. absurd (cc (find_slot-empty n k, h)), IsSlots-empty n)
insert_slot-IsSlots (used k' q ∷ ss) c p n (small, later, is) off lt fresh =
    elim (Bool-cases (ltb c k')) [
      | inl here ↦ rw here (
        lt,
        λ k h'. first here k h',
        (small, λ k h' e. later k h' (sym (find_slot-kept ss n k) ∙ e), IsSlots-kept ss n is),
      )
      | inr on ↦ rw on (
        small,
        behind (ground (arith, ==→ne k' c apart, on)),
        insert_slot-IsSlots ss c p n is off' lt
            (λ k h. fresh k (find_slot-behind ss k' q k p (small, later, is) h)),
      )
    ]
  where
    apart : (k' == c) ≡ false
    apart = ne→== k' c (λ e. absurd (cc (off, find_slot-head ss k' q, e)))

    off' : find_slot ss c ≡ none
    off' = sym (find_slot-tail ss k' q c (==→ne k' c apart)) ∙ off

    first :
        ltb c k' ≡ true
        → (k h : ℕ) → find_slot (used k' q ∷ kept ss n) k ≡ some h
        → (c < k) × (p ≢ h)
    first here k h e =
        let e' : find_slot (used k' q ∷ ss) k ≡ some h =
          sym (find_slot-kept (used k' q ∷ ss) n k) ∙ unfold kept in e in
        (
          elim (Bool-cases (k' == k)) [
            | inl same ↦ ground (arith, ==→eq k' k same)
            | inr ne ↦
                let after = later k h (sym (find_slot-tail ss k' q k (==→ne k' k ne)) ∙ e') in
                ground (arith, after.0)
          ],
          λ same. fresh k (e' ∙ ap some (sym same)),
        )

    behind : k' < c → (k h : ℕ) → find_slot (insert_slot ss c p n) k ≡ some h → (k' < k) × (q ≢ h)
    behind above k h e =
        let e' : (if c == k then some p else find_slot ss k) ≡ some h =
          sym (find_slot-insert_slot ss c p n k off') ∙ e in
        elim (Bool-cases (c == k)) [
          | inr ne ↦ later k h (rw ne at e')
          | inl same ↦
              let at : p ≡ h = some-injective p h (rw same at e') in
              (
                omega (arith, ==→eq c k same),
                λ e''. fresh k' (find_slot-head ss k' q ∙ ap some (e'' ∙ sym at)),
              )
        ]
