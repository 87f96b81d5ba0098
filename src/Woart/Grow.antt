-- ===== src/Woart/Grow.antt =====
-- The copies that turn a node of four children into one of sixteen, and one of sixteen into one of 48.
use wrert.Prelude.{
  ℕ, zero, suc, ◌+◌, ◌-◌, ◌^◌, ◌≤◌, ◌<◌, ◌≡◌, ◌≢◌, refl, sym, ◌∙◌, ap, inl, inr, false, Option,
  none, some, List, [], ◌∷◌, arith, ◌==◌, update, Bool-cases, Option-cases, ==→eq, eq→==, ne→==,
  first_index, first_index_empty, first_index-at, first_index_skip,
}
use mathlib.Core.Option.{some-injective}
use wrert.Woart.Bits.{bit, bit-add_power, bit-zero}
use wrert.Woart.Bitmap.{found_at, found_at-some, IsBitmap, found_at-add, add-IsBitmap}
use wrert.Woart.Node.{
  Slot, free, used, Node, ok, find_slot, Grown, no_children, copy_slots, keys_of_16,
}
use wrert.Woart.Slots.{IsSlots, find_slot-head, find_slot-behind}

unfoldable pub AllUsed : List Slot → Type 0
AllUsed [] = Unit
AllUsed (free ∷ ss) = 1 < 0
AllUsed (used k p ∷ ss) = AllUsed ss

-- The keys of the slots are absent from the node, and their places are free.
Absent : List Slot → Grown → Type 0
Absent ss g =
    (k q : ℕ)
    → find_slot ss k ≡ some q
    → (k < 256) × (bit g.bitmap q ≡ false) × (found_at g.bitmap g.keys k ≡ none)

pub record Copied (ss : List Slot) (children : ℕ → Node) (g g' : Grown) : Type 0 where
  pub shape : IsBitmap g'.bitmap g'.keys
  pub found :
      (k : ℕ)
      → found_at g'.bitmap g'.keys k
        ≡ elim (find_slot ss k) [ none ↦ found_at g.bitmap g.keys k | some p ↦ some p ]
  pub moved : (k q : ℕ) → find_slot ss k ≡ some q → g'.children q ≡ children q
  pub other :
      (q : ℕ)
      → ((k : ℕ) → find_slot ss k ≢ some q)
      → (bit g'.bitmap q ≡ bit g.bitmap q) × (g'.children q ≡ g.children q)

abbrev copied : Grown → (ℕ → Node) → (k p : ℕ) → Grown
copied g children k p = record {
  bitmap = g.bitmap + 2 ^ p;
  keys = update g.keys p k;
  children = update g.children p (children p);
}

Absent-next :
    (k p : ℕ) (ss : List Slot) (children : ℕ → Node) (g : Grown)
    → IsSlots (used k p ∷ ss)
    → Absent (used k p ∷ ss) g
    → Absent ss (copied g children k p)
unfolding Absent IsSlots
Absent-next k p ss children g is off k' q h =
    let (byte, clear, none') = off k p (find_slot-head ss k p) in
    let (byte', clear', none'') = off k' q (find_slot-behind ss k p k' q is h) in
    let (after, apart) = is.1 k' q h in
    (
      byte',
      bit-add_power p g.bitmap q clear ∙ rw (ne→== p q apart) clear',
      found_at-add g.bitmap g.keys k p k' (omega (arith, is.0)) clear none'
          ∙ rw (ne→== k k' (omega (arith, after))) none'',
    )

tail-IsSlots : (k p : ℕ) (ss : List Slot) → IsSlots (used k p ∷ ss) → IsSlots ss
unfolding IsSlots
tail-IsSlots k p ss is = is.2

copied-shape :
    (k p : ℕ) (ss : List Slot) (children : ℕ → Node) (g : Grown)
    → IsSlots (used k p ∷ ss)
    → Absent (used k p ∷ ss) g
    → IsBitmap g.bitmap g.keys
    → IsBitmap (copied g children k p).bitmap (copied g children k p).keys
unfolding Absent IsSlots
copied-shape k p ss children g is off shape =
    let (byte, clear, none') = off k p (find_slot-head ss k p) in
    add-IsBitmap g.bitmap g.keys k p shape (omega (arith, is.0)) byte clear none'

-- The copy of the first slot, and those of the others.
copied-Copied :
    (k p : ℕ) (ss : List Slot) (children : ℕ → Node) (g g' : Grown)
    → IsSlots (used k p ∷ ss)
    → Absent (used k p ∷ ss) g
    → Copied ss children (copied g children k p) g'
    → Copied (used k p ∷ ss) children g g'
unfolding Absent IsSlots find_slot
copied-Copied k p ss children g g' is off c =
    let (byte, clear, none') = off k p (find_slot-head ss k p) in
    let not_behind : (k' : ℕ) → find_slot ss k' ≢ some p = λ k' h. (is.1 k' p h).1 refl in
    let (kept_bit, kept_child) = c.other p not_behind in
    record {
      shape = c.shape;
      found = λ k'. c.found k' ∙ elim (Bool-cases (k == k')) [
        | inl this ↦
            let absent : find_slot ss k' ≡ none = elim (Option-cases (find_slot ss k')) [
              | inl none'' ↦ none''
              | inr (q, some') ↦ absurd (omega (arith, (is.1 k' q some').0, ==→eq k k' this))
            ] in
            rw
              (
                this,
                absent,
                found_at-add g.bitmap g.keys k p k' (omega (arith, is.0)) clear none',
                this,
              )
              refl
        | inr other ↦
            let at : found_at (g.bitmap + 2 ^ p) (update g.keys p k) k'
                ≡ found_at g.bitmap g.keys k' =
              found_at-add g.bitmap g.keys k p k' (omega (arith, is.0)) clear none'
              ∙ rw other refl in
            ap (λ x. elim (find_slot ss k') as (λ y. Option ℕ) [ none ↦ x | some q ↦ some q ]) at
            ∙ rw other refl
      ];
      moved = λ k' q h. elim (Bool-cases (k == k')) [
        | inl this ↦
            let at : p ≡ q = some-injective p q (rw this at h) in
            rw (← at) (kept_child ∙ rw (eq→== p p refl) refl)
        | inr other ↦ c.moved k' q (rw other at h)
      ];
      other = λ q h.
          let apart : p ≢ q = λ e. h k (find_slot-head ss k p ∙ ap some e) in
          let (b, ch) = c.other q (λ k' e. h k' (find_slot-behind ss k p k' q is e)) in
          (
            b ∙ bit-add_power p g.bitmap q clear ∙ rw (ne→== p q apart) refl,
            ch ∙ rw (ne→== p q apart) refl,
          );
    }

copy_slots-Copied_from :
    (ss : List Slot) (children : ℕ → Node) (g : Grown)
    → IsSlots ss
    → AllUsed ss
    → Absent ss g
    → IsBitmap g.bitmap g.keys
    → (g' : Grown) × (copy_slots ss children g ≡ ok g') × Copied ss children g g'
unfolding find_slot copy_slots AllUsed
copy_slots-Copied_from [] children g is all off shape = (
  g,
  refl,
  record {
    shape = shape;
    found = λ k. refl;
    moved = λ k q h. absurd (cc h);
    other = λ q h. (refl, refl);
  },
)
copy_slots-Copied_from (free ∷ ss) children g is all off shape = absurd (omega (arith, all))
copy_slots-Copied_from (used k p ∷ ss) children g is all off shape =
    let (g', run, c) =
      copy_slots-Copied_from ss children (copied g children k p) (tail-IsSlots k p ss is) all
        (Absent-next k p ss children g is off) (copied-shape k p ss children g is off shape) in
    (g', run, copied-Copied k p ss children g g' is off c)

or_none : (o : Option ℕ) → elim o as (λ x. Option ℕ) [ none ↦ none | some p ↦ some p ] ≡ o
or_none none = refl
or_none (some p) = refl

abbrev pub empty : Grown
empty = record { bitmap = 0; keys = λ i. 0; children = no_children }

found_at-zero : (keys : ℕ → ℕ) (k : ℕ) → found_at 0 keys k ≡ none
found_at-zero keys k = elim (Option-cases (found_at 0 keys k)) [
  | inl none' ↦ none'
  | inr (i, some') ↦ absurd (cc ((found_at-some 0 keys k i some').0, bit-zero i))
]

-- What the copy of four slots in use leaves: the same keys at the same places.
pub record Moved (ss : List Slot) (children : ℕ → Node) (g : Grown) : Type 0 where
  pub shape : IsBitmap g.bitmap g.keys
  pub found : (k : ℕ) → found_at g.bitmap g.keys k ≡ find_slot ss k
  pub moved : (k q : ℕ) → find_slot ss k ≡ some q → g.children q ≡ children q
  pub clear : (q : ℕ) → ((k : ℕ) → find_slot ss k ≢ some q) → bit g.bitmap q ≡ false

pub copy_slots-Moved :
    (ss : List Slot) (children : ℕ → Node)
    → IsSlots ss
    → AllUsed ss
    → ((k q : ℕ) → find_slot ss k ≡ some q → k < 256)
    → (g : Grown) × (copy_slots ss children empty ≡ ok g) × Moved ss children g
copy_slots-Moved ss children is all bytes =
    let off : Absent ss empty =
      unfold Absent in λ k q h. (bytes k q h, bit-zero q, found_at-zero (λ i. 0) k) in
    let shape : IsBitmap 0 (λ i. 0) =
      unfold IsBitmap in (omega arith, λ i lt set. absurd (cc (set, bit-zero i))) in
    let (g, run, c) = copy_slots-Copied_from ss children empty is all off shape in
    (
      g,
      run,
      record {
        shape = c.shape;
        found = λ k.
            c.found k
            ∙ ap (λ x. elim (find_slot ss k) as (λ y. Option ℕ) [ none ↦ x | some p ↦ some p ])
                (found_at-zero (λ i. 0) k)
            ∙ or_none (find_slot ss k);
        moved = c.moved;
        clear = λ q h. (c.other q h).0 ∙ bit-zero q;
      },
    )

eq_of_bounds : (i j : ℕ) → i ≤ j → j < i + 1 → i ≡ j
eq_of_bounds i j lo hi = omega arith

-- The keys of a node of sixteen, each with its place.
pub keys_of_16-first :
    (keys : ℕ → ℕ) (n i : ℕ) (to : ℕ → ℕ) (k : ℕ)
    → ((a b : ℕ) → i ≤ a → a < i + n → i ≤ b → b < i + n → keys a ≡ keys b → a ≡ b)
    → keys_of_16 keys n i to k
      ≡ elim (first_index (λ j. keys j == k) n i) [ none ↦ to k | some j ↦ j + 1 ]
unfolding keys_of_16
keys_of_16-first keys zero i to k own =
    rw (first_index_empty (λ j. keys j == k) 0 i (λ j lo hi. absurd (omega arith))) refl
keys_of_16-first keys (suc n) i to k own =
    let own' : (a b : ℕ)
        → i + 1 ≤ a
        → a < i + 1 + n
        → i + 1 ≤ b
        → b < i + 1 + n
        → keys a ≡ keys b
        → a ≡ b =
      λ a b la ha lb hb. own a b (omega arith) (omega arith) (omega arith) (omega arith) in
    let rest = keys_of_16-first keys n (i + 1) (update to (keys i) (i + 1)) k own' in
    elim (Bool-cases (keys i == k)) [
      | inl this ↦
          let none_left : first_index (λ j. keys j == k) n (i + 1) ≡ none =
            first_index_empty (λ j. keys j == k) n (i + 1)
              (λ j lo hi. ne→== (keys j) k (λ e. absurd (
                omega (
                  arith,
                  own i j (omega arith) (omega arith) (omega arith) (omega arith)
                      (==→eq (keys i) k this ∙ sym e),
                )))) in
          rw
            (
              rest,
              none_left,
              first_index-at (λ j. keys j == k) (suc n) i i (omega arith) (omega arith) this
                  (λ j lo hi. absurd (omega arith)),
              this,
            )
            refl
      | inr other ↦
          let left : i + suc n - (i + 1) ≡ n = omega arith in
          let skip =
            first_index_skip (λ j. keys j == k) (suc n) i (i + 1) (omega arith) (omega arith)
              (λ j lo hi. rw (← eq_of_bounds i j lo hi) other) in
          let at : update to (keys i) (i + 1) k ≡ to k = rw other refl in
          rest
          ∙ ap
              (λ x. elim (first_index (λ j. keys j == k) n (i + 1)) as (λ y. ℕ) [
                | none ↦ x
                | some j ↦ j + 1
              ])
              at
          ∙ ap (λ o. elim o as (λ y. ℕ) [ none ↦ to k | some j ↦ j + 1 ]) (sym (rw left at skip))
    ]
