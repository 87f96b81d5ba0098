-- ===== src/Wrert/Segment/Migrate.antt =====
-- One round of the migration loops of WRERTNode::put.
use wrert.Prelude.{
  ℕ, ◌+◌, ◌≤◌, ◌<◌, ◌≡◌, ◌≢◌, inl, inr, refl, ap, ◌∙◌, ◌==◌, arith, update, update_self, update_ne,
  Bool-cases, ==→eq, ==→ne,
}
use wrert.Wrert.Segment.{Segment, Migration, set_slot}
use wrert.Wrert.Slot.{Slot, main_version}
use wrert.Wrert.Words.{get_main_bucket_index, calc_bucket_position}
use wrert.Wrert.Words.Layout.{IsOffset, calc-injective}

set_slot-here : (seg : Segment) (p i : ℕ) (s : Slot) → set_slot seg p i s p i ≡ s
unfolding set_slot
set_slot-here seg p i s = rw (update_self seg p (update (seg p) i s), update_self (seg p) i s) refl

set_slot-beside : (seg : Segment) (p i j : ℕ) (s : Slot) → i ≢ j → set_slot seg p i s p j ≡ seg p j
unfolding set_slot
set_slot-beside seg p i j s ne =
    rw (update_self seg p (update (seg p) i s), update_ne (seg p) i j s ne) refl

set_slot-away : (seg : Segment) (p q i : ℕ) (s : Slot) → p ≢ q → set_slot seg p i s q ≡ seg q
unfolding set_slot
set_slot-away seg p q i s ne = update_ne seg p q (update (seg p) i s) ne

-- A slot under its new version.
abbrev pub moved : (version : ℕ) → Slot → Slot
moved version s = record s { mig_version = main_version version }

abbrev pub home_of : (version : ℕ) → Slot → ℕ
home_of version s = get_main_bucket_index s.sub_key version

pub home_of-lt : (version : ℕ) (s : Slot) → home_of version s < 32
unfolding get_main_bucket_index
home_of-lt version s = omega arith

module _ (o v : ℕ) (ok : IsOffset o) (base : Segment) (Source : Slot → Type 0) where
  -- The first slots of a main bucket are those that were migrated, the others are left.
  pub record Writes (m : Migration) : Type 0 where
    pub sound :
        (b i : ℕ)
        → b < 32
        → i < m.counter b
        → (s : Slot) × Source s
          × (home_of v s ≡ b)
          × (m.target (calc_bucket_position o b) i ≡ moved v s)
    pub rest :
        (b i : ℕ)
        → b < 32
        → m.counter b ≤ i
        → m.target (calc_bucket_position o b) i ≡ base (calc_bucket_position o b) i
    pub frame : (p : ℕ) → ((b : ℕ) → b < 32 → calc_bucket_position o b ≢ p) → m.target p ≡ base p

  -- One round at the bucket `h`, whose counter is `n`.
  module _ (h n : ℕ) (s : Slot) (m : Migration) (lt : h < 32) (at : m.counter h ≡ n) where
    abbrev pub written : Migration
    written = record {
      target = set_slot m.target (calc_bucket_position o h) n (moved v s);
      counter = update m.counter h (n + 1);
    }

    written-elsewhere :
        (b : ℕ)
        → b < 32
        → h ≢ b
        → written.target (calc_bucket_position o b) ≡ m.target (calc_bucket_position o b)
    written-elsewhere b bl ne =
        set_slot-away m.target _ _ n (moved v s) (λ e. ne (calc-injective o ok h b lt bl e))

    written-there :
        (b i : ℕ)
        → b < 32
        → h ≢ b
        → written.target (calc_bucket_position o b) i ≡ m.target (calc_bucket_position o b) i
    written-there b i bl ne = ap (λ f. f i) (written-elsewhere b bl ne)

    written-before :
        (i : ℕ)
        → n ≢ i
        → written.target (calc_bucket_position o h) i ≡ m.target (calc_bucket_position o h) i
    written-before i ne = set_slot-beside m.target _ n i (moved v s) ne

    pub written-at : written.target (calc_bucket_position o h) n ≡ moved v s
    written-at = set_slot-here m.target _ n (moved v s)

    module _ (src : Source s) (home : home_of v s ≡ h) (w : Writes m) where
      sound_home :
          (i : ℕ)
          → i < n + 1
          → (s : Slot) × Source s
            × (home_of v s ≡ h)
            × (written.target (calc_bucket_position o h) i ≡ moved v s)
      sound_home i il = elim (Bool-cases (n == i)) [
        | inl e ↦ (s, src, home, rw (← ==→eq n i e) written-at)
        | inr e ↦
            let (t, a, b, c) = w.sound h i lt (ground (arith, at, ==→ne n i e)) in
            (t, a, b, written-before i (==→ne n i e) ∙ c)
      ]

      pub written-Writes : Writes written
      written-Writes = record { sound = sound; rest = rest; frame = frame }
        where
          sound :
              (b i : ℕ)
              → b < 32
              → i < update m.counter h (n + 1) b
              → (s : Slot) × Source s
                × (home_of v s ≡ b)
                × (written.target (calc_bucket_position o b) i ≡ moved v s)
          sound b i bl il = elim (Bool-cases (h == b)) [
            | inl e ↦ let il' : i < n + 1 = ground arith in rw (← ==→eq h b e) (sound_home i il')
            | inr e ↦
                let (t, a, f, c) = w.sound b i bl (ground arith) in
                (t, a, f, written-there b i bl (==→ne h b e) ∙ c)
          ]

          rest :
              (b i : ℕ)
              → b < 32
              → update m.counter h (n + 1) b ≤ i
              → written.target (calc_bucket_position o b) i ≡ base (calc_bucket_position o b) i
          rest b i bl il = elim (Bool-cases (h == b)) [
            | inl e ↦
                let il' : n + 1 ≤ i = ground arith in
                rw (← ==→eq h b e)
                  (written-before i (λ q. absurd (omega arith)) ∙ w.rest h i lt (omega (arith, at)))
            | inr e ↦ written-there b i bl (==→ne h b e) ∙ w.rest b i bl (ground arith)
          ]

          frame :
              (p : ℕ)
              → ((b : ℕ) → b < 32 → calc_bucket_position o b ≢ p)
              → written.target p ≡ base p
          frame p out = set_slot-away m.target _ p n (moved v s) (out h lt) ∙ w.frame p out

    -- A slot that has been migrated.
    pub kept :
        (t : Slot) (i : ℕ)
        → i < m.counter (home_of v t)
        → m.target (calc_bucket_position o (home_of v t)) i ≡ moved v t
        → (i < written.counter (home_of v t))
          × (written.target (calc_bucket_position o (home_of v t)) i ≡ moved v t)
    kept t i il e = elim (Bool-cases (h == home_of v t)) [
      | inl q ↦
          let same : h ≡ home_of v t = ==→eq _ _ q in
          let il' : i < m.counter h = rw same il in
          (
            ground (arith, at),
            rw (← same) (written-before i (λ z. absurd (omega (arith, at))) ∙ rw same e),
          )
      | inr q ↦ (ground arith, written-there _ i (home_of-lt v t) (==→ne _ _ q) ∙ e)
    ]
