-- ===== src/Wrert/Bucket/Scan.antt =====
-- The vector loop of an insertion against the loop over single slots.
use wrert.Prelude.{
  ℕ, zero, suc, ◌+◌, ◌-◌, ◌*◌, ◌^◌, ◌≤◌, ◌<◌, ◌≡◌, refl, sym, ap, ◌∙◌, inl, inr, Bool, true, false,
  not, none, some, leb, ltb, ◌==◌, if◌then◌else◌, arith, min, first_index, first_index_least,
  first_index-none, first_index_congr, Bool-cases, Option-cases, ==→eq, ==→ne,
}
use wrert.Wrert.Bucket.{
  Bucket, Probe, hit, vacant, full, last_index, lanes, or_next, hit_lane, probe_lanes, probe,
  scalar_probe,
}
use wrert.Wrert.Slot.{
  Fits, word, is_valid, valid_version_bits, subkey_bits, valid_version_bits-word, subkey_bits-word,
}

last_index_congr :
    (f g : ℕ → Bool) (n : ℕ) → ((j : ℕ) → j < n → f j ≡ g j) → last_index f n ≡ last_index g n
unfolding last_index
last_index_congr f g zero same = refl
last_index_congr f g (suc n) same =
    rw (same n (omega arith), last_index_congr f g n (λ j lt. same j (omega arith))) refl

-- Masks whose lanes below `m` are set.
first_set : (m : ℕ) → 0 < m → first_index (λ l. ltb l m) 8 0 ≡ some 0
unfolding first_index
first_set m h = ground arith

none_set : first_index (λ l. ltb l 0) 8 0 ≡ none
unfolding first_index
none_set = refl

first_clear : (m : ℕ) → m < 8 → first_index (λ l. not (ltb l m)) 8 0 ≡ some m
unfolding first_index
first_clear m h = ground arith

none_clear : (m : ℕ) → 8 ≤ m → first_index (λ l. not (ltb l m)) 8 0 ≡ none
unfolding first_index
none_clear m h = ground arith

last_set : (m : ℕ) → 0 < m → m < 9 → last_index (λ l. ltb l m) 8 ≡ some (m - 1)
unfolding last_index
last_set m h k = ground arith

-- The loop over single slots, on the tests of the lanes.
scalar_lanes : (valid same : ℕ → Bool) (n i base : ℕ) → Probe → Probe
scalar_lanes valid same zero i base next = next
scalar_lanes valid same (suc n) i base next =
    if valid i
    then (if same i then hit (base + i) else scalar_lanes valid same n (i + 1) base next)
    else vacant (base + i)

module _ (valid same : ℕ → Bool) (m base : ℕ) (next : Probe) where
  scalar_hit :
      (n i x : ℕ)
      → ((l : ℕ) → l < i + n → valid l ≡ ltb l m)
      → i ≤ x
      → x < i + n
      → x < m
      → same x ≡ true
      → ((j : ℕ) → i ≤ j → j < x → same j ≡ false)
      → scalar_lanes valid same n i base next ≡ hit (base + x)
  unfolding scalar_lanes
  scalar_hit zero i x v lo hi lt e before = absurd (omega arith)
  scalar_hit (suc n) i x v lo hi lt e before =
      let ok : valid i ≡ true = v i (omega arith) ∙ ground arith in
      elim (Bool-cases (i == x)) [
        | inl here ↦ rw (ok, ==→eq i x here, e) refl
        | inr on ↦
            rw (ok, before i (omega arith) (ground (arith, ==→ne i x)))
              (scalar_hit n (i + 1) x (λ l b. v l (omega arith)) (ground (arith, ==→ne i x))
                (omega arith) lt e (λ j a b. before j (omega arith) b))
      ]

  scalar_vacant :
      (n i : ℕ)
      → ((l : ℕ) → l < i + n → valid l ≡ ltb l m)
      → i ≤ m
      → m < i + n
      → ((j : ℕ) → i ≤ j → j < m → same j ≡ false)
      → scalar_lanes valid same n i base next ≡ vacant (base + m)
  unfolding scalar_lanes
  scalar_vacant zero i v lo hi before = absurd (omega arith)
  scalar_vacant (suc n) i v lo hi before = elim (Bool-cases (i == m)) [
    | inl here ↦
        let bad : valid i ≡ false = v i (omega arith) ∙ ground arith in
        rw (bad, ==→eq i m here) refl
    | inr on ↦
        let ok : valid i ≡ true = v i (omega arith) ∙ ground arith in
        rw (ok, before i (omega arith) (ground (arith, ==→ne i m)))
          (scalar_vacant n (i + 1) (λ l b. v l (omega arith)) (ground (arith, ==→ne i m))
            (omega arith) (λ j a b. before j (omega arith) b))
  ]

  scalar_next :
      (n i : ℕ)
      → ((l : ℕ) → l < i + n → valid l ≡ ltb l m)
      → i + n ≤ m
      → ((j : ℕ) → i ≤ j → j < i + n → same j ≡ false)
      → scalar_lanes valid same n i base next ≡ next
  unfolding scalar_lanes
  scalar_next zero i v le before = refl
  scalar_next (suc n) i v le before =
      let ok : valid i ≡ true = v i (omega arith) ∙ ground arith in
      rw (ok, before i (omega arith) (omega arith))
        (scalar_next n (i + 1) (λ l b. v l (omega arith)) (omega arith)
          (λ j a b. before j (omega arith) (omega arith)))

  -- The slots that are not valid come last: the vector round and the eight single rounds agree
  -- once no slot before the first free one has the key.
  vacant_round :
      m < 9
      → ((l : ℕ) → l < 8 → valid l ≡ ltb l m)
      → ((j : ℕ) → j < m → j < 8 → same j ≡ false)
      → or_next (first_index (λ l. not (valid l)) lanes 0) base next
        ≡ scalar_lanes valid same 8 0 base next
  unfolding or_next
  vacant_round m9 v none_same =
      let clear : first_index (λ l. not (valid l)) 8 0 ≡ first_index (λ l. not (ltb l m)) 8 0 =
        first_index_congr _ _ 8 0 (λ j lo hi. ap not (v j (omega arith))) in
      elim (Bool-cases (ltb m 8)) [
        | inl lt ↦
            rw (clear, first_clear m (ground arith))
              (sym (
                scalar_vacant 8 0 (λ l b. v l (omega arith)) (omega arith) (ground arith)
                  (λ j a b. none_same j b (ground arith))))
        | inr ge ↦
            rw (clear, none_clear m (ground arith))
              (sym (
                scalar_next 8 0 (λ l b. v l (omega arith)) (ground arith)
                  (λ j a b. none_same j (ground arith) (omega arith))))
      ]

  probe_lanes-none :
      first_index valid 8 0 ≡ some 0
      → first_index same 8 0 ≡ none
      → probe_lanes valid same base next
        ≡ or_next (first_index (λ l. not (valid l)) lanes 0) base next
  unfolding probe_lanes
  probe_lanes-none e f = rw (e, probe_lanes) (rw (f, probe_lanes) refl)

  probe_lanes-some :
      (x : ℕ)
      → first_index valid 8 0 ≡ some 0
      → first_index same 8 0 ≡ some x
      → probe_lanes valid same base next ≡ hit_lane valid base x next
  unfolding probe_lanes
  probe_lanes-some x e f = rw (e, probe_lanes) (rw (f, probe_lanes) refl)

  empty_round :
      m ≡ 0
      → ((l : ℕ) → l < 8 → valid l ≡ ltb l m)
      → probe_lanes valid same base next ≡ scalar_lanes valid same 8 0 base next
  unfolding probe_lanes scalar_lanes
  empty_round e v =
      let clear : first_index valid 8 0 ≡ none =
        first_index_congr _ (λ l. ltb l 0) 8 0 (λ j lo hi. v j (omega arith) ∙ ground arith)
        ∙ none_set in
      let bad : valid 0 ≡ false = v 0 (omega arith) ∙ ground arith in
      rw (clear, probe_lanes) (rw bad (ap vacant (omega arith)))

  -- A round that finds the subkey in lane `x` first.
  hit_round :
      m < 9
      → ((l : ℕ) → l < 8 → valid l ≡ ltb l m)
      → 0 < m
      → (x : ℕ) → x < 8
      → same x ≡ true
      → ((j : ℕ) → j < x → same j ≡ false)
      → hit_lane valid base x next ≡ scalar_lanes valid same 8 0 base next
  unfolding hit_lane
  hit_round m9 v pos x x8 e before =
      let last : last_index valid 8 ≡ some (m - 1) =
        last_index_congr valid (λ l. ltb l m) 8 v ∙ last_set m pos m9 in
      elim (Bool-cases (leb x (m - 1))) [
        | inl in_range ↦
            rw (last, hit_lane)
              (rw in_range (
                sym (
                  scalar_hit 8 0 x (λ l b. v l (omega arith)) (omega arith) (omega arith)
                    (ground arith) e (λ j a b. before j b))))
        | inr stale ↦
            rw (last, hit_lane) (rw stale (vacant_round m9 v (λ j a b. before j (ground arith))))
      ]

  -- One vector round is eight rounds of the loop over single slots.
  round :
      m < 9
      → ((l : ℕ) → l < 8 → valid l ≡ ltb l m)
      → probe_lanes valid same base next ≡ scalar_lanes valid same 8 0 base next
  round m9 v =
      let first : first_index valid 8 0 ≡ first_index (λ l. ltb l m) 8 0 =
        first_index_congr _ _ 8 0 (λ j lo hi. v j (omega arith)) in
      elim (Bool-cases (m == 0)) [
        | inl zero' ↦ empty_round (==→eq m 0 zero') v
        | inr pos ↦ elim (Option-cases (first_index same 8 0)) [
          | inl none' ↦
              probe_lanes-none (first ∙ first_set m (ground (arith, ==→ne m 0))) none'
              ∙ vacant_round m9 v (λ j a b. first_index-none same 8 0 j none' (omega arith) b)
          | inr (x, e) ↦
              let (good, lo, hi, before) = first_index_least same 8 0 x e in
              probe_lanes-some x (first ∙ first_set m (ground (arith, ==→ne m 0))) e
              ∙ hit_round m9 v (ground (arith, ==→ne m 0)) x hi good
                  (λ j b. before j (omega arith) b)
        ]
      ]

-- The slots of a bucket that are valid for a version stand before all others.
pub record Filled (b : Bucket) (version m : ℕ) : Type 0 where
  pub fits : (i : ℕ) → i < 16 → Fits (b i)
  pub count : m < 17
  pub prefix : (i : ℕ) → i < 16 → is_valid version (b i) ≡ ltb i m

rounds : ℕ → ℕ → ℕ
rounds zero r = r
rounds (suc n) r = suc (rounds n r)

scalar_probe-lanes :
    (b : Bucket) (version subkey : ℕ) (valid same : ℕ → Bool) (n r i j base : ℕ)
    → ((l : ℕ) → l < i + n → valid l ≡ is_valid version (b (base + l)))
    → ((l : ℕ) → l < i + n → same l ≡ ((b (base + l)).sub_key == subkey))
    → j ≡ base + i
    → scalar_lanes valid same n i base (scalar_probe b version subkey r (base + (i + n)))
      ≡ scalar_probe b version subkey (rounds n r) j
unfolding scalar_lanes scalar_probe rounds
scalar_probe-lanes b version subkey valid same zero r i j base v s at =
    let at' : base + (i + 0) ≡ j = omega arith in rw at' refl
scalar_probe-lanes b version subkey valid same (suc n) r i j base v s at =
    let end : base + (i + suc n) ≡ base + ((i + 1) + n) = omega arith in
    let rest =
      scalar_probe-lanes b version subkey valid same n r (i + 1) (j + 1) base
        (λ l lt. v l (omega arith)) (λ l lt. s l (omega arith)) (omega arith) in
    rw (v i (omega arith), s i (omega arith), end, rest, ← at) refl

-- Where the valid slots of a bucket come first and its fields fit their bits, the vector loop of an
-- insertion finds the same slot as the loop over single slots that it replaces, for a version of nine
-- bits.
pub probe-scalar :
    (b : Bucket) (version subkey m : ℕ)
    → version < 2 ^ 9
    → Filled b version m
    → probe b version subkey ≡ scalar_probe b version subkey 16 0
unfolding probe rounds scalar_probe
probe-scalar b version subkey m small f =
    let valid : ℕ → ℕ → Bool =
      λ base l. valid_version_bits (word (b (base + l))) == 2 ^ 41 + version * 2 ^ 32 in
    let same : ℕ → ℕ → Bool = λ base l. subkey_bits (word (b (base + l))) == subkey in
    let v : (base : ℕ)
        → base < 9
        → (l : ℕ) → l < 8
        → valid base l ≡ is_valid version (b (base + l)) =
      λ base lt l b8.
        valid_version_bits-word (b (base + l)) version (f.fits _ (omega arith)) small in
    let s : (base : ℕ)
        → base < 9
        → (l : ℕ) → l < 8
        → same base l ≡ ((b (base + l)).sub_key == subkey) =
      λ base lt l b8.
        ap (λ x. x == subkey) (subkey_bits-word (b (base + l)) (f.fits _ (omega arith))) in
    round (valid 0) (same 0) (min m 8) 0 _ (omega arith)
      (λ l lt. v 0 (omega arith) l lt ∙ f.prefix _ (omega arith) ∙ ground arith)
    ∙ ap (λ next. scalar_lanes (valid 0) (same 0) 8 0 0 next)
        (round (valid 8) (same 8) (m - 8) 8 full (omega (arith, f.count))
            (λ l lt. v 8 (omega arith) l lt ∙ f.prefix _ (omega arith) ∙ ground arith)
          ∙ scalar_probe-lanes b version subkey (valid 8) (same 8) 8 0 0 8 8
              (λ l lt. v 8 (omega arith) l lt) (λ l lt. s 8 (omega arith) l lt) refl)
    ∙ scalar_probe-lanes b version subkey (valid 0) (same 0) 8 8 0 0 0
        (λ l lt. v 0 (omega arith) l lt) (λ l lt. s 0 (omega arith) l lt) refl
