-- ===== src/Wrert/Bucket/Insertion.antt =====
-- A pair that is written where the loop of an insertion ends, and the loop of a lookup after it.
use wrert.Prelude.{
  ℕ, zero, suc, ◌+◌, ◌^◌, ◌≤◌, ◌<◌, ◌≡◌, ◌≢◌, refl, sym, subst, ◌∙◌, inl, inr, Bool, true, false,
  Option, none, some, ltb, ◌==◌, arith, update, update_self, update_ne, Bool-cases, ==→eq, ==→ne,
}
use wrert.Wrert.Bucket.{Bucket, Place, Probe, hit, vacant, full, probe, scalar_probe, find}
use wrert.Wrert.Bucket.Find.{Tells, has, find-Tells}
use wrert.Wrert.Bucket.Scan.{Filled, probe-scalar}
use wrert.Wrert.Slot.{Slot, Fits, is_valid}

-- What the loop over single slots shows from the slot `i` on, where it ends at a slot to write to.
Free : (b : Bucket) (version subkey i n : ℕ) → Probe → Type 0
Free b version subkey i n (vacant x) =
    (i ≤ x)
    × (x < i + n)
    × (is_valid version (b x) ≡ false)
    × ((j : ℕ)
        → i ≤ j
        → j < x
        → (is_valid version (b j) ≡ true) × (has version subkey (b j) ≡ false))
Free b version subkey i n (hit x) = Unit
Free b version subkey i n full = Unit

Free-next :
    (b : Bucket) (version subkey i n : ℕ) (p : Probe)
    → is_valid version (b i) ≡ true
    → has version subkey (b i) ≡ false
    → Free b version subkey (i + 1) n p
    → Free b version subkey i (suc n) p
unfolding Free
Free-next b version subkey i n (hit x) v h f = tt
Free-next b version subkey i n full v h f = tt
Free-next b version subkey i n (vacant x) v h (lo, hi, stale, before) = (
  omega arith,
  omega arith,
  stale,
  λ j le lt. elim (Bool-cases (i == j)) [
    | inl e ↦ let same : i ≡ j = ==→eq i j e in (rw (← same) v, rw (← same) h)
    | inr e ↦ let other = ==→ne i j e in before j (omega arith) lt
  ],
)

scalar_probe-Free :
    (b : Bucket) (version subkey n i : ℕ)
    → Free b version subkey i n (scalar_probe b version subkey n i)
unfolding scalar_probe Free has
scalar_probe-Free b version subkey zero i = tt
scalar_probe-Free b version subkey (suc n) i = elim (Bool-cases (is_valid version (b i))) [
  | inr e ↦ rw e (omega arith, omega arith, e, λ j le lt. ground arith)
  | inl e ↦ elim (Bool-cases ((b i).sub_key == subkey)) [
    | inl k ↦ rw (e, k) tt
    | inr k ↦
        rw (e, k)
          (Free-next b version subkey i n (scalar_probe b version subkey n (i + 1)) e
            (rw (e, k, has) refl) (scalar_probe-Free b version subkey n (i + 1)))
  ]
]

-- A place that alone passes its test is the answer.
Tells-only :
    (shared main : ℕ → Bool) (x : ℕ) (o : Option Place)
    → x < 16
    → ((i : ℕ) → i < 16 → shared i ≡ false)
    → main x ≡ true
    → ((i : ℕ) → i < 16 → i ≢ x → main i ≡ false)
    → Tells shared main o
    → o ≡ some (false, x)
unfolding Tells
Tells-only shared main x none lt s m others t = let e = (t x lt).1 in ground arith
Tells-only shared main x (some (true, i)) lt s m others (b, t) = let e = s i b in ground arith
Tells-only shared main x (some (false, i)) lt s m others (b, t) = elim (Bool-cases (i == x)) [
  | inl e ↦ let same : i ≡ x = ==→eq i x e in rw same refl
  | inr e ↦ let other = others i b (==→ne i x e) in ground arith
]

-- The slots from a free one on are not valid, where the valid slots come first.
after_free :
    (b : Bucket) (version subkey m x j : ℕ)
    → Filled b version m
    → x ≤ j
    → j < 16
    → is_valid version (b x) ≡ false
    → has version subkey (b j) ≡ false
unfolding has
after_free b version subkey m x j f le lt stale =
    let at_x = f.prefix x (omega arith) in
    let at_j : is_valid version (b j) ≡ false = f.prefix j lt ∙ ground arith in rw at_j refl

probe-Free :
    (b : Bucket) (version subkey m x : ℕ)
    → version < 2 ^ 9
    → Filled b version m
    → probe b version subkey ≡ vacant x
    → Free b version subkey 0 16 (vacant x)
probe-Free b version subkey m x small filled ends =
    subst (Free b version subkey 0 16) (sym (probe-scalar b version subkey m small filled) ∙ ends)
      (scalar_probe-Free b version subkey 16 0)

update-Fits :
    (b : Bucket) (x : ℕ) (s : Slot)
    → ((i : ℕ) → i < 16 → Fits (b i))
    → Fits s
    → (i : ℕ) → i < 16
    → Fits (update b x s i)
update-Fits b x s fs fits i lt = elim (Bool-cases (x == i)) [
  | inl e ↦ rw e fits
  | inr e ↦ rw e (fs i lt)
]

-- The free slot stands directly after the valid ones.
probe-count :
    (b : Bucket) (version subkey m x : ℕ)
    → version < 2 ^ 9
    → Filled b version m
    → probe b version subkey ≡ vacant x
    → (x ≡ m) × (x < 16)
unfolding Free
probe-count b version subkey m x small filled ends =
    let free = probe-Free b version subkey m x small filled ends in
    let at_x : ltb x m ≡ false = sym (filled.prefix x free.1) ∙ free.2 in
    elim (Bool-cases (ltb m x)) [
      | inl e ↦
          let valid = (free.3 m (omega arith) (ground arith)).0 in
          let at_m : ltb m m ≡ true = sym (filled.prefix m (ground arith)) ∙ valid in ground arith
      | inr e ↦ (ground arith, free.1)
    ]

-- Where the valid slots of a bucket come first and the fields fit their bits, they do so again, with one
-- more, after a valid pair is written at the free slot that the loop of an insertion answers.
pub probe-Filled :
    (b : Bucket) (version subkey m x : ℕ) (s : Slot)
    → version < 2 ^ 9
    → Filled b version m
    → probe b version subkey ≡ vacant x
    → Fits s
    → is_valid version s ≡ true
    → Filled (update b x s) version (m + 1)
probe-Filled b version subkey m x s small filled ends fits valid =
    let at = probe-count b version subkey m x small filled ends in
    record {
      fits = update-Fits b x s filled.fits fits;
      count = omega arith;
      prefix = λ i lt. elim (Bool-cases (x == i)) [
        | inl e ↦ let same = ==→eq x i e in rw e (valid ∙ ground arith)
        | inr e ↦ let other = ==→ne x i e in rw e (filled.prefix i lt ∙ ground arith)
      ];
    }

-- Where the valid slots of the main bucket come first and the fields fit their bits, a pair that is
-- written at the free slot which the loop of an insertion answers is what the loop of `getSegNode`
-- then finds, if no slot of the shared bucket is valid with its subkey.
pub find-probe :
    (shared main : Bucket) (sv mv subkey m x : ℕ) (s : Slot)
    → sv < 2 ^ 9
    → mv < 2 ^ 9
    → subkey < 2 ^ 32
    → ((i : ℕ) → i < 16 → Fits (shared i))
    → ((i : ℕ) → i < 16 → has sv subkey (shared i) ≡ false)
    → Filled main mv m
    → probe main mv subkey ≡ vacant x
    → Fits s
    → has mv subkey s ≡ true
    → find shared (update main x s) sv mv subkey ≡ some (false, x)
unfolding Free
find-probe shared main sv mv subkey m x s sl ml kl fs none_shared filled ends fits new =
    let free = probe-Free main mv subkey m x ml filled ends in
    let written : Bucket = update main x s in
    let others : (i : ℕ) → i < 16 → i ≢ x → has mv subkey (written i) ≡ false = λ i lt ne.
      rw (update_ne main x i s (ground arith)) (elim (Bool-cases (ltb i x)) [
        | inl e ↦ (free.3 i (omega arith) (ground arith)).1
        | inr e ↦ after_free main mv subkey m x i filled (ground arith) lt free.2
      ]) in
    Tells-only (λ i. has sv subkey (shared i)) (λ i. has mv subkey (written i)) x
      (find shared written sv mv subkey) free.1 none_shared (rw (update_self main x s) new) others
      (find-Tells shared written sv mv subkey fs (update-Fits main x s filled.fits fits) sl ml kl)
