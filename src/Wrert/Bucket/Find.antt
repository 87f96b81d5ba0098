-- ===== src/Wrert/Bucket/Find.antt =====
-- The vector loop of WRERTNode::getSegNode, against the slots of the two buckets.
use wrert.Prelude.{
  ℕ, ◌+◌, ◌*◌, ◌^◌, ◌≤◌, ◌<◌, ◌≡◌, sym, ◌∙◌, inl, inr, Bool, true, false, ◌&&◌, Option, none, some,
  ◌==◌, arith, first_index, first_index_least, first_index-none, Option-cases, Bool-cases, ltb, ◌-◌,
}
use wrert.Wrert.Bucket.{Bucket, Place, find_lanes, find}
use wrert.Wrert.Slot.{
  Slot, Fits, word, is_valid, valid_version_subkey_bits, valid_version_subkey_bits-word,
}

-- What an answer says of two tests on the sixteen slots.
unfoldable pub Tells : (shared main : ℕ → Bool) → Option Place → Type 0
Tells shared main none = (i : ℕ) → i < 16 → (shared i ≡ false) × (main i ≡ false)
Tells shared main (some (true, i)) = (i < 16) × (shared i ≡ true)
Tells shared main (some (false, i)) = (i < 16) × (main i ≡ true)

Tells-congr :
    (s m s' m' : ℕ → Bool)
    → ((i : ℕ) → i < 16 → s i ≡ s' i)
    → ((i : ℕ) → i < 16 → m i ≡ m' i)
    → (o : Option Place) → Tells s m o
    → Tells s' m' o
unfolding Tells
Tells-congr s m s' m' a b none t = λ i lt. (sym (a i lt) ∙ (t i lt).0, sym (b i lt) ∙ (t i lt).1)
Tells-congr s m s' m' a b (some (true, i)) (lt, e) = (lt, sym (a i lt) ∙ e)
Tells-congr s m s' m' a b (some (false, i)) (lt, e) = (lt, sym (b i lt) ∙ e)

-- One round, where the rounds after it answer for the case that it finds nothing.
find_lanes-Tells :
    (s m : ℕ → Bool) (base : ℕ) (next : Option Place)
    → base ≤ 8
    → (((l : ℕ) → l < 8 → (s (base + l) ≡ false) × (m (base + l) ≡ false)) → Tells s m next)
    → Tells s m (find_lanes (λ l. s (base + l)) (λ l. m (base + l)) base next)
unfolding find_lanes Tells
find_lanes-Tells s m base next le rest = elim (Option-cases (first_index (λ l. s (base + l)) 8 0)) [
  | inr (x, e) ↦
      let (good, lo, hi, before) = first_index_least (λ l. s (base + l)) 8 0 x e in
      rw (e, find_lanes) (omega arith, good)
  | inl e ↦ elim (Option-cases (first_index (λ l. m (base + l)) 8 0)) [
    | inr (x, f) ↦
        let (good, lo, hi, before) = first_index_least (λ l. m (base + l)) 8 0 x f in
        rw (e, find_lanes) (rw (f, find_lanes) (omega arith, good))
    | inl f ↦
        rw (e, find_lanes)
          (rw (f, find_lanes)
            (rest (λ l lt. (
              first_index-none (λ l. s (base + l)) 8 0 l e (omega arith) (omega arith),
              first_index-none (λ l. m (base + l)) 8 0 l f (omega arith) (omega arith),
            ))))
  ]
]

halves :
    (s m : ℕ → Bool)
    → ((l : ℕ) → l < 8 → (s (0 + l) ≡ false) × (m (0 + l) ≡ false))
    → ((l : ℕ) → l < 8 → (s (8 + l) ≡ false) × (m (8 + l) ≡ false))
    → (i : ℕ) → i < 16
    → (s i ≡ false) × (m i ≡ false)
halves s m low high i lt = elim (Bool-cases (ltb i 8)) [
  | inl a ↦ let e : 0 + i ≡ i = omega arith in rw e at (low i (ground arith))
  | inr a ↦ let e : 8 + (i - 8) ≡ i = ground arith in rw e at (high (i - 8) (ground arith))
]

-- The test of a slot's fields that the masked comparison stands for.
unfoldable pub has : (version subkey : ℕ) → Slot → Bool
has version subkey s = is_valid version s && s.sub_key == subkey

-- Where the fields of the slots fit their bits, for versions of nine bits and a subkey of 32 bits, the
-- loop of `getSegNode` answers a slot that is valid for its bucket's version and has the subkey, and
-- answers none only where neither bucket has such a slot.
pub find-Tells :
    (shared main : Bucket) (sv mv subkey : ℕ)
    → ((i : ℕ) → i < 16 → Fits (shared i))
    → ((i : ℕ) → i < 16 → Fits (main i))
    → sv < 2 ^ 9
    → mv < 2 ^ 9
    → subkey < 2 ^ 32
    → Tells
        (λ i. has sv subkey (shared i))
        (λ i. has mv subkey (main i))
        (find shared main sv mv subkey)
unfolding find Tells has
find-Tells shared main sv mv subkey fs fm sl ml kl =
    let s : ℕ → Bool =
      λ i. valid_version_subkey_bits (word (shared i)) == 2 ^ 41 + sv * 2 ^ 32 + subkey in
    let m : ℕ → Bool =
      λ i. valid_version_subkey_bits (word (main i)) == 2 ^ 41 + mv * 2 ^ 32 + subkey in
    Tells-congr s m (λ i. has sv subkey (shared i)) (λ i. has mv subkey (main i))
      (λ i lt. valid_version_subkey_bits-word (shared i) sv subkey (fs i lt) sl kl)
      (λ i lt. valid_version_subkey_bits-word (main i) mv subkey (fm i lt) ml kl)
      (find shared main sv mv subkey)
      (find_lanes-Tells s m 0 (find_lanes (λ l. s (8 + l)) (λ l. m (8 + l)) 8 none) (omega arith)
        (λ low. find_lanes-Tells s m 8 none (omega arith) (λ high i lt. halves s m low high i lt)))
