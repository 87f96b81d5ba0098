-- ===== src/Woart/Count.antt =====
-- How many of the first places pass a test, and bitmaps with free places.
use wrert.Prelude.{
  ℕ, zero, suc, ◌+◌, ◌^◌, ◌≤◌, ◌<◌, ◌≡◌, refl, ◌∙◌, inl, inr, Bool, true, false, not, arith, ◌==◌,
  if◌then◌else◌, Bool-cases, ==→eq, ==→ne, first_index-some,
}
use wrert.Woart.Bits.{bit, bit-zero, bit-add_power, find_next_zero_bit, find_next_zero_bit-first}

pub count : (ℕ → Bool) → ℕ → ℕ
count test zero = 0
count test (suc n) = if test n then suc (count test n) else count test n

count-le : (test : ℕ → Bool) (n : ℕ) → count test n ≤ n
unfolding count
count-le test zero = omega arith
count-le test (suc n) = ground (arith, count-le test n)

count_congr : (f g : ℕ → Bool) (n : ℕ) → ((j : ℕ) → j < n → f j ≡ g j) → count f n ≡ count g n
unfolding count
count_congr f g zero same = refl
count_congr f g (suc n) same =
    rw (same n (omega arith), count_congr f g n (λ j lt. same j (omega arith))) refl

pub count-zero : (n : ℕ) → count (bit 0) n ≡ 0
unfolding count
count-zero zero = refl
count-zero (suc n) = rw (bit-zero n) (count-zero n)

-- A place that fails, where fewer than all pass; every place passes, where all do.
clear_of_count : (test : ℕ → Bool) (n : ℕ) → count test n < n → (k : ℕ) × (k < n) × (test k ≡ false)
unfolding count
clear_of_count test zero lt = absurd (omega arith)
clear_of_count test (suc n) lt = elim (Bool-cases (test n)) [
  | inr off ↦ (n, omega arith, off)
  | inl on ↦ let (k, below, off) = clear_of_count test n (ground arith) in (k, omega arith, off)
]

pub set_of_count : (test : ℕ → Bool) (n j : ℕ) → count test n ≡ n → j < n → test j ≡ true
unfolding count
set_of_count test zero j all lt = absurd (omega arith)
set_of_count test (suc n) j all lt = elim (Bool-cases (test n)) [
  | inr off ↦ absurd (ground (arith, count-le test n))
  | inl on ↦ elim (Bool-cases (n == j)) [
    | inl here ↦ rw (← ==→eq n j here) on
    | inr below ↦ set_of_count test n j (ground arith) (ground (arith, ==→ne n j below))
  ]
]

-- A bit that is added counts once.
pub count-add_power :
    (w k n : ℕ) → bit w k ≡ false → k < n → count (bit (w + 2 ^ k)) n ≡ suc (count (bit w) n)
unfolding count
count-add_power w k zero off lt = absurd (omega arith)
count-add_power w k (suc n) off lt = elim (Bool-cases (k == n)) [
  | inl here ↦
      let at : k ≡ n = ==→eq k n here in
      let below : count (bit (w + 2 ^ k)) n ≡ count (bit w) n =
        count_congr _ _ n (λ j lt'. bit-add_power k w j off ∙ ground (arith, at)) in
      rw (bit-add_power k w n off, here, below, rw at at off) refl
  | inr on ↦
      rw (bit-add_power k w n off, on, count-add_power w k n off (ground (arith, ==→ne k n on)))
        (elim (Bool-cases (bit w n)) [ inl e ↦ rw e refl | inr e ↦ rw e refl ])
]

-- Where not all bits are set, the search finds a clear one.
pub find_next_zero_bit-clear :
    (w size : ℕ)
    → size < 64
    → count (bit w) size < size
    → (find_next_zero_bit w size < size) × (bit w (find_next_zero_bit w size) ≡ false)
find_next_zero_bit-clear w size small lt =
    let (k, below, off) = clear_of_count (bit w) size lt in
    let (j, found, clear, lo, hi) =
      first_index-some (λ i. not (bit w i)) size 0 k (omega arith) (omega (arith, below))
        (rw off refl) in
    let at : find_next_zero_bit w size ≡ j =
      find_next_zero_bit-first w size (omega arith) small ∙ rw found refl in
    rw at (omega arith, ground (arith, clear))
