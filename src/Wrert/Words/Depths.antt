-- ===== src/Wrert/Words/Depths.antt =====
-- The bucket numbers of a subkey at one depth and at the next.
use wrert.Prelude.{◌⊎◌, ℕ, suc, ◌+◌, ◌-◌, ◌/◌, ◌%◌, ◌^◌, ◌≤◌, ◌<◌, ◌≡◌, refl, sym, ◌∙◌, arith}
use native.Mathlib.Nat.{div-div-eq-div-mul, pow-suc}
use wrert.Wrert.Words.{get_main_bucket_index, get_shared_bucket_index}

div_pow_suc : (k e : ℕ) → k / 2 ^ suc e ≡ k / 2 ^ e / 2
div_pow_suc k e = rw (pow-suc 2 e, div-div-eq-div-mul k (2 ^ e) 2) refl

-- The digits of a subkey from which all bucket numbers are cut.
pub digits_at : (subkey local_depth : ℕ) → ℕ
digits_at subkey local_depth = subkey / 2 ^ (26 - local_depth)

module _ (k d : ℕ) (small : d ≤ 26) where
  pub next_main : get_main_bucket_index k (d + 1) ≡ digits_at k d % 32
  unfolding get_main_bucket_index digits_at
  next_main = let e : 32 - (d + 1 + 5) ≡ 26 - d = omega arith in rw e refl

  pub main : get_main_bucket_index k d ≡ digits_at k d / 2 % 32
  unfolding get_main_bucket_index digits_at
  main = let e : 32 - (d + 5) ≡ suc (26 - d) = omega arith in rw (e, div_pow_suc k (26 - d)) refl

  pub next_shared : get_shared_bucket_index k (d + 1) ≡ digits_at k d / 2 % 32
  unfolding get_shared_bucket_index digits_at
  next_shared =
      let e : 33 - (d + 1 + 5) ≡ suc (26 - d) = omega arith in rw (e, div_pow_suc k (26 - d)) refl

  pub shared : get_shared_bucket_index k d ≡ digits_at k d / 4 % 32
  unfolding get_shared_bucket_index digits_at
  shared =
      let e : 33 - (d + 5) ≡ suc (suc (26 - d)) = omega arith in
      rw (e, div_pow_suc k (suc (26 - d)), div_pow_suc k (26 - d)) (omega arith)

-- The main bucket at the next depth is one of the four that the shared bucket is spread over.
pub main-below :
    (k d h q : ℕ)
    → d ≤ 26
    → (h ≡ 0) ⊎ (h ≡ 8)
    → q < 8
    → get_shared_bucket_index k d % 16 ≡ h + q
    → get_main_bucket_index k (d + 1) / 4 ≡ q
main-below k d h q small half lt at =
    let at' : digits_at k d / 4 % 32 % 16 ≡ h + q = rw (← shared k d small) at in
    rw (next_main k d small) (ground (arith, at'))

-- The upper main buckets and the upper shared buckets have the same subkeys.
pub lower-shared :
    (k d : ℕ) → d ≤ 26 → get_main_bucket_index k d < 16 → get_shared_bucket_index k d % 16 < 8
lower-shared k d small lt =
    let lt' : digits_at k d / 2 % 32 < 16 = rw (← main k d small) lt in
    rw (shared k d small) (ground (arith, lt'))

pub upper-shared :
    (k d : ℕ) → d ≤ 26 → 16 ≤ get_main_bucket_index k d → 8 ≤ get_shared_bucket_index k d % 16
upper-shared k d small le =
    let le' : 16 ≤ digits_at k d / 2 % 32 = rw (← main k d small) le in
    rw (shared k d small) (ground (arith, le'))

-- The shared bucket at the next depth is the main bucket of this one.
pub next_shared-main :
    (k d : ℕ) → d ≤ 26 → get_shared_bucket_index k (d + 1) ≡ get_main_bucket_index k d
next_shared-main k d small = next_shared k d small ∙ sym (main k d small)

pub main-lt : (k d : ℕ) → get_main_bucket_index k d < 32
unfolding get_main_bucket_index
main-lt k d = omega arith
