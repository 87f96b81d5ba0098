-- ===== src/Wrert/Words/Numbers.antt =====
-- The number of a subkey's segment at one depth and at the next.
use wrert.Prelude.{
  ℕ, suc, zero, ◌+◌, ◌-◌, ◌*◌, ◌/◌, ◌%◌, ◌^◌, ◌≤◌, ◌<◌, ◌≡◌, refl, sym, ap, ◌∙◌, leb, ltb, ◌==◌,
  arith,
}
use native.Mathlib.Nat.{div-div-eq-div-mul, pow-suc, mod-eq_of_lt}
use wrert.Wrert.Words.Depths.{main-lt}
use wrert.Wrert.Words.{get_main_bucket_index, get_segment_number}

div_pow_suc : (k e : ℕ) → k / 2 ^ suc e ≡ k / 2 ^ e / 2
div_pow_suc k e = rw (pow-suc 2 e, div-div-eq-div-mul k (2 ^ e) 2) refl

-- The upper digits of a subkey.
pub top : (k g : ℕ) → ℕ
top k g = k / 2 ^ (32 - g)

pub top-next : (k g : ℕ) → g < 32 → top k g ≡ top k (g + 1) / 2
unfolding top
top-next k g lt =
    let e : 32 - g ≡ suc (32 - (g + 1)) = omega arith in rw (e, div_pow_suc k (32 - (g + 1))) refl

pub top-lt : (k : ℕ) → k < 2 ^ 32 → (g : ℕ) → g ≤ 32 → top k g < 2 ^ g
unfolding top
top-lt k small zero le = ground arith
top-lt k small (suc g) le =
    let rest : top k g < 2 ^ g = top-lt k small g (omega arith) in
    let half : top k g ≡ top k (suc g) / 2 =
      top-next k g (omega arith) ∙ ap (λ x. top k x / 2) (omega arith) in
    let rest' : top k (suc g) / 2 < 2 ^ g = rw half at rest in
    rw (pow-suc 2 g) (omega (arith, rest'))

pub number-top : (k g : ℕ) → g ≤ 32 → k < 2 ^ 32 → get_segment_number k 32 g ≡ top k g
unfolding get_segment_number top
number-top k g le small = mod-eq_of_lt (top-lt k small g le)

pub top-main : (k g : ℕ) → g ≤ 26 → get_main_bucket_index k g / 16 ≡ top k (g + 1) % 2
unfolding top get_main_bucket_index
top-main k g le =
    let e : 32 - (g + 5) ≡ 27 - g = omega arith in
    let f : 32 - (g + 1) ≡ suc (suc (suc (suc (27 - g)))) = omega arith in
    rw
      (
        e,
        f,
        div_pow_suc k (suc (suc (suc (27 - g)))),
        div_pow_suc k (suc (suc (27 - g))),
        div_pow_suc k (suc (27 - g)),
        div_pow_suc k (27 - g),
      )
      (omega arith)

pub number-lt : (k g : ℕ) → g ≤ 32 → k < 2 ^ 32 → get_segment_number k 32 g < 2 ^ g
number-lt k g le small = rw (number-top k g le small) (top-lt k small g le)

-- A subkey belongs to the upper half of its segment if its number at the next depth is odd.
module _ (k g index : ℕ) (le : g ≤ 26) (small : k < 2 ^ 32)
    (at : get_segment_number k 32 g ≡ index) where
  parts : index ≡ top k (g + 1) / 2
  parts = sym at ∙ number-top k g (omega arith) small ∙ top-next k g (omega arith)

  next_number : get_segment_number k 32 (g + 1) ≡ top k (g + 1)
  next_number = number-top k (g + 1) (omega arith) small

  pub number-halves : get_segment_number k 32 (g + 1) / 2 ≡ index
  number-halves = rw next_number (sym parts)

  pub number-upper :
      (get_segment_number k 32 (g + 1) == index * 2 + 1) ≡ leb 16 (get_main_bucket_index k g)
  number-upper = rw next_number (ground (arith, parts, top-main k g le, main-lt k g))

  pub number-lower :
      (get_segment_number k 32 (g + 1) == index * 2) ≡ ltb (get_main_bucket_index k g) 16
  number-lower = rw next_number (ground (arith, parts, top-main k g le, main-lt k g))
