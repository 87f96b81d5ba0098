-- ===== src/Wrert/Words/Halves.antt =====
-- The directory entries of a segment, and those of its two halves, by the number of a subkey's entry.
use wrert.Prelude.{
  ℕ, suc, zero, ◌+◌, ◌*◌, ◌/◌, ◌^◌, ◌≤◌, ◌<◌, ◌≡◌, inl, inr, refl, sym, ap, ◌∙◌, leb, ltb, arith,
  true, Bool-cases,
}
use native.Mathlib.Nat.{div-div-eq-div-mul, pow-suc, le-div_iff_mul-le, mul_comm}
use wrert.Wrert.Words.Depths.{main-lt}
use wrert.Wrert.Words.Numbers.{top, top-next, top-main, number-top}
use wrert.Wrert.Words.{get_main_bucket_index, get_segment_number}

pub pow-positive : (e : ℕ) → 0 < 2 ^ e
pow-positive zero = omega arith
pow-positive (suc e) = rw (pow-suc 2 e) (omega (arith, pow-positive e))

top-deep : (k d e : ℕ) → d + e ≤ 32 → top k d ≡ top k (d + e) / 2 ^ e
top-deep k d zero le = let e : d + 0 ≡ d = omega arith in rw e (omega arith)
top-deep k d (suc e) le =
    let f : d + e + 1 ≡ d + suc e = omega arith in
    top-deep k d e (omega arith)
    ∙ ap (λ x. x / 2 ^ e) (top-next k (d + e) (omega arith))
    ∙ rw (f, div-div-eq-div-mul (top k (d + suc e)) 2 (2 ^ e), pow-suc 2 e, mul_comm (2 ^ e) 2) refl

leb→le : (a b : ℕ) → leb a b ≡ true → a ≤ b
leb→le a b h = ground arith

le→leb : (a b : ℕ) → a ≤ b → leb a b ≡ true
le→leb a b h = ground arith

pub leb-times : (x h n : ℕ) → 0 < h → leb (x * h) n ≡ leb x (n / h)
leb-times x h n pos = elim (Bool-cases (leb x (n / h))) [
  | inl t ↦ le→leb (x * h) n ((le-div_iff_mul-le pos).0 (leb→le x (n / h) t)) ∙ sym t
  | inr f ↦ elim (Bool-cases (leb (x * h) n)) [
    | inr g ↦ g ∙ sym f
    | inl g ↦
        let le = le→leb x (n / h) ((le-div_iff_mul-le pos).1 (leb→le (x * h) n g)) in
        absurd (ground (arith, f, le))
  ]
]

leb-ltb : (a b c d : ℕ) → leb a b ≡ leb c d → ltb b a ≡ ltb d c
leb-ltb a b c d e = ground (arith, e)

pub ltb-times : (x h n : ℕ) → 0 < h → ltb n (x * h) ≡ ltb (n / h) x
ltb-times x h n pos = leb-ltb (x * h) n x (n / h) (leb-times x h n pos)

-- A subkey in a directory of depth `g`, whose segment is of depth `d` and has the entries
-- `c * num`, …, of which there are `num = 2 ^ (e + 1)`.
module _ (k d e : ℕ) (small : k < 2 ^ 32) (le : d ≤ 26) (bound : d + 1 + e ≤ 32) where
  abbrev number : ℕ
  number = get_segment_number k 32 (d + 1 + e)

  pub number-half : number / 2 ^ e ≡ top k (d + 1)
  number-half = rw (number-top k (d + 1 + e) bound small) (sym (top-deep k (d + 1) e bound))

  pub number-whole : number / 2 ^ suc e ≡ get_segment_number k 32 d
  number-whole =
      rw (number-top k (d + 1 + e) bound small, number-top k d (omega arith) small)
        (let f : d + 1 + e ≡ d + suc e = omega arith in
          rw f (sym (top-deep k d (suc e) (omega arith))))

  pub whole-half : get_segment_number k 32 d ≡ top k (d + 1) / 2
  whole-half = number-top k d (omega arith) small ∙ top-next k d (omega arith)

  module _ (c : ℕ) where
    abbrev start : ℕ
    start = c * 2 * 2 ^ e

    pub start-leb : leb start number ≡ leb (c * 2) (top k (d + 1))
    start-leb =
        leb-times (c * 2) (2 ^ e) number (pow-positive e) ∙ ap (λ x. leb (c * 2) x) number-half

    pub middle-leb : leb (start + 2 ^ e) number ≡ leb (c * 2 + 1) (top k (d + 1))
    middle-leb =
        let f : start + 2 ^ e ≡ (c * 2 + 1) * 2 ^ e = omega arith in
        rw f (
          leb-times (c * 2 + 1) (2 ^ e) number (pow-positive e)
          ∙ ap (λ x. leb (c * 2 + 1) x) number-half)

    pub middle-ltb : ltb number (start + 2 ^ e) ≡ ltb (top k (d + 1)) (c * 2 + 1)
    middle-ltb = leb-ltb (start + 2 ^ e) number (c * 2 + 1) (top k (d + 1)) middle-leb

    pub end-ltb : ltb number (start + 2 ^ e + 2 ^ e) ≡ ltb (top k (d + 1)) (c * 2 + 2)
    end-ltb =
        let f : start + 2 ^ e + 2 ^ e ≡ (c * 2 + 2) * 2 ^ e = omega arith in
        rw f (
          ltb-times (c * 2 + 2) (2 ^ e) number (pow-positive e)
          ∙ ap (λ x. ltb x (c * 2 + 2)) number-half)

    pub upper-main :
        get_segment_number k 32 d ≡ c
        → leb (start + 2 ^ e) number ≡ leb 16 (get_main_bucket_index k d)
    upper-main at = middle-leb ∙ ground (arith, sym whole-half ∙ at, top-main k d le, main-lt k d)

    pub lower-main :
        get_segment_number k 32 d ≡ c
        → ltb number (start + 2 ^ e) ≡ ltb (get_main_bucket_index k d) 16
    lower-main at = middle-ltb ∙ ground (arith, sym whole-half ∙ at, top-main k d le, main-lt k d)
