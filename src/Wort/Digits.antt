-- ===== src/Wort/Digits.antt =====
-- The sixteen digits of a key of the wort tree.
use wrert.Prelude.{ℕ, ◌/◌, ◌^◌, ◌<◌, ◌≡◌, arith}
use wrert.Wort.{get_index}

pub get_index-lt : (key d : ℕ) → get_index key d < 16
unfolding get_index
get_index-lt key d = omega arith

-- A key is its digits.
pub eq_of_digits :
    (a b : ℕ) → a < 2 ^ 64 → b < 2 ^ 64 → ((j : ℕ) → j < 16 → get_index a j ≡ get_index b j) → a ≡ b
unfolding get_index
eq_of_digits a b ha hb e =
    let h0 : a / 2 ^ 60 ≡ b / 2 ^ 60 = omega (arith, e 0 (omega arith)) in
    let h1 : a / 2 ^ 56 ≡ b / 2 ^ 56 = omega (arith, h0, e 1 (omega arith)) in
    let h2 : a / 2 ^ 52 ≡ b / 2 ^ 52 = omega (arith, h1, e 2 (omega arith)) in
    let h3 : a / 2 ^ 48 ≡ b / 2 ^ 48 = omega (arith, h2, e 3 (omega arith)) in
    let h4 : a / 2 ^ 44 ≡ b / 2 ^ 44 = omega (arith, h3, e 4 (omega arith)) in
    let h5 : a / 2 ^ 40 ≡ b / 2 ^ 40 = omega (arith, h4, e 5 (omega arith)) in
    let h6 : a / 2 ^ 36 ≡ b / 2 ^ 36 = omega (arith, h5, e 6 (omega arith)) in
    let h7 : a / 2 ^ 32 ≡ b / 2 ^ 32 = omega (arith, h6, e 7 (omega arith)) in
    let h8 : a / 2 ^ 28 ≡ b / 2 ^ 28 = omega (arith, h7, e 8 (omega arith)) in
    let h9 : a / 2 ^ 24 ≡ b / 2 ^ 24 = omega (arith, h8, e 9 (omega arith)) in
    let h10 : a / 2 ^ 20 ≡ b / 2 ^ 20 = omega (arith, h9, e 10 (omega arith)) in
    let h11 : a / 2 ^ 16 ≡ b / 2 ^ 16 = omega (arith, h10, e 11 (omega arith)) in
    let h12 : a / 2 ^ 12 ≡ b / 2 ^ 12 = omega (arith, h11, e 12 (omega arith)) in
    let h13 : a / 2 ^ 8 ≡ b / 2 ^ 8 = omega (arith, h12, e 13 (omega arith)) in
    let h14 : a / 2 ^ 4 ≡ b / 2 ^ 4 = omega (arith, h13, e 14 (omega arith)) in
    let h15 : a / 2 ^ 0 ≡ b / 2 ^ 0 = omega (arith, h14, e 15 (omega arith)) in omega (arith, h15)
