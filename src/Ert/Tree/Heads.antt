-- ===== src/Ert/Tree/Heads.antt =====
-- The bytes of a header that has the upper half of a key for its prefix.
use wrert.Prelude.{
  ℕ, zero, suc, ◌+◌, ◌-◌, ◌*◌, ◌/◌, ◌%◌, ◌^◌, ◌<◌, ◌≤◌, ◌≡◌, refl, sym, ◌∙◌, true, ◌==◌, ltb, arith,
}
use wrert.Ert.{get_subkey}
use wrert.Ert.Memory.{Header}
use wrert.Ert.Tree.{byte_of, match_from, steps, compute_prefix, assign, is_same_from, is_same}

-- A header of four bytes, those of `upper`.
pub record HasPrefix (upper : ℕ) (h : Header) : Type 0 where
  pub len : h.len ≡ 4
  pub array : (i : ℕ) → i < 4 → h.array i ≡ byte_of (upper * 2 ^ 32) i

pub upper_subkey :
    (upper low : ℕ) → upper < 2 ^ 32 → low < 2 ^ 32 → get_subkey (upper * 2 ^ 32 + low) 0 32 ≡ upper
unfolding get_subkey
upper_subkey upper low a b = omega arith

pub lower_subkey :
    (upper low : ℕ) → upper < 2 ^ 32 → low < 2 ^ 32 → get_subkey (upper * 2 ^ 32 + low) 32 32 ≡ low
unfolding get_subkey
lower_subkey upper low a b = omega arith

match_from-all :
    (h : Header) (subkey n i : ℕ)
    → ((j : ℕ) → i ≤ j → j < i + n → byte_of subkey j ≡ h.array j)
    → match_from h subkey n i ≡ i + n
unfolding match_from
match_from-all h subkey zero i same = omega arith
match_from-all h subkey (suc n) i same =
    let e = same i (omega arith) (omega arith) in
    let f : (byte_of subkey i == h.array i) ≡ true = ground (arith, e) in
    rw f (
      match_from-all h subkey n (i + 1) (λ j lo hi. same j (omega arith) (omega arith))
      ∙ omega arith)

is_same_from-all :
    (array : ℕ → ℕ) (subkey n i : ℕ)
    → ((j : ℕ) → i ≤ j → j < i + n → byte_of subkey j ≡ array j)
    → is_same_from array subkey n i ≡ true
unfolding is_same_from
is_same_from-all array subkey zero i same = refl
is_same_from-all array subkey (suc n) i same =
    let e = same i (omega arith) (omega arith) in
    let f : (byte_of subkey i == array i) ≡ true = ground (arith, e) in
    rw f (is_same_from-all array subkey n (i + 1) (λ j lo hi. same j (omega arith) (omega arith)))

module _ (upper low : ℕ) (small : upper < 2 ^ 32) (small' : low < 2 ^ 32) (h : Header)
    (has : HasPrefix upper h) where
  pub compute_prefix-HasPrefix : compute_prefix h (upper * 2 ^ 32 + low) 0 ≡ 4
  unfolding compute_prefix steps
  compute_prefix-HasPrefix =
      rw (has.len, upper_subkey upper low small small')
        (match_from-all h (upper * 2 ^ 32) 4 0 (λ j lo hi. sym (has.array j (omega arith))))

  pub is_same-HasPrefix : is_same h.array (upper * 2 ^ 32 + low) 0 32 ≡ true
  unfolding is_same
  is_same-HasPrefix =
      rw (upper_subkey upper low small small')
        (is_same_from-all h.array (upper * 2 ^ 32) 4 0 (λ j lo hi. sym (has.array j (omega arith))))

bytes : (u i : ℕ) → i < 4 → u * 2 ^ 16 / 2 ^ ((5 - i) * 8) % 256 ≡ byte_of (u * 2 ^ 32) i
unfolding byte_of
bytes u zero lt = omega arith
bytes u (suc zero) lt = omega arith
bytes u (suc (suc zero)) lt = omega arith
bytes u (suc (suc (suc zero))) lt = omega arith
bytes u (suc (suc (suc (suc i)))) lt = absurd (omega arith)

-- A header of length four that takes its prefix from a key.
pub assign-HasPrefix :
    (upper low : ℕ) (h : Header)
    → upper < 2 ^ 32
    → low < 2 ^ 32
    → h.len ≡ 4
    → HasPrefix upper (assign h (upper * 2 ^ 32 + low) 0)
unfolding assign
assign-HasPrefix upper low h small small' at = record {
  len = at;
  array = λ i lt.
      let e : ltb i 6 ≡ true = ground arith in
      rw (e, at, upper_subkey upper low small small') (bytes upper i lt);
}
