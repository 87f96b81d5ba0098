-- ===== src/Rng.antt =====
-- The xoroshiro128+ generator of rng/rng.h and rng/rng.cpp. The state is two 64-bit words; a shift
-- to the left and a sum wrap at 2 ^ 64.
mod Tests
use wrert.Prelude.{ℕ, zero, suc, ◌+◌, ◌-◌, ◌*◌, ◌/◌, ◌%◌, ◌^◌, bit_xor, bit_or, ◌==◌, if◌then◌else◌}

-- `rng`
pub record Rng : Type 0 where
  pub state0 : ℕ
  pub state1 : ℕ

-- `(x << k) | (x >> (64 - k))`
unfoldable pub rotl : (x k : ℕ) → ℕ
rotl x k = bit_or (x * 2 ^ k % 2 ^ 64) (x / 2 ^ (64 - k))

unfoldable pub rng_init : (seed1 seed2 : ℕ) → Rng
rng_init seed1 seed2 = record { state0 = seed1; state1 = seed2 }

-- `rng_next`: the number and the next state.
unfoldable pub rng_next : Rng → ℕ × Rng
unfolding rotl
rng_next r =
    let s1 = bit_xor r.state1 r.state0 in
    (
      (r.state0 + r.state1) % 2 ^ 64 / 2,
      record {
        state0 = bit_xor (bit_xor (rotl r.state0 55) s1) (s1 * 2 ^ 14 % 2 ^ 64);
        state1 = rotl s1 36;
      },
    )

-- The bits `b`, `b + 1`, … of a jump word: `s` is the sum of the states so far, `r` the generator.
unfoldable pub jump_bits : (word n b : ℕ) → (s r : Rng) → Rng × Rng
unfolding rng_next
jump_bits word zero b s r = (s, r)
jump_bits word (suc n) b s r =
    jump_bits word n (b + 1)
      (if word / 2 ^ b % 2 == 1
        then record { state0 = bit_xor s.state0 r.state0; state1 = bit_xor s.state1 r.state1 }
        else s)
      (rng_next r).1

-- `rng_jump`
unfoldable pub rng_jump : Rng → Rng
unfolding jump_bits
rng_jump r =
    let (s, r') = jump_bits 0xbeac0467eba5facb 64 0 (record { state0 = 0; state1 = 0 }) r in
    (jump_bits 0xd86b048b86aa9922 64 0 s r').0
