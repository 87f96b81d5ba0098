-- ===== src/Wrert/Header/Prefixes.antt =====
-- The prefix that a header is given and the comparison of a key with it.
use wrert.Prelude.{ℕ, ◌-◌, ◌*◌, ◌/◌, ◌%◌, ◌^◌, ◌<◌, ◌≡◌, refl, some, arith, eq→==}
use native.Mathlib.Nat.{mod-lt}
use wrert.Wrert.Header.{Header, byte_of, match_bytes, match_groups, compute_prefix, assign_prefix}
use wrert.Wrert.Words.{get_subkey}

-- The bytes of a group in the word that the comparison shifts, and in the one that is stored.
byte_0 : (s : ℕ) → s < 2 ^ 32 → s * 2 ^ 32 % 2 ^ 64 / 2 ^ 56 % 2 ^ 8 ≡ s * 2 ^ 16 / 2 ^ 40 % 2 ^ 8
byte_0 s small = omega arith

byte_1 : (s : ℕ) → s < 2 ^ 32 → s * 2 ^ 32 % 2 ^ 64 / 2 ^ 48 % 2 ^ 8 ≡ s * 2 ^ 16 / 2 ^ 32 % 2 ^ 8
byte_1 s small = omega arith

byte_2 : (s : ℕ) → s < 2 ^ 32 → s * 2 ^ 32 % 2 ^ 64 / 2 ^ 40 % 2 ^ 8 ≡ s * 2 ^ 16 / 2 ^ 24 % 2 ^ 8
byte_2 s small = omega arith

byte_3 : (s : ℕ) → s < 2 ^ 32 → s * 2 ^ 32 % 2 ^ 64 / 2 ^ 32 % 2 ^ 8 ≡ s * 2 ^ 16 / 2 ^ 16 % 2 ^ 8
byte_3 s small = omega arith

-- A group whose four bytes are those of the word matches.
match_bytes-four :
    (h : Header) (w : ℕ)
    → w / 2 ^ 56 % 2 ^ 8 ≡ h.prefix_array 0
    → w / 2 ^ 48 % 2 ^ 8 ≡ h.prefix_array 1
    → w / 2 ^ 40 % 2 ^ 8 ≡ h.prefix_array 2
    → w / 2 ^ 32 % 2 ^ 8 ≡ h.prefix_array 3
    → match_bytes h w 4 0 0 ≡ 4
unfolding match_bytes byte_of
match_bytes-four h w a b c d =
    rw
      (
        eq→== (w / 2 ^ 56 % 2 ^ 8) (h.prefix_array 0) a,
        eq→== (w / 2 ^ 48 % 2 ^ 8) (h.prefix_array 1) b,
        eq→== (w / 2 ^ 40 % 2 ^ 8) (h.prefix_array 2) c,
        eq→== (w / 2 ^ 32 % 2 ^ 8) (h.prefix_array 3) d,
      )
      refl

one_group :
    (h : Header) (key start : ℕ)
    → h.prefix_length ≡ 1
    → match_bytes h (get_subkey key start 32 * 2 ^ 32 % 2 ^ 64) 4 0 0 ≡ 4
    → compute_prefix h key start ≡ some 1
unfolding compute_prefix match_groups match_bytes
one_group h key start one all = rw (one, all) refl

get_subkey-lt : (key start : ℕ) → get_subkey key start 32 < 2 ^ 32
unfolding get_subkey
get_subkey-lt key start = mod-lt (key / 2 ^ (64 - start - 32)) (omega arith)

-- A header of one group that takes its prefix from a key matches that key in full, at the same place of
-- the key.
pub compute_prefix-assign_prefix :
    (h : Header) (key start : ℕ)
    → h.prefix_length ≡ 1
    → compute_prefix (assign_prefix h key start) key start ≡ some 1
unfolding assign_prefix
compute_prefix-assign_prefix h key start one =
    let small = get_subkey-lt key start in
    let s = get_subkey key start 32 in
    one_group (assign_prefix h key start) key start one (
      match_bytes-four (assign_prefix h key start) (s * 2 ^ 32 % 2 ^ 64) (rw one (byte_0 s small))
        (rw one (byte_1 s small)) (rw one (byte_2 s small)) (rw one (byte_3 s small)))
