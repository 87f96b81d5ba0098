-- ===== src/Woart/Bits.antt =====
-- The bit searches of woart/woart.cpp, over a region of one word. Every caller asks for 4, 16 or 48
-- bits, so that the loops over further words are not entered.
use wrert.Prelude.{
  ℕ, zero, suc, ◌+◌, ◌-◌, ◌*◌, ◌/◌, ◌%◌, ◌^◌, ◌≤◌, ◌<◌, ◌≡◌, ◌≢◌, refl, sym, ◌∙◌, inl, inr, Bool,
  true, false, not, none, some, arith, ltb, leb, ◌==◌, if◌then◌else◌, Option-cases, eq→==, ne→==,
  first_index, first_index_least, first_index-none, first_index-at, first_index_empty, ap,
}
use native.Mathlib.Nat.{
  two-pow-succ, mod-add-div, add-mul-mod_self_left, mod-eq_of_lt, mod-lt, pow-le-pow_right,
  div-div-eq-div-mul, mul_comm, mul_assoc,
}
use wrert.Wrert.Words.Halves.{pow-positive}

-- Bit `i` of a word.
unfoldable pub bit : ℕ → ℕ → Bool
bit w zero = w % 2 == 1
bit w (suc i) = bit (w / 2) i

-- The instruction `bsf`: the lowest bit that is set; the callers give it a word that has one.
unfoldable pub ffs : ℕ → ℕ
unfolding bit
ffs w = elim (first_index (bit w) 64 0) [ none ↦ 64 | some i ↦ i ]

unfoldable pub ffz : ℕ → ℕ
ffz w = ffs (2 ^ 64 - 1 - w)

-- `tmp &= ~0 << offset`, then `tmp &= ~0 >> (64 - size)`
unfoldable pub find_next_bit : (word size offset : ℕ) → ℕ
find_next_bit word size offset =
    let tmp = word / 2 ^ offset * 2 ^ offset % 2 ^ size in
    if leb size offset then size else if tmp == 0 then size else ffs tmp

-- `tmp |= ~0 << size`; every caller starts at bit 0
unfoldable pub find_next_zero_bit : (word size : ℕ) → ℕ
find_next_zero_bit word size =
    let tmp = word % 2 ^ size + (2 ^ 64 - 2 ^ size) in
    if leb size 0 then size else if tmp == 2 ^ 64 - 1 then size else ffz tmp

pub bit-zero : (i : ℕ) → bit 0 i ≡ false
unfolding bit
bit-zero zero = refl
bit-zero (suc i) = bit-zero i

ltb-suc : (i s : ℕ) → ltb (suc i) (suc s) ≡ ltb i s
ltb-suc i s = ground arith

==-suc : (i s : ℕ) → (suc i == suc s) ≡ (i == s)
==-suc i s = ground arith

-- The lower bits of a word, and the upper ones.
mod_double : (w s : ℕ) → w % 2 ^ suc s ≡ w % 2 + 2 * (w / 2 % 2 ^ s)
mod_double w s =
    let m = 2 ^ s in
    let r = w / 2 % m in
    let q = w / 2 / m in
    let split : r + m * q ≡ w / 2 = mod-add-div (w / 2) m in
    let twice : 2 * m * q ≡ 2 * (m * q) = mul_assoc 2 m q in
    let whole : w ≡ w % 2 + 2 * r + 2 * m * q = omega (arith, split, twice) in
    let double : 2 ^ suc s ≡ 2 * m = omega (arith, two-pow-succ s) in
    let small : w % 2 + 2 * r < 2 * m = omega (arith, mod-lt (w / 2) (pow-positive s)) in
    rw double (
      ap (λ x. x % (2 * m)) whole
      ∙ add-mul-mod_self_left (w % 2 + 2 * r) (2 * m) q
      ∙ mod-eq_of_lt small)

mask_double : (w o : ℕ) → w / 2 ^ suc o * 2 ^ suc o ≡ 2 * (w / 2 / 2 ^ o * 2 ^ o)
mask_double w o =
    let double : 2 ^ suc o ≡ 2 * 2 ^ o = omega (arith, two-pow-succ o) in
    let q : w / (2 * 2 ^ o) ≡ w / 2 / 2 ^ o = sym (div-div-eq-div-mul w 2 (2 ^ o)) in
    rw (double, q)
      (mul_comm (w / 2 / 2 ^ o) (2 * 2 ^ o)
        ∙ mul_assoc 2 (2 ^ o) (w / 2 / 2 ^ o)
        ∙ ap (λ x. 2 * x) (mul_comm (2 ^ o) (w / 2 / 2 ^ o)))

bit-mod : (w s i : ℕ) → bit (w % 2 ^ s) i ≡ (if ltb i s then bit w i else false)
unfolding bit
bit-mod w zero i =
    let none' : w % 2 ^ 0 ≡ 0 = omega arith in
    let past : ltb i 0 ≡ false = ground arith in rw (none', past) (bit-zero i)
bit-mod w (suc s) zero = rw (mod_double w s) (ground arith)
bit-mod w (suc s) (suc i) =
    let half : w % 2 ^ suc s / 2 ≡ w / 2 % 2 ^ s = omega (arith, mod_double w s) in
    rw (half, ltb-suc i s) (bit-mod (w / 2) s i)

bit-mask : (w o i : ℕ) → bit (w / 2 ^ o * 2 ^ o) i ≡ (if ltb i o then false else bit w i)
unfolding bit
bit-mask w zero i =
    let all : w / 2 ^ 0 * 2 ^ 0 ≡ w = omega arith in
    let past : ltb i 0 ≡ false = ground arith in rw (all, past) refl
bit-mask w (suc o) zero = rw (mask_double w o) (ground arith)
bit-mask w (suc o) (suc i) =
    let half : w / 2 ^ suc o * 2 ^ suc o / 2 ≡ w / 2 / 2 ^ o * 2 ^ o =
      omega (arith, mask_double w o) in
    rw (half, ltb-suc i o) (bit-mask (w / 2) o i)

-- The complement within `s` bits.
bit-complement : (s w i : ℕ) → w < 2 ^ s → i < s → bit (2 ^ s - 1 - w) i ≡ not (bit w i)
unfolding bit
bit-complement zero w i h lt = absurd (omega arith)
bit-complement (suc s) w zero h lt = ground (arith, two-pow-succ s)
bit-complement (suc s) w (suc i) h lt =
    let half : (2 ^ suc s - 1 - w) / 2 ≡ 2 ^ s - 1 - w / 2 = omega (arith, two-pow-succ s) in
    rw half (bit-complement s (w / 2) i (omega (arith, two-pow-succ s)) (omega arith))

-- A word without bits is zero.
zero_of_bits : (n w : ℕ) → w < 2 ^ n → ((i : ℕ) → i < n → bit w i ≡ false) → w ≡ 0
unfolding bit
zero_of_bits zero w h off = omega arith
zero_of_bits (suc n) w h off =
    let half =
      zero_of_bits n (w / 2) (omega (arith, two-pow-succ n)) (λ i lt. off (suc i) (omega arith)) in
    ground (arith, off 0)

-- A bit that is added.
pub bit-add_power :
    (k w i : ℕ) → bit w k ≡ false → bit (w + 2 ^ k) i ≡ (if k == i then true else bit w i)
unfolding bit
bit-add_power zero w zero off = ground arith
bit-add_power zero w (suc i) off =
    let half : (w + 1) / 2 ≡ w / 2 = ground arith in
    let on : (0 == suc i) ≡ false = ground arith in rw (half, on) refl
bit-add_power (suc k) w zero off = ground (arith, two-pow-succ k)
bit-add_power (suc k) w (suc i) off =
    let half : (w + 2 ^ suc k) / 2 ≡ w / 2 + 2 ^ k = omega (arith, two-pow-succ k) in
    rw (half, ==-suc k i) (bit-add_power k (w / 2) i off)

pub add_power-lt : (k n w : ℕ) → w < 2 ^ n → k < n → bit w k ≡ false → w + 2 ^ k < 2 ^ n
unfolding bit
add_power-lt zero zero w small lt off = absurd (omega arith)
add_power-lt zero (suc n) w small lt off = ground (arith, two-pow-succ n)
add_power-lt (suc k) zero w small lt off = absurd (omega arith)
add_power-lt (suc k) (suc n) w small lt off =
    let half : w / 2 + 2 ^ k < 2 ^ n =
      add_power-lt k n (w / 2) (omega (arith, two-pow-succ n)) (omega arith) off in
    omega (arith, half, two-pow-succ n, two-pow-succ k)

pow_mono : (s n : ℕ) → s ≤ n → 2 ^ s ≤ 2 ^ n
pow_mono s n le = pow-le-pow_right (omega arith) le

-- The search in a word that has the bits of `f` in a range, and no others.
ffs_first :
    (v size offset : ℕ) (f : ℕ → Bool)
    → size < 64
    → v < 2 ^ 64
    → ((i : ℕ) → offset ≤ i → i < size → bit v i ≡ f i)
    → ((i : ℕ) → bit v i ≡ true → (offset ≤ i) × (i < size))
    → (if v == 0 then size else ffs v)
      ≡ elim (first_index f (size - offset) offset) [ none ↦ size | some i ↦ i ]
unfolding ffs
ffs_first v size offset f small bound same range = elim (Option-cases (first_index (bit v) 64 0)) [
  | inl none' ↦
      let empty : v ≡ 0 =
        zero_of_bits 64 v bound (λ i lt. first_index-none (bit v) 64 0 i none' (omega arith) lt) in
      let off : (j : ℕ) → offset ≤ j → j < offset + (size - offset) → f j ≡ false =
        λ j lo hi. sym (same j lo (omega arith)) ∙ ap (λ x. bit x j) empty ∙ bit-zero j in
      rw (eq→== v 0 empty, first_index_empty f (size - offset) offset off) refl
  | inr (k, found) ↦
      let (on, lo, hi, before) = first_index_least (bit v) 64 0 k found in
      let (a, b) = range k on in
      let hit : ffs v ≡ k = rw (found, ffs) refl in
      let some' : (v == 0) ≡ false =
        ne→== v 0 (λ e. absurd (cc (on, bit-zero k, ap (λ x. bit x k) e))) in
      rw
        (
          some',
          hit,
          first_index-at f (size - offset) offset k a (omega arith) (sym (same k a b) ∙ on)
              (λ j lo' lt. sym (same j lo' (omega arith)) ∙ before j (omega arith) lt),
        )
        refl
]

-- From an offset inside a region shorter than a word, `find_next_bit` answers the first place at or
-- after the offset whose bit is set, and the size of the region where there is none.
pub find_next_bit-first :
    (w size offset : ℕ)
    → offset < size
    → size < 64
    → find_next_bit w size offset
      ≡ elim (first_index (bit w) (size - offset) offset) [ none ↦ size | some i ↦ i ]
unfolding find_next_bit
find_next_bit-first w size offset lt small =
    let in_range : leb size offset ≡ false = ground arith in
    rw in_range (ffs_first tmp size offset (bit w) small bound same range)
  where
    tmp : ℕ
    tmp = w / 2 ^ offset * 2 ^ offset % 2 ^ size

    bound : tmp < 2 ^ 64
    bound = omega (
      arith,
      mod-lt (w / 2 ^ offset * 2 ^ offset) (pow-positive size),
      pow_mono size 64 (omega arith),
    )

    bits :
        (i : ℕ)
        → bit tmp i ≡ (if ltb i size then if ltb i offset then false else bit w i else false)
    bits i = rw (bit-mod (w / 2 ^ offset * 2 ^ offset) size i, bit-mask w offset i) refl

    same : (i : ℕ) → offset ≤ i → i < size → bit tmp i ≡ bit w i
    same i lo hi = ground (arith, bits i)

    range : (i : ℕ) → bit tmp i ≡ true → (offset ≤ i) × (i < size)
    range i on = ground (arith, bits i)

-- In a region shorter than a word, `find_next_zero_bit` answers the first place whose bit is clear, and the
-- size of the region where there is none, whatever the bits of the word behind the region are.
pub find_next_zero_bit-first :
    (w size : ℕ)
    → 0 < size
    → size < 64
    → find_next_zero_bit w size
      ≡ elim (first_index (λ i. not (bit w i)) size 0) [ none ↦ size | some i ↦ i ]
unfolding find_next_zero_bit ffz
find_next_zero_bit-first w size lt small =
    let in_range : leb size 0 ≡ false = ground arith in
    let full : (w % 2 ^ size + (2 ^ 64 - 2 ^ size) == 2 ^ 64 - 1) ≡ (v == 0) =
      ground (arith, facts) in
    let rest : 2 ^ 64 - 1 - (w % 2 ^ size + (2 ^ 64 - 2 ^ size)) ≡ v = omega (arith, facts) in
    let all : size - 0 ≡ size = omega arith in
    let first =
      ffs_first v size 0 (λ i. not (bit w i)) small (omega (arith, facts)) (λ i a. bits i) range in
    rw (in_range, full, rest) (rw all at first)
  where
    v : ℕ
    v = 2 ^ size - 1 - w % 2 ^ size

    facts : (w % 2 ^ size < 2 ^ size) × (2 ^ size ≤ 2 ^ 64)
    facts = (mod-lt w (pow-positive size), pow_mono size 64 (omega arith))

    bits : (i : ℕ) → i < size → bit v i ≡ not (bit w i)
    bits i h =
        bit-complement size (w % 2 ^ size) i (mod-lt w (pow-positive size)) h
        ∙ ap not (ground (arith, bit-mod w size i))

    range : (i : ℕ) → bit v i ≡ true → (0 ≤ i) × (i < size)
    range i on =
        let low : v % 2 ^ size ≡ v = mod-eq_of_lt (omega (arith, facts, pow-positive size)) in
        let on' = bit-mod v size i in ground (arith, rw low at on')

-- Where no bit behind the region is set and the region is not full, there is room in it.
pub find_next_zero_bit-room :
    (w size : ℕ)
    → 0 < size
    → size < 64
    → w < 2 ^ size
    → w ≢ 2 ^ size - 1
    → (find_next_zero_bit w size < size) × (bit w (find_next_zero_bit w size) ≡ false)
find_next_zero_bit-room w size some' small lt room =
    let first = find_next_zero_bit-first w size some' small in
    elim (Option-cases (first_index (λ i. not (bit w i)) size 0)) [
      | inl none' ↦
          let full : 2 ^ size - 1 - w ≡ 0 =
            zero_of_bits size (2 ^ size - 1 - w) (omega (arith, pow-positive size)) (λ i h.
              bit-complement size w i lt h
              ∙ first_index-none (λ j. not (bit w j)) size 0 i none' (omega arith) (omega arith)) in
          absurd (omega arith)
      | inr (k, found) ↦
          let (clear, lo, hi, before) = first_index_least (λ i. not (bit w i)) size 0 k found in
          let at : find_next_zero_bit w size ≡ k = first ∙ rw found refl in
          rw at (omega arith, ground (arith, clear))
    ]

pub bit-full : (size i : ℕ) → i < size → bit (2 ^ size - 1) i ≡ true
bit-full size i lt =
    let all : 2 ^ size - 1 - 0 ≡ 2 ^ size - 1 = omega arith in
    rw all at (bit-complement size 0 i (pow-positive size) lt ∙ ap not (bit-zero i))
