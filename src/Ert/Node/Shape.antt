-- ===== src/Ert/Node/Shape.antt =====
-- Well-formed nodes: every segment has one stretch of the directory to itself, and every bucket has keys
-- of its own number only.
use wrert.Prelude.{
  ℕ, zero, suc, ◌+◌, ◌-◌, ◌*◌, ◌/◌, ◌%◌, ◌^◌, ◌<◌, ◌≤◌, ◌≡◌, ◌≢◌, ◌⊎◌, inl, inr, refl, sym, ap, ◌∙◌,
  arith, Bool-cases, ==→eq, ==→ne, ◌==◌,
}
use native.Mathlib.Nat.{div-div-eq-div-mul, pow-suc}
use wrert.Ert.{Counter, zero_counter, Bucket, get_seg_num, get_bucket_num, bucket_get}
use wrert.Ert.Buckets.{key_of, key_of-zero}
use wrert.Ert.Memory.{Memory, Segment, Node}
use wrert.Ert.Node.{get}
use wrert.Wrert.Words.{get_segment_number}
use wrert.Wrert.Words.Numbers.{number-lt, number-top, top-next}

-- The key of a counter fits a subkey and belongs in the bucket, with one bit for the flag, or the
-- counter is empty.
unfoldable pub Keyed : (index : ℕ) → Counter → Type 0
Keyed index c =
    ((key_of c ≡ 0) × (c.value ≡ 0))
    ⊎ ((key_of c < 2 ^ 32) × (key_of c % 256 ≡ index) × (c.subkey < 2 ^ 57))

pub Keyed-zero : (index : ℕ) → Keyed index zero_counter
unfolding Keyed
Keyed-zero index = inl (key_of-zero, refl)

pub Keyed-lt : (index : ℕ) (c : Counter) → Keyed index c → 0 < key_of c → c.subkey < 2 ^ 57
unfolding Keyed
Keyed-lt index c (inl (empty, v)) pos = absurd (omega (arith, empty, pos))
Keyed-lt index c (inr (small, low, lt)) pos = lt

-- The segment of a directory entry.
abbrev pub seg_at : (ℕ → Segment) → Node → (i : ℕ) → Segment
seg_at segments n i = segments (n.dir i)

-- The stretch of the directory in which an entry stands, for the depth of the segment of `i`.
abbrev pub stretch : (ℕ → Segment) → Node → (i j : ℕ) → ℕ
stretch segments n i j = j / 2 ^ (n.global_depth - (seg_at segments n i).depth)

-- A directory over segments whose addresses are below `next`.
pub record IsDirectory (segments : ℕ → Segment) (next : ℕ) (n : Node) : Type 0 where
  pub global : n.global_depth ≤ 24
  pub depth : (i : ℕ) → i < 2 ^ n.global_depth → (seg_at segments n i).depth ≤ n.global_depth
  pub same :
      (i j : ℕ)
      → i < 2 ^ n.global_depth
      → j < 2 ^ n.global_depth
      → stretch segments n i j ≡ stretch segments n i i
      → n.dir j ≡ n.dir i
  pub apart :
      (i j : ℕ)
      → i < 2 ^ n.global_depth
      → j < 2 ^ n.global_depth
      → stretch segments n i j ≢ stretch segments n i i
      → n.dir j ≢ n.dir i
  pub old : (i : ℕ) → i < 2 ^ n.global_depth → n.dir i < next
  pub keyed :
      (i : ℕ)
      → i < 2 ^ n.global_depth
      → (index : ℕ) → index < 256
      → (place : ℕ) → place < 4
      → Keyed index ((seg_at segments n i).bucket index place)

abbrev pub WellFormed : Memory → (node : ℕ) → Type 0
WellFormed m p = IsDirectory m.segments m.next_segment (m.nodes p)

-- Every lookup of a key of 32 bits that is not 0 answers the same.
unfoldable pub Same : (m : Memory) (p : ℕ) (m' : Memory) (p' : ℕ) → Type 0
Same m p m' p' = (key : ℕ) → 0 < key → key < 2 ^ 32 → get m' p' key ≡ get m p key

-- Where a lookup looks.
abbrev pub bucket_of : (ℕ → Segment) → Node → (key : ℕ) → Bucket
bucket_of segments n key =
    (seg_at segments n (get_seg_num key 32 n.global_depth)).bucket (key % 256)

pub get-bucket_of :
    (m : Memory) (p key : ℕ) → get m p key ≡ bucket_get (bucket_of m.segments (m.nodes p) key) key
unfolding get get_bucket_num
get-bucket_of m p key = refl

pub num-lt : (key g : ℕ) → g ≤ 24 → key < 2 ^ 32 → get_seg_num key 32 g < 2 ^ g
unfolding get_seg_num get_segment_number
num-lt key g le small = number-lt key g (omega arith) small

pub num-next :
    (key g : ℕ) → g < 24 → key < 2 ^ 32 → get_seg_num key 32 (g + 1) / 2 ≡ get_seg_num key 32 g
unfolding get_seg_num get_segment_number
num-next key g lt small =
    ap (λ x. x / 2) (number-top key (g + 1) (omega arith) small)
    ∙ sym (top-next key g (omega arith))
    ∙ sym (number-top key g (omega arith) small)

-- The number at a depth, from that at a greater one.
pub num-deep :
    (key d e : ℕ)
    → d + e ≤ 24
    → key < 2 ^ 32
    → get_seg_num key 32 (d + e) / 2 ^ e ≡ get_seg_num key 32 d
num-deep key d zero le small = let at : d + 0 ≡ d = omega arith in rw at (omega arith)
num-deep key d (suc e) le small =
    let at : d + suc e ≡ d + e + 1 = omega arith in
    rw
      (
        at,
        pow-suc 2 e,
        (let swap : 2 ^ e * 2 ≡ 2 * 2 ^ e = omega arith in swap),
        sym (div-div-eq-div-mul (get_seg_num key 32 (d + e + 1)) 2 (2 ^ e)),
        num-next key (d + e) (omega arith) small,
      )
      (num-deep key d e (omega arith) small)

-- Keys with one number at the depth of a segment lead to that segment, and no others.
module _ (m : Memory) (p key k : ℕ) (h : WellFormed m p) (small : key < 2 ^ 32)
    (small' : k < 2 ^ 32) where
  abbrev g : ℕ
  g = (m.nodes p).global_depth

  abbrev here : ℕ
  here = get_seg_num key 32 g

  abbrev there : ℕ
  there = get_seg_num k 32 g

  abbrev d : ℕ
  d = (seg_at m.segments (m.nodes p) here).depth

  here-lt : here < 2 ^ g
  here-lt = num-lt key g h.global small

  number_at :
      (x : ℕ)
      → x < 2 ^ 32
      → stretch m.segments (m.nodes p) here (get_seg_num x 32 g) ≡ get_seg_num x 32 d
  number_at x lt =
      let le = h.depth here here-lt in
      let e : d + (g - d) ≡ g = omega arith in
      let deep = num-deep x d (g - d) (omega (arith, h.global)) lt in rw e at deep

  pub dir-number :
      (m.nodes p).dir there ≡ (m.nodes p).dir here → get_seg_num k 32 d ≡ get_seg_num key 32 d
  dir-number at = elim (Bool-cases (get_seg_num k 32 d == get_seg_num key 32 d)) [
    | inl e ↦ ==→eq _ _ e
    | inr e ↦ absurd (
        h.apart here there here-lt (num-lt k g h.global small')
          (λ q. ==→ne _ _ e (sym (number_at k small') ∙ q ∙ number_at key small)) at)
  ]
