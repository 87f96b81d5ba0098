-- ===== src/Wrert/Bucket.antt =====
-- A bucket of sixteen slots, and the vector loops that look through it eight slots at a time
-- (WRERT::insert, WRERTNode::putSegNode, WRERTNode::getSegNode).
--
-- `_mm512_permutex2var_epi64` gathers the first words of eight slots; a comparison gives a mask
-- with a bit for each lane. A mask is written as a test of the lane; `__builtin_ctz` is the first
-- lane that passes, and `31 - __builtin_clz` the last.
pub mod Scan
pub mod Find
pub mod Insertion
use wrert.Prelude.{
  ℕ, zero, suc, ◌+◌, ◌-◌, ◌*◌, ◌^◌, Bool, true, false, not, ◌&&◌, Option, none, some, leb, ◌==◌,
  if◌then◌else◌, first_index,
}
use wrert.Wrert.Slot.{
  Slot, word, is_valid, valid_version_bits, version_bits, subkey_bits, valid_version_subkey_bits,
}
use wrert.Wrert.Words.{slots_per_bucket}

abbrev pub Bucket : Type 0
Bucket = ℕ → Slot

-- `31 - __builtin_clz(mask)` over lanes below `n`
unfoldable pub last_index : (ℕ → Bool) → ℕ → Option ℕ
last_index test zero = none
last_index test (suc n) = if test n then some n else last_index test n

abbrev pub lanes : ℕ
lanes = 8

-- What the loops of an insertion find: the slot of the key, a slot that is free, or neither.
pub data Probe : Type 0 where
  hit : ℕ → Probe
  vacant : ℕ → Probe
  full : Probe

-- `_isFindFlag` false, and nothing to write to before the next eight slots are seen
unfoldable pub or_next : Option ℕ → ℕ → Probe → Probe
or_next none base next = next
or_next (some z) base next = vacant (base + z)

-- A subkey was found in lane `x`: it counts only up to the last valid lane.
unfoldable pub hit_lane : (valid : ℕ → Bool) (base x : ℕ) → Probe → Probe
unfolding last_index or_next
hit_lane valid base x next = elim (last_index valid lanes) [
  | none ↦ vacant base
  | some y ↦
      if leb x y
      then hit (base + x)
      else or_next (first_index (λ l. not (valid l)) lanes 0) base next
]

-- One round of the loop over the slots of a bucket.
unfoldable pub probe_lanes : (valid same : ℕ → Bool) (base : ℕ) → Probe → Probe
unfolding last_index or_next hit_lane
probe_lanes valid same base next = elim (first_index valid lanes 0) [
  | none ↦ vacant base
  | some _ ↦ elim (first_index same lanes 0) [
    | some x ↦ hit_lane valid base x next
    | none ↦ or_next (first_index (λ l. not (valid l)) lanes 0) base next
  ]
]

-- The loop of `WRERT::insert` over the shared or over the main bucket.
unfoldable pub probe : Bucket → (version subkey : ℕ) → Probe
unfolding probe_lanes
probe b version subkey =
    let valid : ℕ → ℕ → Bool =
      λ base l. valid_version_bits (word (b (base + l))) == 2 ^ 41 + version * 2 ^ 32 in
    let same : ℕ → ℕ → Bool = λ base l. subkey_bits (word (b (base + l))) == subkey in
    probe_lanes (valid 0) (same 0) 0 (probe_lanes (valid lanes) (same lanes) lanes full)

-- The first loop of `putSegNode`: a slot whose version, of which eight bits are compared, is
-- another one.
unfoldable pub first_stale : Bucket → (version : ℕ) → Option ℕ
first_stale b version =
    let stale : ℕ → ℕ → Bool = λ base l. not (version_bits (word (b (base + l))) == version) in
    elim (first_index (stale 0) lanes 0) [
      | some l ↦ some l
      | none ↦ elim (first_index (stale lanes) lanes 0) [ some l ↦ some (lanes + l) | none ↦ none ]
    ]

-- `true` for the shared bucket, `false` for the main one, with the slot's number.
abbrev pub Place : Type 0
Place = Bool × ℕ

-- One round of `getSegNode`: the shared lanes are asked first.
unfoldable pub find_lanes : (shared main : ℕ → Bool) (base : ℕ) → Option Place → Option Place
find_lanes shared main base next = elim (first_index shared lanes 0) [
  | some l ↦ some (true, base + l)
  | none ↦ elim (first_index main lanes 0) [ some l ↦ some (false, base + l) | none ↦ next ]
]

-- The loop of `getSegNode` over both buckets.
unfoldable pub find : (shared main : Bucket) (shared_version main_version subkey : ℕ) → Option Place
unfolding find_lanes
find shared main sv mv subkey =
    let test : Bucket → ℕ → ℕ → ℕ → Bool = λ b version base l.
      valid_version_subkey_bits (word (b (base + l))) == 2 ^ 41 + version * 2 ^ 32 + subkey in
    find_lanes (test shared sv 0) (test main mv 0) 0
      (find_lanes (test shared sv lanes) (test main mv lanes) lanes none)

-- The loop that the code keeps beside the vector version as a comment.
unfoldable pub scalar_probe : Bucket → (version subkey n i : ℕ) → Probe
scalar_probe b version subkey zero i = full
scalar_probe b version subkey (suc n) i =
    if is_valid version (b i)
    then (if (b i).sub_key == subkey then hit i else scalar_probe b version subkey n (i + 1))
    else vacant i
