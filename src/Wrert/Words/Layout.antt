-- ===== src/Wrert/Words/Layout.antt =====
-- Where the buckets of a segment stand, before and after a split.
use wrert.Prelude.{ℕ, ◌+◌, ◌≤◌, ◌<◌, ◌≡◌, ◌⊎◌, arith}
use wrert.Wrert.Words.{calc_bucket_position, load_offset, store_offset, dst_offset, mig_main_start}

-- The three places at which the shared buckets of a segment can begin.
abbrev pub IsOffset : ℕ → Type 0
IsOffset o = (o ≡ 0) ⊎ (o ≡ 16) ⊎ (o ≡ 32)

pub dst_offset-IsOffset : (o : ℕ) → IsOffset o → IsOffset (dst_offset o)
unfolding dst_offset
dst_offset-IsOffset o h = ground arith

pub load-store_offset : (o : ℕ) → IsOffset o → load_offset (store_offset o) ≡ o
unfolding load_offset store_offset
load-store_offset o h = ground arith

module _ (o : ℕ) (ok : IsOffset o) where
  pub calc-lt : (i : ℕ) → i < 32 → calc_bucket_position o i < 48
  unfolding calc_bucket_position
  calc-lt i lt = ground arith

  pub calc-injective :
      (i j : ℕ) → i < 32 → j < 32 → calc_bucket_position o i ≡ calc_bucket_position o j → i ≡ j
  unfolding calc_bucket_position
  calc-injective i j li lj e = ground arith

  -- Main buckets stand outside the shared ones.
  pub calc-outside :
      (i : ℕ) → i < 32 → (calc_bucket_position o i < o) ⊎ (o + 16 ≤ calc_bucket_position o i)
  unfolding calc_bucket_position
  calc-outside i lt = ground arith

  -- The lower main buckets stand where the shared buckets begin after a split.
  pub calc-lower : (i : ℕ) → i < 16 → calc_bucket_position o i ≡ dst_offset o + i
  unfolding calc_bucket_position dst_offset
  calc-lower i lt = ground arith

  -- The upper main buckets are the stretch that a split copies.
  pub calc-upper : (i : ℕ) → i < 16 → calc_bucket_position o (16 + i) ≡ mig_main_start o + i
  unfolding calc_bucket_position mig_main_start
  calc-upper i lt = ground arith
