-- ===== src/Wrert/Segment.antt =====
-- A segment of forty-eight buckets, and the split of its pairs over two segments
-- (WRERTNode::put, WRERTSegment).
pub mod Migrate
pub mod Loops
pub mod Spread
pub mod Split
use wrert.Prelude.{ℕ, zero, suc, ◌+◌, ◌-◌, ◌%◌, Bool, ◌&&◌, ltb, leb, if◌then◌else◌, update}
use wrert.Wrert.Bucket.{Bucket}
use wrert.Wrert.Slot.{Slot, zero_slot, is_valid, shared_version, main_version}
use wrert.Wrert.Words.{
  get_main_bucket_index, calc_bucket_position, dst_offset, mig_shared_start, mig_main_start,
  mig_shared_bucket_num, mig_main_bucket_num, slots_per_bucket, main_buckets_per_segment,
}

abbrev pub Segment : Type 0
Segment = ℕ → Bucket

-- `NewWRERTSegment`, on fresh memory
abbrev pub new_segment : Segment
new_segment position i = zero_slot

-- `memcpy(&dst[to], &src[from], n * sizeof(WRERTBucket))`
unfoldable pub copy_buckets : (src : Segment) (from : ℕ) (dst : Segment) (to n : ℕ) → Segment
copy_buckets src from dst to n i =
    if leb to i && ltb i (to + n) then src (from + (i - to)) else dst i

-- `slot = value` at a position of a segment
unfoldable pub set_slot : Segment → (position index : ℕ) → Slot → Segment
set_slot seg position index s = update seg position (update (seg position) index s)

-- The target of a migration and the counters of its main buckets.
pub record Migration : Type 0 where
  pub target : Segment
  pub counter : ℕ → ℕ

-- One slot is appended to its main bucket, under the new version.
unfoldable pub migrate_slot : (offset mig_version : ℕ) → Slot → Migration → Migration
unfolding set_slot
migrate_slot offset mig_version s m =
    let index = get_main_bucket_index s.sub_key mig_version in
    let position = calc_bucket_position offset index in
    let n = m.counter (index % main_buckets_per_segment) in
    record {
      target = set_slot m.target position n (record s { mig_version = main_version mig_version });
      counter = update m.counter (index % main_buckets_per_segment) (n + 1);
    }

-- The loop over the slots of a shared bucket; it ends at the first that is not valid.
unfoldable pub migrate_slots :
    (offset mig_version shared_ver : ℕ) (goes : ℕ → Bool) (src : Bucket) (n j : ℕ)
    → Migration
    → Migration
unfolding migrate_slot
migrate_slots offset mig_version shared_ver goes src zero j m = m
migrate_slots offset mig_version shared_ver goes src (suc n) j m =
    let rest =
      migrate_slots offset mig_version shared_ver goes src n (j + 1)
        (if goes (src j).sub_key then migrate_slot offset mig_version (src j) m else m) in
    if is_valid shared_ver (src j) then rest else m

-- The loop over eight shared buckets.
unfoldable pub migrate_buckets :
    (offset mig_version shared_ver : ℕ) (goes : ℕ → Bool) (src : Segment) (n i : ℕ)
    → Migration
    → Migration
unfolding migrate_slots
migrate_buckets offset mig_version shared_ver goes src zero i m = m
migrate_buckets offset mig_version shared_ver goes src (suc n) i m =
    migrate_buckets offset mig_version shared_ver goes src n (i + 1)
      (migrate_slots offset mig_version shared_ver goes (src i) slots_per_bucket 0 m)

-- The segment that is split off: the upper main buckets become its shared buckets, and the upper
-- shared buckets are spread over its main ones.
unfoldable pub split_off :
    (seg : Segment) (offset new_offset local_depth : ℕ) (goes : ℕ → Bool) → Segment
unfolding copy_buckets migrate_buckets
split_off seg offset new_offset local_depth goes =
    (migrate_buckets new_offset (local_depth + 1) (shared_version local_depth) goes seg
      mig_shared_bucket_num (mig_shared_start offset)
      (record {
        target =
            copy_buckets seg (mig_main_start offset) new_segment new_offset mig_main_bucket_num;
        counter = λ i. 0;
      })).target

-- The segment that stays: its lower main buckets become the shared ones where they stand, and the
-- lower shared buckets, copied aside before, are spread over the rest.
unfoldable pub split_rest : (seg : Segment) (offset local_depth : ℕ) (stays : ℕ → Bool) → Segment
unfolding migrate_buckets
split_rest seg offset local_depth stays =
    let aside : Segment = λ i. seg (offset + i) in
    (migrate_buckets (dst_offset offset) (local_depth + 1) (shared_version local_depth) stays aside
      mig_shared_bucket_num 0 (record { target = seg; counter = λ i. 0 })).target
