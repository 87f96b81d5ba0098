-- ===== src/Wrert/Words.antt =====
-- The macros and constants of wrert/wrert_node.h that cut a key into subkeys, segment numbers and
-- bucket numbers. A shift to the right is a division, and a mask of `n` ones is a remainder.
pub mod Layout
pub mod Depths
pub mod Numbers
pub mod Halves
use wrert.Prelude.{ℕ, ◌+◌, ◌-◌, ◌*◌, ◌/◌, ◌%◌, ◌^◌, ltb, ◌==◌, if◌then◌else◌}

abbrev pub key_max_bytes : ℕ
key_max_bytes = 8

abbrev pub node_span : ℕ
node_span = 32

abbrev pub node_subkey_max_bytes : ℕ
node_subkey_max_bytes = 4

abbrev pub node_prefix_max_bytes : ℕ
node_prefix_max_bytes = 6

abbrev pub init_prefix_length : ℕ
init_prefix_length = node_prefix_max_bytes

abbrev pub main_buckets_per_segment : ℕ
main_buckets_per_segment = 32

abbrev pub main_buckets_max_bits : ℕ
main_buckets_max_bits = 5

abbrev pub shared_buckets_per_segment : ℕ
shared_buckets_per_segment = main_buckets_per_segment / 2

abbrev pub segment_size : ℕ
segment_size = main_buckets_per_segment + shared_buckets_per_segment

abbrev pub slots_per_bucket : ℕ
slots_per_bucket = 16

abbrev pub mig_shared_bucket_num : ℕ
mig_shared_bucket_num = shared_buckets_per_segment / 2

abbrev pub mig_main_bucket_num : ℕ
mig_main_bucket_num = main_buckets_per_segment / 2

-- `OperationResults::Failed` and `OperationResults::NotFound` as a `uint64_t`
abbrev pub failed : ℕ
failed = 2 ^ 64 - 1

abbrev pub not_found : ℕ
not_found = 2 ^ 64 - 2

-- WRERT_GET_SEGMENT_NUMBER, for a depth of at most `key_length`
unfoldable pub get_segment_number : (key key_length global_depth : ℕ) → ℕ
get_segment_number key key_length global_depth =
    key / 2 ^ (key_length - global_depth) % 2 ^ global_depth

-- WRERT_GET_SUBKEY
unfoldable pub get_subkey : (key start_position length : ℕ) → ℕ
get_subkey key start_position length = key / 2 ^ (64 - start_position - length) % 2 ^ length

-- WRERT_GET_SHARED_BUCKET_INDEX with the index bits that every caller gives. The shift is written
-- so that it is right at local depth 0 too, where the C code takes one from zero.
unfoldable pub get_shared_bucket_index : (subkey local_depth : ℕ) → ℕ
get_shared_bucket_index subkey local_depth =
    subkey / 2 ^ (node_span + 1 - (local_depth + main_buckets_max_bits)) % 2 ^ main_buckets_max_bits

-- WRERT_GET_MAIN_BUCKET_INDEX
unfoldable pub get_main_bucket_index : (subkey local_depth : ℕ) → ℕ
get_main_bucket_index subkey local_depth =
    subkey / 2 ^ (node_span - (local_depth + main_buckets_max_bits)) % 2 ^ main_buckets_max_bits

-- `calcBucketPosition`: where the main bucket `index` stands when the shared buckets begin at
-- `offset`.
unfoldable pub calc_bucket_position : (offset index : ℕ) → ℕ
calc_bucket_position offset index =
    if offset == 0
    then shared_buckets_per_segment + index
    else if offset == main_buckets_per_segment
    then index
    else if ltb index offset
    then index + main_buckets_per_segment
    else index % shared_buckets_per_segment

-- The position of a shared bucket.
unfoldable pub shared_bucket_position : (offset index : ℕ) → ℕ
shared_bucket_position offset index = offset + index % shared_buckets_per_segment

-- The directory keeps an offset in eight bits, less one unless it is zero.
unfoldable pub load_offset : ℕ → ℕ
load_offset stored = if stored == 0 then 0 else stored + 1

unfoldable pub store_offset : ℕ → ℕ
store_offset offset = if offset == 0 then 0 else offset - 1

-- `dstSharedBucketOffset`: where the shared buckets of a segment begin after a split.
unfoldable pub dst_offset : ℕ → ℕ
dst_offset offset = (offset + shared_buckets_per_segment) % segment_size

-- `migSharedBucketPositionStart` and `migMainBucketPositionStart`
unfoldable pub mig_shared_start : ℕ → ℕ
mig_shared_start offset = offset + mig_shared_bucket_num

unfoldable pub mig_main_start : ℕ → ℕ
unfolding mig_shared_start
mig_main_start offset =
    ((offset + shared_buckets_per_segment) % segment_size
      + mig_shared_start offset % shared_buckets_per_segment * 2)
    % segment_size
