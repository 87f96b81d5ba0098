-- ===== src/Ert.antt =====
-- The words and the buckets of the extendible radix tree that came before WRERT (ert/ERT_node_int.h,
-- ERTIntBucket of ert/ERT_node_int.cpp). A shift to the right is a division, and a mask of `n` ones a
-- remainder.
pub mod Memory
pub mod Node
pub mod Buckets
pub mod Tree
pub mod Examples
pub mod Tests
use wrert.Prelude.{
  ℕ, zero, suc, ◌+◌, ◌-◌, ◌*◌, ◌/◌, ◌%◌, ◌^◌, Bool, true, false, not, ◌&&◌, ◌||◌, Option, none,
  some, ◌==◌, if◌then◌else◌, update,
}

-- ERT_BUCKET_SIZE, ERT_BUCKET_MASK_LEN and ERT_NODE_LENGTH
abbrev pub bucket_size : ℕ
bucket_size = 4

abbrev pub bucket_mask_len : ℕ
bucket_mask_len = 8

abbrev pub node_length : ℕ
node_length = 32

abbrev pub node_prefix_max_bytes : ℕ
node_prefix_max_bytes = 6

-- GET_SEG_NUM
unfoldable pub get_seg_num : (key key_len depth : ℕ) → ℕ
get_seg_num key key_len depth = key / 2 ^ (key_len - depth) % 2 ^ depth

-- GET_BUCKET_NUM
unfoldable pub get_bucket_num : (key mask_len : ℕ) → ℕ
get_bucket_num key mask_len = key % 2 ^ mask_len

-- GET_SUBKEY
unfoldable pub get_subkey : (key start length : ℕ) → ℕ
get_subkey key start length = key / 2 ^ (64 - start - length) % 2 ^ length

-- REMOVE_NODE_FLAG, PUT_KEY_VALUE_FLAG and GET_NODE_FLAG as a truth value
unfoldable pub remove_node_flag : ℕ → ℕ
remove_node_flag key = key % 2 ^ 56

unfoldable pub put_key_value_flag : ℕ → ℕ
put_key_value_flag key = if key / 2 ^ 56 % 2 == 1 then key else key + 2 ^ 56

unfoldable pub get_node_flag : ℕ → Bool
get_node_flag key = not (key / 2 ^ 56 == 0)

-- `ERTIntBucketKeyValue`
pub record Counter : Type 0 where
  pub subkey : ℕ
  pub value : ℕ

abbrev pub zero_counter : Counter
zero_counter = record { subkey = 0; value = 0 }

abbrev pub Bucket : Type 0
Bucket = ℕ → Counter

-- `ERTIntBucket::get` from a counter on: the value and `keyValueFlag`, and `none` for -1.
unfoldable pub get_from : Bucket → (key n i : ℕ) → Option (ℕ × Bool)
unfolding remove_node_flag get_node_flag
get_from b key zero i = none
get_from b key (suc n) i =
    if key == remove_node_flag (b i).subkey
    then some ((b i).value, get_node_flag (b i).subkey)
    else get_from b key n (i + 1)

unfoldable pub bucket_get : Bucket → (key : ℕ) → Option (ℕ × Bool)
unfolding get_from
bucket_get b key = get_from b key bucket_size 0

-- `res` after the two tests of a round of `findPlace`: a counter that is empty, or whose key is of
-- another segment.
unfoldable pub note_place : Counter → (key key_len depth i : ℕ) → Option ℕ → Option ℕ
unfolding remove_node_flag get_seg_num
note_place c key key_len depth i (some r) = some r
note_place c key key_len depth i none =
    let removed = remove_node_flag c.subkey in
    if removed == 0 && c.value == 0
      || not (get_seg_num key key_len depth == get_seg_num removed key_len depth)
    then some i
    else none

-- The loop of `findPlace`: the counter of the key, or else the first that may be taken.
unfoldable pub find_from : Bucket → (key key_len depth n i : ℕ) → Option ℕ → Option ℕ
unfolding note_place remove_node_flag
find_from b key key_len depth zero i res = res
find_from b key key_len depth (suc n) i res =
    if key == remove_node_flag (b i).subkey
    then some i
    else find_from b key key_len depth n (i + 1) (note_place (b i) key key_len depth i res)

unfoldable pub find_place : Bucket → (key key_len depth : ℕ) → Option ℕ
unfolding find_from
find_place b key key_len depth = find_from b key key_len depth bucket_size 0 none

-- The end of `put`, at a counter.
unfoldable pub put_counter : (subkey value : ℕ) (kv_flag : Bool) → Counter → Counter
unfolding put_key_value_flag remove_node_flag
put_counter subkey value kv_flag c =
    if c.subkey == subkey && not (subkey == 0) then record c { value = value } else record {
      subkey = if kv_flag then put_key_value_flag subkey else remove_node_flag subkey;
      value = value;
    }

-- The inner loop of a split: the counters of a bucket whose key goes to the new segment are appended
-- to the new bucket, in which `cnt` are taken.
unfoldable pub migrate : (goes : ℕ → Bool) (src : Bucket) (n j cnt : ℕ) → Bucket → Bucket
unfolding remove_node_flag
migrate goes src zero j cnt dst = dst
migrate goes src (suc n) j cnt dst =
    let go = goes (remove_node_flag (src j).subkey) in
    migrate goes src n (j + 1) (if go then cnt + 1 else cnt)
      (if go then update dst cnt (src j) else dst)
