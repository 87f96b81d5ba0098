-- ===== src/Wrert/Tests.antt =====
-- Runs of the tree.
use wrert.Prelude.{
  ℕ, true, ◌+◌, ◌&&◌, ◌==◌, if◌then◌else◌, ◌*◌, ◌^◌, ◌≡◌, refl, List, [], ◌∷◌, zero, suc,
  first_index, Run, ok, ◌>>=◌,
}
use wrert.Wrert.Bucket.{
  probe, find, find_lanes, first_stale, hit_lane, last_index, or_next, probe_lanes,
}
use wrert.Wrert.Header.{
  compute_prefix, initialize, assign_prefix, match_groups, match_bytes, assign_prefix_bytes,
  byte_of, prefix_array_bits, shift_array,
}
use wrert.Wrert.Memory.{
  Memory, zero_node, write_node, alloc_kv, alloc_node, alloc_segment, store_before, write_kv,
  write_segment, write_slot,
}
use wrert.Wrert.Node.{
  new_node, home, put, double_directory, double_entries, free_slot, get_seg_node, make_room,
  put_seg_node, put_slot, split_entries, split_segment,
}
use wrert.Wrert.Scan.{
  Results, lookup_range, node_scan, scan_all_nodes, scan_ends, scan_between, scan_part,
  scan_segment, scan_slots, scan_buckets, bucket_range, visit_part, push_between, push_slot,
  segment_loop, next_index, stride, same_index, below_header, header_sum, beside, end_at, left_main,
  right_main,
}
use wrert.Wrert.Segment.{
  Segment, new_segment, copy_buckets, migrate_buckets, migrate_slot, migrate_slots, set_slot,
  split_off, split_rest,
}
use wrert.Wrert.Slot.{
  zero_slot, valid_version_bits, word, shared_version, main_version, is_valid, subkey_bits,
  valid_version_subkey_bits, version_bits,
}
use wrert.Wrert.Tree.{
  insert, search, insert_above, insert_below, insert_here, insert_inner, insert_last, insert_loop,
  insert_round, locate, pair_for, search_loop, search_next, search_slot, set_value,
}
use wrert.Wrert.Words.{
  get_subkey, get_segment_number, calc_bucket_position, dst_offset, get_main_bucket_index,
  get_shared_bucket_index, load_offset, mig_main_start, mig_shared_start, shared_bucket_position,
  store_offset,
}

abbrev no_memory : Memory
no_memory = record {
  segments = λ i. new_segment;
  next_segment = 1;
  nodes = λ i. zero_node;
  next_node = 1;
  kvs = λ i. record { key = 0; value = 0 };
  next_kv = 1;
  root = 0;
}

-- `WRERT::WRERT()`
abbrev empty_tree : Memory
empty_tree = let (p, m) = new_node no_memory 0 0 in record m { root = p }

abbrev insert_all : List (ℕ × ℕ) → Memory → Run Memory
insert_all [] m = ok m
insert_all ((k, v) ∷ kvs) m = insert 60 m k v >>= λ r. insert_all kvs r.0

abbrev up_to : ℕ → List (ℕ × ℕ)
up_to zero = []
up_to (suc n) = (suc n, suc n * 10) ∷ up_to n

abbrev one_prefix : Run ℕ
one_prefix = insert_all (up_to 1) empty_tree >>= λ m. search 0 9 m 1

abbrev two_levels : Run ℕ
two_levels =
    insert_all ((5, 50) ∷ (2 ^ 40 + 5, 60) ∷ (2 ^ 40 + 6, 70) ∷ (6, 80) ∷ []) empty_tree >>= λ m.
    search 0 9 m (2 ^ 40 + 5)

abbrev spread : ℕ → List (ℕ × ℕ)
spread zero = []
spread (suc n) = (suc n * 2 ^ 25, suc n * 10) ∷ spread n

abbrev spread_out : ℕ → Run ℕ
spread_out k = insert_all (spread 100) empty_tree >>= λ m. search 0 9 m (k * 2 ^ 25)

abbrev range : List (ℕ × ℕ) → (left right : ℕ) → Results
range pairs left right = insert_all pairs empty_tree >>= λ m. lookup_range 0 9 m left right

run : Unit {0}
unfolding first_index insert search insert_above insert_below insert_here insert_inner insert_last
    insert_loop insert_round locate pair_for search_loop search_next search_slot set_value new_node
    home put double_directory double_entries free_slot get_seg_node make_room put_seg_node put_slot
    split_entries split_segment compute_prefix initialize assign_prefix match_groups match_bytes
    assign_prefix_bytes byte_of prefix_array_bits shift_array write_node alloc_kv alloc_node
    alloc_segment store_before write_kv write_segment write_slot copy_buckets migrate_buckets
    migrate_slot migrate_slots set_slot split_off split_rest valid_version_bits word shared_version
    main_version is_valid subkey_bits valid_version_subkey_bits version_bits probe find find_lanes
    first_stale hit_lane last_index or_next probe_lanes get_subkey get_segment_number
    calc_bucket_position dst_offset get_main_bucket_index get_shared_bucket_index load_offset
    mig_main_start mig_shared_start shared_bucket_position store_offset lookup_range node_scan
    scan_all_nodes scan_ends scan_between scan_part scan_segment scan_slots scan_buckets
    bucket_range visit_part push_between push_slot segment_loop next_index stride same_index
    below_header header_sum beside end_at left_main right_main
run = tt

one_prefix_runs : one_prefix ≡ ok 10
unfolding run
one_prefix_runs = refl

two_levels_runs : two_levels ≡ ok 60
unfolding run
two_levels_runs = refl

abbrev two_nodes : List (ℕ × ℕ)
two_nodes = (5, 50) ∷ (2 ^ 40 + 5, 60) ∷ (2 ^ 40 + 6, 70) ∷ (6, 80) ∷ []

-- In a node below one end of a range the other end is cut as if it were below the same subkey.
range_misses :
    range two_nodes 0 (2 ^ 41)
    ≡ ok (record { key = 2 ^ 40 + 5; value = 60 } ∷ record { key = 2 ^ 40 + 6; value = 70 } ∷ [])
unfolding run
range_misses = refl

-- A pair in the place of a node is not compared with the ends.
range_below :
    range ((5, 50) ∷ (2 ^ 33 + 1, 30) ∷ []) (2 ^ 33 + 5) (2 ^ 33 + 9)
    ≡ ok (record { key = 2 ^ 33 + 1; value = 30 } ∷ [])
unfolding run
range_below = refl

-- Where a node's prefix is above the left end, the left subkey is the greatest number.
range_nothing : range ((2 ^ 32 + 1, 30) ∷ (2 ^ 32 + 2, 40) ∷ []) 5 (2 ^ 32 + 2) ≡ ok []
unfolding run
range_nothing = refl

-- A pair in a main bucket between the two ends of a range, in a segment whose shared buckets begin at 16.
abbrev pair_at_40 : Segment
pair_at_40 p i =
    if p == 40 && i == 0
    then record zero_slot { sub_key = 7; mig_version = 1; valid_flag = 1 }
    else zero_slot

abbrev part_to : (right : ℕ) → Results
part_to right =
    scan_part (λ s. ok (record { key = s.sub_key; value = s.value } ∷ [])) (λ k. true) pair_at_40 16
      1 16 right true

part_to_25 : part_to 25 ≡ ok (record { key = 7; value = 0 } ∷ [])
unfolding run
part_to_25 = refl

-- Where the last shared bucket is the one in the middle of the segment, the stretch of main buckets runs
-- round its end and is taken as empty.
part_to_24 : part_to 24 ≡ ok []
unfolding run
part_to_24 = refl
