-- ===== src/Ert/Tests.antt =====
-- Runs of the tree.
use wrert.Prelude.{ℕ, ◌≡◌, refl, List, [], ◌∷◌, ◌++◌, Run, ok, stray, ◌>>=◌, first_index}
use wrert.Ert.{
  bucket_get, find_place, find_from, get_bucket_num, get_from, get_node_flag, get_seg_num,
  get_subkey, migrate, note_place, put_counter, put_key_value_flag, remove_node_flag,
}
use wrert.Ert.Memory.{
  Memory, alloc_kv, alloc_node, alloc_segment, set_counter, store_after, store_before,
  write_counter,
}
use wrert.Ert.Node.{double, get, init_header, new_node, put, put_at, put_in, split}
use wrert.Ert.Tree.{
  array_byte, assign, byte_of, compute_prefix, first_len, get_32bits, insert, insert_above,
  insert_add, insert_both, insert_found, insert_here, insert_in, insert_loop, insert_round, is_same,
  is_same_from, match_from, missing, new_tree, node_put, search, search_loop, search_next,
  search_round, steps,
}

abbrev insert_pairs : List (ℕ × ℕ) → Memory → Run Memory
insert_pairs [] m = ok m
insert_pairs ((k, v) ∷ pairs) m = insert 60 m k v >>= insert_pairs pairs

-- A lookup after the insertion of pairs.
abbrev after : List (ℕ × ℕ) → (key : ℕ) → Run ℕ
after pairs key = insert_pairs pairs new_tree >>= λ m. search 9 m key

run : Unit {0}
unfolding first_index insert search new_tree bucket_get find_place find_from get_bucket_num get_from
    get_node_flag get_seg_num get_subkey migrate note_place put_counter put_key_value_flag
    remove_node_flag alloc_kv alloc_node alloc_segment set_counter store_after store_before
    write_counter double get init_header new_node put put_at put_in split array_byte assign byte_of
    compute_prefix first_len get_32bits insert_above insert_add insert_both insert_found insert_here
    insert_in insert_loop insert_round is_same is_same_from match_from node_put search_loop
    search_next search_round steps
run = tt

-- Five keys for one bucket, and one for another.
abbrev five : List (ℕ × ℕ)
five =
    (0x1_0000_0001, 11)
    ∷ (0x1_2000_0001, 12)
    ∷ (0x1_4000_0001, 13)
    ∷ (0x1_8000_0001, 14)
    ∷ (0x1_c000_0001, 15)
    ∷ (0x1_c000_0002, 16)
    ∷ []

five_found : after five 0x1_2000_0001 ≡ ok 12
unfolding run
five_found = refl

five_last : after five 0x1_c000_0001 ≡ ok 15
unfolding run
five_last = refl

five-missing : after five 0x1_6000_0001 ≡ ok missing
unfolding run
five-missing = refl

-- A key below another prefix makes a new root. The key of the old one is turned round, byte by byte.
abbrev two_prefixes : List (ℕ × ℕ)
two_prefixes = (0x0100_0000_0000_0005, 7) ∷ (0x0200_0000_0000_0005, 8) ∷ []

prefix_lost : after two_prefixes 0x0100_0000_0000_0005 ≡ ok missing
unfolding run
prefix_lost = refl

prefix_found : after two_prefixes 0x0200_0000_0000_0005 ≡ ok 8
unfolding run
prefix_found = refl

-- Below the root a directory that doubles is lost.
abbrev below : List (ℕ × ℕ)
below =
    (0x1_0000_0005, 7)
    ∷ (0x2_0000_0001, 8)
    ∷ (0x2_2000_0001, 9)
    ∷ (0x2_4000_0001, 10)
    ∷ (0x2_8000_0001, 11)
    ∷ (0x2_c000_0001, 12)
    ∷ []

below_lost : after below 0x2_c000_0001 ≡ ok missing
unfolding run
below_lost = refl

below_found : after below 0x2_0000_0001 ≡ ok 8
unfolding run
below_found = refl

-- A root whose directory has doubled has no array of values, which a key below another prefix reads.
doubled_prefix : after (five ++ (0x2_0000_0001, 17) ∷ []) 0x2_0000_0001 ≡ stray
unfolding run
doubled_prefix = refl
