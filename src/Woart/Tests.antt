-- ===== src/Woart/Tests.antt =====
-- Runs of the adaptive radix tree on small trees.
use wrert.Prelude.{
  for_append, ℕ, zero, suc, ◌+◌, ◌*◌, ◌≡◌, refl, List, [], ◌∷◌, first_diff, first_index, map,
}
use wrert.Woart.Map.{put_all}
use wrert.Woart.Node.{
  Run, ok, ◌>>=◌, Node, null, leaf, inner, node4, node16, node48, node256, is_null, alloc_node,
  find_slot, find_bitmap, find_child, scan_keys, copy_children, keys_of_16, take, drop, empty_slots,
  scan_slots, temp_slot, add_child4_noflush, last_free, copy_slots, add_child4, add_child16,
  add_child48, add_child256, add_child,
}
use wrert.Woart.Tree.{
  Tree, KeyValue, get_index, new_woart_tree, check_prefix, leaf_matches, get_loop, woart_get,
  min_loop, least_child, minimum, make_leaf, longest_common_prefix, path_of, prefix_mismatch,
  leaf_or_minimum, shorten, add_noflush, node_of_two, split_path, split_leaf, recursive_insert,
  woart_put, woart_all_subtree_kv, below_left, above_right, woart_node_scan, woart_scan,
}
use wrert.Woart.Bits.{bit, ffs, ffz, find_next_bit, find_next_zero_bit}

run : Unit {0}
unfolding is_null alloc_node find_slot find_bitmap find_child scan_keys copy_children keys_of_16
    take drop empty_slots scan_slots temp_slot add_child4_noflush last_free copy_slots add_child4
    add_child16 add_child48 add_child256 add_child get_index new_woart_tree check_prefix
    leaf_matches get_loop woart_get min_loop least_child minimum make_leaf longest_common_prefix
    path_of prefix_mismatch leaf_or_minimum shorten add_noflush node_of_two split_path split_leaf
    recursive_insert woart_put for_append woart_all_subtree_kv below_left above_right
    woart_node_scan woart_scan bit ffs ffz find_next_bit find_next_zero_bit first_diff first_index
    put_all
run = tt

-- The keys `1, 2, …`, with their tenfold as values.
abbrev keys_from : (n first : ℕ) → List KeyValue
keys_from zero first = []
keys_from (suc n) first = record { key = first; value = first * 10 } ∷ keys_from n (first + 1)

abbrev filled : ℕ → Run Tree
filled n = put_all (keys_from n 1) 8 new_woart_tree

abbrev kind_of : Node → ℕ
kind_of null = 0
kind_of (leaf l) = 1
kind_of (inner p (node4 slots) c) = 4
kind_of (inner p (node16 bitmap keys) c) = 16
kind_of (inner p (node48 keys) c) = 48
kind_of (inner p node256 c) = 256

four : (filled 4 >>= λ t. ok (kind_of t.root)) ≡ ok 4
unfolding run
four = refl

sixteen : (filled 6 >>= λ t. ok (kind_of t.root)) ≡ ok 16
unfolding run
sixteen = refl

present : (filled 6 >>= λ t. woart_get t 5 8) ≡ ok 50
unfolding run
present = refl

absent : (filled 6 >>= λ t. woart_get t 7 8) ≡ ok 0
unfolding run
absent = refl

forty_eight : (filled 17 >>= λ t. ok (kind_of t.root)) ≡ ok 48
unfolding run
forty_eight = refl

last : (filled 17 >>= λ t. woart_get t 17 8) ≡ ok 170
unfolding run
last = refl

-- A scan of two keys with a prefix of seven bytes answers one that is above the range, since the
-- seventh byte of the prefix is not compared.
abbrev long_prefix : Run Tree
long_prefix =
    put_all
      (record { key = 0x0101_0101_0101_0501; value = 1 }
        ∷ record { key = 0x0101_0101_0101_0502; value = 2 }
        ∷ [])
      8 new_woart_tree

scan_above :
    (long_prefix >>= λ t.
    ok (map (λ kv. kv.key) (woart_scan t 0x0101_0101_0101_0001 0x0101_0101_0101_0203)))
    ≡ ok (0x0101_0101_0101_0501 ∷ 0x0101_0101_0101_0502 ∷ [])
unfolding run
scan_above = refl
