-- ===== src/Woart/Examples.antt =====
-- The theorems on adaptive nodes at small trees.
use wrert.Prelude.{
  ℕ, not, ◌*◌, ◌-◌, ◌≡◌, ◌≢◌, refl, Option, none, some, List, [], ◌∷◌, arith, first_diff,
  first_index,
}
use wrert.Woart.Add.{SameOrNext, add_child-Adds}
use wrert.Woart.Additions.{four_free, four_free-IsIndex, four_free-none}
use wrert.Woart.Bits.{
  bit, find_next_bit, find_next_bit-first, find_next_zero_bit, find_next_zero_bit-first,
}
use wrert.Woart.Layout.{Adds}
use wrert.Woart.Least.{least_child-first, first_child}
use wrert.Woart.Map.{
  Shows, new-Shows, counted, put_each, put_all, woart_put-Shows, put_all-reads, put_all-Shows,
}
use wrert.Woart.Node.{
  Index, Node, leaf, node4, no_children, ok, fault, ◌>>=◌, find_child, add_child,
}
use wrert.Woart.Tree.{
  Tree, KeyValue, get_index, leaf_matches, longest_common_prefix, path_of, prefix_mismatch,
  least_child, new_woart_tree, woart_get, woart_put, woart_all_subtree_kv,
}
use wrert.Woart.Wide.{Wide, void, get, put, pairs, part_leaf, pair}

abbrev leaf_of : ℕ → Node
leaf_of key = leaf (record { value = key * 10; key_len = 8; key = key })

first_added :
    (r : Index × (ℕ → Node)) × (add_child (node4 four_free) no_children 5 (leaf_of 5) ≡ ok r)
    × Adds (node4 four_free) no_children 5 (leaf_of 5) r
    × SameOrNext (node4 four_free) r.0
unfolding find_child
first_added =
    add_child-Adds (node4 four_free) no_children 5 (leaf_of 5) four_free-IsIndex (omega arith)
      (four_free-none 5)

apart : ◌≢◌ {A = ℕ} 5 3
apart e = absurd (omega (arith, e))

add_child-Adds_example :
    (r : Index × (ℕ → Node)) × (add_child first_added.0.0 first_added.0.1 3 (leaf_of 3) ≡ ok r)
    × Adds first_added.0.0 first_added.0.1 3 (leaf_of 3) r
    × SameOrNext first_added.0.0 r.0
unfolding find_child
add_child-Adds_example =
    add_child-Adds first_added.0.0 first_added.0.1 3 (leaf_of 3) first_added.2.shape (omega arith)
      (first_added.2.free 3 apart (four_free-none 3))

least_child-first_example :
    least_child first_added.0.0 first_added.0.1 ≡ first_child first_added.0.0 first_added.0.1
least_child-first_example = least_child-first first_added.0.0 first_added.0.1 first_added.2.shape

find_next_bit-first_example :
    find_next_bit 0b1010 16 2
    ≡ elim (first_index (bit 0b1010) (16 - 2) 2) [ none ↦ 16 | some i ↦ i ]
find_next_bit-first_example = find_next_bit-first 0b1010 16 2 (omega arith) (omega arith)

find_next_zero_bit-first_example :
    find_next_zero_bit 0b11011 4
    ≡ elim (first_index (λ i. not (bit 0b11011 i)) 4 0) [ none ↦ 4 | some i ↦ i ]
find_next_zero_bit-first_example = find_next_zero_bit-first 0b11011 4 (omega arith) (omega arith)

abbrev kvs : List KeyValue
kvs =
    record { key = 1; value = 10 }
    ∷ record { key = 0x100; value = 20 }
    ∷ record { key = 1; value = 30 }
    ∷ []

abbrev outcome : Wide × ℕ
outcome = elim (put_each kvs 8 (void, 0)) [ ok r ↦ r | fault ↦ (void, 0) ]

outcome-run : put_each kvs 8 (void, 0) ≡ ok outcome
unfolding put_each put get_index leaf_matches longest_common_prefix path_of prefix_mismatch
    part_leaf pair first_diff
outcome-run = refl

put_all-Shows_example :
    (t' : Tree) × (put_all kvs 8 new_woart_tree ≡ ok t') × Shows t' outcome.0 outcome.1
put_all-Shows_example = put_all-Shows kvs 8 new_woart_tree void 0 outcome new-Shows outcome-run

-- The same tree.
built : (t' : Tree) × (put_all kvs 8 new_woart_tree ≡ ok t') × Shows t' outcome.0 outcome.1
built = put_all-Shows kvs 8 new_woart_tree void 0 outcome new-Shows outcome-run

abbrev next : Wide × Option ℕ
next = elim (put outcome.0 2 8 50 0) [ ok r ↦ r | fault ↦ (void, none) ]

next-run : put outcome.0 2 8 50 0 ≡ ok next
unfolding put_each put get_index leaf_matches longest_common_prefix path_of prefix_mismatch
    part_leaf pair first_diff
next-run = refl

woart_put-Shows_example :
    (t' : Tree) × (woart_put built.0 2 8 50 ≡ ok (t', next.1))
    × Shows t' next.0 (counted outcome.1 next.1)
woart_put-Shows_example = woart_put-Shows built.0 outcome.0 outcome.1 2 8 50 next built.2 next-run

put_all-reads_example :
    (t' : Tree) × (put_all kvs 8 new_woart_tree ≡ ok t')
    × (woart_get t' 0x100 8
        ≡ (get outcome.0 0x100 8 0 >>= λ o. ok (elim o [ none ↦ 0 | some v ↦ v ])))
    × (woart_all_subtree_kv t'.root ≡ pairs outcome.0)
put_all-reads_example = put_all-reads kvs 8 0x100 outcome outcome-run
