-- ===== src/Wort/Examples.antt =====
-- The theorems on wort trees at small trees.
use wrert.Prelude.{
  ℕ, zero, suc, ◌+◌, ◌<◌, ◌≡◌, refl, Bool, true, Option, arith, ◌==◌, if◌then◌else◌, update, ==→eq,
  ==→ne, false, ◌≤◌, inl, inr, Bool-cases,
}
use wrert.Wort.Lookup.{lookup}
use wrert.Wort.Map.{
  IsTree, pairs, value_or_zero, Puts, new-IsTree, wort_get-lookup, wort_put-Puts, wort_get-put,
}
use wrert.Wort.Paths.{Inserts}
use wrert.Wort.Recovery.{get_loop-stale, recursive_insert-stale}
use wrert.Wort.Shape.{Agrees, Branches, Wf}
use wrert.Wort.{
  Leaf, Header, Node, null, leaf, node16, Tree, ok, ◌>>=◌, new_wort_tree, wort_get, wort_put,
  wort_all_subtree_kv, get_index, get_loop, recursive_insert, is_null,
}

wort_put-Puts_example :
    (r : Tree × Option ℕ) × (wort_put new_wort_tree 1 8 10 ≡ ok r) × Puts 8 1 10 new_wort_tree r
wort_put-Puts_example = wort_put-Puts 8 1 10 new_wort_tree (new-IsTree 8) (omega arith)

-- A tree with the pair (1, 10).
abbrev one : Tree
one = (wort_put-Puts 8 1 10 new_wort_tree (new-IsTree 8) (omega arith)).0.0

one-IsTree : IsTree 8 one
one-IsTree = (wort_put-Puts 8 1 10 new_wort_tree (new-IsTree 8) (omega arith)).2.shape

wort_get-lookup_example : wort_get one 1 8 ≡ ok (value_or_zero (lookup 1 (pairs one)))
wort_get-lookup_example = wort_get-lookup 8 one 1 one-IsTree

wort_get-put_example :
    (wort_put one 0x1_0001 8 20 >>= λ r. wort_get r.0 1 8)
    ≡ (if 0x1_0001 == 1 then ok 20 else wort_get one 1 8)
wort_get-put_example = wort_get-put 8 0x1_0001 20 1 one one-IsTree (omega arith)

-- A node over the keys 1 and 2, at depth 3, whose header is of another depth.
abbrev leaf_of : ℕ → Leaf
leaf_of key = record { value = key + 100; key_len = 8; key = key }

abbrev children : ℕ → Node
children zero = null
children (suc zero) = leaf (leaf_of 1)
children (suc (suc zero)) = leaf (leaf_of 2)
children (suc (suc (suc i))) = null

abbrev stale : Header
stale = record { depth = 0; pwortial_len = 15; pwortial = λ i. 0 }

abbrev zeros : ℕ → ℕ
zeros j = 0

-- A test that holds at `i`, `i + 1`, … for `count` numbers.
each_from : (test : ℕ → Bool) (count i : ℕ) → Bool
each_from test zero i = true
each_from test (suc count) i = if test i then each_from test count (i + 1) else false

each_from-at :
    (test : ℕ → Bool) (count i j : ℕ)
    → each_from test count i ≡ true
    → i ≤ j
    → j < i + count
    → test j ≡ true
unfolding each_from
each_from-at test zero i j e lo hi = absurd (omega arith)
each_from-at test (suc count) i j e lo hi = elim (Bool-cases (i == j)) [
  | inl here ↦ ground (arith, ==→eq i j here)
  | inr on ↦
      each_from-at test count (i + 1) j (ground arith) (ground (arith, ==→ne i j on)) (omega arith)
]

digits_of :
    (key : ℕ)
    → each_from (λ j. get_index key j == update zeros 15 key j) 16 0 ≡ true
    → Agrees (update zeros 15 key) 16 key
digits_of key h j lt = ==→eq _ _ (each_from-at _ 16 0 j h (omega arith) (omega arith))

branches : Branches children
branches = (1, 2, omega arith, omega arith, unfold is_null in refl, unfold is_null in refl)

below : (i : ℕ) → i < 16 → Wf 8 (update zeros 15 i) 16 (children i)
unfolding each_from get_index
below zero lt = tt
below (suc zero) lt = (refl, omega arith, digits_of 1 refl)
below (suc (suc zero)) lt = (refl, omega arith, digits_of 2 refl)
below (suc (suc (suc i))) lt = tt

get_loop-stale_example :
    get_loop (node16 stale children) 2 8 3
    ≡ ok (lookup 2 (wort_all_subtree_kv (node16 stale children)))
get_loop-stale_example =
    get_loop-stale 8 zeros 3 15 stale children (omega arith) (omega arith) branches below 2
      (omega arith)

start_of_three : Agrees zeros 3 3
unfolding get_index
start_of_three zero lt = refl
start_of_three (suc zero) lt = refl
start_of_three (suc (suc zero)) lt = refl
start_of_three (suc (suc (suc j))) lt = absurd (omega arith)

recursive_insert-stale_example :
    (r : Node × Option ℕ) × (recursive_insert (node16 stale children) 3 8 300 3 ≡ ok r)
    × Inserts 8 zeros 3 3 300 (node16 stale children) r
recursive_insert-stale_example =
    recursive_insert-stale 8 zeros 3 15 stale children (omega arith) (omega arith) branches below 3
      300 (omega arith) (omega arith) start_of_three
