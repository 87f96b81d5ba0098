-- ===== src/Wort/Tests.antt =====
-- Runs of the wort tree on small trees.
use wrert.Prelude.{ℕ, ◌≡◌, refl, List, [], ◌∷◌}
use wrert.Prelude.{first_diff, first_index}
use wrert.Wort.{
  Tree, Run, ok, ◌>>=◌, new_wort_tree, wort_put, wort_get, get_loop, recursive_insert, get_index,
  split_leaf, split_path, prefix_mismatch, check_prefix, path_at, leaf_matches, make_leaf, minimum,
}

abbrev put_all : List (ℕ × ℕ) → Tree → Run Tree
put_all [] t = ok t
put_all ((k, v) ∷ kvs) t = wort_put t k 8 v >>= λ r. put_all kvs r.0

run : Unit {0}
unfolding minimum new_wort_tree wort_put wort_get get_loop recursive_insert get_index split_leaf
    split_path prefix_mismatch check_prefix path_at leaf_matches make_leaf first_diff first_index
run = tt

abbrev sample : Run Tree
sample =
    put_all ((1, 10) ∷ (2, 20) ∷ (0x1000_0000_0000_0001, 30) ∷ (0x100, 40) ∷ (2, 21) ∷ [])
      new_wort_tree

get_sample : (sample >>= λ t. wort_get t 0x100 8) ≡ ok 40
unfolding run
get_sample = refl

get_sample_updated : (sample >>= λ t. wort_get t 2 8) ≡ ok 21
unfolding run
get_sample_updated = refl

get_sample_absent : (sample >>= λ t. wort_get t 3 8) ≡ ok 0
unfolding run
get_sample_absent = refl

size_sample : (sample >>= λ t. ok t.size) ≡ ok 4
unfolding run
size_sample = refl
