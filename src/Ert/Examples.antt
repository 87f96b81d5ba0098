-- ===== src/Ert/Examples.antt =====
-- New trees, with their first keys.
use wrert.Prelude.{ℕ, suc, ◌+◌, ◌*◌, ◌^◌, ◌<◌, ◌≡◌, ◌≢◌, refl, true, List, [], ◌∷◌, ok, arith}
use wrert.Ert.Memory.{Memory, CounterRef, value_ref, counter_at, root_ref}
use wrert.Ert.Node.{put, double, split}
use wrert.Ert.Node.Children.{behind, double-behind}
use wrert.Ert.Node.Fresh.{created, created-WellFormed}
use wrert.Ert.Node.Insertions.{Puts, put-Puts}
use wrert.Ert.Node.Shape.{WellFormed, Same}
use wrert.Ert.Node.Doubles.{doubled, doubled-WellFormed}
use wrert.Ert.Node.Splits.{split-keeps}
use wrert.Ert.Tree.{insert, search, missing, no_memory, new_tree}
use wrert.Ert.Tree.Rooted.{Rooted, insert-search}
use wrert.Ert.Tree.Sequences.{first, first-Rooted, insert_all, last_value, Lows, insert_all-search}

abbrev rooted : Memory
rooted = record (created no_memory 0) { root = 1 }

rooted-WellFormed : WellFormed rooted 1
rooted-WellFormed = created-WellFormed no_memory 0

put-Puts_example :
    (m' : Memory) × (p' : ℕ) × (put 50 rooted 1 0x0102_0304 7 true root_ref ≡ ok (m', p'))
    × Puts rooted 1 0x0102_0304 7 true m' p'
put-Puts_example =
    put-Puts rooted 1 0x0102_0304 7 true 50 rooted-WellFormed refl refl (omega arith) (omega arith)
      (omega arith)

-- The tree whose root has two entries for its segment.
abbrev two_entries : Memory
two_entries = doubled rooted 1 rooted-WellFormed (omega arith) refl

split-keeps_example :
    WellFormed (split two_entries 2 1 1) 2 × Same two_entries 2 (split two_entries 2 1 1) 2
unfolding doubled
split-keeps_example =
    split-keeps two_entries 2 1 (doubled-WellFormed rooted 1 rooted-WellFormed (omega arith) refl)
      (omega arith) (omega arith)

-- A node of depth 1 below the first counter of bucket 5.
abbrev child : Memory
child = created rooted 1

abbrev above : CounterRef
above = record { segment = 1; index = 5; place = 0 }

double-behind_example :
    (m' : Memory) × (double child 2 (value_ref above) ≡ ok (m', 3))
    × (counter_at m' above ≡ counter_at child above)
    × (counter_at m' (behind above) ≡ record (counter_at child (behind above)) { subkey = 3 })
double-behind_example = double-behind child 2 above (omega arith) (omega arith) (omega arith)

abbrev headed : Memory
headed = first 3 5 (omega arith) (omega arith)

insert-search_example :
    (m' : Memory) × (insert 50 headed (3 * 2 ^ 32 + 6) 70 ≡ ok m')
    × Rooted 3 m'
    × ((rounds : ℕ) → search (suc rounds) m' (3 * 2 ^ 32 + 6) ≡ ok 70)
    × ((rounds k : ℕ)
        → 0 < k
        → k < 2 ^ 32
        → k ≢ 6
        → search (suc rounds) m' (3 * 2 ^ 32 + k) ≡ search (suc rounds) headed (3 * 2 ^ 32 + k))
insert-search_example =
    insert-search 3 6 70 50 headed (first-Rooted 3 5 (omega arith) (omega arith)) (omega arith)
      (omega arith) (omega arith) (omega arith)

abbrev rest : List (ℕ × ℕ)
rest = (6, 60) ∷ (5, 55) ∷ []

rest-Lows : Lows ((5, 50) ∷ rest)
unfolding Lows
rest-Lows = omega arith

insert_all-search_example :
    (m' : Memory) × (insert_all 51 3 ((5, 50) ∷ rest) new_tree ≡ ok m')
    × ((k rounds : ℕ)
        → 0 < k
        → k < 2 ^ 32
        → search (suc rounds) m' (3 * 2 ^ 32 + k) ≡ ok (last_value ((5, 50) ∷ rest) k missing))
insert_all-search_example = insert_all-search 3 51 5 50 rest (omega arith) (omega arith) rest-Lows
