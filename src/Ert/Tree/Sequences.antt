-- ===== src/Ert/Tree/Sequences.antt =====
-- A new tree, and the insertion of keys that share their upper half, one after the other.
use wrert.Prelude.{
  ℕ, zero, suc, ◌+◌, ◌*◌, ◌^◌, ◌<◌, ◌≤◌, ◌≡◌, inl, inr, refl, ap, ◌∙◌, none, ◌==◌, if◌then◌else◌,
  Run, ok, ◌>>=◌, List, [], ◌∷◌, Bool-cases, ==→eq, ==→ne, arith, update,
}
use wrert.Ert.Memory.{Memory, Node, Header}
use wrert.Ert.Node.{get, new_node}
use wrert.Ert.Node.Fresh.{created, created-WellFormed, get-created}
use wrert.Ert.Tree.{
  insert, insert_loop, insert_round, first_len, search, missing, assign, new_tree, no_memory,
}
use wrert.Ert.Tree.Heads.{assign-HasPrefix}
use wrert.Ert.Tree.Rooted.{Rooted, IsValue, answer, search-answer, insert-search}

-- The tree after the first round of its first insertion, which gives the root its prefix.
module _ (upper low : ℕ) (small : upper < 2 ^ 32) (small' : low < 2 ^ 32) where
  abbrev root_node : Node
  root_node = (created no_memory 0).nodes 1

  abbrev header : Header
  header = assign (record (root_node.header) { len = 4 }) (upper * 2 ^ 32 + low) 0

  pub first : Memory
  first = record (created no_memory 0) {
    nodes = update (created no_memory 0).nodes 1 (record root_node { header = header });
    root = 1;
  }

  insert-first :
      (value fuel : ℕ)
      → insert (suc fuel) new_tree (upper * 2 ^ 32 + low) value
        ≡ insert fuel first (upper * 2 ^ 32 + low) value
  unfolding insert insert_loop insert_round first_len new_tree first new_node
  insert-first value fuel = refl

  get-first : (k : ℕ) → 0 < k → get first 1 k ≡ none
  unfolding get first
  get-first k pos = get-created no_memory 0 k pos

  pub first-Rooted : Rooted upper first
  unfolding first IsValue assign
  first-Rooted = record {
    well =
        (let w = created-WellFormed no_memory 0 in
          record {
            global = w.global;
            depth = w.depth;
            same = w.same;
            apart = w.apart;
            old = w.old;
            keyed = w.keyed;
          });
    top = refl;
    prefix = assign-HasPrefix upper low (record (root_node.header) { len = 4 }) small small' refl;
    some_root = omega arith;
    some_node = omega arith;
    values = λ k pos lt. rw (get-first k pos) tt;
  }

  search-first :
      (k rounds : ℕ)
      → 0 < k
      → k < 2 ^ 32
      → search (suc rounds) first (upper * 2 ^ 32 + k) ≡ ok missing
  unfolding answer first
  search-first k rounds pos lt =
      search-answer upper k first first-Rooted small pos lt rounds
      ∙ ap (λ o. ok (answer o)) (get-first k pos)

-- `Insert` of each pair, whose keys have the upper half `upper`.
unfoldable pub insert_all : (fuel upper : ℕ) → List (ℕ × ℕ) → Memory → Run Memory
insert_all fuel upper [] m = ok m
insert_all fuel upper ((low, value) ∷ pairs) m =
    insert fuel m (upper * 2 ^ 32 + low) value >>= insert_all fuel upper pairs

-- The last value that the pairs give a key, or `old`.
unfoldable pub last_value : List (ℕ × ℕ) → (low old : ℕ) → ℕ
last_value [] low old = old
last_value ((k, value) ∷ pairs) low old = last_value pairs low (if low == k then value else old)

unfoldable pub Lows : List (ℕ × ℕ) → Type 0
Lows [] = Unit
Lows ((k, value) ∷ pairs) = (0 < k) × (k < 2 ^ 32) × Lows pairs

module _ (upper fuel : ℕ) (small : upper < 2 ^ 32) (enough : 50 ≤ fuel) where
  -- What is left of a tree of which `old` says what a lookup answers.
  abbrev Ends : List (ℕ × ℕ) → Memory → (ℕ → ℕ) → Type 0
  Ends pairs m old =
      (m' : Memory) × (insert_all fuel upper pairs m ≡ ok m')
      × ((k rounds : ℕ)
          → 0 < k
          → k < 2 ^ 32
          → search (suc rounds) m' (upper * 2 ^ 32 + k) ≡ ok (last_value pairs k (old k)))

  insert_all-Ends :
      (pairs : List (ℕ × ℕ)) (m : Memory) (old : ℕ → ℕ)
      → Rooted upper m
      → Lows pairs
      → ((k rounds : ℕ)
          → 0 < k
          → k < 2 ^ 32
          → search (suc rounds) m (upper * 2 ^ 32 + k) ≡ ok (old k))
      → Ends pairs m old
  unfolding insert_all last_value Lows
  insert_all-Ends [] m old h lows says = (m, refl, λ k rounds pos lt. says k rounds pos lt)
  insert_all-Ends ((low, value) ∷ pairs) m old h (pos, lt, lows) says =
      let (m1, runs, h1, new, others) =
        insert-search upper low value fuel m h small pos lt enough in
      let says1 : (k rounds : ℕ)
          → 0 < k
          → k < 2 ^ 32
          → search (suc rounds) m1 (upper * 2 ^ 32 + k) ≡ ok (if k == low then value else old k) =
        λ k rounds pos' lt'. elim (Bool-cases (k == low)) [
          | inl e ↦ let at = ==→eq k low e in rw (e, at) (new rounds)
          | inr e ↦ rw e (others rounds k pos' lt' (==→ne k low e) ∙ says k rounds pos' lt')
        ] in
      let (m2, runs', says2) =
        insert_all-Ends pairs m1 (λ k. if k == low then value else old k) h1 lows says1 in
      (m2, ap (λ r. r >>= insert_all fuel upper pairs) runs ∙ runs', says2)

-- Keys that share their upper half and have a lower half other than 0 are inserted into a new tree, at
-- least one, with 51 rounds for each: all the insertions end, and a lookup of such a key then answers the
-- value of its last insertion, and -1 where there was none.
pub insert_all-search :
    (upper fuel low value : ℕ) (pairs : List (ℕ × ℕ))
    → upper < 2 ^ 32
    → 51 ≤ fuel
    → Lows ((low, value) ∷ pairs)
    → (m' : Memory) × (insert_all fuel upper ((low, value) ∷ pairs) new_tree ≡ ok m')
      × ((k rounds : ℕ)
          → 0 < k
          → k < 2 ^ 32
          → search (suc rounds) m' (upper * 2 ^ 32 + k)
            ≡ ok (last_value ((low, value) ∷ pairs) k missing))
unfolding insert_all last_value Lows
insert_all-search upper zero low value pairs small enough lows = absurd (omega arith)
insert_all-search upper (suc fuel) low value pairs small enough (pos, lt, lows) =
    let root = first-Rooted upper low small lt in
    let (m1, runs, h1, new, others) =
      insert-search upper low value fuel (first upper low small lt) root small pos lt
        (omega arith) in
    let says1 : (k rounds : ℕ)
        → 0 < k
        → k < 2 ^ 32
        → search (suc rounds) m1 (upper * 2 ^ 32 + k) ≡ ok (if k == low then value else missing) =
      λ k rounds pos' lt'. elim (Bool-cases (k == low)) [
        | inl e ↦ let at = ==→eq k low e in rw (e, at) (new rounds)
        | inr e ↦ rw e (
            others rounds k pos' lt' (==→ne k low e)
            ∙ search-first upper low small lt k rounds pos' lt')
      ] in
    let (m2, runs', says2) =
      insert_all-Ends upper (suc fuel) small (omega arith) pairs m1
        (λ k. if k == low then value else missing) h1 lows says1 in
    (
      m2,
      ap (λ r. r >>= insert_all (suc fuel) upper pairs)
            (insert-first upper low small lt value fuel ∙ runs)
          ∙ runs',
      says2,
    )
