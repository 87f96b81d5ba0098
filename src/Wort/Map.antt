-- ===== src/Wort/Map.antt =====
-- The public functions on a tree as a map from keys to values.
use wrert.Prelude.{
  ℕ, ◌+◌, ◌^◌, ◌<◌, ◌≡◌, refl, Option, none, some, List, ◌==◌, if◌then◌else◌, arith,
}
use wrert.Wort.Insert.{recursive_insert-Inserts}
use wrert.Wort.Lookup.{lookup, get_loop-lookup}
use wrert.Wort.Shape.{Wf}
use wrert.Wort.{
  Tree, KeyValue, Run, ok, ◌>>=◌, new_wort_tree, wort_get, wort_put, wort_all_subtree_kv,
}

-- A tree whose keys all have the length `key_len`.
abbrev pub IsTree : ℕ → Tree → Type 0
IsTree key_len t = Wf key_len (λ j. 0) 0 t.root

-- The pairs of a tree.
abbrev pub pairs : Tree → List KeyValue
pairs t = wort_all_subtree_kv t.root

-- `wort_get` answers 0 for a key that is not there.
abbrev pub value_or_zero : Option ℕ → ℕ
value_or_zero none = 0
value_or_zero (some v) = v

abbrev pub added : Option ℕ → ℕ
added none = 1
added (some v) = 0

-- The new tree is empty.
pub new-IsTree : (key_len : ℕ) → IsTree key_len new_wort_tree
unfolding new_wort_tree
new-IsTree key_len = tt

-- A lookup in a well-formed tree follows no null pointer; it answers the value that the list of
-- all pairs has under the key, and 0 where it has none.
pub wort_get-lookup :
    (key_len : ℕ) (t : Tree) (key : ℕ)
    → IsTree key_len t
    → wort_get t key key_len ≡ ok (value_or_zero (lookup key (pairs t)))
unfolding wort_get
wort_get-lookup key_len t key w =
    rw (get_loop-lookup key_len (λ j. 0) 0 t.root key w) (by_cases (lookup key (pairs t)))
  where
    by_cases :
        (o : Option ℕ)
        → ◌≡◌ {A = Run ℕ} (ok (elim o [ none ↦ 0 | some v ↦ v ])) (ok (value_or_zero o))
    by_cases none = refl
    by_cases (some v) = refl

-- What `wort_put` does to the map.
pub record Puts (key_len key value : ℕ) (t : Tree) (r : Tree × Option ℕ) : Type 0 where
  pub shape : IsTree key_len r.0
  pub old : r.1 ≡ lookup key (pairs t)
  pub size : r.0.size ≡ t.size + added r.1
  pub holds : (k : ℕ) → lookup k (pairs r.0) ≡ (if key == k then some value else lookup k (pairs t))

-- An insertion of a key of 64 bits into a well-formed tree follows no null pointer; it keeps the tree well formed,
-- returns the value that it replaces, counts a new key, and changes the pair of its key alone.
pub wort_put-Puts :
    (key_len key value : ℕ) (t : Tree)
    → IsTree key_len t
    → key < 2 ^ 64
    → (r : Tree × Option ℕ) × (wort_put t key key_len value ≡ ok r) × Puts key_len key value t r
unfolding wort_put
wort_put-Puts key_len key value t w small =
    let (r, run, ins) =
      recursive_insert-Inserts key_len key value small (λ j. 0) 0 t.root w (λ j lt. elim lt [ ]) in
    (
      _,
      rw run refl,
      record { shape = ins.shape; old = ins.old; size = counted r.1; holds = ins.holds },
    )
  where
    counted : (o : Option ℕ) → elim o [ none ↦ t.size + 1 | some v ↦ t.size ] ≡ t.size + added o
    counted none = refl
    counted (some v) = ground arith

-- After an insertion of a key of 64 bits into a well-formed tree a lookup of any key answers the new
-- value for that key, and what it answered before for another.
pub wort_get-put :
    (key_len key value k : ℕ) (t : Tree)
    → IsTree key_len t
    → key < 2 ^ 64
    → (wort_put t key key_len value >>= λ r. wort_get r.0 k key_len)
      ≡ (if key == k then ok value else wort_get t k key_len)
wort_get-put key_len key value k t w small =
    let (r, run, p) = wort_put-Puts key_len key value t w small in
    rw (run, wort_get-lookup key_len r.0 k p.shape, p.holds k, wort_get-lookup key_len t k w)
      (ground arith)
