-- ===== src/Wort/Paths.antt =====
-- The parts of an insertion: where a key leaves a stored path, and the nodes that a split makes.
use wrert.Prelude.{
  ℕ, ◌+◌, ◌<◌, ◌≡◌, ◌≢◌, refl, inl, inr, false, Option, none, some, arith, ◌==◌, if◌then◌else◌, ltb,
  update, Bool-cases, ==→eq,
}
use wrert.Wort.Lookup.{lookup, lookup-child}
use wrert.Wort.Shape.{Branches, IsHeader, Wf}
use wrert.Wort.{
  Header, Node, node16, get_index, is_null, wort_all_subtree_kv, add_child, no_children,
}

-- A node with two children, the second written last.
abbrev pub pair : Header → ℕ → Node → ℕ → Node → Node
pair h i a j b = node16 h (add_child (add_child no_children i a) j b)

-- Under different digits they make a well-formed node, and hold its pairs.
module _ (key_len : ℕ) (p q : ℕ → ℕ) (d : ℕ) (h : Header) (i j : ℕ) (a b : Node) where
  pub pair-Wf :
      IsHeader q d h
      → ((k : ℕ) → k < d → q k ≡ p k)
      → i < 16
      → j < 16
      → i ≢ j
      → is_null a ≡ false
      → is_null b ≡ false
      → Wf key_len (update q (d + h.pwortial_len) i) (d + h.pwortial_len + 1) a
      → Wf key_len (update q (d + h.pwortial_len) j) (d + h.pwortial_len + 1) b
      → Wf key_len p d (pair h i a j b)
  unfolding add_child
  pair-Wf head above i16 j16 ne na nb wa wb = (q, head, above, branches, below)
    where
      at_i : add_child (add_child no_children i a) j b i ≡ a
      at_i = ground arith

      at_j : add_child (add_child no_children i a) j b j ≡ b
      at_j = ground arith

      branches : Branches (add_child (add_child no_children i a) j b)
      branches = elim (Bool-cases (ltb i j)) [
        | inl lt ↦ (i, j, ground arith, j16, rw at_i na, rw at_j nb)
        | inr ge ↦ (j, i, ground arith, i16, rw at_j nb, rw at_i na)
      ]

      below :
          (k : ℕ)
          → k < 16
          → Wf key_len
              (update q (d + h.pwortial_len) k)
              (d + h.pwortial_len + 1)
              (add_child (add_child no_children i a) j b k)
      below k lt = elim (Bool-cases (j == k)) [
        | inl e ↦ rw e (rw (==→eq j k e) at wb)
        | inr e ↦
            rw e (elim (Bool-cases (i == k)) [
              | inl f ↦ rw f (rw (==→eq i k f) at wa)
              | inr f ↦ rw f tt
            ])
      ]

  pub lookup-pair :
      Wf key_len p d (pair h i a j b)
      → (k : ℕ)
      → lookup k (wort_all_subtree_kv (pair h i a j b)) ≡ (
          if j == get_index k (d + h.pwortial_len)
          then lookup k (wort_all_subtree_kv b)
          else if i == get_index k (d + h.pwortial_len)
          then lookup k (wort_all_subtree_kv a)
          else none)
  unfolding add_child wort_all_subtree_kv lookup
  lookup-pair w k =
      let e = d + h.pwortial_len in
      rw (lookup-child key_len p d h (add_child (add_child no_children i a) j b) k w)
        (elim (Bool-cases (j == get_index k e)) [
          | inl same ↦ rw same refl
          | inr other ↦ rw other (elim (Bool-cases (i == get_index k e)) [
            | inl same ↦ rw same refl
            | inr none' ↦ rw none' refl
          ])
        ])

-- What an insertion below a path does: the shape is kept, the old value is reported, and only the
-- pair of the key changes.
pub record Inserts (key_len : ℕ) (p : ℕ → ℕ) (d key value : ℕ) (n : Node) (r : Node × Option ℕ)
    : Type 0 where
  pub shape : Wf key_len p d r.0
  pub present : is_null r.0 ≡ false
  pub old : r.1 ≡ lookup key (wort_all_subtree_kv n)
  pub holds :
      (k : ℕ)
      → lookup k (wort_all_subtree_kv r.0)
        ≡ (if key == k then some value else lookup k (wort_all_subtree_kv n))
