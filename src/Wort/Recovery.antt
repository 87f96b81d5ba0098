-- ===== src/Wort/Recovery.antt =====
-- Nodes whose header was not yet rewritten when the program crashed: the depth in such a header is
-- not the depth of the node, and the path is computed again from two leaves.
use wrert.Prelude.{
  ℕ, ◌+◌, ◌-◌, ◌^◌, ◌≤◌, ◌<◌, ◌≡◌, ◌≢◌, refl, sym, ◌∙◌, inl, inr, Bool, true, false, not, Option,
  some, arith, ltb, update, update_self, update_ne, Bool-cases, subst, ne→==, eq→==, first_index,
  first_index-some,
}
use wrert.Wort.Lookup.{lookup, get_loop-lookup}
use wrert.Wort.Paths.{Inserts}
use wrert.Wort.Insert.{recursive_insert-Inserts}
use wrert.Wort.Shape.{Agrees, IsLeaf, Branches, IsHeader, Wf, minimum-IsLeaf}
use wrert.Wort.SplitLeaf.{lcp-agree, lcp-differ, path_of-IsHeader}
use wrert.Wort.{
  Leaf, Header, Node, node16, ok, is_null, minimum, wort_all_subtree_kv, old_path, path_at, path_of,
  get_loop, recursive_insert, longest_common_prefix,
}

-- Two leaves below different children part exactly at the digit of the children.
lcp-children :
    (key_len : ℕ) (q : ℕ → ℕ) (d e i j : ℕ) (l1 l2 : Leaf)
    → d ≤ e
    → e < 16
    → i ≢ j
    → IsLeaf key_len (update q e i) (e + 1) l1
    → IsLeaf key_len (update q e j) (e + 1) l2
    → d + longest_common_prefix l1 l2 d ≡ e
lcp-children key_len q d e i j l1 l2 le short ne (n1, s1, a1) (n2, s2, a2) =
    elim (Bool-cases (ltb (d + longest_common_prefix l1 l2 d) e)) [
      | inl early ↦
          let x = d + longest_common_prefix l1 l2 d in
          let off : e ≢ x = ground arith in
          absurd (
            lcp-differ l1 l2 d (ground arith) (
              a1 x (ground arith)
              ∙ update_ne q e x i off
              ∙ sym (update_ne q e x j off)
              ∙ sym (a2 x (ground arith))))
      | inr not_early ↦ elim (Bool-cases (ltb e (d + longest_common_prefix l1 l2 d))) [
        | inl late ↦ absurd (
            ne (
              sym (update_self q e i)
              ∙ sym (a1 e (omega arith))
              ∙ lcp-agree l1 l2 d e le (ground arith)
              ∙ a2 e (omega arith)
              ∙ update_self q e j))
        | inr not_late ↦ ground arith
      ]
    ]

not-false : (b : Bool) → not b ≡ true → b ≡ false
not-false b t = ground arith

-- The two loops over the children end at two of them.
two_children :
    (c : ℕ → Node)
    → Branches c
    → (i : ℕ) × (j : ℕ) × (first_index (λ x. not (is_null (c x))) 16 0 ≡ some i)
      × (first_index (λ x. not (is_null (c x))) (16 - (i + 1)) (i + 1) ≡ some j)
      × (i < j)
      × (j < 16)
      × (is_null (c i) ≡ false)
      × (is_null (c j) ≡ false)
two_children c (a, b, ab, b16, na, nb) =
    let test : ℕ → Bool = λ x. not (is_null (c x)) in
    let (i, first, ti, i0, ia) =
      first_index-some test 16 0 a (omega arith) (omega arith) (rw na refl) in
    let (j, second, tj, ij, jb) =
      first_index-some test (16 - (i + 1)) (i + 1) b (omega arith) (omega arith) (rw nb refl) in
    (
      i,
      j,
      first,
      second,
      omega arith,
      omega arith,
      not-false (is_null (c i)) ti,
      not-false (is_null (c j)) tj,
    )

old_path-ok :
    (c : ℕ → Node) (d i j : ℕ) (l1 l2 : Leaf)
    → first_index (λ x. not (is_null (c x))) 16 0 ≡ some i
    → first_index (λ x. not (is_null (c x))) (16 - (i + 1)) (i + 1) ≡ some j
    → minimum (c i) ≡ ok l1
    → minimum (c j) ≡ ok l2
    → old_path c d
      ≡ ok (record {
        depth = d;
        pwortial_len = longest_common_prefix l1 l2 d;
        pwortial = path_of l2.key d (longest_common_prefix l1 l2 d);
      })
unfolding old_path
old_path-ok c d i j l1 l2 first second run1 run2 =
    rw (first, old_path) (rw (second, old_path) (rw (run1, run2) refl))

module _ (key_len : ℕ) (q : ℕ → ℕ) (d e : ℕ) (h : Header) (c : ℕ → Node) (le : d ≤ e)
    (short : e < 16) (two : Branches c)
    (below : (i : ℕ) → i < 16 → Wf key_len (update q e i) (e + 1) (c i)) where
  -- The path that is computed again is the one from this depth to the digit of the children.
  pub old_path-IsHeader :
      (p : Header) × (old_path c d ≡ ok p) × IsHeader q d p × (d + p.pwortial_len ≡ e)
  old_path-IsHeader =
      let (i, j, first, second, ij, j16, ni, nj) = two_children c two in
      let (l1, run1, is1) =
        minimum-IsLeaf key_len (update q e i) (e + 1) (c i) (below i (omega arith)) ni in
      let (l2, run2, is2) = minimum-IsLeaf key_len (update q e j) (e + 1) (c j) (below j j16) nj in
      let end = lcp-children key_len q d e i j l1 l2 le short (omega arith) is1 is2 in
      (
        _,
        old_path-ok c d i j l1 l2 first second run1 run2,
        path_of-IsHeader q d (longest_common_prefix l1 l2 d) l2.key (omega arith)
            (λ x lt. is2.2 (d + x) (omega arith) ∙ update_ne q e (d + x) j (omega arith)),
        end,
      )

  -- An operation that meets a stale header goes on as on the repaired node.
  get_loop-stale_path :
      (p : Header) (key : ℕ)
      → path_at h c d ≡ ok p
      → IsHeader q d p
      → get_loop (node16 h c) key key_len d ≡ get_loop (node16 p c) key key_len d
  unfolding get_loop path_at
  get_loop-stale_path p key run is = rw (run, eq→== p.depth d is.0) refl

  insert-stale_path :
      (p : Header) (key value : ℕ)
      → path_at h c d ≡ ok p
      → IsHeader q d p
      → recursive_insert (node16 h c) key key_len value d
        ≡ recursive_insert (node16 p c) key key_len value d
  unfolding recursive_insert path_at
  insert-stale_path p key value run is = rw (run, eq→== p.depth d is.0) refl

  path_at-stale : (p : Header) → h.depth ≢ d → old_path c d ≡ ok p → path_at h c d ≡ ok p
  unfolding path_at
  path_at-stale p ne run = rw (ne→== h.depth d ne) run

  repaired-Wf : (p : Header) → IsHeader q d p → d + p.pwortial_len ≡ e → Wf key_len q d (node16 p c)
  repaired-Wf p is end = (
    q,
    is,
    λ j lt. refl,
    two,
    subst (λ x. (i : ℕ) → i < 16 → Wf key_len (update q x i) (x + 1) (c i)) (sym end) below,
  )

  -- At a node whose header has another depth, where at least two children are not null and each child
  -- is well formed below the node's path, a lookup follows no null pointer and answers what the list of
  -- the node's pairs has under the key.
  pub get_loop-stale :
      (key : ℕ)
      → h.depth ≢ d
      → get_loop (node16 h c) key key_len d ≡ ok (lookup key (wort_all_subtree_kv (node16 h c)))
  unfolding wort_all_subtree_kv
  get_loop-stale key ne =
      let (p, run, is, end) = old_path-IsHeader in
      get_loop-stale_path p key (path_at-stale p ne run) is
      ∙ get_loop-lookup key_len q d (node16 p c) key (repaired-Wf p is end)

  -- At a node whose header has another depth, where at least two children are not null and each child
  -- is well formed below the node's path, the insertion of a key of 64 bits that leads to the node
  -- follows no null pointer and leaves a well-formed node with a header of its own depth, in which the
  -- pair of that key alone has changed.
  pub recursive_insert-stale :
      (key value : ℕ)
      → h.depth ≢ d
      → key < 2 ^ 64
      → Agrees q d key
      → (r : Node × Option ℕ) × (recursive_insert (node16 h c) key key_len value d ≡ ok r)
        × Inserts key_len q d key value (node16 h c) r
  unfolding wort_all_subtree_kv
  recursive_insert-stale key value ne small on =
      let (p, run, is, end) = old_path-IsHeader in
      let (r, done, ins) =
        recursive_insert-Inserts key_len key value small q d (node16 p c) (repaired-Wf p is end)
          on in
      (
        r,
        insert-stale_path p key value (path_at-stale p ne run) is ∙ done,
        record { shape = ins.shape; present = ins.present; old = ins.old; holds = ins.holds },
      )
