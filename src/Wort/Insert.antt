-- ===== src/Wort/Insert.antt =====
-- `recursive_insert` and `wort_put` on well-formed trees.
use wrert.Prelude.{
  ℕ, ◌+◌, ◌-◌, ◌^◌, ◌<◌, ◌≡◌, refl, sym, ap, ◌∙◌, inl, inr, false, Option, none, some, arith, ◌==◌,
  if◌then◌else◌, ltb, leb, update, Bool-cases, ==→eq, ==→ne, ne→==, eq→==,
}
use wrert.Wort.Digits.{get_index-lt}
use wrert.Wort.Lookup.{lookup, lookup-child, path_at-IsHeader}
use wrert.Wort.Paths.{Inserts}
use wrert.Wort.Shape.{Agrees, IsLeaf, Branches, IsHeader, Wf, Agrees-update}
use wrert.Wort.SplitLeaf.{split_leaf-Inserts}
use wrert.Wort.SplitPath.{prefix_mismatch-Mismatch, split_path-Inserts}
use wrert.Wort.{
  Leaf, Header, Node, null, leaf, node16, ok, ◌>>=◌, get_index, is_null, wort_all_subtree_kv,
  add_child, make_leaf, recursive_insert, leaf_matches, prefix_mismatch, split_leaf, split_path,
}

module _ (key_len key value : ℕ) (small : key < 2 ^ 64) where
  -- the tests of the C code lead to one of two continuations
  insert-node16 :
      (q : ℕ → ℕ) (d : ℕ) (h : Header) (c : ℕ → Node) (r : ℕ × Option Leaf)
      → IsHeader q d h
      → prefix_mismatch h c key d ≡ ok r
      → recursive_insert (node16 h c) key key_len value d ≡ (
          if leb h.pwortial_len r.0
          then (recursive_insert
                (c (get_index key (d + h.pwortial_len)))
                key
                key_len
                value
                (d + h.pwortial_len + 1)
              >>= λ r. ok (node16 h (add_child c (get_index key (d + h.pwortial_len)) r.0), r.1))
          else (split_path h c key key_len value d r.0 r.1 >>= λ n. ok (n, none)))
  unfolding recursive_insert
  insert-node16 q d h c r head run = rw (path_at-IsHeader q d h c head, run) refl

  inside-Inserts :
      (p q : ℕ → ℕ) (d : ℕ) (h : Header) (c : ℕ → Node)
      → IsHeader q d h
      → ((j : ℕ) → j < d → q j ≡ p j)
      → Branches c
      → ((i : ℕ)
          → i < 16
          → Wf key_len (update q (d + h.pwortial_len) i) (d + h.pwortial_len + 1) (c i))
      → (r : Node × Option ℕ)
      → Inserts key_len
          (update q (d + h.pwortial_len) (get_index key (d + h.pwortial_len)))
          (d + h.pwortial_len + 1)
          key
          value
          (c (get_index key (d + h.pwortial_len)))
          r
      → Inserts key_len p d key value
          (node16 h c)
          (node16 h (add_child c (get_index key (d + h.pwortial_len)) r.0), r.1)
  unfolding add_child
  inside-Inserts p q d h c head above (a, b, ab, b16, na, nb) below r ins = record {
    shape = w;
    present = unfold is_null in refl;
    old = ins.old ∙ sym (lookup-child key_len p d h c key before);
    holds = holds;
  }
    where
      e : ℕ
      e = d + h.pwortial_len

      i : ℕ
      i = get_index key e

      before : Wf key_len p d (node16 h c)
      before = (q, head, above, (a, b, ab, b16, na, nb), below)

      kept : (x : ℕ) → is_null (c x) ≡ false → is_null (update c i r.0 x) ≡ false
      kept x nn = elim (Bool-cases (i == x)) [
        | inl here ↦ rw here ins.present
        | inr other ↦ rw other nn
      ]

      w : Wf key_len p d (node16 h (update c i r.0))
      w = (
        q,
        head,
        above,
        (a, b, ab, b16, kept a na, kept b nb),
        λ x lt. elim (Bool-cases (i == x)) [
          | inl here ↦ rw here (rw (==→eq i x here) at ins.shape)
          | inr other ↦ rw other (below x lt)
        ],
      )

      holds :
          (k : ℕ)
          → lookup k (wort_all_subtree_kv (node16 h (update c i r.0)))
            ≡ (if key == k then some value else lookup k (wort_all_subtree_kv (node16 h c)))
      holds k =
          rw
            (lookup-child key_len p d h (update c i r.0) k w, lookup-child key_len p d h c k before)
            (elim (Bool-cases (i == get_index k e)) [
              | inl here ↦ rw (here, ins.holds k, ==→eq i (get_index k e) here) refl
              | inr other ↦
                  rw (other, ne→== key k (λ same. ==→ne i _ other (ap (λ x. get_index x e) same)))
                    refl
            ])

  -- An empty place, and a leaf with the same key.
  leaf-Inserts :
      (p : ℕ → ℕ) (d : ℕ)
      → Agrees p d key
      → Inserts key_len p d key value null (make_leaf key key_len value, none)
  unfolding make_leaf is_null lookup wort_all_subtree_kv
  leaf-Inserts p d on = record {
    shape = (refl, small, on);
    present = refl;
    old = refl;
    holds = λ k. refl;
  }

  update-Inserts :
      (p : ℕ → ℕ) (d : ℕ) (l : Leaf)
      → IsLeaf key_len p d l
      → l.key ≡ key
      → Inserts key_len p d key value (leaf l) (leaf (record l { value = value }), some l.value)
  unfolding is_null lookup wort_all_subtree_kv
  update-Inserts p d l is same = record {
    shape = is;
    present = refl;
    old = ground arith;
    holds = λ k. ground arith;
  }

  -- An insertion ends without fault, and inserts.
  pub recursive_insert-Inserts :
      (p : ℕ → ℕ) (d : ℕ) (n : Node)
      → Wf key_len p d n
      → Agrees p d key
      → (r : Node × Option ℕ) × (recursive_insert n key key_len value d ≡ ok r)
        × Inserts key_len p d key value n r
  recursive_insert-Inserts p d null w on =
      ((make_leaf key key_len value, none), unfold recursive_insert in refl, leaf-Inserts p d on)
  recursive_insert-Inserts p d (leaf l) (len, fits, agree) on = elim (Bool-cases (l.key == key)) [
    | inl same ↦ (
      (leaf (record l { value = value }), some l.value),
      unfold recursive_insert leaf_matches in rw (eq→== l.key_len key_len len, same) refl,
      update-Inserts p d l (len, fits, agree) (==→eq l.key key same),
    )
    | inr other ↦ (
      (split_leaf l key key_len value d, none),
      unfold recursive_insert leaf_matches in rw (eq→== l.key_len key_len len, other) refl,
      split_leaf-Inserts key_len p d l key value (len, fits, agree) small on
          (==→ne l.key key other),
    )
  ]
  recursive_insert-Inserts p d (node16 h c) (q, head, above, two, below) on =
      let e = d + h.pwortial_len in
      let i = get_index key e in
      let (m, run, mis) = prefix_mismatch-Mismatch key_len q d h c head two below key in
      elim (Bool-cases (leb h.pwortial_len m.0)) [
        | inl whole ↦
            let along : Agrees q e key = λ x lt. elim (Bool-cases (ltb x d)) [
              | inl old ↦ on x (ground arith) ∙ sym (above x (ground arith))
              | inr new ↦
                  let at : d + (x - d) ≡ x = ground arith in
                  rw at at (mis.same (x - d) (ground arith) (ground arith))
            ] in
            let (r, inner, ins) =
              recursive_insert-Inserts (update q e i) (e + 1) (c i) (below i (get_index-lt key e))
                (Agrees-update q e i key along refl) in
            (
              _,
              rw (insert-node16 q d h c m head run, whole, inner) refl,
              inside-Inserts p q d h c head above two below r ins,
            )
        | inr part ↦
            let (n, cut, ins) =
              split_path-Inserts key_len q d h c head two below p key value m.0 m.1 above small on
                mis (ground arith) in
            (_, rw (insert-node16 q d h c m head run, part, cut) refl, ins)
      ]
