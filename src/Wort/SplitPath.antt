-- ===== src/Wort/SplitPath.antt =====
-- The insertion of a key that leaves the compressed path of a node.
use wrert.Prelude.{
  ℕ, ◌+◌, ◌-◌, ◌^◌, ◌≤◌, ◌<◌, ◌≡◌, ◌≢◌, refl, sym, ap, ◌∙◌, inl, inr, true, Option, none, some,
  arith, ◌==◌, if◌then◌else◌, ltb, leb, update, min, Bool-cases, subst, ==→eq, ==→ne, eq→==,
  first_diff, first_diff_bounds, first_diff_agree, first_diff_differ,
}
use mathlib.Core.Option.{some-injective}
use wrert.Wort.Digits.{get_index-lt}
use wrert.Wort.Lookup.{lookup, lookup-off_header}
use wrert.Wort.Paths.{pair, pair-Wf, lookup-pair, Inserts}
use wrert.Wort.Shape.{Agrees, IsLeaf, Branches, IsHeader, Wf, Agrees-update, minimum-path}
use wrert.Wort.SplitLeaf.{path_of-IsHeader}
use wrert.Wort.{
  Leaf, Header, Node, node16, ok, get_index, is_null, wort_all_subtree_kv, max_prefix_len,
  make_leaf, prefix_mismatch, leaf_or_minimum, shorten, split_path,
}

-- A key that a digit tells apart from all that is stored below the digit `i`.
new_digit :
    (f : ℕ → ℕ) (i key k value : ℕ) (rest : Option ℕ)
    → i ≢ f key
    → (f k ≢ i → rest ≡ none)
    → (if f key == f k
        then (if key == k then some value else none)
        else if i == f k
        then rest
        else none)
      ≡ (if key == k then some value else rest)
new_digit f i key k value rest ne off = elim (Bool-cases (key == k)) [
  | inl e ↦ rw (e, eq→== (f key) (f k) (ap f (==→eq key k e))) refl
  | inr other ↦ rw other (elim (Bool-cases (f key == f k)) [
    | inl same ↦ rw same (sym (off (λ e. ne (sym e ∙ sym (==→eq (f key) (f k) same)))))
    | inr apart ↦ rw apart (elim (Bool-cases (i == f k)) [
      | inl below ↦ rw below refl
      | inr none' ↦ rw none' (sym (off (λ e. ==→ne i (f k) none' (sym e))))
    ])
  ])
]

-- A node whose header and children follow the path `q`.
module _ (key_len : ℕ) (q : ℕ → ℕ) (d : ℕ) (h : Header) (c : ℕ → Node) (head : IsHeader q d h)
    (two : Branches c)
    (below : (i : ℕ)
      → i < 16
      → Wf key_len (update q (d + h.pwortial_len) i) (d + h.pwortial_len + 1) (c i)) where
  -- Where the key leaves the path, and the leaf that was read, if any.
  pub record Mismatch (key : ℕ) (r : ℕ × Option Leaf) : Type 0 where
    pub same : (i : ℕ) → i < r.0 → i < h.pwortial_len → get_index key (d + i) ≡ q (d + i)
    pub differ : r.0 < h.pwortial_len → get_index key (d + r.0) ≢ q (d + r.0)
    pub seen : (l : Leaf) → r.1 ≡ some l → IsLeaf key_len q (d + h.pwortial_len) l

  -- The second loop of `prefix_mismatch`, against the digits of a leaf.
  leaf_loop :
      (key : ℕ) (l : Leaf) (i : ℕ)
      → IsLeaf key_len q (d + h.pwortial_len) l
      → i ≤ 16 - d
      → ((j : ℕ) → j < i → j < h.pwortial_len → get_index key (d + j) ≡ q (d + j))
      → Mismatch key (
        first_diff (λ x. get_index l.key (x + d)) (λ x. get_index key (d + x)) (16 - d - i) i,
        some l,
      )
  leaf_loop key l i (len, small, agree) le before =
      let n =
        first_diff (λ x. get_index l.key (x + d)) (λ x. get_index key (d + x)) (16 - d - i) i in
      let digit : (j : ℕ) → j < h.pwortial_len → get_index l.key (j + d) ≡ q (d + j) =
        λ j lt. agree (j + d) (omega arith) ∙ ap q (omega arith) in
      record {
        same = λ j lt in_path. elim (Bool-cases (ltb j i)) [
          | inl old ↦ before j (ground arith) in_path
          | inr new ↦
              sym (
                first_diff_agree (λ x. get_index l.key (x + d)) (λ x. get_index key (d + x))
                  (16 - d - i) i j (ground arith) lt)
              ∙ digit j in_path
        ];
        differ = λ lt e.
            first_diff_differ (λ x. get_index l.key (x + d)) (λ x. get_index key (d + x))
              (16 - d - i) i (omega (arith, head.1)) (digit n lt ∙ sym e);
        seen = λ l' e.
            subst (IsLeaf key_len q (d + h.pwortial_len)) (some-injective l l' e)
              (len, small, agree);
      }

  pub prefix_mismatch-Mismatch :
      (key : ℕ) → (r : ℕ × Option Leaf) × (prefix_mismatch h c key d ≡ ok r) × Mismatch key r
  unfolding prefix_mismatch
  prefix_mismatch-Mismatch key =
      let digit : ℕ → ℕ = λ i. get_index key (d + i) in
      let n = min (min max_prefix_len h.pwortial_len) (16 - d) in
      let i = first_diff h.pwortial digit n 0 in
      let (lo, hi) = first_diff_bounds h.pwortial digit n 0 in
      let short : d + h.pwortial_len < 16 = head.1 in
      let same : (j : ℕ) → j < i → j < h.pwortial_len → get_index key (d + j) ≡ q (d + j) =
        λ j lt in_path.
          sym (first_diff_agree h.pwortial digit n 0 j (omega arith) lt) ∙ head.2 j (omega arith) in
      elim (Bool-cases (ltb i n)) [
        | inl lt ↦ (
          (i, none),
          rw lt refl,
          record {
            same = same;
            differ = λ in_path e.
                first_diff_differ h.pwortial digit n 0 (ground arith)
                  (head.2 i (ground arith) ∙ sym e);
            seen = λ l e. cc;
          },
        )
        | inr ge ↦ elim (Bool-cases (ltb max_prefix_len h.pwortial_len)) [
          | inr short' ↦ (
            (i, none),
            rw (ge, short') refl,
            record { same = same; differ = λ in_path. absurd (ground arith); seen = λ l e. cc },
          )
          | inl long ↦
              let (l, run, is) = minimum-path key_len q (d + h.pwortial_len) h c two below in
              (_, rw (ge, long, run) refl, leaf_loop key l i is (omega arith) same)
        ]
      ]

  -- The old node's digit and shortened path.
  record Shortened (diff : ℕ) (r : ℕ × Header) : Type 0 where
    digit : r.0 ≡ q (d + diff)
    path : IsHeader q (d + diff + 1) r.1
    len : diff + 1 + r.1.pwortial_len ≡ h.pwortial_len

  leaf_or_minimum-IsLeaf :
      (seen : Option Leaf)
      → ((l : Leaf) → seen ≡ some l → IsLeaf key_len q (d + h.pwortial_len) l)
      → (l : Leaf) × (leaf_or_minimum seen (node16 h c) ≡ ok l)
        × IsLeaf key_len q (d + h.pwortial_len) l
  unfolding leaf_or_minimum
  leaf_or_minimum-IsLeaf (some l) is = (l, refl, is l refl)
  leaf_or_minimum-IsLeaf none is = minimum-path key_len q (d + h.pwortial_len) h c two below

  shorten-Shortened :
      (diff : ℕ) (seen : Option Leaf)
      → diff < h.pwortial_len
      → ((l : Leaf) → seen ≡ some l → IsLeaf key_len q (d + h.pwortial_len) l)
      → (r : ℕ × Header) × (shorten h c d diff seen ≡ ok r) × Shortened diff r
  unfolding shorten
  shorten-Shortened diff seen lt is = elim (Bool-cases (leb h.pwortial_len max_prefix_len)) [
    | inl few ↦ (
      _,
      rw few refl,
      record {
        digit = head.2 diff (ground arith);
        path = (refl, omega (arith, head.1), stored few);
        len = omega arith;
      },
    )
    | inr many ↦
        let (l, run, (len, small, agree)) = leaf_or_minimum-IsLeaf seen is in
        (
          _,
          rw (many, run) refl,
          record {
            digit = agree (d + diff) (omega arith);
            path =
                path_of-IsHeader q (d + diff + 1) (h.pwortial_len - (diff + 1)) l.key
                  (omega (arith, head.1)) (λ i lt. agree (d + diff + 1 + i) (omega arith));
            len = omega arith;
          },
        )
  ]
    where
      stored :
          leb h.pwortial_len max_prefix_len ≡ true
          → (i : ℕ) → i < min max_prefix_len (h.pwortial_len - (diff + 1))
          → (if ltb i (min max_prefix_len (h.pwortial_len - (diff + 1)))
              then h.pwortial (diff + 1 + i)
              else 0)
            ≡ q (d + diff + 1 + i)
      stored few i lt =
          let at : ltb i (min max_prefix_len (h.pwortial_len - (diff + 1))) ≡ true = ground arith in
          rw at (head.2 (diff + 1 + i) (ground arith) ∙ ap q (omega arith))

  path-lt : (i : ℕ) → i < h.pwortial_len → q (d + i) < 16
  path-lt i lt =
      let (l, run, (len, small, agree)) =
        minimum-path key_len q (d + h.pwortial_len) h c two below in
      rw (← agree (d + i) (omega arith)) (get_index-lt l.key (d + i))

  -- What is left of the node behind the split follows the same path.
  rest-Wf :
      (diff : ℕ) (r : ℕ × Header)
      → diff < h.pwortial_len
      → Shortened diff r
      → Wf key_len (update q (d + diff) r.0) (d + diff + 1) (node16 r.1 c)
  rest-Wf diff r lt s =
      let end : d + h.pwortial_len ≡ d + diff + 1 + r.1.pwortial_len = omega (arith, s.len) in
      (
        q,
        s.path,
        Agrees-path,
        two,
        subst (λ e. (i : ℕ) → i < 16 → Wf key_len (update q e i) (e + 1) (c i)) end below,
      )
    where
      Agrees-path : (j : ℕ) → j < d + diff + 1 → q j ≡ update q (d + diff) r.0 j
      Agrees-path j lt' = elim (Bool-cases (d + diff == j)) [
        | inl here ↦ rw here (ap q (sym (==→eq (d + diff) j here)) ∙ sym s.digit)
        | inr other ↦ rw other refl
      ]

  -- A split at the digit `diff` of the path inserts the key.
  pub split_path-Inserts :
      (p : ℕ → ℕ) (key value diff : ℕ) (seen : Option Leaf)
      → ((j : ℕ) → j < d → q j ≡ p j)
      → key < 2 ^ 64
      → Agrees p d key
      → Mismatch key (diff, seen)
      → diff < h.pwortial_len
      → (n : Node) × (split_path h c key key_len value d diff seen ≡ ok n)
        × Inserts key_len p d key value (node16 h c) (n, none)
  unfolding split_path
  split_path-Inserts p key value diff seen above small on m lt =
      let (r, run, s) = shorten-Shortened diff seen lt m.seen in
      (pair head' r.0 (node16 r.1 c) j (make_leaf key key_len value), rw run refl, inserts r s)
    where
      j : ℕ
      j = get_index key (d + diff)

      head' : Header
      head' = record {
        depth = d;
        pwortial_len = diff;
        pwortial = λ i. if ltb i (min max_prefix_len diff) then h.pwortial i else 0;
      }

      head'-IsHeader : IsHeader q d head'
      head'-IsHeader = (refl, omega (arith, head.1), λ i small. ground (arith, head.2 i))

      absent : lookup key (wort_all_subtree_kv (node16 h c)) ≡ none
      absent = lookup-off_header key_len q d h c key diff below lt (m.differ lt)

      key_path : Agrees q (d + diff) key
      key_path x lt' = elim (Bool-cases (ltb x d)) [
        | inl old ↦ on x (ground arith) ∙ sym (above x (ground arith))
        | inr new ↦
            let at : d + (x - d) ≡ x = ground arith in
            rw at at (m.same (x - d) (ground arith) (ground arith))
      ]

      inserts :
          (r : ℕ × Header)
          → Shortened diff r
          → Inserts key_len p d key value
              (node16 h c)
              (pair head' r.0 (node16 r.1 c) j (make_leaf key key_len value), none)
      inserts r s =
          let w =
            pair-Wf key_len p q d head' r.0 j (node16 r.1 c) (make_leaf key key_len value)
              head'-IsHeader above (rw s.digit (path-lt diff lt)) (get_index-lt key (d + diff))
              (λ e. m.differ lt (sym e ∙ s.digit)) (unfold is_null in refl)
              (unfold is_null make_leaf in refl) (rest-Wf diff r lt s)
              (unfold make_leaf in (refl, small, Agrees-update q (d + diff) j key key_path refl)) in
          record {
            shape = w;
            present = unfold is_null in refl;
            old = sym absent;
            holds = λ k.
                rw
                  (lookup-pair key_len p q d head' r.0 j (node16 r.1 c)
                    (make_leaf key key_len value) w k)
                  (unfold make_leaf lookup wort_all_subtree_kv in
                    new_digit (λ x. get_index x (d + diff)) r.0 key k value
                      (lookup k (wort_all_subtree_kv (node16 h c)))
                      (λ e. m.differ lt (sym e ∙ s.digit))
                      (λ ne.
                        lookup-off_header key_len q d h c k diff below lt
                          (λ e. ne (e ∙ sym s.digit))));
          }
