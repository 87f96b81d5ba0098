-- ===== src/Wort/SplitLeaf.antt =====
-- The insertion of a key at a leaf: an update in place, or a node above two leaves.
use wrert.Prelude.{
  ℕ, ◌+◌, ◌-◌, ◌^◌, ◌≤◌, ◌<◌, ◌≡◌, ◌≢◌, refl, sym, ap, ◌∙◌, inl, inr, none, some, arith, ◌==◌,
  if◌then◌else◌, ltb, Bool-cases, ==→eq, ne→==, eq→==, first_diff_agree, first_diff_differ,
}
use wrert.Wort.Digits.{get_index-lt, eq_of_digits}
use wrert.Wort.Lookup.{lookup}
use wrert.Wort.Paths.{pair, pair-Wf, lookup-pair, Inserts}
use wrert.Wort.Shape.{Agrees, IsLeaf, IsHeader, Wf, Agrees-update}
use wrert.Wort.{
  Leaf, Header, leaf, get_index, is_null, wort_all_subtree_kv, longest_common_prefix, path_of,
  split_leaf,
}

-- The bytes of a path are the digits of any key that runs along it.
pub path_of-IsHeader :
    (q : ℕ → ℕ) (d len key : ℕ)
    → d + len < 16
    → ((i : ℕ) → i < len → get_index key (d + i) ≡ q (d + i))
    → IsHeader q d (record { depth = d; pwortial_len = len; pwortial = path_of key d len })
unfolding path_of
path_of-IsHeader q d len key short same = (refl, short, λ i lt. ground (arith, same i))

module _ (l1 l2 : Leaf) (d : ℕ) where
  -- Digits before the end of the common prefix are equal.
  pub lcp-agree :
      (j : ℕ)
      → d ≤ j
      → j < d + longest_common_prefix l1 l2 d
      → get_index l1.key j ≡ get_index l2.key j
  unfolding longest_common_prefix
  lcp-agree j lo hi =
      let at : d + (j - d) ≡ j = omega arith in
      rw at at (
        first_diff_agree (λ i. get_index l1.key (d + i)) (λ i. get_index l2.key (d + i)) (16 - d) 0
          (j - d) (omega arith) (omega arith))

  -- Different keys differ behind it.
  pub lcp-lt :
      (p : ℕ → ℕ)
      → l1.key < 2 ^ 64
      → l2.key < 2 ^ 64
      → Agrees p d l1.key
      → Agrees p d l2.key
      → l1.key ≢ l2.key
      → d + longest_common_prefix l1 l2 d < 16
  lcp-lt p s1 s2 a1 a2 ne = elim (Bool-cases (ltb (d + longest_common_prefix l1 l2 d) 16)) [
    | inl lt ↦ ground arith
    | inr ge ↦ absurd (
        ne (
          eq_of_digits l1.key l2.key s1 s2 λ j lt. elim (Bool-cases (ltb j d)) [
            | inl above ↦ a1 j (ground arith) ∙ sym (a2 j (ground arith))
            | inr behind ↦ lcp-agree j (ground arith) (ground arith)
          ]))
  ]

  pub lcp-differ :
      d + longest_common_prefix l1 l2 d < 16
      → get_index l1.key (d + longest_common_prefix l1 l2 d)
        ≢ get_index l2.key (d + longest_common_prefix l1 l2 d)
  unfolding longest_common_prefix
  lcp-differ lt =
      first_diff_differ (λ i. get_index l1.key (d + i)) (λ i. get_index l2.key (d + i)) (16 - d) 0
        (omega arith)

-- Two keys that a digit tells apart.
two_leaves :
    (f : ℕ → ℕ) (a b k : ℕ) (va vb : ℕ)
    → f a ≢ f b
    → (if f b == f k
        then (if b == k then some vb else none)
        else if f a == f k
        then (if a == k then some va else none)
        else none)
      ≡ (if b == k then some vb else if a == k then some va else none)
two_leaves f a b k va vb ne = elim (Bool-cases (b == k)) [
  | inl e ↦ rw (e, eq→== (f b) (f k) (ap f (==→eq b k e))) refl
  | inr other ↦ elim (Bool-cases (a == k)) [
    | inl e ↦
        let same = ap f (==→eq a k e) in
        rw (other, e, ne→== (f b) (f k) (λ x. ne (same ∙ sym x)), eq→== (f a) (f k) same) refl
    | inr none' ↦ rw (other, none') (ground arith)
  ]
]

pub split_leaf-Inserts :
    (key_len : ℕ) (p : ℕ → ℕ) (d : ℕ) (l : Leaf) (key value : ℕ)
    → IsLeaf key_len p d l
    → key < 2 ^ 64
    → Agrees p d key
    → l.key ≢ key
    → Inserts key_len p d key value (leaf l) (split_leaf l key key_len value d, none)
unfolding split_leaf lookup wort_all_subtree_kv
split_leaf-Inserts key_len p d l key value (len, small, agree) key_small on ne = record {
  shape = w;
  present = unfold is_null in refl;
  old = ground arith;
  holds = holds;
}
  where
    l2 : Leaf
    l2 = record { value = value; key_len = key_len; key = key }

    n : ℕ
    n = longest_common_prefix l l2 d

    short : d + n < 16
    short = lcp-lt l l2 d p small key_small agree on ne

    i : ℕ
    i = get_index l.key (d + n)

    j : ℕ
    j = get_index key (d + n)

    apart : i ≢ j
    apart = lcp-differ l l2 d short

    head : Header
    head = record { depth = d; pwortial_len = n; pwortial = path_of key d n }

    q : ℕ → ℕ
    q x = get_index key x

    old_leaf : Agrees q (d + n) l.key
    old_leaf x lt = elim (Bool-cases (ltb x d)) [
      | inl above ↦ agree x (ground arith) ∙ sym (on x (ground arith))
      | inr behind ↦ lcp-agree l l2 d x (ground arith) lt
    ]

    w : Wf key_len p d (pair head i (leaf l) j (leaf l2))
    w =
        pair-Wf key_len p q d head i j (leaf l) (leaf l2)
          (path_of-IsHeader q d n key short (λ i lt. refl)) on (get_index-lt l.key (d + n))
          (get_index-lt key (d + n)) apart (unfold is_null in refl) (unfold is_null in refl)
          (len, small, Agrees-update q (d + n) i l.key old_leaf refl)
          (refl, key_small, Agrees-update q (d + n) j key (λ x lt. refl) refl)

    holds :
        (k : ℕ)
        → lookup k (wort_all_subtree_kv (pair head i (leaf l) j (leaf l2)))
          ≡ (if key == k then some value else lookup k (wort_all_subtree_kv (leaf l)))
    holds k =
        rw (lookup-pair key_len p q d head i j (leaf l) (leaf l2) w k)
          (two_leaves (λ x. get_index x (d + n)) l.key key k l.value value apart)
