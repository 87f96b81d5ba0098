-- ===== src/Wort/Lookup.antt =====
-- What a wort tree holds: the pairs that `wort_all_subtree_kv` lists. Lookups are
-- stated against that list.
use wrert.Prelude.{
  for_append, ℕ, zero, suc, ◌+◌, ◌-◌, ◌≤◌, ◌<◌, ◌≡◌, ◌≢◌, refl, sym, ◌∙◌, inl, inr, false, Option,
  none, some, List, [], ◌∷◌, ◌++◌, arith, ◌==◌, if◌then◌else◌, update, min, Bool-cases, ==→eq,
  ==→ne, first_diff, first_diff_bounds, first_diff_differ,
}
use wrert.Wort.Digits.{get_index-lt}
use wrert.Wort.Shape.{IsHeader, Wf, update_above}
use wrert.Wort.{
  Leaf, Header, Node, null, leaf, node16, KeyValue, ok, get_index, wort_all_subtree_kv,
  max_prefix_len, get_loop, check_prefix, path_at, leaf_matches,
}

-- The value under a key in a list of pairs.
unfoldable pub lookup : ℕ → List KeyValue → Option ℕ
lookup key [] = none
lookup key (kv ∷ kvs) = if kv.key == key then some kv.value else lookup key kvs

or_else : Option ℕ → Option ℕ → Option ℕ
or_else none b = b
or_else (some a) b = some a

lookup-append :
    (key : ℕ) (xs ys : List KeyValue)
    → lookup key (xs ++ ys) ≡ or_else (lookup key xs) (lookup key ys)
unfolding lookup or_else
lookup-append key [] ys = refl
lookup-append key (kv ∷ xs) ys = ground (arith, lookup-append key xs ys)

-- Only the child `m` can hold the key.
lookup-for_append-none :
    (key : ℕ) (body : ℕ → List KeyValue) (n i : ℕ)
    → ((j : ℕ) → i ≤ j → j < i + n → lookup key (body j) ≡ none)
    → lookup key (for_append body n i) ≡ none
unfolding for_append lookup or_else
lookup-for_append-none key body zero i other = refl
lookup-for_append-none key body (suc n) i other =
    rw (lookup-append key (body i) (for_append body n (i + 1)), other i (omega arith) (omega arith))
      (lookup-for_append-none key body n (i + 1) (λ j a b. other j (omega arith) (omega arith)))

lookup-for_append :
    (key : ℕ) (body : ℕ → List KeyValue) (m n i : ℕ)
    → i ≤ m
    → m < i + n
    → ((j : ℕ) → j < i + n → j ≢ m → lookup key (body j) ≡ none)
    → lookup key (for_append body n i) ≡ lookup key (body m)
unfolding for_append or_else
lookup-for_append key body m zero i lo hi other = absurd (omega arith)
lookup-for_append key body m (suc n) i lo hi other = elim (Bool-cases (i == m)) [
  | inl here ↦
      rw
        (
          lookup-append key (body i) (for_append body n (i + 1)),
          lookup-for_append-none key body n (i + 1)
              (λ j a b. other j (omega arith) (ground (arith, ==→eq i m))),
          ==→eq i m here,
        )
        (or_else-none _)
  | inr on ↦
      rw
        (
          lookup-append key (body i) (for_append body n (i + 1)),
          other i (omega arith) (==→ne i m on),
        )
        (lookup-for_append key body m n (i + 1) (ground (arith, ==→ne i m)) (omega arith)
          (λ j b ne. other j (omega arith) ne))
]
  where
    or_else-none : (o : Option ℕ) → or_else o none ≡ o
    or_else-none none = refl
    or_else-none (some a) = refl

-- A subtree holds no key that leaves its path.
pub lookup-off_path :
    (key_len : ℕ) (p : ℕ → ℕ) (d : ℕ) (n : Node) (key j : ℕ)
    → Wf key_len p d n
    → j < d
    → get_index key j ≢ p j
    → lookup key (wort_all_subtree_kv n) ≡ none
unfolding lookup wort_all_subtree_kv
lookup-off_path key_len p d null key j w lt ne = refl
lookup-off_path key_len p d (leaf l) key j (a, b, c) lt ne = elim (Bool-cases (l.key == key)) [
  | inl e ↦ absurd (ne (rw (← ==→eq l.key key e) (c j lt)))
  | inr e ↦ rw e
]
lookup-off_path key_len p d (node16 h c) key j (q, head, above, two, below) lt ne =
    let e = d + h.pwortial_len in
    lookup-for_append-none key _ 16 0 λ i lo hi.
      lookup-off_path key_len (update q e i) (e + 1) (c i) key j (below i hi) (omega arith)
        λ same. ne (same ∙ update_above q e i j (omega arith) ∙ above j lt)

-- A node holds no key that leaves the path stored in its header.
pub lookup-off_header :
    (key_len : ℕ) (q : ℕ → ℕ) (d : ℕ) (h : Header) (c : ℕ → Node) (key i : ℕ)
    → ((i : ℕ)
        → i < 16
        → Wf key_len (update q (d + h.pwortial_len) i) (d + h.pwortial_len + 1) (c i))
    → i < h.pwortial_len
    → get_index key (d + i) ≢ q (d + i)
    → lookup key (wort_all_subtree_kv (node16 h c)) ≡ none
unfolding wort_all_subtree_kv
lookup-off_header key_len q d h c key i below lt ne =
    let e = d + h.pwortial_len in
    lookup-for_append-none key _ 16 0 λ k lo hi.
      lookup-off_path key_len (update q e k) (e + 1) (c k) key (d + i) (below k hi) (omega arith)
        λ same. ne (same ∙ update_above q e k (d + i) (omega arith))

module _ (key_len : ℕ) (p : ℕ → ℕ) (d : ℕ) (h : Header) (c : ℕ → Node) where
  -- The pairs of a node are found under the digit behind its path.
  pub lookup-child :
      (key : ℕ)
      → Wf key_len p d (node16 h c)
      → lookup key (wort_all_subtree_kv (node16 h c))
        ≡ lookup key (wort_all_subtree_kv (c (get_index key (d + h.pwortial_len))))
  unfolding wort_all_subtree_kv
  lookup-child key (q, head, above, two, below) =
      let e = d + h.pwortial_len in
      lookup-for_append key (λ i. wort_all_subtree_kv (c i)) (get_index key e) 16 0 (omega arith)
        (get_index-lt key e)
        λ i lt ne.
          lookup-off_path key_len (update q e i) (e + 1) (c i) key e (below i lt) (omega arith)
            λ same. ne (sym (same ∙ update_at q e i))
    where
      update_at : (q : ℕ → ℕ) (e i : ℕ) → update q e i e ≡ i
      update_at q e i = ground arith

pub path_at-IsHeader :
    (q : ℕ → ℕ) (d : ℕ) (h : Header) (c : ℕ → Node) → IsHeader q d h → path_at h c d ≡ ok h
unfolding path_at
path_at-IsHeader q d h c head = ground arith

-- Where the stored digits do not match, one of them differs from the digit of the key.
check_prefix_differ :
    (q : ℕ → ℕ) (d : ℕ) (h : Header) (key : ℕ)
    → IsHeader q d h
    → (check_prefix h key d == min max_prefix_len h.pwortial_len) ≡ false
    → (i : ℕ) × (i < h.pwortial_len) × (get_index key (d + i) ≢ q (d + i))
unfolding check_prefix
check_prefix_differ q d h key (depth, short, stored) ne =
    let digit : ℕ → ℕ = λ i. get_index key (d + i) in
    let n = min (min h.pwortial_len max_prefix_len) (16 - d) in
    let i = first_diff h.pwortial digit n 0 in
    let (lo, hi) = first_diff_bounds h.pwortial digit n 0 in
    let at : i < min max_prefix_len h.pwortial_len = omega (arith, ==→ne _ _ ne) in
    (
      i,
      omega arith,
      λ same. first_diff_differ h.pwortial digit n 0 (omega arith) (stored i at ∙ sym same),
    )

get_loop-node16 :
    (q : ℕ → ℕ) (d : ℕ) (h : Header) (c : ℕ → Node) (key key_len : ℕ)
    → IsHeader q d h
    → get_loop (node16 h c) key key_len d ≡ (
        if check_prefix h key d == min max_prefix_len h.pwortial_len
        then get_loop (c (get_index key (d + h.pwortial_len))) key key_len (d + h.pwortial_len + 1)
        else ok none)
unfolding get_loop
get_loop-node16 q d h c key key_len head = rw (path_at-IsHeader q d h c head)

get_loop-leaf :
    (key_len : ℕ) (d : ℕ) (l : Leaf) (key : ℕ)
    → l.key_len ≡ key_len
    → get_loop (leaf l) key key_len d ≡ ok (lookup key (wort_all_subtree_kv (leaf l)))
unfolding get_loop lookup wort_all_subtree_kv leaf_matches
get_loop-leaf key_len d l key len = ground arith

-- A lookup ends without fault, and finds what the list of all pairs has under its key.
pub get_loop-lookup :
    (key_len : ℕ) (p : ℕ → ℕ) (d : ℕ) (n : Node) (key : ℕ)
    → Wf key_len p d n
    → get_loop n key key_len d ≡ ok (lookup key (wort_all_subtree_kv n))
get_loop-lookup key_len p d null key w = unfold get_loop lookup wort_all_subtree_kv in refl
get_loop-lookup key_len p d (leaf l) key (len, small, agree) = get_loop-leaf key_len d l key len
get_loop-lookup key_len p d (node16 h c) key (q, head, above, two, below) =
    let e = d + h.pwortial_len in
    let i = get_index key e in
    rw (get_loop-node16 q d h c key key_len head)
      (elim (Bool-cases (check_prefix h key d == min max_prefix_len h.pwortial_len)) [
        | inl same ↦
            rw
              (
                same,
                get_loop-lookup key_len (update q e i) (e + 1) (c i) key
                    (below i (get_index-lt key e)),
                lookup-child key_len p d h c key (q, head, above, two, below),
              )
              refl
        | inr other ↦
            let (j, lt, ne) = check_prefix_differ q d h key head other in
            rw (other, lookup-off_header key_len q d h c key j below lt ne) refl
      ])
