-- ===== src/Woart/Least.antt =====
-- The child under the least byte, in each of the four layouts.
use wrert.Prelude.{
  ℕ, zero, suc, ◌+◌, ◌-◌, ◌≤◌, ◌<◌, ◌≡◌, refl, sym, ◌∙◌, ap, inl, inr, Bool, true, false, not,
  Option, none, some, List, [], ◌∷◌, arith, ltb, ◌==◌, if◌then◌else◌, Bool-cases, Option-cases,
  ==→eq, ==→ne, ne→==, ltb→lt, first_index, first_index_least, first_index-none, first_index-at,
  first_index_empty,
}
use wrert.Woart.Bits.{bit, find_next_bit, find_next_bit-first}
use wrert.Woart.Bitmap.{found_at, IsBitmap, found_at-some}
use wrert.Woart.Layout.{IsIndex}
use wrert.Woart.Node.{
  Slot, free, used, Node, is_null, Index, node4, node16, node48, node256, find_slot, find_child,
}
use wrert.Woart.Slots.{AllFree, IsSlots, find_slot-head, find_slot-tail}
use wrert.Woart.Tree.{min_loop, least_child}

abbrev pub is_some : Option ℕ → Bool
is_some none = false
is_some (some i) = true

-- Where a search finds the least byte that leads to a child.
abbrev pub first_child : Index → (ℕ → Node) → Option ℕ
first_child ix children = elim (first_index (λ c. is_some (find_child ix children c)) 256 0) [
  | none ↦ none
  | some c ↦ find_child ix children c
]

-- A place in use whose key is least among those of the first `i` places.
record Least (bitmap : ℕ) (keys : ℕ → ℕ) (i idx : ℕ) : Type 0 where
  set : bit bitmap idx ≡ true
  small : idx < 16
  least : (j : ℕ) → j < i → j < 16 → bit bitmap j ≡ true → keys idx ≤ keys j

Least-skip :
    (bitmap : ℕ) (keys : ℕ → ℕ) (i m idx : ℕ)
    → Least bitmap keys i idx
    → ((j : ℕ) → i ≤ j → j < m → j < 16 → bit bitmap j ≡ true → keys idx ≤ keys j)
    → Least bitmap keys m idx
Least-skip bitmap keys i m idx l rest = record {
  set = l.set;
  small = l.small;
  least = λ j lt lt' on. elim (Bool-cases (ltb j i)) [
    | inl old ↦ l.least j (ltb→lt j i old) lt' on
    | inr new ↦ rest j (ground arith) lt lt' on
  ];
}

min_loop-Least :
    (bitmap : ℕ) (keys : ℕ → ℕ) (n i idx : ℕ)
    → 16 ≤ i + n
    → Least bitmap keys i idx
    → Least bitmap keys 16 (min_loop bitmap keys n i (keys idx) idx)
unfolding min_loop
min_loop-Least bitmap keys zero i idx le l =
    Least-skip bitmap keys i 16 idx l (λ j lo lt lt'. absurd (omega arith))
min_loop-Least bitmap keys (suc n) i idx le l = elim (Bool-cases (ltb i 16)) [
  | inr past ↦
      rw past (Least-skip bitmap keys i 16 idx l (λ j lo lt lt'. absurd (ground (arith, past))))
  | inl lt ↦ elim (Option-cases (first_index (bit bitmap) (16 - i) i)) [
    | inl none' ↦
        let at : find_next_bit bitmap 16 i ≡ 16 =
          find_next_bit-first bitmap 16 i (ltb→lt i 16 lt) (omega arith) ∙ rw none' refl in
        rw (lt, at)
          (min_loop-Least bitmap keys n 17 idx (omega (arith, ltb→lt i 16 lt)) (
            Least-skip bitmap keys i 17 idx l (λ j lo a b on.
              absurd (cc (on, first_index-none (bit bitmap) (16 - i) i j none' lo (omega arith))))))
    | inr (k, found) ↦
        let at : find_next_bit bitmap 16 i ≡ k =
          find_next_bit-first bitmap 16 i (ltb→lt i 16 lt) (omega arith) ∙ rw found refl in
        let (set, lo, hi, before) = first_index_least (bit bitmap) (16 - i) i k found in
        let under : k < 16 = omega (arith, ltb→lt i 16 lt, lo, hi) in
        let in_range : ltb k 16 ≡ true = ground (arith, under) in
        elim (Bool-cases (ltb (keys k) (keys idx))) [
          | inl less ↦
              rw (lt, at, in_range, less)
                (min_loop-Least bitmap keys n (k + 1) k (omega (arith, lo, le)) (record {
                  set = set;
                  small = under;
                  least = λ j b b' on. elim (Bool-cases (ltb j i)) [
                    | inl old ↦
                        omega
                          (arith, l.least j (ltb→lt j i old) b' on, ltb→lt (keys k) (keys idx) less)
                    | inr new ↦ omega (arith, ap keys (last j k (ground arith) b on before))
                  ];
                }))
          | inr same ↦
              rw (lt, at, in_range, same)
                (min_loop-Least bitmap keys n (k + 1) idx (omega (arith, lo, le)) (
                  Least-skip bitmap keys i (k + 1) idx l (λ j a b b' on.
                    let at' : keys j ≡ keys k = ap keys (last j k a b on before) in
                    ground (arith, at'))))
        ]
  ]
]
  where
    last :
        (j k : ℕ)
        → i ≤ j
        → j < k + 1
        → bit bitmap j ≡ true
        → ((m : ℕ) → i ≤ m → m < k → bit bitmap m ≡ false)
        → j ≡ k
    last j k lo hi on before = elim (Bool-cases (j == k)) [
      | inl same ↦ ==→eq j k same
      | inr ne ↦ absurd (cc (on, before j lo (ground (arith, ==→ne j k ne))))
    ]

Least-first :
    (bitmap : ℕ) (keys : ℕ → ℕ) (i : ℕ)
    → bit bitmap i ≡ true
    → i < 16
    → ((j : ℕ) → 0 ≤ j → j < i → bit bitmap j ≡ false)
    → Least bitmap keys (i + 1) i
Least-first bitmap keys i set small before = record {
  set = set;
  small = small;
  least = λ j lt lt' on. elim (Bool-cases (j == i)) [
    | inl same ↦ omega (arith, ap keys (==→eq j i same))
    | inr ne ↦ absurd (cc (on, before j (omega arith) (ground (arith, ==→ne j i ne))))
  ];
}

-- The same search, from the byte that it finds.
first_child-at :
    (ix : Index) (children : ℕ → Node) (c i : ℕ)
    → c < 256
    → find_child ix children c ≡ some i
    → ((k : ℕ) → k < c → find_child ix children k ≡ none)
    → first_child ix children ≡ some i
first_child-at ix children c i lt found before =
    rw
      (
        first_index-at (λ k. is_some (find_child ix children k)) 256 0 c (omega arith)
            (omega (arith, lt)) (rw found refl) (λ k lo h. rw (before k h) refl),
        first_child,
      )
      found

first_child-none :
    (ix : Index) (children : ℕ → Node)
    → ((k : ℕ) → k < 256 → find_child ix children k ≡ none)
    → first_child ix children ≡ none
first_child-none ix children off =
    rw
      (
        first_index_empty (λ k. is_some (find_child ix children k)) 256 0
            (λ k lo hi. rw (off k (omega (arith, hi))) refl),
        first_child,
      )
      refl

none_of_slots : (ss : List Slot) (k : ℕ) → AllFree ss → find_slot ss k ≡ none
unfolding AllFree find_slot
none_of_slots [] k is = refl
none_of_slots (free ∷ ss) k is = refl
none_of_slots (used k' p ∷ ss) k is = absurd (omega (arith, is))

least-slots :
    (slots : List Slot) (children : ℕ → Node)
    → IsIndex (node4 slots)
    → least_child (node4 slots) children ≡ first_child (node4 slots) children
unfolding least_child IsIndex IsSlots find_child
least-slots [] children is =
    sym (first_child-none (node4 []) children (λ k lt. unfold find_slot in refl))
least-slots (free ∷ ss) children (four, is, bytes) =
    sym (first_child-none (node4 (free ∷ ss)) children (λ k lt. unfold find_slot in refl))
least-slots (used k p ∷ ss) children (four, (small, later, is), bytes) = sym (
    first_child-at (node4 (used k p ∷ ss)) children k p (bytes k p (find_slot-head ss k p))
      (find_slot-head ss k p) before)
  where
    before : (k' : ℕ) → k' < k → find_slot (used k p ∷ ss) k' ≡ none
    before k' lt =
        find_slot-tail ss k p k' (omega (arith, lt)) ∙ elim (Option-cases (find_slot ss k')) [
          | inl none' ↦ none'
          | inr (q, some') ↦ absurd (omega (arith, (later k' q some').0, lt))
        ]

least-bitmap :
    (bitmap : ℕ) (keys : ℕ → ℕ) (children : ℕ → Node)
    → IsIndex (node16 bitmap keys)
    → least_child (node16 bitmap keys) children ≡ first_child (node16 bitmap keys) children
unfolding least_child IsIndex IsBitmap find_child found_at
least-bitmap bitmap keys children (small, places) =
    elim (Option-cases (first_index (bit bitmap) 16 0)) [
      | inl none' ↦
          let at : find_next_bit bitmap 16 0 ≡ 16 = start ∙ rw none' refl in
          rw at (sym (first_child-none (node16 bitmap keys) children (λ k lt. empty k none')))
      | inr (i, found) ↦
          let (set, lo, hi, before) = first_index_least (bit bitmap) 16 0 i found in
          let at : find_next_bit bitmap 16 0 ≡ i = start ∙ rw found refl in
          let inside : (i == 16) ≡ false = ne→== i 16 (omega (arith, hi)) in
          let l =
            min_loop-Least bitmap keys 16 (i + 1) i (omega arith)
              (Least-first bitmap keys i set (omega (arith, hi)) before) in
          let r = min_loop bitmap keys 16 (i + 1) (keys i) i in
          let (byte, here) = places r l.small l.set in
          rw (at, inside)
            (sym (
              first_child-at (node16 bitmap keys) children (keys r) r byte here
                (λ k lt. below r k l lt)))
    ]
  where
    start :
        find_next_bit bitmap 16 0 ≡ elim (first_index (bit bitmap) 16 0) [ none ↦ 16 | some i ↦ i ]
    start = find_next_bit-first bitmap 16 0 (omega arith) (omega arith)

    empty : (k : ℕ) → first_index (bit bitmap) 16 0 ≡ none → found_at bitmap keys k ≡ none
    empty k none' = elim (Option-cases (found_at bitmap keys k)) [
      | inl off ↦ off
      | inr (j, some') ↦
          let (on, key, lt) = found_at-some bitmap keys k j some' in
          absurd
            (cc (on, first_index-none (bit bitmap) 16 0 j none' (omega arith) (omega (arith, lt))))
    ]

    below : (r k : ℕ) → Least bitmap keys 16 r → k < keys r → found_at bitmap keys k ≡ none
    below r k l lt = elim (Option-cases (found_at bitmap keys k)) [
      | inl off ↦ off
      | inr (j, some') ↦
          let (on, key, small') = found_at-some bitmap keys k j some' in
          absurd (omega (arith, l.least j small' small' on, key, lt))
    ]

-- A layout that tells by a test which bytes lead to a child.
first_child-test :
    (ix : Index) (children : ℕ → Node) (test : ℕ → Bool) (place : ℕ → ℕ)
    → ((c : ℕ) → find_child ix children c ≡ (if test c then some (place c) else none))
    → elim (first_index test 256 0) [ none ↦ none | some c ↦ some (place c) ]
      ≡ first_child ix children
first_child-test ix children test place found = elim (Option-cases (first_index test 256 0)) [
  | inl none' ↦
      let off = first_child-none ix children (λ k lt.
        found k
        ∙ rw (first_index-none test 256 0 k none' (omega arith) (omega (arith, lt))) refl) in
      rw none' (sym off)
  | inr (c, some') ↦
      let (on, lo, hi, before) = first_index_least test 256 0 c some' in
      let at =
        first_child-at ix children c (place c) (omega (arith, hi)) (found c ∙ rw on refl)
          (λ k lt. found k ∙ rw (before k (omega arith) lt) refl) in
      rw some' (sym at)
]

least-keys :
    (keys : ℕ → ℕ) (children : ℕ → Node)
    → least_child (node48 keys) children ≡ first_child (node48 keys) children
unfolding least_child find_child
least-keys keys children =
    first_child-test (node48 keys) children (λ c. not (keys c == 0)) (λ c. keys c - 1)
      (λ c. elim (Bool-cases (keys c == 0)) [ inl e ↦ rw e refl | inr e ↦ rw e refl ])

or_none : (o : Option ℕ) → elim o as (λ x. Option ℕ) [ none ↦ none | some c ↦ some c ] ≡ o
or_none none = refl
or_none (some c) = refl

least-all : (children : ℕ → Node) → least_child node256 children ≡ first_child node256 children
unfolding least_child find_child
least-all children =
    sym (or_none (first_index (λ i. not (is_null (children i))) 256 0))
    ∙ first_child-test node256 children (λ c. not (is_null (children c))) (λ c. c)
        (λ c. elim (Bool-cases (is_null (children c))) [ inl e ↦ rw e refl | inr e ↦ rw e refl ])

-- In every layout, the child to which `minimum` goes on in a well-formed node is the one that `find_child`
-- finds when it is asked for the bytes in their order; where no byte leads to a child there is none.
pub least_child-first :
    (ix : Index) (children : ℕ → Node)
    → IsIndex ix
    → least_child ix children ≡ first_child ix children
least_child-first (node4 slots) children is = least-slots slots children is
least_child-first (node16 bitmap keys) children is = least-bitmap bitmap keys children is
least_child-first (node48 keys) children is = least-keys keys children
least_child-first node256 children is = least-all children
