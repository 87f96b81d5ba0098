-- ===== src/Woart/Keys.antt =====
-- The keys of a node of 48 children, which lead from a byte to a place in the array of children.
use wrert.Prelude.{
  ℕ, zero, suc, ◌+◌, ◌-◌, ◌^◌, ◌≤◌, ◌<◌, ◌≡◌, ◌≢◌, refl, sym, ◌∙◌, ap, inl, inr, true, false, arith,
  ◌==◌, if◌then◌else◌, update, Bool-cases, ==→eq, ==→ne, eq→==, ne→==,
}
use wrert.Woart.Bits.{bit, bit-add_power, bit-zero}
use wrert.Woart.Count.{count, count-zero, count-add_power, set_of_count}
use wrert.Woart.Node.{Node, scan_keys, copy_children}

-- Only bytes are keys, each of them with a place of its own.
pub record IsKeys (keys : ℕ → ℕ) : Type 0 where
  pub byte : (c : ℕ) → keys c ≢ 0 → c < 256
  pub place : (c : ℕ) → keys c ≤ 48
  pub own : (c k : ℕ) → keys c ≢ 0 → keys c ≡ keys k → c ≡ k

-- How many of the `n` entries from `i` on are in use.
pub total : (keys : ℕ → ℕ) (n i : ℕ) → ℕ
total keys zero i = 0
total keys (suc n) i = let rest = total keys n (i + 1) in if keys i == 0 then rest else suc rest

total-zero :
    (keys : ℕ → ℕ) (n i : ℕ) → ((j : ℕ) → i ≤ j → j < i + n → keys j ≡ 0) → total keys n i ≡ 0
unfolding total
total-zero keys zero i off = refl
total-zero keys (suc n) i off =
    rw
      (
        eq→== (keys i) 0 (off i (omega arith) (omega arith)),
        total-zero keys n (i + 1) (λ j lo hi. off j (omega arith) (omega arith)),
      )
      refl

zero_of_total : (keys : ℕ → ℕ) (n i j : ℕ) → total keys n i ≡ 0 → i ≤ j → j < i + n → keys j ≡ 0
unfolding total
zero_of_total keys zero i j none' lo hi = absurd (omega arith)
zero_of_total keys (suc n) i j none' lo hi = elim (Bool-cases (keys i == 0)) [
  | inr set ↦ absurd (ground arith)
  | inl off ↦ elim (Bool-cases (i == j)) [
    | inl here ↦ rw (← ==→eq i j here) (==→eq (keys i) 0 off)
    | inr on ↦
        zero_of_total keys n (i + 1) j (ground arith) (ground (arith, ==→ne i j on)) (omega arith)
  ]
]

-- The bitmap has the places of the entries before `i`, and no other entry's.
record Scanned (keys : ℕ → ℕ) (i num bitmap : ℕ) : Type 0 where
  counted : num ≡ count (bit bitmap) 48
  before : (j : ℕ) → j < i → keys j ≢ 0 → bit bitmap (keys j - 1) ≡ true
  later : (j : ℕ) → i ≤ j → keys j ≢ 0 → bit bitmap (keys j - 1) ≡ false

Scanned-skip :
    (keys : ℕ → ℕ) (i num bitmap : ℕ)
    → keys i ≡ 0
    → Scanned keys i num bitmap
    → Scanned keys (i + 1) num bitmap
Scanned-skip keys i num bitmap off s = record {
  counted = s.counted;
  before = λ j lt set. elim (Bool-cases (j == i)) [
    | inl here ↦ absurd (set (ap keys (==→eq j i here) ∙ off))
    | inr ne ↦ s.before j (ground (arith, ==→ne j i ne)) set
  ];
  later = λ j lo set. s.later j (omega arith) set;
}

Scanned-next :
    (keys : ℕ → ℕ) (i num bitmap : ℕ)
    → IsKeys keys
    → keys i ≢ 0
    → Scanned keys i num bitmap
    → Scanned keys (i + 1) (num + 1) (bitmap + 2 ^ (keys i - 1))
Scanned-next keys i num bitmap is set s = record {
  counted = omega (
    arith,
    s.counted,
    count-add_power bitmap (keys i - 1) 48 (s.later i (omega arith) set)
        (omega (arith, is.place i)),
  );
  before = λ j lt set'. add (keys j - 1) ∙ elim (Bool-cases (j == i)) [
    | inl here ↦
        rw (eq→== (keys i - 1) (keys j - 1) (ap (λ x. keys x - 1) (sym (==→eq j i here)))) refl
    | inr ne ↦ elim (Bool-cases (keys i - 1 == keys j - 1)) [
      | inl same ↦ rw same refl
      | inr other ↦ rw other (s.before j (ground (arith, ==→ne j i ne)) set')
    ]
  ];
  later = λ j lo set'.
      let other : (keys i - 1 == keys j - 1) ≡ false =
        ne→== (keys i - 1) (keys j - 1)
          (λ e. absurd (omega (arith, is.own i j set (omega arith)))) in
      add (keys j - 1) ∙ rw other (s.later j (omega arith) set');
}
  where
    add :
        (q : ℕ)
        → bit (bitmap + 2 ^ (keys i - 1)) q ≡ (if keys i - 1 == q then true else bit bitmap q)
    add q = bit-add_power (keys i - 1) bitmap q (s.later i (omega arith) set)

-- What the loop answers for the entries before `end`.
pub record Scan (keys : ℕ → ℕ) (end all : ℕ) (r : ℕ × ℕ) : Type 0 where
  pub counted : r.0 ≡ count (bit r.1) 48
  pub number : r.0 ≡ all
  pub places : r.0 < 48 → (j : ℕ) → j < end → keys j ≢ 0 → bit r.1 (keys j - 1) ≡ true

scan_keys-Scan_from :
    (keys : ℕ → ℕ) (n i num bitmap : ℕ)
    → IsKeys keys
    → Scanned keys i num bitmap
    → Scan keys (i + n) (num + total keys n i) (scan_keys keys n i num bitmap)
unfolding scan_keys total
scan_keys-Scan_from keys zero i num bitmap is s = record {
  counted = s.counted;
  number = omega arith;
  places = λ few j lt set. s.before j (omega arith) set;
}
scan_keys-Scan_from keys (suc n) i num bitmap is s =
    let end : i + suc n ≡ i + 1 + n = omega arith in
    let all : num + suc (total keys n (i + 1)) ≡ num + 1 + total keys n (i + 1) = omega arith in
    elim (Bool-cases (keys i == 0)) [
      | inl off ↦
          rw (off, end)
            (scan_keys-Scan_from keys n (i + 1) num bitmap is
              (Scanned-skip keys i num bitmap (==→eq (keys i) 0 off) s))
      | inr set ↦ elim (Bool-cases (num + 1 == 48)) [
        | inl full ↦
            let next = Scanned-next keys i num bitmap is (==→ne (keys i) 0 set) s in
            let none_left : total keys n (i + 1) ≡ 0 =
              total-zero keys n (i + 1) (λ j lo hi. full-end j lo full next) in
            rw (set, full)
              (record {
                counted = next.counted;
                number = omega (arith, none_left);
                places = λ few. absurd (ground arith);
              })
        | inr more ↦
            rw (set, more, end, all)
              (scan_keys-Scan_from keys n (i + 1) (num + 1) (bitmap + 2 ^ (keys i - 1)) is
                (Scanned-next keys i num bitmap is (==→ne (keys i) 0 set) s))
      ]
    ]
  where
    -- When all places are taken, no key is left.
    full-end :
        (j : ℕ)
        → i + 1 ≤ j
        → (num + 1 == 48) ≡ true
        → Scanned keys (i + 1) (num + 1) (bitmap + 2 ^ (keys i - 1))
        → keys j ≡ 0
    full-end j lo full next = elim (Bool-cases (keys j == 0)) [
      | inl off ↦ ==→eq (keys j) 0 off
      | inr on ↦
          let clear = next.later j lo (==→ne (keys j) 0 on) in
          let set =
            set_of_count (bit (bitmap + 2 ^ (keys i - 1))) 48 (keys j - 1)
              (sym next.counted ∙ ==→eq (num + 1) 48 full)
              (ground (arith, is.place j, ==→ne (keys j) 0 on)) in
          absurd (cc (clear, set))
    ]

pub scan_keys-Scan :
    (keys : ℕ → ℕ) (n : ℕ) → IsKeys keys → Scan keys n (total keys n 0) (scan_keys keys n 0 0 0)
scan_keys-Scan keys n is =
    let end : 0 + n ≡ n = omega arith in
    let all : 0 + total keys n 0 ≡ total keys n 0 = omega arith in
    let s = scan_keys-Scan_from keys n 0 0 0 is (record {
      counted = sym (count-zero 48);
      before = λ j lt. absurd (omega arith);
      later = λ j lo set. bit-zero (keys j - 1);
    }) in
    rw (end, all) at s

-- The copy leaves the places of other keys, and moves each child to its key's place.
pub copy_children-kept :
    (keys : ℕ → ℕ) (children : ℕ → Node) (n i num : ℕ) (to : ℕ → Node) (k : ℕ)
    → (keys k ≢ 0 → k < i)
    → copy_children keys children n i num to k ≡ to k
unfolding copy_children
copy_children-kept keys children zero i num to k off = refl
copy_children-kept keys children (suc n) i num to k off = elim (Bool-cases (keys i == 0)) [
  | inl none' ↦
      rw none' (copy_children-kept keys children n (i + 1) num to k (λ set. omega (arith, off set)))
  | inr set ↦
      let other : (i == k) ≡ false =
        ne→== i k
          (λ e. absurd (omega (arith, e, off (λ z. ==→ne (keys i) 0 set (ap keys e ∙ z))))) in
      elim (Bool-cases (num - 1 == 0)) [
        | inl end ↦ rw (set, end, other) refl
        | inr more ↦
            rw (set, more)
              (copy_children-kept keys children n (i + 1) (num - 1)
                  (update to i (children (keys i - 1))) k (λ set'. omega (arith, off set'))
                ∙ rw other refl)
      ]
]

pub copy_children-used :
    (keys : ℕ → ℕ) (children : ℕ → Node) (n i num : ℕ) (to : ℕ → Node) (k : ℕ)
    → num ≡ total keys n i
    → i ≤ k
    → k < i + n
    → keys k ≢ 0
    → copy_children keys children n i num to k ≡ children (keys k - 1)
unfolding copy_children total
copy_children-used keys children zero i num to k h lo hi set = absurd (omega arith)
copy_children-used keys children (suc n) i num to k h lo hi set = elim (Bool-cases (keys i == 0)) [
  | inl off ↦
      let next : i ≢ k = λ e. set (ap keys (sym e) ∙ ==→eq (keys i) 0 off) in
      rw off (
        copy_children-used keys children n (i + 1) num to k (rw off at h) (omega (arith, next))
          (omega arith) set)
  | inr used ↦
      let left : num ≡ suc (total keys n (i + 1)) = rw used at h in
      let to' = update to i (children (keys i - 1)) in
      elim (Bool-cases (i == k)) [
        | inl here ↦
            let at : to' k ≡ children (keys k - 1) =
              rw (here) (ap (λ x. children (keys x - 1)) (==→eq i k here)) in
            elim (Bool-cases (num - 1 == 0)) [
              | inl end ↦ rw (used, end) at
              | inr more ↦
                  rw (used, more)
                    (copy_children-kept keys children n (i + 1) (num - 1) to' k
                        (λ set'. omega (arith, ==→eq i k here))
                      ∙ at)
            ]
        | inr next ↦ elim (Bool-cases (num - 1 == 0)) [
          | inl end ↦ absurd (
              set (
                zero_of_total keys n (i + 1) k (ground (arith, left))
                  (ground (arith, ==→ne i k next)) (omega arith)))
          | inr more ↦
              rw (used, more)
                (copy_children-used keys children n (i + 1) (num - 1) to' k (omega (arith, left))
                  (ground (arith, ==→ne i k next)) (omega arith) set)
        ]
      ]
]
