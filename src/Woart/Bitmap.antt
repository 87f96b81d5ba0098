-- ===== src/Woart/Bitmap.antt =====
-- The keys of a node of sixteen children, of which a bitmap says which are in use.
use wrert.Prelude.{
  ℕ, zero, suc, ◌+◌, ◌-◌, ◌^◌, ◌≤◌, ◌<◌, ◌≡◌, refl, sym, ◌∙◌, ap, inl, inr, Bool, true, false, ◌&&◌,
  Option, none, some, arith, ltb, ◌==◌, if◌then◌else◌, update, Bool-cases, Option-cases, ==→eq,
  ==→ne, eq→==, ne→==, first_index, first_index_least, first_index-none, first_index-at,
  first_index_empty, first_index_skip, first_index_congr,
}
use wrert.Woart.Bits.{bit, bit-add_power, add_power-lt, find_next_bit, find_next_bit-first}
use wrert.Woart.Node.{find_bitmap}

abbrev pub is_key : (bitmap : ℕ) (keys : ℕ → ℕ) (c i : ℕ) → Bool
is_key bitmap keys c i = bit bitmap i && keys i == c

no_entries : (test : ℕ → Bool) (i : ℕ) → first_index test 0 i ≡ none
unfolding first_index
no_entries test i = refl

-- The rounds of the search are those of a plain search for a place that is in use and has the key.
find_bitmap-first :
    (bitmap : ℕ) (keys : ℕ → ℕ) (c n i : ℕ)
    → 16 ≤ i + n
    → find_bitmap bitmap keys c n i ≡ first_index (is_key bitmap keys c) (16 - i) i
unfolding find_bitmap
find_bitmap-first bitmap keys c zero i le =
    let end : 16 - i ≡ 0 = omega arith in rw end (sym (no_entries (is_key bitmap keys c) i))
find_bitmap-first bitmap keys c (suc n) i le = elim (Bool-cases (ltb i 16)) [
  | inr past ↦
      let end : 16 - i ≡ 0 = ground arith in
      rw (past, end) (sym (no_entries (is_key bitmap keys c) i))
  | inl lt ↦ elim (Option-cases (first_index (bit bitmap) (16 - i) i)) [
    | inl none' ↦
        let at : find_next_bit bitmap 16 i ≡ 16 =
          find_next_bit-first bitmap 16 i (ground arith) (omega arith) ∙ rw none' refl in
        rw
          (
            lt,
            at,
            first_index_empty (is_key bitmap keys c) (16 - i) i
                (λ j lo hi. rw (first_index-none (bit bitmap) (16 - i) i j none' lo hi) refl),
          )
          (find_bitmap-first bitmap keys c n 17 (ground arith)
            ∙ no_entries (is_key bitmap keys c) 17)
    | inr (k, found) ↦
        let at : find_next_bit bitmap 16 i ≡ k =
          find_next_bit-first bitmap 16 i (ground arith) (omega arith) ∙ rw found refl in
        let (set, lo, hi, before) = first_index_least (bit bitmap) (16 - i) i k found in
        let small : ltb k 16 ≡ true = ground arith in
        let off : (j : ℕ) → i ≤ j → j < k → is_key bitmap keys c j ≡ false =
          λ j a b. rw (before j a b) refl in
        elim (Bool-cases (keys k == c)) [
          | inl this ↦
              rw
                (
                  lt,
                  at,
                  small,
                  this,
                  first_index-at (is_key bitmap keys c) (16 - i) i k lo hi (rw (set, this) refl)
                      off,
                )
                refl
          | inr other ↦
              let off' : (j : ℕ) → i ≤ j → j < k + 1 → is_key bitmap keys c j ≡ false = λ j a b.
                elim (Bool-cases (j == k)) [
                  | inl here ↦ rw (==→eq j k here, set, other) refl
                  | inr ne ↦ off j a (ground (arith, ==→ne j k ne))
                ] in
              let left : i + (16 - i) - (k + 1) ≡ 16 - (k + 1) = ground arith in
              let skip =
                first_index_skip (is_key bitmap keys c) (16 - i) i (k + 1) (omega arith)
                  (ground arith) off' in
              rw (lt, at, small, other)
                (find_bitmap-first bitmap keys c n (k + 1) (omega arith) ∙ sym (rw left at skip))
        ]
  ]
]

unfoldable pub found_at : (bitmap : ℕ) (keys : ℕ → ℕ) (c : ℕ) → Option ℕ
found_at bitmap keys c = find_bitmap bitmap keys c 16 0

pub found_at-first :
    (bitmap : ℕ) (keys : ℕ → ℕ) (c : ℕ)
    → found_at bitmap keys c ≡ first_index (is_key bitmap keys c) 16 0
unfolding found_at
found_at-first bitmap keys c = find_bitmap-first bitmap keys c 16 0 (omega arith)

pub found_at-some :
    (bitmap : ℕ) (keys : ℕ → ℕ) (c i : ℕ)
    → found_at bitmap keys c ≡ some i
    → (bit bitmap i ≡ true) × (keys i ≡ c) × (i < 16)
found_at-some bitmap keys c i h =
    let (is, lo, hi, before) =
      first_index_least (is_key bitmap keys c) 16 0 i (sym (found_at-first bitmap keys c) ∙ h) in
    elim (Bool-cases (bit bitmap i)) [
      | inr off ↦ absurd (cc (rw off at is))
      | inl on ↦ (on, ==→eq (keys i) c (rw on at is), omega arith)
    ]

-- Each place in use is the one that its key leads to.
unfoldable pub IsBitmap : ℕ → (ℕ → ℕ) → Type 0
IsBitmap bitmap keys =
    (bitmap < 2 ^ 16)
    × ((i : ℕ)
        → i < 16
        → bit bitmap i ≡ true
        → (keys i < 256) × (found_at bitmap keys (keys i) ≡ some i))

-- A key that was absent is put in a free place.
pub found_at-add :
    (bitmap : ℕ) (keys : ℕ → ℕ) (c e k : ℕ)
    → e < 16
    → bit bitmap e ≡ false
    → found_at bitmap keys c ≡ none
    → found_at (bitmap + 2 ^ e) (update keys e c) k
      ≡ (if c == k then some e else found_at bitmap keys k)
found_at-add bitmap keys c e k lt clear off =
    found_at-first (bitmap + 2 ^ e) (update keys e c) k ∙ elim (Bool-cases (c == k)) [
      | inl this ↦ rw this (
          first_index-at (is_key (bitmap + 2 ^ e) (update keys e c) k) 16 0 e (omega arith) lt
            (rw (test e, eq→== e e refl, this) refl)
            (λ j a b.
              rw (test j, ne→== e j (omega arith)) (rw (==→eq c k this) at absent j (omega arith))))
      | inr other ↦ rw other (
          first_index_congr (is_key (bitmap + 2 ^ e) (update keys e c) k) (is_key bitmap keys k) 16
            0
            (λ j a b. test j ∙ elim (Bool-cases (e == j)) [
              | inl here ↦ rw (here, other, rw (==→eq e j here) at clear) refl
              | inr on ↦ rw on refl
            ])
          ∙ sym (found_at-first bitmap keys k))
    ]
  where
    test :
        (j : ℕ)
        → is_key (bitmap + 2 ^ e) (update keys e c) k j
          ≡ ((if e == j then true else bit bitmap j) && (if e == j then c else keys j) == k)
    test j = rw (bit-add_power e bitmap j clear) refl

    absent : (j : ℕ) → j < 16 → is_key bitmap keys c j ≡ false
    absent j lt' =
        first_index-none (is_key bitmap keys c) 16 0 j (sym (found_at-first bitmap keys c) ∙ off)
          (omega arith) lt'

pub add-IsBitmap :
    (bitmap : ℕ) (keys : ℕ → ℕ) (c e : ℕ)
    → IsBitmap bitmap keys
    → e < 16
    → c < 256
    → bit bitmap e ≡ false
    → found_at bitmap keys c ≡ none
    → IsBitmap (bitmap + 2 ^ e) (update keys e c)
unfolding IsBitmap
add-IsBitmap bitmap keys c e (small, places) lt byte clear off = (
  add_power-lt e 16 bitmap small lt clear,
  λ i lt' set. elim (Bool-cases (e == i)) [
    | inl here ↦ rw here (
      byte,
      found_at-add bitmap keys c e c lt clear off ∙ rw (eq→== c c refl) (ap some (==→eq e i here)),
    )
    | inr on ↦
        let old : bit bitmap i ≡ true = rw on at (sym (bit-add_power e bitmap i clear) ∙ set) in
        let (small', found) = places i lt' old in
        let other : (c == keys i) ≡ false =
          ne→== c (keys i) (λ same. absurd (cc (off, found, ap (found_at bitmap keys) same))) in
        rw on (small', found_at-add bitmap keys c e (keys i) lt clear off ∙ rw other found)
  ],
)
