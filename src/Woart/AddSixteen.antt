-- ===== src/Woart/AddSixteen.antt =====
-- A new child of a node of sixteen.
use wrert.Prelude.{
  ℕ, ◌+◌, ◌-◌, ◌^◌, ◌≤◌, ◌<◌, ◌≡◌, ◌≢◌, refl, sym, ◌∙◌, ap, inl, inr, true, false, none, some,
  arith, ltb, ◌==◌, if◌then◌else◌, update, first_index, first_index_congr, ◌⊎◌, update_ne,
  update_self, Bool-cases, Option-cases, ==→eq, ==→ne, ne→==,
}
use mathlib.Core.Option.{some-injective}
use wrert.Woart.Bits.{bit, bit-full, find_next_zero_bit, find_next_zero_bit-room}
use wrert.Woart.Bitmap.{
  is_key, found_at-first, found_at, IsBitmap, found_at-some, found_at-add, add-IsBitmap,
}
use wrert.Woart.Keys.{IsKeys}
use wrert.Woart.Grow.{keys_of_16-first}
use wrert.Woart.Node.{Node, null, node16, node48, keys_of_16, find_child, child_at, add_child16}
use wrert.Woart.Layout.{still_free, IsIndex, Adds, Grows, placed}

taken :
    (bitmap : ℕ) (keys : ℕ → ℕ) (k e : ℕ) → bit bitmap e ≡ false → found_at bitmap keys k ≢ some e
taken bitmap keys k e clear h = absurd (cc ((found_at-some bitmap keys k e h).0, clear))

-- The key of a node of 48 that the copy makes from a full node of sixteen.
Moved16 : (bitmap : ℕ) (keys : ℕ → ℕ) (k key : ℕ) → Type 0
Moved16 bitmap keys k key =
    ((key ≡ 0) × (found_at bitmap keys k ≡ none))
    ⊎ ((j : ℕ) × (key ≡ j + 1) × (found_at bitmap keys k ≡ some j) × (j < 16) × (keys j ≡ k))

keys_of_16-Moved16 :
    (bitmap : ℕ) (keys : ℕ → ℕ) (k : ℕ)
    → IsBitmap bitmap keys
    → bitmap ≡ 2 ^ 16 - 1
    → Moved16 bitmap keys k (keys_of_16 keys 16 0 (λ i. 0) k)
unfolding IsBitmap Moved16
keys_of_16-Moved16 bitmap keys k is full = elim (Option-cases (found_at bitmap keys k)) [
  | inl none' ↦ inl (first ∙ rw none' refl, none')
  | inr (j, some') ↦
      let (on, key, lt) = found_at-some bitmap keys k j some' in
      inr (j, first ∙ rw some' refl, some', lt, key)
]
  where
    set : (i : ℕ) → i < 16 → bit bitmap i ≡ true
    set i lt = rw full (bit-full 16 i lt)

    own : (a b : ℕ) → 0 ≤ a → a < 0 + 16 → 0 ≤ b → b < 0 + 16 → keys a ≡ keys b → a ≡ b
    own a b la ha lb hb e =
        some-injective a b
          (sym (is.1 a ha (set a ha)).1 ∙ ap (found_at bitmap keys) e ∙ (is.1 b hb (set b hb)).1)

    plain : found_at bitmap keys k ≡ first_index (λ j. keys j == k) 16 0
    plain =
        found_at-first bitmap keys k
        ∙ first_index_congr (is_key bitmap keys k) (λ j. keys j == k) 16 0
            (λ j lo hi. rw (set j (omega arith)) refl)

    first :
        keys_of_16 keys 16 0 (λ i. 0) k
        ≡ elim (found_at bitmap keys k) [ none ↦ 0 | some j ↦ j + 1 ]
    first = keys_of_16-first keys 16 0 (λ i. 0) k own ∙ rw plain refl

-- A copy of the keys, with the new one at the seventeenth place.
module _ (bitmap : ℕ) (keys copy : ℕ → ℕ) (c : ℕ)
    (moved : (k : ℕ) → Moved16 bitmap keys k (copy k)) where
  key-found :
      (k : ℕ)
      → (if update copy c 17 k == 0 then none else some (update copy c 17 k - 1))
        ≡ (if c == k then some 16 else found_at bitmap keys k)
  unfolding Moved16
  key-found k = elim (Bool-cases (c == k)) [
    | inl this ↦ rw this refl
    | inr other ↦ rw other (elim (moved k) [
      | inl (none', off) ↦ rw (none', off) refl
      | inr (j, at, some', lt, key) ↦
          let one_up : (j + 1 == 0) ≡ false = ground arith in
          let back : j + 1 - 1 ≡ j = omega arith in rw (at, some', one_up, back) refl
    ])
  ]

  copy-lt : (k : ℕ) → copy k ≤ 16
  unfolding Moved16
  copy-lt k = elim (moved k) [
    | inl (none', off) ↦ omega arith
    | inr (j, at, some', lt, key) ↦ omega arith
  ]

  copy-byte : IsBitmap bitmap keys → (k : ℕ) → copy k ≢ 0 → k < 256
  unfolding Moved16 IsBitmap
  copy-byte is k set = elim (moved k) [
    | inl (none', off) ↦ absurd (set none')
    | inr (j, at, some', lt, key) ↦
        let byte = (is.1 j lt (found_at-some bitmap keys k j some').0).0 in omega (arith, byte, key)
  ]

  copy-own : (a b : ℕ) → copy a ≢ 0 → copy a ≡ copy b → a ≡ b
  unfolding Moved16
  copy-own a b set same = elim (moved a) [
    | inl (none', off) ↦ absurd (set none')
    | inr (i, at, some', lt, key) ↦ elim (moved b) [
      | inl (none'', off) ↦ absurd (omega arith)
      | inr (j, at', some'', lt', key') ↦
          let here : i ≡ j = omega arith in sym key ∙ ap keys here ∙ key'
    ]
  ]

  new_keys-IsKeys : IsBitmap bitmap keys → c < 256 → IsKeys (update copy c 17)
  new_keys-IsKeys is byte = record {
    byte = λ k set. elim (Bool-cases (c == k)) [
      | inl this ↦ omega (arith, ==→eq c k this)
      | inr other ↦ copy-byte is k (rw other at set)
    ];
    place = λ k. ground (arith, copy-lt k);
    own = λ a b set same. elim (Bool-cases (c == a)) [
      | inl here ↦ elim (Bool-cases (c == b)) [
        | inl here' ↦ sym (==→eq c a here) ∙ ==→eq c b here'
        | inr off ↦ absurd (omega (arith, rw (here, off) at same, copy-lt b))
      ]
      | inr off ↦ elim (Bool-cases (c == b)) [
        | inl here' ↦ absurd (omega (arith, rw (off, here') at same, copy-lt a))
        | inr off' ↦ copy-own a b (rw off at set) (rw (off, off') at same)
      ]
    ];
  }

lt→ltb : (i n : ℕ) → i < n → ltb i n ≡ true
lt→ltb i n lt = ground arith

grow16-found :
    (bitmap : ℕ) (keys copy : ℕ → ℕ) (children : ℕ → Node) (c k : ℕ) (child : Node)
    → ((k : ℕ) → Moved16 bitmap keys k (copy k))
    → child_at
        (node48 (update copy c 17))
        (update (λ i. if ltb i 16 then children i else null) 16 child)
        k
      ≡ (if c == k then child else child_at (node16 bitmap keys) children k)
unfolding find_child found_at
grow16-found bitmap keys copy children c k child moved =
    placed (node16 bitmap keys) (node48 (update copy c 17)) children
      (update (λ i. if ltb i 16 then children i else null) 16 child) c 16 k child
      (λ i ne h.
        let lt : i < 16 = (found_at-some bitmap keys k i h).2 in
        let off : (16 == i) ≡ false = ne→== 16 i (omega (arith, lt)) in
        rw (off, lt→ltb i 16 lt) refl)
      (update_self (λ i. if ltb i 16 then children i else null) 16 child)
      (key-found bitmap keys copy c moved k)
      (λ h. absurd (omega (arith, (found_at-some bitmap keys k 16 h).2)))

grown :
    (bitmap : ℕ) (keys copy : ℕ → ℕ) (children : ℕ → Node) (c : ℕ) (child : Node)
    → ((k : ℕ) → Moved16 bitmap keys k (copy k))
    → IsBitmap bitmap keys
    → c < 256
    → Adds
        (node16 bitmap keys)
        children
        c
        child
        (node48 (update copy c 17), update (λ i. if ltb i 16 then children i else null) 16 child)
unfolding IsIndex find_child found_at
grown bitmap keys copy children c child moved is byte = record {
  shape = new_keys-IsKeys bitmap keys copy c moved is byte;
  found = λ k. grow16-found bitmap keys copy children c k child moved;
  free = λ k ne off.
      still_free c 16 k (found_at bitmap keys k)
        (if update copy c 17 k == 0 then none else some (update copy c 17 k - 1))
        (key-found bitmap keys copy c moved k) ne off;
}

grow16-Adds :
    (bitmap : ℕ) (keys : ℕ → ℕ) (children : ℕ → Node) (c : ℕ) (child : Node)
    → IsIndex (node16 bitmap keys)
    → c < 256
    → found_at bitmap keys c ≡ none
    → bitmap ≡ 2 ^ 16 - 1
    → (bitmap == 2 ^ 16 - 1) ≡ true
    → Grows (node16 bitmap keys) children c child (add_child16 bitmap keys children c child)
unfolding add_child16
grow16-Adds bitmap keys children c child is byte off full full' =
    let copy = keys_of_16 keys 16 0 (λ i. 0) in
    let is' : IsBitmap bitmap keys = unfold IsIndex in is in
    let moved : (k : ℕ) → Moved16 bitmap keys k (copy k) =
      λ k. keys_of_16-Moved16 bitmap keys k is' full in
    (
      (node48 (update copy c 17), update (λ i. if ltb i 16 then children i else null) 16 child),
      rw full' refl,
      grown bitmap keys copy children c child moved is' byte,
    )

pub add_child16-Adds :
    (bitmap : ℕ) (keys : ℕ → ℕ) (children : ℕ → Node) (c : ℕ) (child : Node)
    → IsIndex (node16 bitmap keys)
    → c < 256
    → found_at bitmap keys c ≡ none
    → Grows (node16 bitmap keys) children c child (add_child16 bitmap keys children c child)
unfolding add_child16 IsIndex find_child found_at
add_child16-Adds bitmap keys children c child is byte off =
    elim (Bool-cases (bitmap == 2 ^ 16 - 1)) [
      | inr room ↦
          let e = find_next_zero_bit bitmap 16 in
          let (small, clear) : (e < 16) × (bit bitmap e ≡ false) =
            find_next_zero_bit-room bitmap 16 (omega arith) (omega arith) (unfold IsBitmap in is.0)
              (==→ne bitmap (2 ^ 16 - 1) room) in
          let in_range : (e == 16) ≡ false = ne→== e 16 (omega (arith, small)) in
          (
            (node16 (bitmap + 2 ^ e) (update keys e c), update children e child),
            rw (room, in_range) refl,
            record {
              shape = add-IsBitmap bitmap keys c e is small byte clear off;
              found = λ k.
                  placed (node16 bitmap keys) (node16 (bitmap + 2 ^ e) (update keys e c)) children
                    (update children e child) c e k child
                    (λ j ne h. update_ne children e j child (λ e'. ne (sym e')))
                    (update_self children e child) (found_at-add bitmap keys c e k small clear off)
                    (λ h. taken bitmap keys k e clear h);
              free = λ k ne off'.
                  still_free c e k (found_at bitmap keys k)
                    (found_at (bitmap + 2 ^ e) (update keys e c) k)
                    (found_at-add bitmap keys c e k small clear off) ne off';
            },
          )
      | inl full ↦
          grow16-Adds bitmap keys children c child is byte off (==→eq bitmap (2 ^ 16 - 1) full) full
    ]
