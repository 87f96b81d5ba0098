-- ===== src/Woart/AddMore.antt =====
-- A new child of a node of 48.
use wrert.Prelude.{
  ℕ, ◌+◌, ◌-◌, ◌<◌, ◌≡◌, ◌≢◌, refl, sym, ◌∙◌, ap, inl, inr, false, none, some, arith, ltb, ◌==◌,
  if◌then◌else◌, update, update_ne, update_self, Bool-cases, ltb→lt, ==→eq, ==→ne,
}
use mathlib.Core.Option.{some-injective}
use wrert.Woart.Bits.{bit, find_next_zero_bit}
use wrert.Woart.Count.{count, find_next_zero_bit-clear}
use wrert.Woart.Keys.{IsKeys, total, Scan, scan_keys-Scan, copy_children-used, copy_children-kept}
use wrert.Woart.Layout.{
  still_free, find_child-null, child_at-free, IsIndex, Adds, Grows, placed, child_at-node256,
}
use wrert.Woart.Node.{
  Node, node48, node256, find_child, child_at, no_children, scan_keys, copy_children, add_child48,
  add_child256,
}

-- A new key, at a place that no other key has.
new_key-IsKeys :
    (keys : ℕ → ℕ) (c pos : ℕ)
    → IsKeys keys
    → c < 256
    → pos < 48
    → ((k : ℕ) → keys k ≢ pos + 1)
    → IsKeys (update keys c (pos + 1))
new_key-IsKeys keys c pos is byte small fresh = record {
  byte = λ k set. elim (Bool-cases (c == k)) [
    | inl this ↦ omega (arith, ==→eq c k this)
    | inr other ↦ is.byte k (rw other at set)
  ];
  place = λ k. ground (arith, is.place k);
  own = λ a b set same. elim (Bool-cases (c == a)) [
    | inl here ↦ elim (Bool-cases (c == b)) [
      | inl here' ↦ sym (==→eq c a here) ∙ ==→eq c b here'
      | inr off ↦ absurd (fresh b (sym (rw (here, off) at same)))
    ]
    | inr off ↦ elim (Bool-cases (c == b)) [
      | inl here' ↦ absurd (fresh a (rw (off, here') at same))
      | inr off' ↦ is.own a b (rw off at set) (rw (off, off') at same)
    ]
  ];
}

room-Adds :
    (keys : ℕ → ℕ) (children : ℕ → Node) (c pos : ℕ) (child : Node)
    → IsKeys keys
    → c < 256
    → pos < 48
    → ((k : ℕ) → keys k ≢ pos + 1)
    → Adds
        (node48 keys)
        children
        c
        child
        (node48 (update keys c (pos + 1)), update children pos child)
unfolding IsIndex find_child
room-Adds keys children c pos child is byte small fresh = record {
  shape = new_key-IsKeys keys c pos is byte small fresh;
  found = λ k.
      placed (node48 keys) (node48 (update keys c (pos + 1))) children (update children pos child) c
        pos k child (λ j ne h. update_ne children pos j child (λ e. ne (sym e)))
        (update_self children pos child) (new_found k) (free k);
  free = λ k ne off.
      still_free c pos k (if keys k == 0 then none else some (keys k - 1))
        (if update keys c (pos + 1) k == 0 then none else some (update keys c (pos + 1) k - 1))
        (new_found k) ne off;
}
  where
    new_found :
        (k : ℕ)
        → (if update keys c (pos + 1) k == 0 then none else some (update keys c (pos + 1) k - 1))
          ≡ (if c == k then some pos else if keys k == 0 then none else some (keys k - 1))
    new_found k =
        let set : (pos + 1 == 0) ≡ false = ground arith in
        let back : pos + 1 - 1 ≡ pos = omega arith in
        elim (Bool-cases (c == k)) [
          | inl this ↦ rw (this, set, back) refl
          | inr other ↦ rw other refl
        ]

    free : (k : ℕ) → (if keys k == 0 then none else some (keys k - 1)) ≢ some pos
    free k h = elim (Bool-cases (keys k == 0)) [
      | inl off ↦ absurd (cc (rw off at h))
      | inr on ↦
          let at : keys k - 1 ≡ pos = some-injective (keys k - 1) pos (rw on at h) in
          fresh k (ground (arith, ==→ne (keys k) 0 on))
    ]

-- The copy has each child under its key.
copy-child_at :
    (keys : ℕ → ℕ) (children : ℕ → Node) (num k : ℕ)
    → IsKeys keys
    → num ≡ total keys 256 0
    → copy_children keys children 256 0 num no_children k ≡ child_at (node48 keys) children k
unfolding find_child child_at
copy-child_at keys children num k is all = elim (Bool-cases (keys k == 0)) [
  | inl off ↦
      rw (off, child_at)
        (copy_children-kept keys children 256 0 num no_children k
          (λ set. absurd (set (==→eq (keys k) 0 off))))
  | inr on ↦
      let set = ==→ne (keys k) 0 on in
      let byte : k < 0 + 256 = omega (arith, is.byte k set) in
      rw (on, child_at)
        (copy_children-used keys children 256 0 num no_children k all (omega arith) byte set)
]

full-Adds :
    (keys : ℕ → ℕ) (children : ℕ → Node) (c num : ℕ) (child : Node)
    → IsKeys keys
    → num ≡ total keys 256 0
    → Adds
        (node48 keys)
        children
        c
        child
        (node256, update (copy_children keys children 256 0 num no_children) c child)
unfolding IsIndex
full-Adds keys children c num child is all = record {
  shape = tt;
  found = λ k.
      child_at-node256 (update (copy_children keys children 256 0 num no_children) c child) k
      ∙ ap (λ x. if c == k then child else x) (copy-child_at keys children num k is all);
  free = λ k ne off.
      find_child-null (update (copy_children keys children 256 0 num no_children) c child) k (
        update_ne (copy_children keys children 256 0 num no_children) c k child ne
        ∙ copy-child_at keys children num k is all
        ∙ child_at-free (node48 keys) children k off);
}

-- A place that is free.
room-fresh :
    (keys : ℕ → ℕ) (all : ℕ) (r : ℕ × ℕ)
    → IsKeys keys
    → Scan keys 256 all r
    → r.0 < 48
    → (find_next_zero_bit r.1 48 < 48) × ((k : ℕ) → keys k ≢ find_next_zero_bit r.1 48 + 1)
room-fresh keys all r is s lt =
    let few : count (bit r.1) 48 < 48 = rw s.counted at lt in
    let (small, clear) = find_next_zero_bit-clear r.1 48 (omega arith) few in
    (
      small,
      λ k at.
          let set : keys k ≢ 0 = λ e. absurd (omega (arith, at, e)) in
          let on = s.places lt k (is.byte k set) set in
          let back : keys k - 1 ≡ find_next_zero_bit r.1 48 = omega (arith, at) in
          cc (rw back at on, clear),
    )

pub add_child48-Adds :
    (keys : ℕ → ℕ) (children : ℕ → Node) (c : ℕ) (child : Node)
    → IsKeys keys
    → c < 256
    → Grows (node48 keys) children c child (add_child48 keys children c child)
unfolding add_child48 add_child256
add_child48-Adds keys children c child is byte =
    let r = scan_keys keys 256 0 0 0 in
    let s = scan_keys-Scan keys 256 is in
    let pos = find_next_zero_bit r.1 48 in
    elim (Bool-cases (ltb r.0 48)) [
      | inl room ↦
          let (small, fresh) = room-fresh keys (total keys 256 0) r is s (ltb→lt r.0 48 room) in
          (
            (node48 (update keys c (pos + 1)), update children pos child),
            rw room refl,
            room-Adds keys children c pos child is byte small fresh,
          )
      | inr full ↦ (
        (node256, update (copy_children keys children 256 0 r.0 no_children) c child),
        rw full refl,
        full-Adds keys children c r.0 child is s.number,
      )
    ]
