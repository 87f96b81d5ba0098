-- ===== src/Ert/Node/Splits.antt =====
-- A node after the split of a segment that has more than one directory entry.
use wrert.Prelude.{
  ℕ, suc, ◌+◌, ◌-◌, ◌*◌, ◌/◌, ◌%◌, ◌^◌, ◌<◌, ◌≡◌, ◌≢◌, refl, sym, ap, ◌∙◌, subst, Bool, true, false,
  leb, ltb, ◌&&◌, ◌==◌, if◌then◌else◌, inl, inr, Bool-cases, ==→eq, ==→ne, update, update_self,
  update_ne, arith,
}
use native.Mathlib.Nat.{div-div-eq-div-mul, pow-suc, mul_comm, mul_assoc, div-add-mod}
use wrert.Ert.{zero_counter, bucket_get, get_seg_num}
use wrert.Ert.Memory.{Memory, Segment, Node, alloc_segment}
use wrert.Ert.Node.{split}
use wrert.Ert.Node.Shape.{IsDirectory, WellFormed, Same, bucket_of, get-bucket_of}
use wrert.Ert.Node.Sides.{
  upper_segment, lower_segment, Side, upper, lower, outer, sides-IsDirectory, sides-get,
}
use wrert.Wrert.Words.Halves.{leb-times, ltb-times, pow-positive}

-- The bounds of a stretch of `2 ^ (e + 1)` entries, by the number of an entry's half stretch.
module _ (i x e : ℕ) (at : x ≡ suc e) where
  abbrev whole : ℕ
  whole = i / 2 ^ x

  whole-half : (j : ℕ) → j / 2 ^ x ≡ j / 2 ^ e / 2
  whole-half j = rw (at, pow-suc 2 e) (sym (div-div-eq-div-mul j (2 ^ e) 2))

  size : 2 ^ x ≡ 2 ^ e * 2
  size = rw at (pow-suc 2 e)

  left-eq : i - i % 2 ^ x ≡ whole * 2 * 2 ^ e
  left-eq =
      let all = div-add-mod i (2 ^ x) in
      let swap : whole * 2 ^ x ≡ whole * 2 * 2 ^ e =
        ap (λ y. whole * y) (size ∙ mul_comm (2 ^ e) 2) ∙ sym (mul_assoc whole 2 (2 ^ e)) in
      let swap' = mul_comm whole (2 ^ x) in omega arith

  mid-leb : (j : ℕ) → leb (i - i % 2 ^ x + 2 ^ x / 2) j ≡ leb (whole * 2 + 1) (j / 2 ^ e)
  mid-leb j =
      let f : i - i % 2 ^ x + 2 ^ x / 2 ≡ (whole * 2 + 1) * 2 ^ e = omega (arith, left-eq, size) in
      ap (λ y. leb y j) f ∙ leb-times (whole * 2 + 1) (2 ^ e) j (pow-positive e)

  right-ltb : (j : ℕ) → ltb j (i - i % 2 ^ x + 2 ^ x) ≡ ltb (j / 2 ^ e) (whole * 2 + 2)
  right-ltb j =
      let f : i - i % 2 ^ x + 2 ^ x ≡ (whole * 2 + 2) * 2 ^ e = omega (arith, left-eq, size) in
      ap (λ y. ltb j y) f ∙ ltb-times (whole * 2 + 2) (2 ^ e) j (pow-positive e)

module _ (m : Memory) (p index : ℕ) (h : WellFormed m p) (lt : index < 2 ^ (m.nodes p).global_depth)
    (shallow : (m.segments ((m.nodes p).dir index)).depth < (m.nodes p).global_depth) where
  abbrev n : Node
  n = m.nodes p

  abbrev s : ℕ
  s = n.dir index

  abbrev d : ℕ
  d = (m.segments s).depth

  abbrev e : ℕ
  e = n.global_depth - d - 1

  abbrev c : ℕ
  c = index / 2 ^ (n.global_depth - d)

  abbrev mid : ℕ
  mid = index - index % 2 ^ (n.global_depth - d) + 2 ^ (n.global_depth - d) / 2

  abbrev right : ℕ
  right = index - index % 2 ^ (n.global_depth - d) + 2 ^ (n.global_depth - d)

  abbrev goes : ℕ → Bool
  goes key = leb mid (get_seg_num key 32 n.global_depth)

  abbrev new_dir : ℕ → ℕ
  new_dir i = if leb mid i && ltb i right then m.next_segment else n.dir i

  abbrev empty : Segment
  empty = record { depth = d + 1; bucket = λ i j. zero_counter }

  abbrev with_empty : ℕ → Segment
  with_empty = update m.segments m.next_segment empty

  abbrev with_upper : ℕ → Segment
  with_upper = update with_empty m.next_segment (upper_segment goes (m.segments s))

  abbrev new_segments : ℕ → Segment
  new_segments = update with_upper s (lower_segment (m.segments s))

  pub splitted : Memory
  splitted = record m {
    segments = new_segments;
    next_segment = m.next_segment + 1;
    nodes = update m.nodes p (record n { dir = new_dir });
  }

  pub split-splitted : split m p s index ≡ splitted
  unfolding split splitted alloc_segment
  split-splitted = refl

  exponent : n.global_depth - d ≡ suc e
  exponent = omega arith

  mid-half : (j : ℕ) → leb mid j ≡ leb (c * 2 + 1) (j / 2 ^ e)
  mid-half j = mid-leb index (n.global_depth - d) e exponent j

  right-half : (j : ℕ) → ltb j right ≡ ltb (j / 2 ^ e) (c * 2 + 2)
  right-half j = right-ltb index (n.global_depth - d) e exponent j

  half : (j : ℕ) → j / 2 ^ (n.global_depth - d) ≡ j / 2 ^ e / 2
  half j = whole-half index (n.global_depth - d) e exponent j

  new_dir-in : (j : ℕ) → (leb mid j && ltb j right) ≡ true → new_dir j ≡ m.next_segment
  new_dir-in j q = rw q refl

  new_dir-out : (j : ℕ) → (leb mid j && ltb j right) ≡ false → new_dir j ≡ n.dir j
  new_dir-out j q = rw q refl

  bounds :
      (j : ℕ)
      → (leb mid j && ltb j right) ≡ (leb (c * 2 + 1) (j / 2 ^ e) && ltb (j / 2 ^ e) (c * 2 + 2))
  bounds j = rw (mid-half j, right-half j) refl

  side : (j : ℕ) → j < 2 ^ n.global_depth → Side n.dir new_dir m.next_segment s c e j
  side j l = elim (Bool-cases (j / 2 ^ e / 2 == c)) [
    | inr ne ↦
        let apart : j / 2 ^ e / 2 ≢ c = ==→ne _ _ ne in
        outer apart (new_dir-out j (bounds j ∙ ground (arith, apart)))
          (h.apart index j lt l (λ q. apart (sym (half j) ∙ q)))
    | inl eq ↦
        let at : j / 2 ^ e / 2 ≡ c = ==→eq _ _ eq in
        let old = h.same index j lt l (half j ∙ at) in
        elim (Bool-cases (j / 2 ^ e == c * 2 + 1)) [
          | inl up ↦
              let y = ==→eq _ _ up in upper y (new_dir-in j (bounds j ∙ ground (arith, y))) old
          | inr low ↦
              let ny = ==→ne (j / 2 ^ e) (c * 2 + 1) low in
              let y : j / 2 ^ e ≡ c * 2 = omega arith in
              lower y (new_dir-out j (bounds j ∙ ground (arith, y)) ∙ old) old
        ]
  ]

  s-old : s < m.next_segment
  s-old = h.old index lt

  fresh : new_segments m.next_segment ≡ upper_segment goes (m.segments s)
  fresh =
      update_ne with_upper s m.next_segment (lower_segment (m.segments s)) (omega (arith, s-old))
      ∙ update_self with_empty m.next_segment (upper_segment goes (m.segments s))

  stays : new_segments s ≡ lower_segment (m.segments s)
  stays = update_self with_upper s (lower_segment (m.segments s))

  others : (a : ℕ) → m.next_segment ≢ a → s ≢ a → new_segments a ≡ m.segments a
  others a ne ne' =
      update_ne with_upper s a (lower_segment (m.segments s)) ne'
      ∙ update_ne with_empty m.next_segment a (upper_segment goes (m.segments s)) ne
      ∙ update_ne m.segments m.next_segment a empty ne

  deep : n.global_depth ≡ d + 1 + e
  deep = omega arith

  pub splitted-WellFormed : WellFormed splitted p
  unfolding splitted
  splitted-WellFormed =
      subst (λ x. IsDirectory new_segments (m.next_segment + 1) x)
        (sym (update_self m.nodes p (record n { dir = new_dir })))
        (sides-IsDirectory m.segments new_segments m.next_segment s c e n new_dir goes h deep side
          fresh stays others)

  pub splitted-Same : Same m p splitted p
  unfolding Same splitted
  splitted-Same key pos small =
      get-bucket_of splitted p key
      ∙ ap (λ x. bucket_get (bucket_of new_segments x key) key)
          (update_self m.nodes p (record n { dir = new_dir }))
      ∙ sides-get m.segments new_segments m.next_segment s c e n new_dir goes h deep side fresh
          stays others (λ k q. mid-half (get_seg_num k 32 n.global_depth) ∙ ground (arith, q)) key
          pos small
      ∙ sym (get-bucket_of m p key)

  splitted-node : splitted.nodes p ≡ record n { dir = new_dir }
  unfolding splitted
  splitted-node = update_self m.nodes p (record n { dir = new_dir })

  pub splitted-global : (splitted.nodes p).global_depth ≡ n.global_depth
  splitted-global = ap (λ x. x.global_depth) splitted-node

  pub splitted-header : (splitted.nodes p).header ≡ n.header
  splitted-header = ap (λ x. x.header) splitted-node

  pub splitted-root : splitted.root ≡ m.root
  unfolding splitted
  splitted-root = refl

  new-depth :
      Side n.dir new_dir m.next_segment s c e index → (new_segments (new_dir index)).depth ≡ d + 1
  new-depth (upper y a b) = ap (λ x. (new_segments x).depth) a ∙ ap (λ x. x.depth) fresh
  new-depth (lower y a b) = ap (λ x. (new_segments x).depth) a ∙ ap (λ x. x.depth) stays
  new-depth (outer y a b) = absurd (b refl)

  pub splitted-depth : (splitted.segments ((splitted.nodes p).dir index)).depth ≡ d + 1
  unfolding splitted
  splitted-depth =
      ap (λ x. (new_segments (x.dir index)).depth) splitted-node ∙ new-depth (side index lt)

  pub splitted-next : splitted.next_node ≡ m.next_node
  unfolding splitted
  splitted-next = refl

  -- The split of a segment to which at least two entries of a well-formed node's directory lead leaves
  -- the node well formed, and every key of 32 bits that is not 0 with what a lookup answers for it.
  pub split-keeps : WellFormed (split m p s index) p × Same m p (split m p s index) p
  split-keeps = rw split-splitted (splitted-WellFormed, splitted-Same)
