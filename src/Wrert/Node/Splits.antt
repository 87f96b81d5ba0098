-- ===== src/Wrert/Node/Splits.antt =====
-- The pairs of a node before and after a segment is split whose entries fill a stretch of the
-- directory (the first branch of WRERTNode::put of wrert/wrert_node.cpp).
use wrert.Prelude.{
  ℕ, suc, ◌+◌, ◌-◌, ◌*◌, ◌/◌, ◌^◌, ◌≤◌, ◌<◌, ◌≡◌, ◌≢◌, inl, inr, ◌↔◌, refl, sym, ap, ◌∙◌, Bool,
  true, false, leb, ltb, ◌==◌, ◌&&◌, arith, update, update_self, Bool-cases, ==→eq, ==→ne,
}
use native.Mathlib.Nat.{pow-suc, mul_comm, mul_assoc}
use wrert.Wrert.Memory.{SegmentNode, Node, Memory, write_segment, write_node, alloc_segment}
use wrert.Wrert.Node.{home, split_entries, split_segment}
use wrert.Wrert.Node.Doubles.{
  HoldsAt, NodeHolds, Numbered, low_entry, stacked, stacked-old, stacked-fresh, stacked-other,
}
use wrert.Wrert.Segment.{Segment, split_off, split_rest}
use wrert.Wrert.Segment.Spread.{Layout}
use wrert.Wrert.Segment.Split.{split_off-Holds, split_rest-Holds}
use wrert.Wrert.Slot.{Slot}
use wrert.Wrert.Words.{get_segment_number, load_offset, dst_offset}
use wrert.Wrert.Words.Layout.{dst_offset-IsOffset, load-store_offset}
use wrert.Wrert.Words.Halves.{
  number-whole, start-leb, middle-leb, middle-ltb, end-ltb, upper-main, lower-main, whole-half,
}
use wrert.Wrert.Words.Numbers.{number-lt, top}

times_swap : (c h : ℕ) → c * (h * 2) ≡ c * 2 * h
times_swap c h = ap (λ x. c * x) (mul_comm h 2) ∙ sym (mul_assoc c 2 h)

upper_entry : (e : SegmentNode) → (fresh : ℕ) → SegmentNode
upper_entry e fresh = record e { local_depth = e.local_depth + 1; segment_ptr = fresh }

module _ (entries : ℕ → SegmentNode) (start half offset fresh i : ℕ) where
  split_entries-low :
      leb start i ≡ true
      → ltb i (start + half) ≡ true
      → split_entries entries start half offset fresh i ≡ low_entry (entries i) offset
  unfolding split_entries low_entry
  split_entries-low a b = rw (a, b) refl

  split_entries-high :
      leb (start + half) i ≡ true
      → ltb i (start + half + half) ≡ true
      → split_entries entries start half offset fresh i ≡ upper_entry (entries i) fresh
  unfolding split_entries upper_entry
  split_entries-high a b =
      let c : (leb start i && ltb i (start + half)) ≡ false = ground (arith, a) in rw (c, a, b) refl

  split_entries-other :
      (leb start i && ltb i (start + half + half)) ≡ false
      → split_entries entries start half offset fresh i ≡ entries i
  unfolding split_entries
  split_entries-other a =
      let c : (leb start i && ltb i (start + half)) ≡ false = ground (arith, a) in
      let b : (leb (start + half) i && ltb i (start + half + half)) ≡ false = ground (arith, a) in
      rw (c, b) refl

-- A segment of depth `d` whose entries, as many as `2 ^ (e + 1)`, all lead to it and to no other.
pub record Splitting (m : Memory) (n : Node) (index offset d e : ℕ) : Type 0 where
  pub deep : n.global_depth ≡ d + 1 + e
  pub bound : d + 1 + e ≤ 32
  pub depth : (n.entries index).local_depth ≡ d
  pub at : load_offset (n.entries index).shared_bucket_offset ≡ offset
  pub layout :
      Layout (Numbered d (index / 2 ^ suc e)) (m.segments (n.entries index).segment_ptr) offset d
  pub same :
      (j : ℕ)
      → j < 2 ^ n.global_depth
      → j / 2 ^ suc e ≡ index / 2 ^ suc e
      → n.entries j ≡ n.entries index
  pub own :
      (j : ℕ)
      → j < 2 ^ n.global_depth
      → (j / 2 ^ suc e) ≢ (index / 2 ^ suc e)
      → (n.entries index).segment_ptr ≢ (n.entries j).segment_ptr
  pub old : (j : ℕ) → j < 2 ^ n.global_depth → m.next_segment ≢ (n.entries j).segment_ptr
  pub index_lt : index < 2 ^ n.global_depth

module _ (m : Memory) (p index offset d e : ℕ) (h : Splitting m (m.nodes p) index offset d e) where
  abbrev n : Node
  n = m.nodes p

  abbrev entry : SegmentNode
  entry = n.entries index

  abbrev c : ℕ
  c = index / 2 ^ suc e

  abbrev start : ℕ
  start = c * 2 * 2 ^ e

  abbrev number : ℕ → ℕ
  number k = get_segment_number k 32 (d + 1 + e)

  abbrev goes : ℕ → Bool
  goes k = leb (start + 2 ^ e) (number k)

  abbrev stays : ℕ → Bool
  stays k = ltb (number k) (start + 2 ^ e)

  abbrev segs : ℕ → Segment
  segs =
      stacked m.segments m.next_segment entry.segment_ptr
        (split_off (m.segments entry.segment_ptr) offset offset d goes)
        (split_rest (m.segments entry.segment_ptr) offset d stays)

  abbrev new_entries : ℕ → SegmentNode
  new_entries = split_entries n.entries start (2 ^ e) offset m.next_segment

  abbrev splitted : Memory
  splitted = record m {
    segments = segs;
    next_segment = m.next_segment + 1;
    nodes = update m.nodes p (record n { entries = new_entries });
  }

  split_segment-splitted : split_segment m p index offset ≡ splitted
  unfolding split_segment alloc_segment write_segment write_node
  split_segment-splitted =
      let f : d + 1 + e - d ≡ suc e = omega arith in
      let half : 2 ^ suc e / 2 ≡ 2 ^ e = rw (pow-suc 2 e) (omega arith) in
      let first : index / 2 ^ suc e * 2 ^ suc e ≡ start =
        rw (pow-suc 2 e) (times_swap (index / (2 ^ e * 2)) (2 ^ e)) in
      rw (h.depth, h.deep, f, half, first) refl

  entry_low :
      (s : Slot)
      → Numbered d c s.sub_key
      → stays s.sub_key ≡ true
      → HoldsAt m.segments entry s ↔ HoldsAt segs (low_entry entry offset) s
  unfolding low_entry
  entry_low s mine go =
      rw
        (
          stacked-old m.segments m.next_segment entry.segment_ptr
              (split_off (m.segments entry.segment_ptr) offset offset d goes)
              (split_rest (m.segments entry.segment_ptr) offset d stays),
          h.at,
          load-store_offset (dst_offset offset) (dst_offset-IsOffset offset h.layout.offset),
          h.depth,
        )
        (split_rest-Holds (Numbered d c) (m.segments entry.segment_ptr) offset d h.layout stays
          (λ k (small, at). lower-main k d e small h.layout.depth h.bound c at) s mine go)

  entry_high :
      (s : Slot)
      → Numbered d c s.sub_key
      → goes s.sub_key ≡ true
      → HoldsAt m.segments entry s ↔ HoldsAt segs (upper_entry entry m.next_segment) s
  unfolding upper_entry
  entry_high s mine go =
      rw
        (
          stacked-fresh m.segments m.next_segment entry.segment_ptr
              (split_off (m.segments entry.segment_ptr) offset offset d goes)
              (split_rest (m.segments entry.segment_ptr) offset d stays)
              (λ q. h.old index h.index_lt (sym q)),
          h.at,
          h.depth,
        )
        (split_off-Holds (Numbered d c) (m.segments entry.segment_ptr) offset d h.layout goes
          (λ k (small, at). upper-main k d e small h.layout.depth h.bound c at) offset
          h.layout.offset s mine go)

  entry_other :
      (s : Slot) (j : ℕ)
      → j < 2 ^ n.global_depth
      → (j / 2 ^ suc e) ≢ c
      → HoldsAt m.segments (n.entries j) s ↔ HoldsAt segs (n.entries j) s
  entry_other s j lt ne =
      rw
        (stacked-other m.segments m.next_segment entry.segment_ptr
          (split_off (m.segments entry.segment_ptr) offset offset d goes)
          (split_rest (m.segments entry.segment_ptr) offset d stays) (n.entries j).segment_ptr
          (h.own j lt ne) (h.old j lt))
        (λ x. x, λ x. x)

  -- What the directory says of a subkey after the split.
  entry-Holds :
      (s : Slot)
      → s.sub_key < 2 ^ 32
      → number s.sub_key < 2 ^ n.global_depth
      → HoldsAt m.segments (n.entries (number s.sub_key)) s
        ↔ HoldsAt segs (new_entries (number s.sub_key)) s
  entry-Holds s small lt =
      let k : ℕ = s.sub_key in
      let j : ℕ = number k in
      let y : ℕ = top k (d + 1) in
      let le = h.layout.depth in
      let whole : get_segment_number k 32 d ≡ y / 2 = whole-half k d e small le h.bound in
      let up : j / 2 ^ suc e ≡ y / 2 = number-whole k d e small le h.bound ∙ whole in
      let lo : leb start j ≡ leb (c * 2) y = start-leb k d e small le h.bound c in
      let mid : leb (start + 2 ^ e) j ≡ leb (c * 2 + 1) y = middle-leb k d e small le h.bound c in
      let mid' : ltb j (start + 2 ^ e) ≡ ltb y (c * 2 + 1) = middle-ltb k d e small le h.bound c in
      let end : ltb j (start + 2 ^ e + 2 ^ e) ≡ ltb y (c * 2 + 2) =
        end-ltb k d e small le h.bound c in
      elim (Bool-cases (y / 2 == c)) [
        | inr ne ↦
            let out : (leb start j && ltb j (start + 2 ^ e + 2 ^ e)) ≡ false =
              rw (lo, end) (ground (arith, ==→ne (y / 2) c ne)) in
            rw (split_entries-other n.entries start (2 ^ e) offset m.next_segment j out)
              (entry_other s j lt (λ q. ==→ne (y / 2) c ne (sym up ∙ q)))
        | inl eq ↦
            let here : y / 2 ≡ c = ==→eq (y / 2) c eq in
            let mine : Numbered d c k = (small, whole ∙ here) in
            let one : n.entries j ≡ entry = h.same j lt (up ∙ here) in
            elim (Bool-cases (ltb y (c * 2 + 1))) [
              | inl low ↦
                  let a : leb start j ≡ true = lo ∙ ground (arith, here) in
                  rw
                    (
                      split_entries-low n.entries start (2 ^ e) offset m.next_segment j a
                          (mid' ∙ low),
                      one,
                    )
                    (entry_low s mine (mid' ∙ low))
              | inr high ↦
                  let a : leb (start + 2 ^ e) j ≡ true = mid ∙ ground (arith, high) in
                  let b : ltb j (start + 2 ^ e + 2 ^ e) ≡ true = end ∙ ground (arith, here) in
                  rw (split_entries-high n.entries start (2 ^ e) offset m.next_segment j a b, one)
                    (entry_high s mine a)
            ]
      ]

  -- Where all entries of a segment form one stretch of the directory, its shared buckets are in order
  -- and the other entries have other segments (`Splitting`), a pair with a subkey of 32 bits is found
  -- in the node after the split of the segment if and only if it was found before.
  pub split_segment-NodeHolds :
      (s : Slot)
      → s.sub_key < 2 ^ 32
      → NodeHolds m p s ↔ NodeHolds (split_segment m p index offset) p s
  unfolding home
  split_segment-NodeHolds s small =
      rw
        (split_segment-splitted, update_self m.nodes p (record n { entries = new_entries }), h.deep)
        (entry-Holds s small (rw h.deep (number-lt s.sub_key (d + 1 + e) h.bound small)))
