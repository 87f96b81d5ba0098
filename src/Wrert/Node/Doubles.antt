-- ===== src/Wrert/Node/Doubles.antt =====
-- The pairs of a node before and after its directory is doubled (the second branch of WRERTNode::put
-- of wrert/wrert_node.cpp).
use wrert.Prelude.{
  ℕ, zero, suc, ◌+◌, ◌*◌, ◌/◌, ◌^◌, ◌<◌, ◌≡◌, ◌≢◌, inl, inr, ◌⊎◌, ◌↔◌, refl, sym, ap, ◌∙◌, Bool,
  true, false, some, ◌==◌, arith, update, update_self, update_ne, Bool-cases, ==→eq, ==→ne, ok,
}
use wrert.Wrert.Header.{initialize}
use wrert.Wrert.Memory.{
  SegmentNode, Node, Memory, Before, root_ref, slot_ref, zero_node, write_slot, write_segment,
  alloc_segment, alloc_node, store_before,
}
use wrert.Wrert.Node.{home, double_entries, double_directory}
use wrert.Wrert.Segment.{Segment, new_segment, split_off, split_rest}
use wrert.Wrert.Segment.Spread.{Holds, Layout}
use wrert.Wrert.Segment.Split.{split_off-Holds, split_rest-Holds}
use wrert.Wrert.Slot.{Slot}
use wrert.Wrert.Words.{get_segment_number, load_offset, store_offset, dst_offset}
use wrert.Wrert.Words.Layout.{dst_offset-IsOffset, load-store_offset}
use wrert.Wrert.Words.Numbers.{number-halves, number-upper, number-lower, number-lt}

-- A pair is found through a directory entry.
abbrev pub HoldsAt : (ℕ → Segment) → SegmentNode → Slot → Type 0
HoldsAt segs e s = Holds (segs e.segment_ptr) (load_offset e.shared_bucket_offset) e.local_depth s

-- A pair is found in a node.
abbrev pub NodeHolds : Memory → (node : ℕ) → Slot → Type 0
NodeHolds m p s =
    let at = home (m.nodes p) s.sub_key in
    Holds (m.segments at.entry.segment_ptr) at.offset at.entry.local_depth s

-- The subkeys of a directory entry.
abbrev pub Numbered : (global_depth index : ℕ) → ℕ → Type 0
Numbered g index k = (k < 2 ^ 32) × (get_segment_number k 32 g ≡ index)

-- The reference to a node is the root pointer or a slot outside the segments of `Inside`.
unfoldable pub Linked : (Inside : ℕ → Type 0) (node_header_depth : ℕ) → Before → Type 0
Linked Inside zero root_ref = Unit
Linked Inside zero (slot_ref r) = ⊥
Linked Inside (suc n) root_ref = ⊥
Linked Inside (suc n) (slot_ref r) = (q : ℕ) → Inside q → r.segment ≢ q

store_before-Linked :
    (Inside : ℕ → Type 0) (m : Memory) (n : ℕ) (before : Before) (p : ℕ)
    → Linked Inside n before
    → (m' : Memory) × (store_before m n before p ≡ ok m')
      × (m'.nodes ≡ m.nodes)
      × ((q : ℕ) → Inside q → m'.segments q ≡ m.segments q)
unfolding store_before Linked write_slot
store_before-Linked Inside m zero root_ref p l = (_, refl, refl, λ q i. refl)
store_before-Linked Inside m zero (slot_ref r) p l = absurd l
store_before-Linked Inside m (suc n) root_ref p l = absurd l
store_before-Linked Inside m (suc n) (slot_ref r) p l =
    (_, refl, refl, λ q i. update_ne m.segments r.segment q _ (l q i))

unfoldable pub low_entry : (e : SegmentNode) → (offset : ℕ) → SegmentNode
low_entry e offset = record e {
  local_depth = e.local_depth + 1;
  shared_bucket_offset = store_offset (dst_offset offset);
}

high_entry : (e : SegmentNode) → (fresh : ℕ) → SegmentNode
high_entry e fresh = record e {
  local_depth = e.local_depth + 1;
  segment_ptr = fresh;
  shared_bucket_offset = store_offset 0;
}

double_entries-low :
    (entries : ℕ → SegmentNode) (index offset fresh i : ℕ)
    → i ≡ index * 2
    → double_entries entries index offset fresh i ≡ low_entry (entries index) offset
unfolding double_entries low_entry
double_entries-low entries index offset fresh i e =
    let b : (i == index * 2) ≡ true = ground (arith, e) in
    let half : i / 2 ≡ index = omega arith in rw (b, half) refl

double_entries-high :
    (entries : ℕ → SegmentNode) (index offset fresh i : ℕ)
    → i ≡ index * 2 + 1
    → double_entries entries index offset fresh i ≡ high_entry (entries index) fresh
unfolding double_entries high_entry
double_entries-high entries index offset fresh i e =
    let a : (i == index * 2) ≡ false = ground (arith, e) in
    let b : (i == index * 2 + 1) ≡ true = ground (arith, e) in
    let half : i / 2 ≡ index = omega arith in rw (a, b, half) refl

double_entries-other :
    (entries : ℕ → SegmentNode) (index offset fresh i j : ℕ)
    → i / 2 ≡ j
    → j ≢ index
    → double_entries entries index offset fresh i ≡ entries j
unfolding double_entries
double_entries-other entries index offset fresh i j half ne =
    let a : (i == index * 2) ≡ false = elim (Bool-cases (i == index * 2)) [
      | inl t ↦ absurd (ne (omega (arith, half, ==→eq i (index * 2) t)))
      | inr f ↦ f
    ] in
    let b : (i == index * 2 + 1) ≡ false = elim (Bool-cases (i == index * 2 + 1)) [
      | inl t ↦ absurd (ne (omega (arith, half, ==→eq i (index * 2 + 1) t)))
      | inr f ↦ f
    ] in
    rw (a, b, half) refl

-- The segments of a directory, and the one that is allocated next.
abbrev pub Inside : Memory → Node → ℕ → Type 0
Inside m n q =
    ((j : ℕ) × (j < 2 ^ n.global_depth) × (q ≡ (n.entries j).segment_ptr)) ⊎ (q ≡ m.next_segment)

-- A directory entry that has a segment to itself, as its node has it when the segment is full.
pub record Doubling (m : Memory) (n : Node) (index offset : ℕ) (before : Before) : Type 0 where
  pub depth : (n.entries index).local_depth ≡ n.global_depth
  pub at : load_offset (n.entries index).shared_bucket_offset ≡ offset
  pub layout :
      Layout
        (Numbered n.global_depth index)
        (m.segments (n.entries index).segment_ptr)
        offset
        n.global_depth
  pub own :
      (j : ℕ)
      → j < 2 ^ n.global_depth
      → j ≢ index
      → (n.entries index).segment_ptr ≢ (n.entries j).segment_ptr
  pub old : (j : ℕ) → j < 2 ^ n.global_depth → m.next_segment ≢ (n.entries j).segment_ptr
  pub index_lt : index < 2 ^ n.global_depth
  pub linked : Linked (Inside m n) n.header.node_header_depth before

-- The segments of a memory, with one allocated and written and another one written.
abbrev pub stacked : (ℕ → Segment) → (fresh old : ℕ) → (off rest : Segment) → ℕ → Segment
stacked f fresh old off rest = update (update (update f fresh new_segment) fresh off) old rest

pub stacked-old :
    (f : ℕ → Segment) (fresh old : ℕ) (off rest : Segment) → stacked f fresh old off rest old ≡ rest
stacked-old f fresh old off rest =
    update_self (update (update f fresh new_segment) fresh off) old rest

pub stacked-fresh :
    (f : ℕ → Segment) (fresh old : ℕ) (off rest : Segment)
    → old ≢ fresh
    → stacked f fresh old off rest fresh ≡ off
stacked-fresh f fresh old off rest ne =
    update_ne (update (update f fresh new_segment) fresh off) old fresh rest ne
    ∙ update_self (update f fresh new_segment) fresh off

pub stacked-other :
    (f : ℕ → Segment) (fresh old : ℕ) (off rest : Segment) (q : ℕ)
    → old ≢ q
    → fresh ≢ q
    → stacked f fresh old off rest q ≡ f q
stacked-other f fresh old off rest q a b =
    update_ne (update (update f fresh new_segment) fresh off) old q rest a
    ∙ update_ne (update f fresh new_segment) fresh q off b
    ∙ update_ne f fresh q new_segment b

module _ (m : Memory) (p index offset : ℕ) (before : Before)
    (h : Doubling m (m.nodes p) index offset before) where
  abbrev n : Node
  n = m.nodes p

  abbrev e : SegmentNode
  e = n.entries index

  abbrev goes : ℕ → Bool
  goes k = get_segment_number k 32 (n.global_depth + 1) == index * 2 + 1

  abbrev stays : ℕ → Bool
  stays k = get_segment_number k 32 (n.global_depth + 1) == index * 2

  -- The segments after the split.
  abbrev segs : ℕ → Segment
  segs =
      stacked m.segments m.next_segment e.segment_ptr
        (split_off (m.segments e.segment_ptr) offset 0 e.local_depth goes)
        (split_rest (m.segments e.segment_ptr) offset e.local_depth stays)

  abbrev new_entries : ℕ → SegmentNode
  new_entries = double_entries n.entries index offset m.next_segment

  entry_low :
      (s : Slot)
      → Numbered n.global_depth index s.sub_key
      → stays s.sub_key ≡ true
      → HoldsAt m.segments e s ↔ HoldsAt segs (low_entry e offset) s
  unfolding low_entry
  entry_low s mine go =
      rw
        (
          stacked-old m.segments m.next_segment e.segment_ptr
              (split_off (m.segments e.segment_ptr) offset 0 e.local_depth goes)
              (split_rest (m.segments e.segment_ptr) offset e.local_depth stays),
          h.at,
          load-store_offset (dst_offset offset) (dst_offset-IsOffset offset h.layout.offset),
          h.depth,
        )
        (split_rest-Holds (Numbered n.global_depth index) (m.segments e.segment_ptr) offset
          n.global_depth h.layout stays
          (λ k (small, at). number-lower k n.global_depth index h.layout.depth small at) s mine go)

  entry_high :
      (s : Slot)
      → Numbered n.global_depth index s.sub_key
      → goes s.sub_key ≡ true
      → HoldsAt m.segments e s ↔ HoldsAt segs (high_entry e m.next_segment) s
  unfolding high_entry load_offset store_offset
  entry_high s mine go =
      rw
        (
          stacked-fresh m.segments m.next_segment e.segment_ptr
              (split_off (m.segments e.segment_ptr) offset 0 e.local_depth goes)
              (split_rest (m.segments e.segment_ptr) offset e.local_depth stays)
              (λ q. h.old index h.index_lt (sym q)),
          h.at,
          h.depth,
        )
        (split_off-Holds (Numbered n.global_depth index) (m.segments e.segment_ptr) offset
          n.global_depth h.layout goes
          (λ k (small, at). number-upper k n.global_depth index h.layout.depth small at) 0
          (inl refl) s mine go)

  entry_other :
      (s : Slot) (j : ℕ)
      → j < 2 ^ n.global_depth
      → j ≢ index
      → HoldsAt m.segments (n.entries j) s ↔ HoldsAt segs (n.entries j) s
  entry_other s j lt ne =
      rw
        (stacked-other m.segments m.next_segment e.segment_ptr
          (split_off (m.segments e.segment_ptr) offset 0 e.local_depth goes)
          (split_rest (m.segments e.segment_ptr) offset e.local_depth stays)
          (n.entries j).segment_ptr (h.own j lt ne) (h.old j lt))
        (λ x. x, λ x. x)

  -- What the doubled directory says of a subkey.
  entry-Holds :
      (s : Slot) (j i : ℕ)
      → s.sub_key < 2 ^ 32
      → get_segment_number s.sub_key 32 n.global_depth ≡ j
      → get_segment_number s.sub_key 32 (n.global_depth + 1) ≡ i
      → j < 2 ^ n.global_depth
      → HoldsAt m.segments (n.entries j) s ↔ HoldsAt segs (new_entries i) s
  entry-Holds s j i small at next lt =
      let half : i / 2 ≡ j =
        sym (ap (λ x. x / 2) next)
        ∙ number-halves s.sub_key n.global_depth j h.layout.depth small at in
      elim (Bool-cases (j == index)) [
        | inr ne ↦
            rw
              (double_entries-other n.entries index offset m.next_segment i j half
                (==→ne j index ne))
              (entry_other s j lt (==→ne j index ne))
        | inl eq ↦
            let here : j ≡ index = ==→eq j index eq in
            let mine : Numbered n.global_depth index s.sub_key = (small, at ∙ here) in
            elim (Bool-cases (i == index * 2)) [
              | inl low ↦
                  rw
                    (
                      here,
                      double_entries-low n.entries index offset m.next_segment i (==→eq _ _ low),
                    )
                    (entry_low s mine (ap (λ x. x == index * 2) next ∙ low))
              | inr high ↦
                  let odd : i ≡ index * 2 + 1 =
                    ground (arith, half, here, ==→ne i (index * 2) high) in
                  rw (here, double_entries-high n.entries index offset m.next_segment i odd)
                    (entry_high s mine (ap (λ x. x == index * 2 + 1) next ∙ ground (arith, odd)))
            ]
      ]

  new_entries-Inside :
      (i j : ℕ) → i / 2 ≡ j → j < 2 ^ n.global_depth → Inside m n (new_entries i).segment_ptr
  unfolding double_entries
  new_entries-Inside i j half lt = elim (Bool-cases (i == index * 2)) [
    | inl a ↦ rw (a, half) (inl (j, lt, refl))
    | inr a ↦ elim (Bool-cases (i == index * 2 + 1)) [
      | inl b ↦ rw (a, b) (inr refl)
      | inr b ↦ rw (a, b, half) (inl (j, lt, refl))
    ]
  ]

  abbrev new_node : Node
  new_node = record {
    header =
        initialize zero_node.header (some n.header) n.header.prefix_length
          n.header.node_header_depth;
    capacity = 2 ^ (n.global_depth + 1);
    global_depth = n.global_depth + 1;
    global_segment_ptr = n.global_segment_ptr;
    entries = new_entries;
  }

  abbrev doubled : Memory
  doubled = record m {
    segments = segs;
    next_segment = m.next_segment + 1;
    nodes = update m.nodes m.next_node new_node;
    next_node = m.next_node + 1;
  }

  stored-NodeHolds :
      (m' : Memory)
      → m'.nodes ≡ doubled.nodes
      → ((q : ℕ) → Inside m n q → m'.segments q ≡ segs q)
      → (s : Slot) → s.sub_key < 2 ^ 32
      → NodeHolds m p s ↔ NodeHolds m' m.next_node s
  unfolding home
  stored-NodeHolds m' nodes same s small =
      let g : ℕ = n.global_depth in
      let j : ℕ = get_segment_number s.sub_key 32 g in
      let i : ℕ = get_segment_number s.sub_key 32 (g + 1) in
      let lt : j < 2 ^ g = number-lt s.sub_key g (omega (arith, h.layout.depth)) small in
      let half : i / 2 ≡ j = number-halves s.sub_key g j h.layout.depth small refl in
      rw
        (
          nodes,
          update_self m.nodes m.next_node new_node,
          same (new_entries i).segment_ptr (new_entries-Inside i j half lt),
        )
        (entry-Holds s j i small refl refl lt)

  -- Where the entry to split is as deep as the directory, its segment's shared buckets are in order, the
  -- other entries have other segments and the reference to the node is outside of them (`Doubling`),
  -- doubling the directory succeeds, and a pair with a subkey of 32 bits is found in the new node if
  -- and only if it was found in the old one.
  pub double_directory-NodeHolds :
      (r : Memory × ℕ) × (double_directory m p index offset before ≡ ok r)
      × ((s : Slot) → s.sub_key < 2 ^ 32 → NodeHolds m p s ↔ NodeHolds r.0 r.1 s)
  unfolding double_directory alloc_segment alloc_node write_segment initialize
  double_directory-NodeHolds =
      let (m', run, nodes, same) =
        store_before-Linked (Inside m n) doubled n.header.node_header_depth before m.next_node
          h.linked in
      ((m', m.next_node), rw run refl, stored-NodeHolds m' nodes same)
