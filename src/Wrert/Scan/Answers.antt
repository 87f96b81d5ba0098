-- ===== src/Wrert/Scan/Answers.antt =====
-- What a scan answers from a node at the end of the keys.
use wrert.Prelude.{
  ℕ, ◌+◌, ◌-◌, ◌*◌, ◌%◌, ◌^◌, ◌<◌, ◌≤◌, ◌≡◌, ◌⊎◌, inl, inr, refl, Bool, true, false, ◌&&◌, ◌||◌,
  leb, ltb, ◌==◌, if◌then◌else◌, Bool-cases, arith,
}
use wrert.Wrert.Memory.{Memory, Node, KeyValue}
use wrert.Wrert.Scan.{
  Results, scan_part, visit_part, push_slot, push_between, scan_between, End, next_index,
}
use wrert.Wrert.Scan.Pushes.{
  All, All-nil, All-one, Version, next_index-gt, scan_part-All, segment_loop-All,
}
use wrert.Wrert.Slot.{Slot, is_valid, main_version, shared_version}
use wrert.Wrert.Words.{
  get_segment_number, get_shared_bucket_index, load_offset, node_span, segment_size,
  slots_per_bucket,
}

-- A directory that has entries, whose segments are no deeper than it is, and whose segments' shared buckets lie inside them.
pub record Directory (n : Node) : Type 0 where
  pub some : 0 < n.capacity
  pub depth : (i : ℕ) → i < n.capacity → (n.entries i).local_depth ≤ n.global_depth
  pub offset : (i : ℕ) → i < n.capacity → load_offset (n.entries i).shared_bucket_offset ≤ 32

abbrev slot_at : Memory → Node → (index bucket place : ℕ) → Slot
slot_at m n index bucket place = m.segments (n.entries index).segment_ptr bucket place

abbrev number_of : Node → Slot → ℕ
number_of n s = get_segment_number s.sub_key node_span n.global_depth

-- A slot in the segment of an entry from the one end to the other, which has the version of one of the
-- segment's kinds of buckets and whose subkey belongs to the entries that are still to be scanned.
pub record InScan (m : Memory) (n : Node) (left right : End) (index bucket place : ℕ) : Type 0 where
  pub from : left.index ≤ index
  pub to : index ≤ right.index
  pub in_segment : bucket < segment_size
  pub in_bucket : place < slots_per_bucket
  pub valid :
      (is_valid (main_version (n.entries index).local_depth) (slot_at m n index bucket place)
        ≡ true)
      ⊎ (is_valid (shared_version (n.entries index).local_depth) (slot_at m n index bucket place)
          ≡ true)
  pub not_before : index ≤ number_of n (slot_at m n index bucket place)
  pub not_behind :
      (number_of n (slot_at m n index bucket place) ≤ right.index)
      ⊎ (number_of n (slot_at m n index bucket place) < next_index n index)

-- The pair of such a slot, with its subkey in the range.
pub record InRange (m : Memory) (n : Node) (prefix : ℕ) (left right : End) (kv : KeyValue)
    : Type 0 where
  pub index : ℕ
  pub bucket : ℕ
  pub place : ℕ
  pub stands : InScan m n left right index bucket place
  pub above : left.subkey ≤ (slot_at m n index bucket place).sub_key
  pub below : (slot_at m n index bucket place).sub_key ≤ right.subkey
  pub pair : kv ≡ record {
    key = ((slot_at m n index bucket place).sub_key + prefix * 2 ^ 32 % 2 ^ 64) % 2 ^ 64;
    value = (slot_at m n index bucket place).value;
  }

pub live :
    (local_depth version : ℕ) (s : Slot)
    → Version local_depth version
    → is_valid version s ≡ true
    → (is_valid (main_version local_depth) s ≡ true)
      ⊎ (is_valid (shared_version local_depth) s ≡ true)
unfolding Version
live local_depth version s (inl e) valid = inl (rw e at valid)
live local_depth version s (inr e) valid = inr (rw e at valid)

either_le : (c : Bool) (x y z : ℕ) → x ≤ z → y ≤ z → (if c then x else y) ≤ z
either_le true x y z hx hy = hx
either_le false x y z hx hy = hy

member_bounds :
    (index right number next : ℕ) (c : Bool)
    → index < next
    → (leb index number && leb number (if c then right else next - 1)) ≡ true
    → (index ≤ number) × ((number ≤ right) ⊎ (number < next))
member_bounds index right number next true lt e = (ground (arith, e), inl (ground (arith, e)))
member_bounds index right number next false lt e = (ground (arith, e), inr (ground (arith, e)))

module _ (all part : (node position prefix : ℕ) → Results) (m : Memory) (n : Node) (prefix : ℕ)
    (left right : End) (ordered : left.subkey ≤ right.subkey) (directory : Directory n)
    (inside : right.index < n.capacity) where
  -- What is pushed of a slot where the keys end.
  abbrev emit : Slot → Results
  emit =
      push_between (λ q x. all q 8 x) (λ q x. part q 8 x) m left.subkey right.subkey 8
        (prefix * 2 ^ 32 % 2 ^ 64)

  push_between-All :
      (index bucket place : ℕ)
      → InScan m n left right index bucket place
      → All (InRange m n prefix left right) (emit (slot_at m n index bucket place))
  unfolding push_between push_slot
  push_between-All index bucket place stands =
      let s = slot_at m n index bucket place in
      let one : left.subkey ≤ s.sub_key
          → s.sub_key ≤ right.subkey
          → All (InRange m n prefix left right) _ =
        λ low high.
          All-one (InRange m n prefix left right)
            (record { key = (s.sub_key + prefix * 2 ^ 32 % 2 ^ 64) % 2 ^ 64; value = s.value })
            (record {
              index = index;
              bucket = bucket;
              place = place;
              stands = stands;
              above = low;
              below = high;
              pair = refl;
            }) in
      elim (Bool-cases (ltb left.subkey s.sub_key && ltb s.sub_key right.subkey)) [
        | inl e ↦ rw e (one (ground (arith, e)) (ground (arith, e)))
        | inr e ↦ elim (Bool-cases (s.sub_key == left.subkey || s.sub_key == right.subkey)) [
          | inr e' ↦ rw e (rw e' (All-nil (InRange m n prefix left right)))
          | inl e' ↦ rw e (rw e' (one (ground (arith, e', ordered)) (ground (arith, e', ordered))))
        ]
      ]

  segment-All :
      (index : ℕ) (member : ℕ → Bool) (from to : ℕ) (one : Bool)
      → left.index ≤ index
      → index ≤ right.index
      → from ≤ load_offset (n.entries index).shared_bucket_offset + 15
      → to ≤ load_offset (n.entries index).shared_bucket_offset + 15
      → ((k : ℕ)
          → member k ≡ true
          → (index ≤ get_segment_number k node_span n.global_depth)
            × ((get_segment_number k node_span n.global_depth ≤ right.index)
                ⊎ (get_segment_number k node_span n.global_depth < next_index n index)))
      → All (InRange m n prefix left right) (
          scan_part emit member
            (m.segments (n.entries index).segment_ptr)
            (load_offset (n.entries index).shared_bucket_offset)
            (n.entries index).local_depth
            from
            to
            one)
  segment-All index member from to one lo hi first last own =
      let fits = directory.offset index (omega arith) in
      scan_part-All (InRange m n prefix left right) emit member
        (m.segments (n.entries index).segment_ptr) (n.entries index).local_depth
        (λ i j version li lj known valid belongs.
          let (a, b) = own (slot_at m n index i j).sub_key belongs in
          push_between-All index i j (record {
            from = lo;
            to = hi;
            in_segment = li;
            in_bucket = lj;
            valid = live (n.entries index).local_depth version (slot_at m n index i j) known valid;
            not_before = a;
            not_behind = b;
          }))
        (load_offset (n.entries index).shared_bucket_offset) from to one (omega arith) (omega arith)

  visit_part-All :
      (index : ℕ)
      → left.index ≤ index
      → index ≤ right.index
      → All (InRange m n prefix left right) (visit_part emit m n left right index)
  unfolding visit_part
  visit_part-All index lo hi =
      let grows = next_index-gt n index in
      let entry = n.entries index in
      let c = index == right.index || entry.segment_ptr == (n.entries right.index).segment_ptr in
      let offset = load_offset entry.shared_bucket_offset in
      let a = get_shared_bucket_index left.subkey (n.entries left.index).local_depth % 16 in
      let b = get_shared_bucket_index right.subkey (n.entries right.index).local_depth % 16 in
      segment-All index
        (λ k.
          let number = get_segment_number k node_span n.global_depth in
          leb index number && leb number (if c then right.index else next_index n index - 1))
        (if index == left.index then offset + a else offset) (if c then offset + b else offset + 15)
        false lo hi
        (either_le (index == left.index) (offset + a) offset (offset + 15) (omega arith)
          (omega arith))
        (either_le c (offset + b) (offset + 15) (offset + 15) (omega arith) (omega arith))
        (λ k e.
          member_bounds index right.index (get_segment_number k node_span n.global_depth)
            (next_index n index) c grows e)

  -- The scan of a node whose subkeys end the keys (position 4 of 8), between the two ends of a range that
  -- are in order, in a directory that has the last entry and whose segments are no deeper than it is and
  -- have their shared buckets inside them, answers: it neither runs out of rounds nor goes astray. Each
  -- pair that it answers is that of a slot in one of the 16 places of one of the 48 buckets of a segment
  -- between the two entries; the slot is valid in the version of the main or of the shared buckets of that
  -- segment, its subkey belongs to the entry or to one behind it, and not to one behind both the last
  -- entry of the range and that segment; the subkey is not below the first end and not above the last, and
  -- follows the prefix in the key.
  pub scan_between-InRange :
      All (InRange m n prefix left right) (scan_between all part m n 4 prefix left right)
  unfolding scan_between
  scan_between-InRange =
      let offset = load_offset (n.entries left.index).shared_bucket_offset in
      let depth = (n.entries left.index).local_depth in
      let a = get_shared_bucket_index left.subkey depth % 16 in
      let b = get_shared_bucket_index right.subkey depth % 16 in
      elim (Bool-cases (left.index == right.index)) [
        | inr e ↦ rw e (
            segment_loop-All (InRange m n prefix left right) (visit_part emit m n left right) n
              left.index right.index (n.capacity + 1) left.index visit_part-All (omega arith)
              (omega arith))
        | inl e ↦ rw e (
            segment-All left.index
              (λ k. get_segment_number k node_span n.global_depth == left.index) (offset + a)
              (offset + b) true (omega arith) (ground (arith, e)) (omega arith) (omega arith)
              (λ k own. (ground (arith, own), inl (ground (arith, own, e)))))
      ]
