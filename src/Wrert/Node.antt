-- ===== src/Wrert/Node.antt =====
-- The operations of a node: where a subkey belongs, the write of a slot, the split of a segment, the
-- doubling of the directory (WRERTNode of wrert/wrert_node.cpp).
pub mod Doubles
pub mod Splits
use wrert.Prelude.{
  ℕ, zero, suc, ◌+◌, ◌-◌, ◌*◌, ◌/◌, ◌%◌, ◌^◌, Bool, true, false, ◌&&◌, Option, none, some, ltb, leb,
  ◌==◌, if◌then◌else◌, update, Run, ok, stray, out_of_fuel, ◌>>=◌,
}
use wrert.Wrert.Bucket.{first_stale, find}
use wrert.Wrert.Header.{initialize}
use wrert.Wrert.Memory.{
  SegmentNode, Node, Memory, SlotRef, Before, slot_at, zero_node, write_slot, write_segment,
  write_node, alloc_segment, alloc_node, store_before,
}
use wrert.Wrert.Segment.{split_off, split_rest}
use wrert.Wrert.Slot.{Slot, shared_version, main_version}
use wrert.Wrert.Words.{
  node_span, get_segment_number, get_shared_bucket_index, get_main_bucket_index,
  shared_bucket_position, calc_bucket_position, load_offset, store_offset, dst_offset,
  init_prefix_length,
}

-- The directory entry of a subkey, and where its two buckets stand.
pub record Home : Type 0 where
  pub segment_index : ℕ
  pub entry : SegmentNode
  pub offset : ℕ
  pub shared_position : ℕ
  pub main_position : ℕ

-- The lines at the head of `putSegNode`, `getSegNode` and of case 2 of `WRERT::insert`.
unfoldable pub home : Node → (subkey : ℕ) → Home
home n subkey =
    let index = get_segment_number subkey node_span n.global_depth in
    let entry = n.entries index in
    let offset = load_offset entry.shared_bucket_offset in
    record {
      segment_index = index;
      entry = entry;
      offset = offset;
      shared_position =
          shared_bucket_position offset (get_shared_bucket_index subkey entry.local_depth);
      main_position = calc_bucket_position offset (get_main_bucket_index subkey entry.local_depth);
    }

-- `getSegNode`
unfoldable pub get_seg_node : Memory → Node → (subkey : ℕ) → Option SlotRef
get_seg_node m n subkey =
    let at = home n subkey in
    let segment = m.segments at.entry.segment_ptr in
    elim (find (segment at.shared_position) (segment at.main_position)
      (shared_version at.entry.local_depth) (main_version at.entry.local_depth) subkey) [
        | none ↦ none
        | some (shared, i) ↦ some (record {
          segment = at.entry.segment_ptr;
          position = if shared then at.shared_position else at.main_position;
          index = i;
        })
      ]

-- What is to be stored: a value, or the address of a pair or of a node.
pub record Item : Type 0 where
  pub subkey : ℕ
  pub value : ℕ
  pub fingerprint : ℕ
  pub node_flag : ℕ

-- The last branch of `put`, at a slot.
unfoldable pub put_slot : Item → (local_depth : ℕ) (is_main : Bool) → Slot → Slot
put_slot it local_depth is_main s =
    if s.sub_key == it.subkey && s.valid_flag == 1
    then record s { value = it.value % 2 ^ 48 }
    else record {
      sub_key = it.subkey;
      mig_version = if is_main then main_version local_depth else shared_version local_depth;
      valid_flag = 1;
      node_flag = it.node_flag;
      fingerprint = it.fingerprint;
      value = it.value % 2 ^ 48;
    }

-- The entries of a split segment: the lower half keeps the segment and moves its offset, the upper
-- half has the new one.
unfoldable pub split_entries :
    (entries : ℕ → SegmentNode) (start half offset new_segment : ℕ) → ℕ → SegmentNode
split_entries entries start half offset new_segment i =
    let e = entries i in
    if leb start i && ltb i (start + half)
    then record e {
      local_depth = e.local_depth + 1;
      shared_bucket_offset = store_offset (dst_offset offset);
    }
    else if leb (start + half) i && ltb i (start + half + half)
    then record e { local_depth = e.local_depth + 1; segment_ptr = new_segment }
    else e

-- The first branch of `put`: several entries lead to the segment, so the directory stays.
unfoldable pub split_segment : Memory → (node : ℕ) (index offset : ℕ) → Memory
unfolding alloc_segment write_segment write_node split_entries
split_segment m p index offset =
    let n = m.nodes p in
    let entry = n.entries index in
    let num = 2 ^ (n.global_depth - entry.local_depth) in
    let half = num / 2 in
    let start = index / num * num in
    let number : ℕ → ℕ = λ subkey. get_segment_number subkey node_span n.global_depth in
    let seg = m.segments entry.segment_ptr in
    let (fresh, m1) = alloc_segment m in
    let m2 =
      write_segment m1 fresh
        (split_off seg offset offset entry.local_depth (λ k. leb (start + half) (number k))) in
    let m3 =
      write_segment m2 entry.segment_ptr
        (split_rest seg offset entry.local_depth (λ k. ltb (number k) (start + half))) in
    write_node m3 p (record n { entries = split_entries n.entries start half offset fresh })

-- The doubled directory, in which the entry of the segment is split in two.
unfoldable pub double_entries :
    (entries : ℕ → SegmentNode) (index offset new_segment : ℕ) → ℕ → SegmentNode
double_entries entries index offset new_segment i =
    let e = entries (i / 2) in
    if i == index * 2
    then record e {
      local_depth = e.local_depth + 1;
      shared_bucket_offset = store_offset (dst_offset offset);
    }
    else if i == index * 2 + 1
    then record e {
      local_depth = e.local_depth + 1;
      segment_ptr = new_segment;
      shared_bucket_offset = store_offset 0;
    }
    else e

-- The second branch of `put`: the segment has an entry of its own, so a node with a directory of
-- twice the size takes the place of this one.
unfoldable pub double_directory : Memory → (node : ℕ) (index offset : ℕ) → Before → Run (Memory × ℕ)
unfolding alloc_segment alloc_node write_segment double_entries
double_directory m p index offset before =
    let n = m.nodes p in
    let entry = n.entries index in
    let depth = n.global_depth + 1 in
    let number : ℕ → ℕ = λ subkey. get_segment_number subkey node_span depth in
    let seg = m.segments entry.segment_ptr in
    let (fresh, m1) = alloc_segment m in
    let m2 =
      write_segment m1 fresh
        (split_off seg offset 0 entry.local_depth (λ k. number k == index * 2 + 1)) in
    let m3 =
      write_segment m2 entry.segment_ptr
        (split_rest seg offset entry.local_depth (λ k. number k == index * 2)) in
    let header =
      initialize zero_node.header (some n.header) n.header.prefix_length
        n.header.node_header_depth in
    let (p', m4) = alloc_node m3 (record {
      header = header;
      capacity = 2 ^ depth;
      global_depth = depth;
      global_segment_ptr = n.global_segment_ptr;
      entries = double_entries n.entries index offset fresh;
    }) in
    store_before m4 header.node_header_depth before p' >>= λ m5. ok (m5, p')

-- The branches of `put` for `slot == nullptr`: the split, and the node at which the insertion goes on.
-- (A local depth above the global one would run past the end of the function.)
unfoldable pub make_room : Memory → (node : ℕ) (index offset : ℕ) → Before → Run (Memory × ℕ)
unfolding split_segment double_directory
make_room m p index offset before =
    let n = m.nodes p in
    let depth = (n.entries index).local_depth in
    if ltb depth n.global_depth
    then ok (split_segment m p index offset, p)
    else if depth == n.global_depth
    then double_directory m p index offset before
    else stray

-- The slot that `putSegNode` takes: the first of another version, in the shared and then in the main
-- bucket.
unfoldable pub free_slot : Memory → Node → (subkey : ℕ) → Option (Bool × SlotRef)
free_slot m n subkey =
    let at = home n subkey in
    let segment = m.segments at.entry.segment_ptr in
    elim (first_stale (segment at.shared_position) ((at.entry.local_depth + 255) % 256)) [
      | some i ↦ some (
        false,
        record { segment = at.entry.segment_ptr; position = at.shared_position; index = i },
      )
      | none ↦ elim (first_stale (segment at.main_position) (at.entry.local_depth % 256)) [
        | some i ↦ some (
          true,
          record { segment = at.entry.segment_ptr; position = at.main_position; index = i },
        )
        | none ↦ none
      ]
    ]

-- `putSegNode`, with the calls of `put` that it makes and that come back to it.
unfoldable pub put_seg_node : (fuel : ℕ) → Memory → (node : ℕ) → Item → Before → Run Memory
unfolding home make_room free_slot put_slot write_slot
put_seg_node zero m p it before = out_of_fuel
put_seg_node (suc fuel) m p it before =
    let n = m.nodes p in
    let at = home n it.subkey in
    elim (free_slot m n it.subkey) [
      | some (is_main, r) ↦
          ok (write_slot m r (put_slot it at.entry.local_depth is_main (slot_at m r)))
      | none ↦ make_room m p at.segment_index at.offset before >>= λ (m', p').
          put_seg_node fuel m' p' it before
    ]

-- `put`
unfoldable pub put :
    (fuel : ℕ)
    → Memory
    → (node : ℕ) → Item
    → (at : Home) (slot : Option (Bool × SlotRef)) → Before
    → Run Memory
unfolding put_slot write_slot make_room
put fuel m p it at (some (is_main, r)) before =
    ok (write_slot m r (put_slot it at.entry.local_depth is_main (slot_at m r)))
put fuel m p it at none before = make_room m p at.segment_index at.offset before >>= λ (m', p').
    put_seg_node fuel m' p' it before

-- `WRERTNode::initialize` on fresh memory. It sets no local depth, which is zero there.
unfoldable pub new_node : Memory → (node_header_depth global_depth : ℕ) → ℕ × Memory
unfolding alloc_node alloc_segment
new_node m node_header_depth global_depth =
    let (seg, m1) = alloc_segment m in
    alloc_node m1 (record zero_node {
      header = initialize zero_node.header none init_prefix_length node_header_depth;
      capacity = 2 ^ global_depth;
      global_depth = global_depth;
      entries =
          update zero_node.entries 0
            (record { local_depth = 0; shared_bucket_offset = 0; segment_ptr = seg });
    })
