-- ===== src/Wrert/Scan.antt =====
-- The range scan of wrert/wrert.cpp: `lookupRange`, `nodeScan` and `scanAllNodes`. A call takes fuel for the
-- nodes below it; a loop over the segments of a directory has as many rounds as the directory has
-- entries, and one more.
pub mod Pushes
pub mod Answers
pub mod Ends
use wrert.Prelude.{
  ℕ, zero, suc, ◌+◌, ◌-◌, ◌*◌, ◌/◌, ◌%◌, ◌^◌, Bool, true, false, not, ◌&&◌, ◌||◌, List, [], ◌∷◌,
  ◌++◌, ltb, leb, ◌==◌, if◌then◌else◌, Run, ok, stray, out_of_fuel, ◌>>=◌,
}
use wrert.Wrert.Bucket.{Bucket}
use wrert.Wrert.Header.{Header}
use wrert.Wrert.Memory.{Memory, Node, SegmentNode, KeyValue}
use wrert.Wrert.Segment.{Segment}
use wrert.Wrert.Slot.{Slot, is_valid, shared_version, main_version}
use wrert.Wrert.Tree.{search}
use wrert.Wrert.Words.{
  key_max_bytes, node_span, node_subkey_max_bytes, get_subkey, get_segment_number,
  get_shared_bucket_index, load_offset, shared_buckets_per_segment, segment_size, slots_per_bucket,
  failed,
}

abbrev pub Results : Type 0
Results = Run (List KeyValue)

-- What is pushed to `results` by one step and by those after it.
infixr 6 ◌then_push◌
abbrev pub ◌then_push◌ : Results → Results → Results
m then_push rest = m >>= λ xs. rest >>= λ ys. ok (xs ++ ys)

-- The inner loop of `bucketRangeIterate`, which ends at a slot that is not valid, and at one whose subkey
-- is of another segment.
unfoldable pub scan_slots :
    (emit : Slot → Results) (member : ℕ → Bool) (version : ℕ) → Bucket → (n j : ℕ) → Results
scan_slots emit member version b zero j = ok []
scan_slots emit member version b (suc n) j =
    let rest = emit (b j) then_push scan_slots emit member version b n (j + 1) in
    if is_valid version (b j) && member (b j).sub_key then rest else ok []

-- `bucketRangeIterate` over `n` buckets
unfoldable pub scan_buckets :
    (emit : Slot → Results) (member : ℕ → Bool) (version : ℕ) → Segment → (n i : ℕ) → Results
unfolding scan_slots
scan_buckets emit member version seg zero i = ok []
scan_buckets emit member version seg (suc n) i =
    scan_slots emit member version (seg i) slots_per_bucket 0
    then_push scan_buckets emit member version seg n (i + 1)

-- `bucketRangeIterate(start, end, version)`
unfoldable pub bucket_range :
    (emit : Slot → Results) (member : ℕ → Bool) → Segment → (start end version : ℕ) → Results
unfolding scan_buckets
bucket_range emit member seg start end version =
    scan_buckets emit member version seg (end + 1 - start) start

-- The prefix of the keys below a node: what its header adds.
unfoldable pub header_sum : Header → (bytes n i sum : ℕ) → ℕ
header_sum h bytes zero i sum = sum
header_sum h bytes (suc n) i sum =
    header_sum h bytes n (i + 1) ((sum + h.prefix_array i * 2 ^ (bytes - i)) % 2 ^ 64)

unfoldable pub below_header : Header → (prefix : ℕ) → ℕ
unfolding header_sum
below_header h prefix =
    let bytes = h.prefix_length * node_subkey_max_bytes in
    if h.prefix_length == 0
    then prefix
    else header_sum h bytes bytes 0 (prefix * 2 ^ (bytes * 8) % 2 ^ 64)

-- The number of entries that lead to the segment of an entry, which is no deeper than the directory: the
-- C code shifts by the difference of the depths.
unfoldable pub stride : Node → (index : ℕ) → ℕ
stride n index = 2 ^ (n.global_depth - (n.entries index).local_depth)

unfoldable pub next_index : Node → (index : ℕ) → ℕ
unfolding stride
next_index n index = index / stride n index * stride n index + stride n index

-- The loop over the segments from an entry on.
unfoldable pub segment_loop : (visit : ℕ → Results) → Node → (last rounds index : ℕ) → Results
unfolding next_index
segment_loop visit n last zero index = out_of_fuel
segment_loop visit n last (suc rounds) index =
    let rest = visit index then_push segment_loop visit n last rounds (next_index n index) in
    if leb index last then rest else ok []

-- A slot that is pushed: a value at the end of the key, what is below a node, or a pair.
unfoldable pub push_slot :
    (below : (node prefix : ℕ) → Results) → Memory → (position prefix : ℕ) → Slot → Results
push_slot below m position prefix s =
    if position == key_max_bytes
    then ok (record { key = (s.sub_key + prefix) % 2 ^ 64; value = s.value } ∷ [])
    else if s.node_flag == 1
    then below s.value ((s.sub_key + prefix) % 2 ^ 64)
    else ok (m.kvs s.value ∷ [])

-- `sameSegmentIndex` of `scanAllNodes`
unfoldable pub same_index : Node → (last index : ℕ) → ℕ
unfolding next_index
same_index n last index =
    if not (index == 0) && index == last
    then last
    else if (n.entries index).segment_ptr == (n.entries last).segment_ptr
    then last
    else next_index n index - 1

-- The buckets of a segment in the order in which `scanAllNodes` goes through them.
unfoldable pub scan_segment :
    (emit : Slot → Results) (member : ℕ → Bool) → Segment → (offset local_depth : ℕ) → Results
unfolding bucket_range
scan_segment emit member seg offset local_depth =
    let range : ℕ → ℕ → ℕ → Results = bucket_range emit member seg in
    let main = main_version local_depth in
    let shared = shared_version local_depth in
    if offset == shared_buckets_per_segment
    then range 0 (offset - 1) main
      then_push range offset (offset + shared_buckets_per_segment - 1) shared
      then_push range (offset + shared_buckets_per_segment) (segment_size - 1) main
    else if offset == 0
    then range 0 (offset + shared_buckets_per_segment - 1) shared
      then_push range (offset + shared_buckets_per_segment) (segment_size - 1) main
    else range 0 (offset - 1) main then_push range offset (segment_size - 1) shared

-- `scanAllNodes`
unfoldable pub scan_all_nodes : (fuel : ℕ) → Memory → (node position prefix : ℕ) → Results
unfolding segment_loop push_slot same_index scan_segment below_header
scan_all_nodes zero m p position prefix = out_of_fuel
scan_all_nodes (suc fuel) m p position prefix =
    let n = m.nodes p in
    let position' =
      position + n.header.prefix_length * node_subkey_max_bytes + node_subkey_max_bytes in
    let prefix' = below_header n.header prefix * 2 ^ node_span % 2 ^ 64 in
    let last = n.capacity - 1 in
    let emit : Slot → Results =
      push_slot (λ q x. scan_all_nodes fuel m q position' x) m position' prefix' in
    let visit : ℕ → Results = λ index.
      let entry = n.entries index in
      scan_segment emit
        (λ k.
          let number = get_segment_number k node_span n.global_depth in
          leb index number && leb number (same_index n last index))
        (m.segments entry.segment_ptr) (load_offset entry.shared_bucket_offset) entry.local_depth in
    if p == 0 then ok [] else segment_loop visit n last (n.capacity + 1) 0

-- A key beside the prefix of a header: the same, or below or above it at the first byte that differs.
pub data Beside : Type 0 where
  equal : Beside
  lower : Beside
  higher : Beside

unfoldable pub beside : Header → (key position n i : ℕ) → Beside
unfolding get_subkey
beside h key position zero i = equal
beside h key position (suc n) i =
    let byte = get_subkey key ((position + i) * 8) 8 in
    let rest = beside h key position n (i + 1) in
    if byte == h.prefix_array i then rest else if ltb (h.prefix_array i) byte then higher else lower

-- An end of the range in a node: its entry and its subkey, which is UINT64_MAX where the node's prefix
-- lies inside the range.
pub record End : Type 0 where
  pub index : ℕ
  pub subkey : ℕ

unfoldable pub end_at : Node → (key position : ℕ) → End
unfolding get_subkey get_segment_number
end_at n key position =
    let subkey = get_subkey key (position * 8) node_span in
    record { index = get_segment_number subkey node_span n.global_depth; subkey = subkey }

abbrev pub open_end : (index : ℕ) → End
open_end index = record { index = index; subkey = 2 ^ 64 - 1 }

-- A slot in `nodeScan`: between the ends all of it is pushed, at an end what is in the range below it.
unfoldable pub push_between :
    (all part : (node prefix : ℕ) → Results)
    → Memory
    → (left right position prefix : ℕ) → Slot
    → Results
unfolding push_slot
push_between all part m left right position prefix s =
    if ltb left s.sub_key && ltb s.sub_key right
    then push_slot all m position prefix s
    else if s.sub_key == left || s.sub_key == right
    then push_slot part m position prefix s
    else ok []

-- The first and the last main bucket that belong to a stretch of shared buckets.
unfoldable pub left_main : (offset shared_position : ℕ) → ℕ
left_main offset shared_position =
    ((offset + shared_buckets_per_segment) % segment_size
      + shared_position % shared_buckets_per_segment * 2)
    % segment_size

unfoldable pub right_main : (offset shared_position : ℕ) → ℕ
right_main offset shared_position =
    ((offset + shared_buckets_per_segment) % segment_size
      + shared_position % shared_buckets_per_segment * 2
      + 1)
    % segment_size

-- The buckets of a segment in the order in which `nodeScan` goes through them, where both ends are in one
-- segment (`one`) and where they are not.
unfoldable pub scan_part :
    (emit : Slot → Results) (member : ℕ → Bool)
    → Segment
    → (offset local_depth left right : ℕ) (one : Bool) → Results
unfolding bucket_range left_main right_main
scan_part emit member seg offset local_depth left right one =
    let range : ℕ → ℕ → ℕ → Results = bucket_range emit member seg in
    let main = main_version local_depth in
    let shared = shared_version local_depth in
    let first = left_main offset left in
    let last = right_main offset right in
    if ltb left (segment_size / 2) && ltb (segment_size / 2) right
    then range 0 last main
      then_push range left right shared
      then_push range first (segment_size - 1) main
    else if one
    then range left right shared then_push range first last main
    else range first last main then_push range left right shared

-- A visit of `nodeScan` to a segment where the ends are in different entries: which of its shared buckets
-- belong to the range, and the last entry that it stands for.
unfoldable pub visit_part :
    (emit : Slot → Results) → Memory → Node → (left right : End) (index : ℕ) → Results
unfolding scan_part next_index get_shared_bucket_index get_segment_number load_offset
visit_part emit m n left right index =
    let entry = n.entries index in
    let offset = load_offset entry.shared_bucket_offset in
    let shared_index : End → ℕ = λ e.
      get_shared_bucket_index e.subkey (n.entries e.index).local_depth
      % shared_buckets_per_segment in
    let to_right =
      index == right.index || entry.segment_ptr == (n.entries right.index).segment_ptr in
    let same = if to_right then right.index else next_index n index - 1 in
    let from = if index == left.index then offset + shared_index left else offset in
    let to =
      if to_right then offset + shared_index right else offset + (shared_buckets_per_segment - 1) in
    scan_part emit
      (λ k.
        let number = get_segment_number k node_span n.global_depth in
        leb index number && leb number same)
      (m.segments entry.segment_ptr) offset entry.local_depth from to false

-- The rest of `nodeScan`, once both ends are known.
unfoldable pub scan_between :
    (all part : (node position prefix : ℕ) → Results)
    → Memory
    → Node
    → (position prefix : ℕ) (left right : End) → Results
unfolding push_between scan_part visit_part segment_loop
scan_between all part m n position prefix left right =
    let position' = position + node_subkey_max_bytes in
    let prefix' = prefix * 2 ^ node_span % 2 ^ 64 in
    let emit : Slot → Results =
      push_between (λ q x. all q position' x) (λ q x. part q position' x) m left.subkey right.subkey
        position' prefix' in
    let entry = n.entries left.index in
    let offset = load_offset entry.shared_bucket_offset in
    let shared_at : End → ℕ = λ e.
      offset + get_shared_bucket_index e.subkey entry.local_depth % shared_buckets_per_segment in
    if left.index == right.index
    then scan_part emit (λ k. get_segment_number k node_span n.global_depth == left.index)
        (m.segments entry.segment_ptr) offset entry.local_depth (shared_at left) (shared_at right)
        true
    else segment_loop (visit_part emit m n left right) n right.index (n.capacity + 1) left.index

-- The ends of the range in a node, from where its prefix stands to them.
unfoldable pub scan_ends :
    (rest : (left right : End) → Results)
    → Node
    → (left right position : ℕ) → (left_beside right_beside : Beside) → Results
unfolding end_at
scan_ends rest n left right position higher r = ok []
scan_ends rest n left right position equal equal =
    rest (end_at n left position) (end_at n right position)
scan_ends rest n left right position equal higher =
    rest (end_at n left position) (open_end (n.capacity - 1))
scan_ends rest n left right position equal lower = ok []
scan_ends rest n left right position lower equal = rest (open_end 0) (end_at n right position)
scan_ends rest n left right position lower higher = rest (open_end 0) (open_end (n.capacity - 1))
scan_ends rest n left right position lower lower = ok []

-- `nodeScan`, where `search` reads an `arrayMatchLength` that is never set
unfoldable pub node_scan :
    (array_match_length fuel : ℕ) → Memory → (node left right position prefix : ℕ) → Results
unfolding scan_all_nodes scan_ends scan_between beside below_header
node_scan aml zero m node left right position prefix = out_of_fuel
node_scan aml (suc fuel) m node left right position prefix =
    let p = if node == 0 then m.root else node in
    let n = m.nodes p in
    let bytes = n.header.prefix_length * node_subkey_max_bytes in
    let found : Results = search aml fuel m left >>= λ value.
    ok (if value == failed then [] else record { key = left; value = value } ∷ []) in
    let scan : Results =
      scan_ends
        (scan_between (scan_all_nodes fuel m) (λ q x y. node_scan aml fuel m q left right x y) m n
          (position + bytes) (below_header n.header prefix))
        n left right (position + bytes) (beside n.header left position bytes 0)
        (beside n.header right position bytes 0) in
    if p == 0
    then ok []
    else if left == right
    then found
    else if ltb right left
    then ok []
    else scan

-- `lookupRange`
unfoldable pub lookup_range : (array_match_length fuel : ℕ) → Memory → (left right : ℕ) → Results
unfolding node_scan
lookup_range aml fuel m left right = node_scan aml fuel m m.root left right 0 0
