-- ===== src/Ert/Node.antt =====
-- The operations of a node: lookup, the write of a counter, the split of a segment and the doubling of
-- the directory (ERTIntNode of ert/ERT_node_int.cpp).
pub mod Shape
pub mod Writes
pub mod Doubles
pub mod Sides
pub mod Splits
pub mod Insertions
pub mod Children
pub mod Fresh
use wrert.Prelude.{
  ℕ, zero, suc, ◌+◌, ◌-◌, ◌*◌, ◌/◌, ◌%◌, ◌^◌, Bool, ◌&&◌, Option, none, some, ltb, leb,
  if◌then◌else◌, update, Run, ok, out_of_fuel, ◌>>=◌,
}
use wrert.Ert.Memory.{
  Memory, Node, Header, Segment, Before, CounterRef, counter_at, write_counter, alloc_segment,
  alloc_node, store_before,
}
use wrert.Ert.{
  get_seg_num, get_bucket_num, bucket_get, find_place, put_counter, migrate, node_length,
  bucket_size, bucket_mask_len, zero_counter,
}

-- `ERTIntNode::get`: none for -1
unfoldable pub get : Memory → (node subkey : ℕ) → Option (ℕ × Bool)
unfolding bucket_get get_seg_num get_bucket_num
get m p subkey =
    let n = m.nodes p in
    let seg = m.segments (n.dir (get_seg_num subkey node_length n.global_depth)) in
    bucket_get (seg.bucket (get_bucket_num subkey bucket_mask_len)) subkey

-- The first branch of `put`: the upper half of the segment's stretch of the directory gets a segment of
-- its own, and a copy of the counters that go there.
unfoldable pub split : Memory → (node segment dir_index : ℕ) → Memory
unfolding alloc_segment migrate get_seg_num
split m p s dir_index =
    let n = m.nodes p in
    let seg = m.segments s in
    let (fresh, m1) = alloc_segment m (seg.depth + 1) in
    let stride = 2 ^ (n.global_depth - seg.depth) in
    let left = dir_index - dir_index % stride in
    let mid = left + stride / 2 in
    let right = left + stride in
    let goes : ℕ → Bool = λ key. leb mid (get_seg_num key node_length n.global_depth) in
    let upper : Segment = record {
      depth = seg.depth + 1;
      bucket = λ i. migrate goes (seg.bucket i) bucket_size 0 0 (λ j. zero_counter);
    } in
    let lower : Segment = record seg { depth = seg.depth + 1 } in
    record m1 {
      segments = update (update m1.segments fresh upper) s lower;
      nodes =
          update m1.nodes p
            (record n { dir = λ i. if leb mid i && ltb i right then fresh else n.dir i });
    }

-- `ERTIntHeader::init` on fresh memory
unfoldable pub init_header : Header → (length depth : ℕ) → Header
init_header old length depth = record {
  len = length;
  depth = depth;
  array = λ i. if ltb i length then old.array i else 0;
}

-- The second branch of `put`: a node with a directory of twice the size. Its `treeNodeValues` stays
-- null.
unfoldable pub double : Memory → (node : ℕ) → Before → Run (Memory × ℕ)
unfolding init_header alloc_node
double m p before =
    let n = m.nodes p in
    let header = init_header n.header n.header.len n.header.depth in
    let (p', m1) = alloc_node m (record {
      header = header;
      global_depth = n.global_depth + 1;
      dir_size = n.dir_size * 2;
      tree_node_values = none;
      dir = λ i. n.dir (i / 2);
    }) in
    store_before m1 header.depth before p' >>= λ m2. ok (m2, p')

-- The branches of `put` with its segment and bucket, by the place that `findPlace` answered, over the
-- `put` that it calls again: the memory, and the node that has the pair.
unfoldable pub put_in :
    (Memory → (node subkey value : ℕ) (kv_flag : Bool) → Before → Run (Memory × ℕ))
    → Memory
    → (node subkey value segment dir_index seg_index : ℕ) (kv_flag : Bool) → Before
    → Option ℕ
    → Run (Memory × ℕ)
unfolding put_counter write_counter split double
put_in again m p subkey value s dir_index seg_index kv_flag before (some i) =
    let r : CounterRef = record { segment = s; index = seg_index; place = i } in
    ok (write_counter m r (put_counter subkey value kv_flag (counter_at m r)), p)
put_in again m p subkey value s dir_index seg_index kv_flag before none =
    if ltb (m.segments s).depth (m.nodes p).global_depth
    then again (split m p s dir_index) p subkey value kv_flag before
    else double m p before >>= λ (m', p'). again m' p' subkey value kv_flag before

-- `put` with its segment and bucket
unfoldable pub put_at :
    (Memory → (node subkey value : ℕ) (kv_flag : Bool) → Before → Run (Memory × ℕ))
    → Memory
    → (node subkey value segment dir_index seg_index : ℕ) (kv_flag : Bool) → Before
    → Run (Memory × ℕ)
unfolding find_place put_in
put_at again m p subkey value s dir_index seg_index kv_flag before =
    put_in again m p subkey value s dir_index seg_index kv_flag before
      (find_place ((m.segments s).bucket seg_index) subkey node_length (m.segments s).depth)

-- `put`
unfoldable pub put :
    (fuel : ℕ) → Memory → (node subkey value : ℕ) (kv_flag : Bool) → Before → Run (Memory × ℕ)
unfolding put_at get_seg_num get_bucket_num
put zero m p subkey value kv_flag before = out_of_fuel
put (suc fuel) m p subkey value kv_flag before =
    let n = m.nodes p in
    let dir_index = get_seg_num subkey node_length n.global_depth in
    put_at (put fuel) m p subkey value (n.dir dir_index) dir_index
      (get_bucket_num subkey bucket_mask_len) kv_flag before

-- `ERTIntNode::init` of a node on fresh memory, where `global_depth` is 0 for every caller
unfoldable pub new_node : Memory → (header_depth : ℕ) → ℕ × Memory
unfolding alloc_segment alloc_node
new_node m header_depth =
    let (s, m1) = alloc_segment m 0 in
    alloc_node m1 (record {
      header = record { len = 7; depth = header_depth; array = λ i. 0 };
      global_depth = 0;
      dir_size = 1;
      tree_node_values = some (λ i. record { key = 0; value = 0 });
      dir = λ i. s;
    })
