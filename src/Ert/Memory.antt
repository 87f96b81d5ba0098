-- ===== src/Ert/Memory.antt =====
-- Segments, nodes and key-value pairs by address (ert/ERT_node_int.h). Address 0 is a null pointer, and
-- `concurrency_fast_alloc` hands out fresh memory that is zero.
use wrert.Prelude.{ℕ, zero, suc, ◌+◌, ◌^◌, Option, ◌==◌, if◌then◌else◌, update, Run, ok, stray}
use wrert.Ert.{Bucket, Counter, zero_counter, bucket_size, bucket_mask_len}

pub record KeyValue : Type 0 where
  pub key : ℕ
  pub value : ℕ

-- `ERTIntSegment`, with the buckets that its pointer leads to.
pub record Segment : Type 0 where
  pub depth : ℕ
  pub bucket : ℕ → Bucket

pub record Header : Type 0 where
  pub len : ℕ
  pub depth : ℕ
  pub array : ℕ → ℕ

-- `ERTIntNode` with the directory behind it. `tree_node_values` is `none` for a null pointer.
pub record Node : Type 0 where
  pub header : Header
  pub global_depth : ℕ
  pub dir_size : ℕ
  pub tree_node_values : Option (ℕ → KeyValue)
  pub dir : ℕ → ℕ

pub record Memory : Type 0 where
  pub segments : ℕ → Segment
  pub next_segment : ℕ
  pub nodes : ℕ → Node
  pub next_node : ℕ
  pub kvs : ℕ → KeyValue
  pub next_kv : ℕ
  pub root : ℕ

-- Where a counter stands.
pub record CounterRef : Type 0 where
  pub segment : ℕ
  pub index : ℕ
  pub place : ℕ

-- What `beforeAddress` is the address of: the root pointer of the tree, a local variable of the caller,
-- or the value of a counter.
pub data Before : Type 0 where
  root_ref : Before
  local_ref : Before
  value_ref : CounterRef → Before

abbrev pub counter_at : Memory → CounterRef → Counter
counter_at m r = (m.segments r.segment).bucket r.index r.place

unfoldable pub set_counter : Segment → (index place : ℕ) → Counter → Segment
set_counter seg index place c = record seg {
  bucket = update seg.bucket index (update (seg.bucket index) place c);
}

unfoldable pub write_counter : Memory → CounterRef → Counter → Memory
unfolding set_counter
write_counter m r c = record m {
  segments = update m.segments r.segment (set_counter (m.segments r.segment) r.index r.place c);
}

-- `NewERTIntSegment`
unfoldable pub alloc_segment : Memory → (depth : ℕ) → ℕ × Memory
alloc_segment m depth = (
  m.next_segment,
  record m {
    segments =
        update m.segments m.next_segment (record { depth = depth; bucket = λ i j. zero_counter });
    next_segment = m.next_segment + 1;
  },
)

-- `NewERTIntKeyValue`
unfoldable pub alloc_kv : Memory → (key value : ℕ) → ℕ × Memory
alloc_kv m key value = (
  m.next_kv,
  record m {
    kvs = update m.kvs m.next_kv (record { key = key; value = value });
    next_kv = m.next_kv + 1;
  },
)

unfoldable pub alloc_node : Memory → Node → ℕ × Memory
alloc_node m n =
    (m.next_node, record m { nodes = update m.nodes m.next_node n; next_node = m.next_node + 1 })

-- `((ERTIntBucketKeyValue*)beforeAddress)->value = newNode`. The address is that of a counter's value,
-- and the field of the cast type stands eight bytes further on, where the next counter has its subkey.
unfoldable pub store_after : Memory → CounterRef → (node : ℕ) → Run Memory
unfolding write_counter
store_after m r node =
    let next : CounterRef =
      if r.place + 1 == bucket_size
      then record { segment = r.segment; index = r.index + 1; place = 0 }
      else record { segment = r.segment; index = r.index; place = r.place + 1 } in
    if next.index == 2 ^ bucket_mask_len
    then stray
    else ok (write_counter m next (record (counter_at m next) { subkey = node }))

-- The store of a new node where `beforeAddress` says. A node with a depth takes the first branch, which
-- is right for no address but a counter's.
unfoldable pub store_before : Memory → (header_depth : ℕ) → Before → (node : ℕ) → Run Memory
unfolding store_after
store_before m zero root_ref node = ok (record m { root = node })
store_before m zero local_ref node = ok m
store_before m zero (value_ref r) node =
    let c = counter_at m r in ok (write_counter m r (record c { value = node }))
store_before m (suc depth) root_ref node = stray
store_before m (suc depth) local_ref node = stray
store_before m (suc depth) (value_ref r) node = store_after m r node
