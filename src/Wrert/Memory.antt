-- ===== src/Wrert/Memory.antt =====
-- The objects that the tree allocates: segments, nodes and key-value pairs, each kind with its own
-- addresses. Address 0 is `nullptr`; `concurrency_fast_alloc` hands out fresh memory that is zero.
use wrert.Prelude.{ℕ, zero, suc, ◌+◌, ◌%◌, ◌^◌, update, Run, ok, stray}
use wrert.Wrert.Header.{Header, zero_header}
use wrert.Wrert.Segment.{Segment, new_segment, set_slot}
use wrert.Wrert.Slot.{Slot}

-- `WRERTSegmentNode`: a directory entry.
pub record SegmentNode : Type 0 where
  pub local_depth : ℕ
  pub shared_bucket_offset : ℕ
  pub segment_ptr : ℕ

-- `WRERTNode` with its header, its directory and the entries behind it.
pub record Node : Type 0 where
  pub header : Header
  pub capacity : ℕ
  pub global_depth : ℕ
  pub global_segment_ptr : ℕ
  pub entries : ℕ → SegmentNode

pub record KeyValue : Type 0 where
  pub key : ℕ
  pub value : ℕ

abbrev pub zero_node : Node
zero_node = record {
  header = zero_header;
  capacity = 0;
  global_depth = 0;
  global_segment_ptr = 0;
  entries = λ i. record { local_depth = 0; shared_bucket_offset = 0; segment_ptr = 0 };
}

pub record Memory : Type 0 where
  pub segments : ℕ → Segment
  pub next_segment : ℕ
  pub nodes : ℕ → Node
  pub next_node : ℕ
  pub kvs : ℕ → KeyValue
  pub next_kv : ℕ
  pub root : ℕ

-- Where a slot stands.
pub record SlotRef : Type 0 where
  pub segment : ℕ
  pub position : ℕ
  pub index : ℕ

-- `beforeAddress`: the root pointer of the tree, or the slot that leads to the node.
pub data Before : Type 0 where
  root_ref : Before
  slot_ref : SlotRef → Before

abbrev pub slot_at : Memory → SlotRef → Slot
slot_at m r = m.segments r.segment r.position r.index

unfoldable pub write_slot : Memory → SlotRef → Slot → Memory
write_slot m r s = record m {
  segments = update m.segments r.segment (set_slot (m.segments r.segment) r.position r.index s);
}

unfoldable pub write_segment : Memory → ℕ → Segment → Memory
write_segment m p seg = record m { segments = update m.segments p seg }

unfoldable pub write_node : Memory → ℕ → Node → Memory
write_node m p n = record m { nodes = update m.nodes p n }

unfoldable pub write_kv : Memory → ℕ → KeyValue → Memory
write_kv m p kv = record m { kvs = update m.kvs p kv }

-- `NewWRERTSegment`
unfoldable pub alloc_segment : Memory → ℕ × Memory
alloc_segment m = (
  m.next_segment,
  record m {
    segments = update m.segments m.next_segment new_segment;
    next_segment = m.next_segment + 1;
  },
)

-- `NewWRERTKeyValue`
unfoldable pub alloc_kv : Memory → (key value : ℕ) → ℕ × Memory
alloc_kv m key value = (
  m.next_kv,
  record m {
    kvs = update m.kvs m.next_kv (record { key = key; value = value });
    next_kv = m.next_kv + 1;
  },
)

unfoldable pub alloc_node : Memory → Node → ℕ × Memory
alloc_node m n =
    (m.next_node, record m { nodes = update m.nodes m.next_node n; next_node = m.next_node + 1 })

-- The store of a new node where `beforeAddress` says: as the value of a slot, of which it takes 48
-- bits, where the node has a depth, and as the root pointer where it has none.
unfoldable pub store_before : Memory → (node_header_depth : ℕ) → Before → (node : ℕ) → Run Memory
unfolding write_slot
store_before m zero root_ref node = ok (record m { root = node })
store_before m zero (slot_ref r) node = stray
store_before m (suc depth) root_ref node = stray
store_before m (suc depth) (slot_ref r) node =
    ok (write_slot m r (record (slot_at m r) { value = node % 2 ^ 48 }))
