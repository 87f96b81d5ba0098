-- ===== src/Wrert/Examples/Scans.antt =====
-- A directory of four entries over two segments, with pairs in the first.
use wrert.Prelude.{ℕ, ◌+◌, ◌^◌, ◌==◌, ◌&&◌, ltb, if◌then◌else◌, arith, ok, []}
use wrert.Wrert.Memory.{Memory, Node, zero_node}
use wrert.Wrert.Scan.Answers.{InRange, Directory, scan_between-InRange}
use wrert.Wrert.Scan.Pushes.{All}
use wrert.Wrert.Words.{load_offset}
use wrert.Wrert.Scan.{Results, End, scan_between}
use wrert.Wrert.Segment.{Segment, new_segment}
use wrert.Wrert.Slot.{Slot, zero_slot}

abbrev pair : ℕ → Slot
pair k = record zero_slot { sub_key = k; mig_version = 1; valid_flag = 1; value = 10 }

abbrev three_pairs : Segment
three_pairs p i =
    if p == 16 && ltb i 3 then pair (if i == 0 then 4 else if i == 1 then 6 else 8) else zero_slot

abbrev two_segments : Node
two_segments = record zero_node {
  capacity = 4;
  global_depth = 2;
  entries = λ i. record {
    local_depth = 1;
    shared_bucket_offset = 0;
    segment_ptr = if ltb i 2 then 1 else 2;
  };
}

abbrev memory : Memory
memory = record {
  segments = λ i. if i == 1 then three_pairs else new_segment;
  next_segment = 3;
  nodes = λ i. two_segments;
  next_node = 2;
  kvs = λ i. record { key = 0; value = 0 };
  next_kv = 1;
  root = 1;
}

abbrev from_five : End
from_five = record { index = 0; subkey = 5 }

abbrev to_high : End
to_high = record { index = 3; subkey = 2 ^ 31 + 2 ^ 30 }

abbrev nothing : (node position prefix : ℕ) → Results
nothing node position prefix = ok []

two_segments-Directory : Directory two_segments
unfolding load_offset
two_segments-Directory = record {
  some = omega arith;
  depth = λ i lt. omega arith;
  offset = λ i lt. omega arith;
}

scan_between-InRange_example :
    All
      (InRange memory two_segments 1 from_five to_high)
      (scan_between nothing nothing memory two_segments 4 1 from_five to_high)
scan_between-InRange_example =
    scan_between-InRange nothing nothing memory two_segments 1 from_five to_high (omega arith)
      two_segments-Directory (omega arith)

-- The slots of the first node lead to the second one, those of the second to values.
abbrev child : ℕ → Slot
child k = record (pair k) { node_flag = 1; value = 2 }

abbrev two_children : Segment
two_children p i = if p == 16 && ltb i 2 then child (if i == 0 then 4 else 6) else zero_slot

abbrev two_levels : Memory
two_levels = record memory {
  segments = λ i. if i == 1 then two_children else if i == 3 then three_pairs else new_segment;
  nodes = λ i. if i == 1 then two_segments else record two_segments {
    entries = λ i. record {
      local_depth = 1;
      shared_bucket_offset = 0;
      segment_ptr = if ltb i 2 then 3 else 2;
    };
  };
}

-- The second node is below the first.
abbrev height : ℕ → ℕ
height p = if p == 1 then 1 else 0
