-- ===== src/Wrert/Scan/Ends.antt =====
-- `scanAllNodes` ends.
use wrert.Prelude.{ℕ, ◌<◌, ◌≡◌, ◌⊎◌, true}
use wrert.Wrert.Memory.{Memory, KeyValue}
use wrert.Wrert.Scan.Answers.{Directory}
use wrert.Wrert.Segment.{Segment}
use wrert.Wrert.Slot.{Slot, is_valid, main_version, shared_version}
use wrert.Wrert.Words.{segment_size, slots_per_bucket}

abbrev Any : KeyValue → Type 0
Any kv = Unit

-- A number that falls from every node to the nodes below it.
pub record Falls (m : Memory) (rank : ℕ → ℕ) : Type 0 where
  pub directory : (p : ℕ) → Directory (m.nodes p)
  pub below :
      (p index bucket place : ℕ)
      → index < (m.nodes p).capacity
      → bucket < segment_size
      → place < slots_per_bucket
      → (is_valid
            (main_version ((m.nodes p).entries index).local_depth)
            (m.segments ((m.nodes p).entries index).segment_ptr bucket place)
          ≡ true)
        ⊎ (is_valid
              (shared_version ((m.nodes p).entries index).local_depth)
              (m.segments ((m.nodes p).entries index).segment_ptr bucket place)
            ≡ true)
      → (m.segments ((m.nodes p).entries index).segment_ptr bucket place).node_flag ≡ 1
      → rank (m.segments ((m.nodes p).entries index).segment_ptr bucket place).value < rank p
