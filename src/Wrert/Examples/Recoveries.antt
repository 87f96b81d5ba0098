-- ===== src/Wrert/Examples/Recoveries.antt =====
-- A directory of four entries, in which a split was interrupted.
use wrert.Prelude.{ℕ, zero, suc, ◌+◌, ◌<◌, ◌≤◌, ◌≡◌, refl, ltb, ◌==◌, if◌then◌else◌, arith}
use wrert.Wrert.Memory.{Node, zero_node}
use wrert.Wrert.Recovery.Entries.{Heads, Recovered, recover_entries-Recovered}
use wrert.Wrert.Recovery.Skips.{Kept, recover_entries-Kept}
use wrert.Wrert.Recovery.{recover_entries}
use wrert.Wrert.Scan.{next_index, stride}

-- The second entry has taken up the depth of the split, the first has not.
abbrev interrupted : Node
interrupted = record zero_node {
  capacity = 4;
  global_depth = 2;
  entries = λ i. record {
    local_depth = if i == 1 then 2 else 1;
    shared_bucket_offset = 0;
    segment_ptr = if ltb i 2 then 5000 + i else 6000;
  };
}

abbrev heads : ℕ → ℕ
heads i = if ltb i 2 then 0 else if ltb i 4 then 2 else i

interrupted-Heads : Heads interrupted heads
unfolding next_index stride
interrupted-Heads = record { start = refl; next = λ i lt first more. ground arith; run = run }
  where
    run : (i j : ℕ) → i < 4 → heads i ≡ i → i ≤ j → j < next_index interrupted i → heads j ≡ i
    run zero j lt first le l = ground arith
    run (suc zero) j lt first le l = absurd (omega arith)
    run (suc (suc zero)) j lt first le l = ground arith
    run (suc (suc (suc zero))) j lt first le l = absurd (omega arith)
    run (suc (suc (suc (suc i)))) j lt first le l = absurd (omega arith)

recover_entries-Recovered_example :
    Recovered 4096 8192 interrupted heads (recover_entries 0 4096 8192 interrupted 5 0)
recover_entries-Recovered_example =
    recover_entries-Recovered 4096 8192 interrupted heads interrupted-Heads

recover_entries-Kept_example :
    Kept interrupted (next_index interrupted 0) (recover_entries 1 4096 8192 interrupted 5 0)
recover_entries-Kept_example = recover_entries-Kept 4096 8192 interrupted (omega arith)
