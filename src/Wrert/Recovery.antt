-- ===== src/Wrert/Recovery.antt =====
-- The directory in the recovery of wrert/wrert.cpp, `recoveryTree` and `recoveryAllNodes`: the pointers to
-- segments are moved from the old base address to the new one, and the entries that a split left behind
-- are repaired. The loop over the entries has as many rounds as the directory has entries, and one more.
pub mod Entries
pub mod Skips
use wrert.Prelude.{
  ℕ, zero, suc, ◌+◌, ◌-◌, ◌%◌, ◌^◌, ltb, if◌then◌else◌, update, Run, ok, stray, out_of_fuel, ◌>>=◌,
}
use wrert.Wrert.Memory.{Node, SegmentNode}
use wrert.Wrert.Scan.{next_index}

-- `new_base_ptr + (p - old_base)`, on 64 bits
unfoldable pub relocate : (old_base new_base p : ℕ) → ℕ
relocate old_base new_base p = (new_base + (p + 2 ^ 64 - old_base)) % 2 ^ 64

-- `segmentPtr` is a field of 48 bits.
unfoldable pub relocate_entry : (old_base new_base : ℕ) → SegmentNode → SegmentNode
unfolding relocate
relocate_entry old_base new_base e = record e {
  segment_ptr = relocate old_base new_base e.segment_ptr % 2 ^ 48;
}

-- The loop over the buddies of an entry, from the `n`th after it down to the first.
unfoldable pub recover_buddies :
    (old_base new_base : ℕ) → (ℕ → SegmentNode) → (index n : ℕ) → ℕ → SegmentNode
unfolding relocate_entry
recover_buddies old_base new_base entries index zero = entries
recover_buddies old_base new_base entries index (suc n) =
    let buddy = relocate_entry old_base new_base (entries (index + n + 1)) in
    recover_buddies old_base new_base
      (update entries (index + n + 1)
        (if ltb (entries index).local_depth buddy.local_depth then entries index else buddy))
      index n

-- A visit to an entry, which is the first of its segment.
unfoldable pub recover_entry : (old_base new_base : ℕ) → Node → (index : ℕ) → Node
unfolding recover_buddies relocate_entry next_index
recover_entry old_base new_base n index = record n {
  entries =
      recover_buddies old_base new_base
        (update n.entries index (relocate_entry old_base new_base (n.entries index))) index
        (next_index n index - 1 - index);
}

-- The loop over the entries. After a visit `recoveryTree` goes on with the first entry of the next segment
-- (`step` is 0), and `recoveryAllNodes` with the one after it (`step` is 1).
unfoldable pub recover_entries : (step old_base new_base : ℕ) → Node → (rounds index : ℕ) → Run Node
unfolding recover_entry next_index
recover_entries step old_base new_base n zero index = out_of_fuel
recover_entries step old_base new_base n (suc rounds) index =
    let rest =
      recover_entries step old_base new_base (recover_entry old_base new_base n index) rounds
        (next_index n index + step) in
    if ltb index n.capacity then rest else ok n
