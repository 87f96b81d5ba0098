-- ===== src/Wrert/Recovery/Skips.antt =====
-- The entries that the loop of `recoveryAllNodes` passes over.
use wrert.Prelude.{
  ℕ, zero, suc, ◌+◌, ◌-◌, ◌<◌, ◌≡◌, inl, inr, refl, ◌∙◌, true, ltb, Bool-cases, Run, ok, arith,
}
use wrert.Wrert.Memory.{Node}
use wrert.Wrert.Recovery.Entries.{recover_entry_lem}
use wrert.Wrert.Recovery.{recover_entry, recover_entries}
use wrert.Wrert.Scan.Pushes.{next_index-gt}
use wrert.Wrert.Scan.{next_index}

-- The loop answers a node in which an entry is as it was.
pub record Kept (c : Node) (j : ℕ) (r : Run Node) : Type 0 where
  pub node : Node
  pub answered : r ≡ ok node
  pub entry : node.entries j ≡ c.entries j

module _ (step old_base new_base : ℕ) where
  recover_entries_below :
      (c : Node) (rounds i j : ℕ)
      → c.capacity - i < rounds
      → j < i
      → Kept c j (recover_entries step old_base new_base c rounds i)
  unfolding recover_entries recover_entry
  recover_entries_below c zero i j enough below = absurd (omega arith)
  recover_entries_below c (suc rounds) i j enough below = elim (Bool-cases (ltb i c.capacity)) [
    | inr e ↦ rw e (record { node = c; answered = refl; entry = refl })
    | inl e ↦
        let grows = next_index-gt c i in
        let ih =
          recover_entries_below (recover_entry old_base new_base c i) rounds (next_index c i + step)
            j (ground (arith, e, grows)) (omega arith) in
        rw e (record {
          node = ih.node;
          answered = ih.answered;
          entry = ih.entry ∙ (recover_entry_lem old_base new_base c i j ∙ ground (arith, below));
        })
  ]

recover_entries_first :
    (old_base new_base : ℕ) (n : Node) (rounds : ℕ)
    → ltb 0 n.capacity ≡ true
    → recover_entries 1 old_base new_base n (suc rounds) 0
      ≡ recover_entries 1 old_base new_base
          (recover_entry old_base new_base n 0)
          rounds
          (next_index n 0 + 1)
unfolding recover_entries
recover_entries_first old_base new_base n rounds first = rw first refl

-- The loop of `recoveryAllNodes` over the entries of a directory ends, but it passes over the entry behind
-- the first segment, which keeps its pointer under the old base.
pub recover_entries-Kept :
    (old_base new_base : ℕ) (n : Node)
    → 0 < n.capacity
    → Kept n (next_index n 0) (recover_entries 1 old_base new_base n (suc n.capacity) 0)
unfolding recover_entry
recover_entries-Kept old_base new_base n some =
    let grows = next_index-gt n 0 in
    let k = next_index n 0 in
    let later =
      recover_entries_below 1 old_base new_base (recover_entry old_base new_base n 0) n.capacity
        (k + 1) k (omega (arith, grows, some)) (omega arith) in
    let first : ltb 0 n.capacity ≡ true = ground arith in
    record {
      node = later.node;
      answered = recover_entries_first old_base new_base n n.capacity first ∙ later.answered;
      entry = later.entry ∙ (recover_entry_lem old_base new_base n 0 k ∙ ground (arith, grows));
    }
