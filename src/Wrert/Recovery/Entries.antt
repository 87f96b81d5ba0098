-- ===== src/Wrert/Recovery/Entries.antt =====
-- What the recovery makes of the entries of a directory.
use wrert.Prelude.{
  ℕ, zero, suc, ◌+◌, ◌-◌, ◌<◌, ◌≤◌, ◌≡◌, inl, inr, refl, sym, ◌∙◌, subst, ◌&&◌, leb, ltb, ◌==◌,
  if◌then◌else◌, update, Bool-cases, ==→eq, ==→ne, Run, ok, arith,
}
use wrert.Wrert.Memory.{Node, SegmentNode}
use wrert.Wrert.Recovery.{relocate_entry, recover_buddies, recover_entry, recover_entries}
use wrert.Wrert.Scan.Pushes.{next_index-gt}
use wrert.Wrert.Scan.{next_index, stride}

-- An entry of a segment that starts at `first`: moved, or that of the first entry, where it is deeper.
abbrev pub repaired : (old_base new_base : ℕ) → (first e : SegmentNode) → SegmentNode
repaired old_base new_base first e =
    if ltb first.local_depth e.local_depth
    then relocate_entry old_base new_base first
    else relocate_entry old_base new_base e

-- What the loop over the buddies leaves in an entry.
buddies_left : (old_base new_base : ℕ) → (ℕ → SegmentNode) → (index n j : ℕ) → SegmentNode
buddies_left old_base new_base entries index n j =
    if ltb index j && leb j (index + n)
    then (if ltb (entries index).local_depth (entries j).local_depth
        then entries index
        else relocate_entry old_base new_base (entries j))
    else entries j

recover_buddies_lem :
    (old_base new_base : ℕ) (entries : ℕ → SegmentNode) (index n j : ℕ)
    → recover_buddies old_base new_base entries index n j
      ≡ buddies_left old_base new_base entries index n j
unfolding recover_buddies buddies_left relocate_entry
recover_buddies_lem old_base new_base entries index zero j = ground arith
recover_buddies_lem old_base new_base entries index (suc n) j =
    let v : SegmentNode =
      if ltb (entries index).local_depth (entries (index + n + 1)).local_depth
      then entries index
      else relocate_entry old_base new_base (entries (index + n + 1)) in
    let ih = recover_buddies_lem old_base new_base (update entries (index + n + 1) v) index n j in
    elim (Bool-cases (index + n + 1 == j)) [
      | inl e ↦ ih ∙ ground (arith, ==→eq (index + n + 1) j e)
      | inr e ↦ ih ∙ ground (arith, ==→ne (index + n + 1) j e)
    ]

pub recover_entry_lem :
    (old_base new_base : ℕ) (n : Node) (index j : ℕ)
    → (recover_entry old_base new_base n index).entries j ≡ (
        if ltb index j && ltb j (next_index n index)
        then repaired old_base new_base (n.entries index) (n.entries j)
        else if index == j
        then relocate_entry old_base new_base (n.entries index)
        else n.entries j)
unfolding recover_entry buddies_left relocate_entry
recover_entry_lem old_base new_base n index j =
    let grows = next_index-gt n index in
    recover_buddies_lem old_base new_base
      (update n.entries index (relocate_entry old_base new_base (n.entries index))) index
      (next_index n index - 1 - index) j
    ∙ ground (arith, grows)

-- The first entry of the segment of each entry.
pub record Heads (n : Node) (head : ℕ → ℕ) : Type 0 where
  pub start : head 0 ≡ 0
  pub next :
      (i : ℕ)
      → i < n.capacity
      → head i ≡ i
      → next_index n i < n.capacity
      → head (next_index n i) ≡ next_index n i
  pub run : (i j : ℕ) → i < n.capacity → head i ≡ i → i ≤ j → j < next_index n i → head j ≡ i

-- The loop has come to an entry.
record UpTo (old_base new_base : ℕ) (n : Node) (head : ℕ → ℕ) (c : Node) (i : ℕ) : Type 0 where
  here : i < n.capacity → head i ≡ i
  capacity : c.capacity ≡ n.capacity
  depth : c.global_depth ≡ n.global_depth
  done :
      (j : ℕ)
      → j < i
      → j < n.capacity
      → c.entries j ≡ repaired old_base new_base (n.entries (head j)) (n.entries j)
  rest : (j : ℕ) → i ≤ j → c.entries j ≡ n.entries j

next_index-same :
    (c n : Node) (i : ℕ)
    → c.global_depth ≡ n.global_depth
    → c.entries i ≡ n.entries i
    → next_index c i ≡ next_index n i
unfolding next_index stride
next_index-same c n i depth entry = rw (depth, entry) refl

module _ (old_base new_base : ℕ) (n : Node) (head : ℕ → ℕ) (c : Node) (i : ℕ) (heads : Heads n head)
    (at : UpTo old_base new_base n head c i) (lt : i < n.capacity) where
  UpTo-same : next_index c i ≡ next_index n i
  UpTo-same = next_index-same c n i at.depth (at.rest i (omega arith))

  UpTo-done :
      (j : ℕ)
      → j < next_index c i
      → j < n.capacity
      → (recover_entry old_base new_base c i).entries j
        ≡ repaired old_base new_base (n.entries (head j)) (n.entries j)
  UpTo-done j l k = recover_entry_lem old_base new_base c i j ∙ elim (Bool-cases (ltb j i)) [
    | inl e ↦ ground (arith, e, at.done j (ground (arith, e)) k)
    | inr e ↦
        let le : i ≤ j = ground (arith, e) in
        let here : head j ≡ i = heads.run i j lt (at.here lt) le (subst (λ x. j < x) UpTo-same l) in
        rw (here, at.rest i (omega arith), at.rest j le)
          (elim (Bool-cases (i == j)) [
            | inl f ↦ rw (==→eq i j f) (ground arith)
            | inr f ↦ ground (arith, ==→ne i j f, le, l)
          ])
  ]

  UpTo-rest :
      (j : ℕ) → next_index c i ≤ j → (recover_entry old_base new_base c i).entries j ≡ n.entries j
  UpTo-rest j le =
      let grows = next_index-gt c i in
      recover_entry_lem old_base new_base c i j ∙ ground (arith, grows, at.rest j (omega arith))

  UpTo-step : UpTo old_base new_base n head (recover_entry old_base new_base c i) (next_index c i)
  unfolding recover_entry
  UpTo-step = record {
    here = λ l.
        subst (λ x. head x ≡ x) (sym UpTo-same)
          (heads.next i lt (at.here lt) (subst (λ x. x < n.capacity) UpTo-same l));
    capacity = at.capacity;
    depth = at.depth;
    done = λ j l k. UpTo-done j l k;
    rest = λ j le. UpTo-rest j le;
  }

-- The loop answers a node, whose entries are all repaired.
pub record Recovered (old_base new_base : ℕ) (n : Node) (head : ℕ → ℕ) (r : Run Node) : Type 0 where
  pub node : Node
  pub answered : r ≡ ok node
  pub entries :
      (j : ℕ)
      → j < n.capacity
      → node.entries j ≡ repaired old_base new_base (n.entries (head j)) (n.entries j)

recover_entries_from :
    (old_base new_base : ℕ) (n : Node) (head : ℕ → ℕ) (c : Node) (rounds i : ℕ)
    → Heads n head
    → UpTo old_base new_base n head c i
    → n.capacity - i < rounds
    → Recovered old_base new_base n head (recover_entries 0 old_base new_base c rounds i)
unfolding recover_entries
recover_entries_from old_base new_base n head c zero i heads at enough = absurd (omega arith)
recover_entries_from old_base new_base n head c (suc rounds) i heads at enough =
    elim (Bool-cases (ltb i c.capacity)) [
      | inr e ↦ rw e (record {
        node = c;
        answered = refl;
        entries = λ j lt. at.done j (ground (arith, e, at.capacity)) lt;
      })
      | inl e ↦
          let grows = next_index-gt c i in
          let lt : i < n.capacity = ground (arith, e, at.capacity) in
          let next : next_index c i ≡ next_index c i + 0 = omega arith in
          rw e (
            recover_entries_from old_base new_base n head (recover_entry old_base new_base c i)
              rounds (next_index c i + 0) heads
              (subst (λ x. UpTo old_base new_base n head (recover_entry old_base new_base c i) x)
                next (UpTo-step old_base new_base n head c i heads at lt))
              (omega arith))
    ]

-- The loop of `recoveryTree` over the entries of a directory ends. It moves the pointer of every entry to
-- the new base exactly once, except that an entry whose depth is greater than that of the first entry of
-- its segment, as an interrupted split leaves it, becomes a copy of that first entry, moved as well. The
-- segments stand one behind the other from the first entry on.
pub recover_entries-Recovered :
    (old_base new_base : ℕ) (n : Node) (head : ℕ → ℕ)
    → Heads n head
    → Recovered old_base new_base n head (recover_entries 0 old_base new_base n (n.capacity + 1) 0)
recover_entries-Recovered old_base new_base n head heads =
    recover_entries_from old_base new_base n head n (n.capacity + 1) 0 heads
      (record {
        here = λ l. heads.start;
        capacity = refl;
        depth = refl;
        done = λ j l k. absurd (omega arith);
        rest = λ j le. refl;
      })
      (omega arith)
