-- ===== src/Ert/Node/Children.antt =====
-- The doubling of the directory of a node below the root.
use wrert.Prelude.{
  ℕ, zero, suc, ◌+◌, ◌*◌, ◌/◌, none, ◌<◌, ◌≡◌, refl, ap, ◌∙◌, ok, ◌>>=◌, ◌==◌, false, update,
  update_self, update_ne, arith,
}
use wrert.Ert.{Counter}
use wrert.Ert.Memory.{
  Memory, Node, CounterRef, value_ref, counter_at, set_counter, write_counter, store_after,
  store_before, alloc_node,
}
use wrert.Ert.Node.{double, init_header}
use wrert.Ert.Node.Writes.{bucket-rewritten}

-- The counter behind another one of its bucket.
abbrev pub behind : CounterRef → CounterRef
behind r = record r { place = r.place + 1 }

store_before-value_ref :
    (m : Memory) (depth : ℕ) (r : CounterRef) (node : ℕ)
    → 0 < depth
    → r.place < 3
    → r.index < 256
    → store_before m depth (value_ref r) node
      ≡ ok (write_counter m (behind r) (record (counter_at m (behind r)) { subkey = node }))
unfolding store_before store_after
store_before-value_ref m zero r node pos lt lt' = absurd (omega arith)
store_before-value_ref m (suc depth) r node pos lt lt' =
    let a : (r.place + 1 == 4) ≡ false = ground arith in
    let b : (r.index == 256) ≡ false = ground arith in rw (a, b) refl

written_behind :
    (m : Memory) (r : CounterRef) (c : Counter)
    → (counter_at (write_counter m (behind r) c) r ≡ counter_at m r)
      × (counter_at (write_counter m (behind r) c) (behind r) ≡ c)
unfolding write_counter set_counter
written_behind m r c =
    let bucket = bucket-rewritten m.segments r.segment r.index (r.place + 1) c in
    (
      ap (λ b. b r.place) bucket
          ∙ update_ne ((m.segments r.segment).bucket r.index) (r.place + 1) r.place c (omega arith),
      ap (λ b. b (r.place + 1)) bucket
          ∙ update_self ((m.segments r.segment).bucket r.index) (r.place + 1) c,
    )

-- The doubling of the directory of a node below the root, to which one of the first three counters of a
-- bucket leads, leaves that counter as it is, with the old node, and overwrites the subkey of the counter
-- behind it with the address of the new node.
pub double-behind :
    (m : Memory) (p : ℕ) (r : CounterRef)
    → 0 < (m.nodes p).header.depth
    → r.place < 3
    → r.index < 256
    → (m' : Memory) × (double m p (value_ref r) ≡ ok (m', m.next_node))
      × (counter_at m' r ≡ counter_at m r)
      × (counter_at m' (behind r) ≡ record (counter_at m (behind r)) { subkey = m.next_node })
unfolding double alloc_node init_header
double-behind m p r pos lt lt' =
    let n : Node = m.nodes p in
    let c : Counter = record (counter_at m (behind r)) { subkey = m.next_node } in
    let m1 : Memory = record m {
      nodes = update m.nodes m.next_node (record {
        header = init_header n.header n.header.len n.header.depth;
        global_depth = n.global_depth + 1;
        dir_size = n.dir_size * 2;
        tree_node_values = none;
        dir = λ i. n.dir (i / 2);
      });
      next_node = m.next_node + 1;
    } in
    let (kept, overwritten) = written_behind m1 r c in
    (
      write_counter m1 (behind r) c,
      ap (λ x. x >>= λ m2. ok (m2, m.next_node))
          (store_before-value_ref m1 n.header.depth r m.next_node pos lt lt'),
      kept,
      overwritten,
    )
