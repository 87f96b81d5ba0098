-- ===== src/Ert/Node/Fresh.antt =====
-- A new node.
use wrert.Prelude.{
  ℕ, ◌+◌, ◌-◌, ◌/◌, ◌%◌, ◌^◌, ◌<◌, ◌≡◌, refl, sym, ap, ◌∙◌, update, update_self, arith, subst, some,
  none,
}
use wrert.Ert.{zero_counter, bucket_get}
use wrert.Ert.Buckets.{bucket_get-zero}
use wrert.Ert.Memory.{Memory, Segment, Node, alloc_segment, alloc_node}
use wrert.Ert.Node.{get, new_node}
use wrert.Ert.Node.Shape.{IsDirectory, WellFormed, Keyed-zero, bucket_of, get-bucket_of}

module _ (m : Memory) (depth : ℕ) where
  abbrev node : Node
  node = record {
    header = record { len = 7; depth = depth; array = λ i. 0 };
    global_depth = 0;
    dir_size = 1;
    tree_node_values = some (λ i. record { key = 0; value = 0 });
    dir = λ i. m.next_segment;
  }

  abbrev segment : Segment
  segment = record { depth = 0; bucket = λ i j. zero_counter }

  abbrev pub created : Memory
  created = record m {
    segments = update m.segments m.next_segment segment;
    next_segment = m.next_segment + 1;
    nodes = update m.nodes m.next_node node;
    next_node = m.next_node + 1;
  }

  pub new_node-created : new_node m depth ≡ (m.next_node, created)
  unfolding new_node alloc_segment alloc_node
  new_node-created = refl

  pub created-node : created.nodes m.next_node ≡ node
  created-node = update_self m.nodes m.next_node node

  at : created.segments m.next_segment ≡ segment
  at = update_self m.segments m.next_segment segment

  one : (i : ℕ) → i < 2 ^ 0 → i ≡ 0
  one i lt = omega arith

  node-IsDirectory : IsDirectory created.segments (m.next_segment + 1) node
  node-IsDirectory = record {
    global = omega arith;
    depth = λ i lt. rw at (omega arith);
    same = λ i j lt lt' q. refl;
    apart = λ i j lt lt' q. absurd (
        q (
          ap (λ x. x / 2 ^ (0 - (created.segments m.next_segment).depth))
            (one j lt' ∙ sym (one i lt))));
    old = λ i lt. omega arith;
    keyed = λ i lt index lt' place l. rw at (Keyed-zero index);
  }

  pub created-WellFormed : WellFormed created m.next_node
  created-WellFormed =
      subst (λ x. IsDirectory created.segments (m.next_segment + 1) x) (sym created-node)
        node-IsDirectory

  pub get-created : (key : ℕ) → 0 < key → get created m.next_node key ≡ none
  get-created key pos =
      get-bucket_of created m.next_node key
      ∙ ap (λ x. bucket_get (bucket_of created.segments x key) key) created-node
      ∙ ap (λ x. bucket_get (x.bucket (key % 256)) key) at
      ∙ bucket_get-zero key pos
