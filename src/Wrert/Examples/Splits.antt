-- ===== src/Wrert/Examples/Splits.antt =====
-- A segment with a pair in each half, at depth 1.
use wrert.Prelude.{
  ◌/◌, zero, suc, ℕ, ◌+◌, ◌%◌, ◌^◌, ◌<◌, ◌≡◌, ◌↔◌, inl, inr, refl, sym, Bool, true, leb, ltb, ◌==◌,
  if◌then◌else◌, arith, Bool-cases, ==→eq, ok,
}
use wrert.Wrert.Memory.{SegmentNode, Node, Memory, root_ref, zero_node}
use wrert.Wrert.Node.{double_directory, split_segment}
use wrert.Wrert.Node.Splits.{Splitting, split_segment-NodeHolds}
use wrert.Wrert.Node.Doubles.{Numbered, NodeHolds, Linked, Doubling, double_directory-NodeHolds}
use wrert.Wrert.Segment.{Segment, split_off, split_rest}
use wrert.Wrert.Segment.Spread.{Holds, Layout}
use wrert.Wrert.Segment.Split.{split_off-Holds, split_rest-Holds}
use wrert.Wrert.Slot.{Slot, zero_slot, is_valid, shared_version, main_version}
use wrert.Wrert.Words.{
  get_shared_bucket_index, get_main_bucket_index, get_segment_number, dst_offset, load_offset,
}

abbrev pair : ℕ → Slot
pair k = record zero_slot { sub_key = k; valid_flag = 1; value = 10 }

abbrev low : ℕ
low = 7

abbrev high : ℕ
high = 2 ^ 30

abbrev two_halves : Segment
two_halves p i =
    if i == 0
    then (if p == 0 then pair low else if p == 8 then pair high else zero_slot)
    else zero_slot

abbrev Any : ℕ → Type 0
Any = Numbered 1 0

AtHome : (q : ℕ) → Slot → Type 0
AtHome q s = Any s.sub_key × (get_shared_bucket_index s.sub_key 1 % 16 ≡ q)

two_halves-AtHome :
    (q i : ℕ) → is_valid (shared_version 1) (two_halves q i) ≡ true → AtHome q (two_halves q i)
unfolding is_valid shared_version get_shared_bucket_index get_segment_number AtHome
two_halves-AtHome q i valid = elim (Bool-cases (i == 0)) [
  | inr e ↦ absurd (ground arith)
  | inl e ↦ elim (Bool-cases (q == 0)) [
    | inl f ↦ rw (e, f) ((omega arith, refl), sym (==→eq q 0 f))
    | inr f ↦ elim (Bool-cases (q == 8)) [
      | inl g ↦ rw (e, f, g) ((omega arith, refl), sym (==→eq q 8 g))
      | inr g ↦ absurd (ground arith)
    ]
  ]
]

two_halves-Layout : Layout Any two_halves 0 1
unfolding is_valid shared_version main_version AtHome
two_halves-Layout = record {
  offset = inl refl;
  depth = omega arith;
  first = λ q i j lt le jl valid. ground arith;
  home = λ q i lt il valid.
      let e : 0 + q ≡ q = omega arith in rw e (two_halves-AtHome q i (rw e at valid));
  past = λ p i pl il. ground arith;
}

stays : ℕ → Bool
stays k = ltb (get_main_bucket_index k 1) 16

goes : ℕ → Bool
goes k = leb 16 (get_main_bucket_index k 1)

split_rest-Holds_example :
    Holds two_halves 0 1 (pair low)
    ↔ Holds (split_rest two_halves 0 1 stays) (dst_offset 0) 2 (pair low)
unfolding stays get_main_bucket_index get_segment_number
split_rest-Holds_example =
    split_rest-Holds Any two_halves 0 1 two_halves-Layout stays (λ k mine. refl) (pair low)
      (omega arith, refl) refl

split_off-Holds_example :
    Holds two_halves 0 1 (pair high) ↔ Holds (split_off two_halves 0 32 1 goes) 32 2 (pair high)
unfolding goes get_main_bucket_index get_segment_number
split_off-Holds_example =
    split_off-Holds Any two_halves 0 1 two_halves-Layout goes (λ k mine. refl) 32 (inr (inr refl))
      (pair high) (omega arith, refl) refl

-- A directory of two entries, the first of which leads to the segment.
abbrev entry : (segment_ptr : ℕ) → SegmentNode
entry segment_ptr = record { local_depth = 1; shared_bucket_offset = 0; segment_ptr = segment_ptr }

abbrev directory : ℕ → SegmentNode
directory zero = entry 1
directory (suc i) = entry 2

abbrev root_node : Node
root_node = record zero_node { capacity = 2; global_depth = 1; entries = directory }

abbrev one_node : Memory
one_node = record {
  segments = λ q. if q == 1 then two_halves else λ p i. zero_slot;
  next_segment = 3;
  nodes = λ p. root_node;
  next_node = 2;
  kvs = λ p. record { key = 0; value = 0 };
  next_kv = 1;
  root = 1;
}

one_node-Doubling : Doubling one_node root_node 0 0 root_ref
unfolding load_offset Linked
one_node-Doubling = record {
  depth = refl;
  at = refl;
  layout = two_halves-Layout;
  own = own;
  old = old;
  index_lt = omega arith;
  linked = tt;
}
  where
    own : (j : ℕ) → j < 2 → (j ≡ 0 → ⊥) → 1 ≡ (directory j).segment_ptr → ⊥
    own zero lt ne e = ne refl
    own (suc j) lt ne e = omega (arith, e)

    old : (j : ℕ) → j < 2 → 3 ≡ (directory j).segment_ptr → ⊥
    old zero lt e = omega (arith, e)
    old (suc j) lt e = omega (arith, e)

double_directory-NodeHolds_example :
    (r : Memory × ℕ) × (double_directory one_node 1 0 0 root_ref ≡ ok r)
    × ((s : Slot) → s.sub_key < 2 ^ 32 → NodeHolds one_node 1 s ↔ NodeHolds r.0 r.1 s)
double_directory-NodeHolds_example =
    double_directory-NodeHolds one_node 1 0 0 root_ref one_node-Doubling

-- A directory of four entries, the first two of which lead to the segment.
abbrev pairs_of_entries : ℕ → SegmentNode
pairs_of_entries zero = entry 1
pairs_of_entries (suc zero) = entry 1
pairs_of_entries (suc (suc i)) = entry 2

abbrev wide_node : Node
wide_node = record zero_node { capacity = 4; global_depth = 2; entries = pairs_of_entries }

abbrev wide : Memory
wide = record one_node { nodes = λ p. wide_node }

wide-Splitting : Splitting wide wide_node 0 0 1 0
unfolding load_offset
wide-Splitting = record {
  deep = refl;
  bound = omega arith;
  depth = refl;
  at = refl;
  layout = two_halves-Layout;
  same = same;
  own = own;
  old = old;
  index_lt = omega arith;
}
  where
    same : (j : ℕ) → j < 4 → j / 2 ≡ 0 → pairs_of_entries j ≡ entry 1
    same zero lt e = refl
    same (suc zero) lt e = refl
    same (suc (suc j)) lt e = absurd (omega (arith, e))

    own : (j : ℕ) → j < 4 → (j / 2 ≡ 0 → ⊥) → 1 ≡ (pairs_of_entries j).segment_ptr → ⊥
    own zero lt ne e = ne (omega arith)
    own (suc zero) lt ne e = ne (omega arith)
    own (suc (suc j)) lt ne e = omega (arith, e)

    old : (j : ℕ) → j < 4 → 3 ≡ (pairs_of_entries j).segment_ptr → ⊥
    old zero lt e = omega (arith, e)
    old (suc zero) lt e = omega (arith, e)
    old (suc (suc j)) lt e = omega (arith, e)

split_segment-NodeHolds_example :
    NodeHolds wide 1 (pair high) ↔ NodeHolds (split_segment wide 1 0 0) 1 (pair high)
split_segment-NodeHolds_example =
    split_segment-NodeHolds wide 1 0 0 1 0 wide-Splitting (pair high) (omega arith)
