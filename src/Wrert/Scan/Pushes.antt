-- ===== src/Wrert/Scan/Pushes.antt =====
-- What the loops over buckets and segments push, where each slot pushes what is as it should be.
use wrert.Prelude.{
  ℕ, zero, suc, ◌+◌, ◌-◌, ◌/◌, ◌^◌, ◌<◌, ◌≤◌, ◌≡◌, ◌⊎◌, inl, inr, refl, sym, subst, Bool, true,
  false, ◌&&◌, List, [], ◌∷◌, ◌++◌, leb, ltb, if◌then◌else◌, Bool-cases, ok, arith,
}
use mathlib.Core.List.{Memᴰ}
use mathlib.Core.List.Memᴰ
use native.Mathlib.Nat.{div-add-mod, mod-lt, mul_comm}
use wrert.Wrert.Bucket.{Bucket}
use wrert.Wrert.Memory.{Node, KeyValue}
use wrert.Wrert.Scan.{
  Results, ◌then_push◌, scan_slots, scan_buckets, bucket_range, scan_part, segment_loop, next_index,
  stride, left_main, right_main,
}
use wrert.Wrert.Segment.{Segment}
use wrert.Wrert.Slot.{Slot, is_valid, main_version, shared_version}
use wrert.Wrert.Words.Halves.{pow-positive}

pub next_index-gt : (n : Node) (index : ℕ) → index < next_index n index
unfolding next_index stride
next_index-gt n index =
    let e = n.global_depth - (n.entries index).local_depth in
    let all = div-add-mod index (2 ^ e) in
    let part = mod-lt index (pow-positive e) in
    let swap = mul_comm (index / 2 ^ e) (2 ^ e) in omega arith

-- A scan answers, and every pair that it answers is as `P` says.
pub record All (P : KeyValue → Type 0) (r : Results) : Type 0 where
  pub pairs : List KeyValue
  pub answered : r ≡ ok pairs
  pub each : (kv : KeyValue) → Memᴰ kv pairs → P kv

pub All-nil : (P : KeyValue → Type 0) → All P (ok [])
All-nil P = record { pairs = []; answered = refl; each = λ kv h. absurd (Memᴰ.not-nil h) }

pub All-one : (P : KeyValue → Type 0) (kv : KeyValue) → P kv → All P (ok (kv ∷ []))
All-one P kv p = record {
  pairs = kv ∷ [];
  answered = refl;
  each = λ kv' h. subst P (sym (Memᴰ.eq_of_singleton h)) p;
}

pub All-then_push :
    {P : KeyValue → Type 0} {a b : Results} → All P a → All P b → All P (a then_push b)
All-then_push ha hb = record {
  pairs = ha.pairs ++ hb.pairs;
  answered = rw ha.answered (rw hb.answered refl);
  each = λ kv h. elim (Memᴰ.append_cases ha.pairs h) [
    | inl h' ↦ ha.each kv h'
    | inr h' ↦ hb.each kv h'
  ];
}

pub All-if :
    {P : KeyValue → Type 0} {a b : Results} (c : Bool)
    → All P a
    → All P b
    → All P (if c then a else b)
All-if true ha hb = ha
All-if false ha hb = hb

-- A version that a segment of a depth gives to its slots.
unfoldable pub Version : (local_depth version : ℕ) → Type 0
Version local_depth version =
    (version ≡ main_version local_depth) ⊎ (version ≡ shared_version local_depth)

module _ (P : KeyValue → Type 0) (emit : Slot → Results) (member : ℕ → Bool) where
  scan_slots-All :
      (version : ℕ) (b : Bucket) (n j : ℕ)
      → j + n ≤ 16
      → ((i : ℕ)
          → i < 16
          → is_valid version (b i) ≡ true
          → member (b i).sub_key ≡ true
          → All P (emit (b i)))
      → All P (scan_slots emit member version b n j)
  unfolding scan_slots
  scan_slots-All version b zero j le each = All-nil P
  scan_slots-All version b (suc n) j le each =
      elim (Bool-cases (is_valid version (b j) && member (b j).sub_key)) [
        | inr e ↦ rw e (All-nil P)
        | inl e ↦
            let (valid, own) = both (is_valid version (b j)) (member (b j).sub_key) e in
            rw e (
              All-then_push (each j (omega arith) valid own)
                (scan_slots-All version b n (j + 1) (omega arith) each))
      ]
    where
      both : (x y : Bool) → (x && y) ≡ true → (x ≡ true) × (y ≡ true)
      both true true e = (refl, refl)
      both true false e = absurd (cc e)
      both false y e = absurd (cc e)

  module _ (seg : Segment) (local_depth : ℕ)
      (each : (i j version : ℕ)
        → i < 48
        → j < 16
        → Version local_depth version
        → is_valid version (seg i j) ≡ true
        → member (seg i j).sub_key ≡ true
        → All P (emit (seg i j))) where
    scan_buckets-All :
        (version n i : ℕ)
        → Version local_depth version
        → i + n ≤ 48
        → All P (scan_buckets emit member version seg n i)
    unfolding scan_buckets
    scan_buckets-All version zero i known le = All-nil P
    scan_buckets-All version (suc n) i known le =
        All-then_push
          (scan_slots-All version (seg i) 16 0 (omega arith)
            (λ j lt valid own. each i j version (omega arith) lt known valid own))
          (scan_buckets-All version n (i + 1) known (omega arith))

    pub range-All :
        (start end version : ℕ)
        → Version local_depth version
        → start < 48
        → end < 48
        → All P (bucket_range emit member seg start end version)
    unfolding bucket_range
    range-All start end version known lo hi =
        scan_buckets-All version (end + 1 - start) start known (omega arith)

    pub scan_part-All :
        (offset left right : ℕ) (one : Bool)
        → left < 48
        → right < 48
        → All P (scan_part emit member seg offset local_depth left right one)
    unfolding scan_part left_main right_main Version
    scan_part-All offset left right one lo hi =
        let main = main_version local_depth in
        let shared = shared_version local_depth in
        let first = left_main offset left in
        let last = right_main offset right in
        let by_shared = range-All left right shared (inr refl) lo hi in
        let by_main = range-All first last main (inl refl) (omega arith) (omega arith) in
        All-if (ltb left 24 && ltb 24 right)
          (All-then_push (range-All 0 last main (inl refl) (omega arith) (omega arith)) (
            All-then_push by_shared
              (range-All first 47 main (inl refl) (omega arith) (omega arith))))
          (All-if one (All-then_push by_shared by_main) (All-then_push by_main by_shared))

pub segment_loop-All :
    (P : KeyValue → Type 0) (visit : ℕ → Results) (n : Node) (from last rounds index : ℕ)
    → ((i : ℕ) → from ≤ i → i ≤ last → All P (visit i))
    → from ≤ index
    → last + 1 - index < rounds
    → All P (segment_loop visit n last rounds index)
unfolding segment_loop
segment_loop-All P visit n from last zero index each le lt = absurd (omega arith)
segment_loop-All P visit n from last (suc rounds) index each le lt =
    elim (Bool-cases (leb index last)) [
      | inr e ↦ rw e (All-nil P)
      | inl e ↦
          let grows = next_index-gt n index in
          rw e (
            All-then_push (each index le (ground (arith, e))) (
              segment_loop-All P visit n from last rounds (next_index n index) each (omega arith)
                (ground (arith, e, grows))))
    ]
