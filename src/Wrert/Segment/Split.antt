-- ===== src/Wrert/Segment/Split.antt =====
-- The two segments of a split, against the lookups of the next depth (the migrations in
-- WRERTNode::put of wrert/wrert_node.cpp).
use wrert.Prelude.{
  ℕ, ◌+◌, ◌-◌, ◌%◌, ◌≤◌, ◌<◌, ◌≡◌, ◌≢◌, inl, inr, ◌↔◌, refl, sym, ap, ◌∙◌, Bool, true, false, leb,
  ltb, ◌&&◌, arith,
}
use wrert.Wrert.Segment.{Segment, new_segment, copy_buckets, split_off, split_rest}
use wrert.Wrert.Segment.Spread.{
  InBucket, Holds, Layout, shared_home, main_home, spread-new, spread-old, spread-frame,
}
use wrert.Wrert.Slot.{Slot, is_valid, shared_version, main_version}
use wrert.Wrert.Words.{
  calc_bucket_position, shared_bucket_position, get_main_bucket_index, get_shared_bucket_index,
  dst_offset, mig_main_start, mig_shared_start,
}
use wrert.Wrert.Words.Depths.{lower-shared, upper-shared, next_shared-main, main-lt}
use wrert.Wrert.Words.Layout.{
  IsOffset, dst_offset-IsOffset, calc-lt, calc-outside, calc-lower, calc-upper,
}

next_version : (d : ℕ) → shared_version (d + 1) ≡ main_version d
unfolding shared_version main_version
next_version d = omega arith

-- Main buckets do not meet the shared ones.
apart_from_shared :
    (o q : ℕ) → IsOffset o → q < 16 → (b : ℕ) → b < 32 → calc_bucket_position o b ≢ o + q
apart_from_shared o q ok lt b bl e = elim (calc-outside o ok b bl) [
  | inl l ↦ absurd (omega arith)
  | inr r ↦ absurd (omega arith)
]

module _ (Mine : ℕ → Type 0) (seg : Segment) (o d : ℕ) (layout : Layout Mine seg o d) where
  -- The segment that stays.
  module _ (stays : ℕ → Bool)
      (spec : (k : ℕ) → Mine k → stays k ≡ ltb (get_main_bucket_index k d) 16) where
    rest_side :
        (k : ℕ)
        → Mine k
        → stays k ≡ true
        → (0 ≤ get_shared_bucket_index k d % 16) × (get_shared_bucket_index k d % 16 < 0 + 8)
    rest_side k mine go = (
      omega arith,
      omega (arith, lower-shared k d layout.depth (ground (arith, spec k mine, go))),
    )

    aside : Segment
    aside i = seg (o + i)

    aside-copies : (q : ℕ) → q < 8 → aside (0 + q) ≡ seg (o + (0 + q))
    unfolding aside
    aside-copies q lt = refl

    -- The lower main buckets are the shared ones of the next depth, where they stand.
    rest-lower :
        (k : ℕ)
        → Mine k
        → stays k ≡ true
        → shared_home (split_rest seg o d stays) (dst_offset o) (d + 1) k ≡ main_home seg o d k
    unfolding split_rest shared_bucket_position aside
    rest-lower k mine go =
        let lt : get_main_bucket_index k d < 16 = ground (arith, spec k mine, go) in
        let at : get_shared_bucket_index k (d + 1) % 16 ≡ get_main_bucket_index k d =
          omega (arith, next_shared-main k d layout.depth) in
        rw at (
          spread-frame Mine seg o d layout stays 0 (inl refl) rest_side (dst_offset o)
            (dst_offset-IsOffset o layout.offset) seg aside 0 aside-copies
            (dst_offset o + get_main_bucket_index k d)
            (apart_from_shared (dst_offset o) _ (dst_offset-IsOffset o layout.offset) lt)
          ∙ ap seg (sym (calc-lower o layout.offset (get_main_bucket_index k d) lt)))

    module _ (s : Slot) (mine : Mine s.sub_key) (go : stays s.sub_key ≡ true) where
      rest-new :
          InBucket (shared_home seg o d s.sub_key) (shared_version d) s
          → InBucket
              (main_home (split_rest seg o d stays) (dst_offset o) (d + 1) s.sub_key)
              (main_version (d + 1))
              s
      unfolding split_rest aside
      rest-new =
          spread-new Mine seg o d layout stays 0 (inl refl) rest_side (dst_offset o)
            (dst_offset-IsOffset o layout.offset) seg aside 0 aside-copies s mine go

      rest-old :
          InBucket
            (main_home (split_rest seg o d stays) (dst_offset o) (d + 1) s.sub_key)
            (main_version (d + 1))
            s
          → InBucket (shared_home seg o d s.sub_key) (shared_version d) s
      unfolding split_rest aside
      rest-old =
          spread-old Mine seg o d layout stays 0 (inl refl) rest_side (dst_offset o)
            (dst_offset-IsOffset o layout.offset) seg aside 0 aside-copies s mine go
            (λ i il.
              layout.past _ i
                (calc-lt (dst_offset o) (dst_offset-IsOffset o layout.offset) _
                  (main-lt s.sub_key (d + 1)))
                il)

      -- Where the shared buckets of a segment are in order (`Layout`) and the test `stays` holds of the
      -- subkeys of the lower main buckets, a pair whose subkey passes the test is found in the segment
      -- that stays, at the next depth and offset, if and only if it was found in the segment before.
      pub split_rest-Holds :
          Holds seg o d s ↔ Holds (split_rest seg o d stays) (dst_offset o) (d + 1) s
      split_rest-Holds =
          let e = rest-lower s.sub_key mine go in
          (
            λ h. elim h [
              | inl shared ↦ inr (rest-new shared)
              | inr main ↦ inl (rw (e, next_version d) main)
            ],
            λ h. elim h [
              | inl shared ↦ inr (rw (e, next_version d) at shared)
              | inr main ↦ inl (rest-old main)
            ],
          )

  -- The segment that is split off, with its shared buckets at `o'`.
  module _ (goes : ℕ → Bool) (spec : (k : ℕ) → Mine k → goes k ≡ leb 16 (get_main_bucket_index k d))
      (o' : ℕ) (ok : IsOffset o') where
    off_side :
        (k : ℕ)
        → Mine k
        → goes k ≡ true
        → (8 ≤ get_shared_bucket_index k d % 16) × (get_shared_bucket_index k d % 16 < 8 + 8)
    off_side k mine go =
        (upper-shared k d layout.depth (ground (arith, spec k mine, go)), omega arith)

    copied : ℕ → Segment
    copied to = copy_buckets seg (mig_main_start o) new_segment to 16

    off-copies : (q : ℕ) → q < 8 → seg (mig_shared_start o + q) ≡ seg (o + (8 + q))
    unfolding mig_shared_start
    off-copies q lt = ap seg (omega arith)

    copied-inside : (q : ℕ) → q < 16 → copied o' (o' + q) ≡ seg (mig_main_start o + q)
    unfolding copied copy_buckets
    copied-inside q lt =
        let lo : leb o' (o' + q) ≡ true = ground arith in
        let hi : ltb (o' + q) (o' + 16) ≡ true = ground arith in
        let e : mig_main_start o + (o' + q - o') ≡ mig_main_start o + q = omega arith in
        rw (lo, hi, e) refl

    copied-outside :
        (version b i : ℕ)
        → b < 32
        → is_valid version (copied o' (calc_bucket_position o' b) i) ≡ false
    unfolding copied copy_buckets is_valid
    copied-outside version b i lt =
        let out : (leb o' (calc_bucket_position o' b) && ltb (calc_bucket_position o' b) (o' + 16))
            ≡ false =
          elim (calc-outside o' ok b lt) [ inl l ↦ ground arith | inr r ↦ ground arith ] in
        rw out refl

    -- The upper main buckets are copied to where the shared ones of the next depth begin.
    off-upper :
        (k : ℕ)
        → Mine k
        → goes k ≡ true
        → shared_home (split_off seg o o' d goes) o' (d + 1) k ≡ main_home seg o d k
    unfolding split_off shared_bucket_position copied
    off-upper k mine go =
        let ge : 16 ≤ get_main_bucket_index k d = ground (arith, spec k mine, go) in
        let r : ℕ = get_main_bucket_index k d - 16 in
        let at : get_shared_bucket_index k (d + 1) % 16 ≡ r =
          omega (arith, next_shared-main k d layout.depth, main-lt k d) in
        let lt : r < 16 = omega (arith, main-lt k d) in
        let up : 16 + r ≡ get_main_bucket_index k d = omega arith in
        rw at (
          spread-frame Mine seg o d layout goes 8 (inr refl) off_side o' ok (copied o') seg
            (mig_shared_start o) off-copies (o' + r) (apart_from_shared o' r ok lt)
          ∙ copied-inside r lt
          ∙ ap seg (sym (calc-upper o layout.offset r lt) ∙ ap (calc_bucket_position o) up))

    module _ (s : Slot) (mine : Mine s.sub_key) (go : goes s.sub_key ≡ true) where
      off-new :
          InBucket (shared_home seg o d s.sub_key) (shared_version d) s
          → InBucket
              (main_home (split_off seg o o' d goes) o' (d + 1) s.sub_key)
              (main_version (d + 1))
              s
      unfolding split_off copied
      off-new =
          spread-new Mine seg o d layout goes 8 (inr refl) off_side o' ok (copied o') seg
            (mig_shared_start o) off-copies s mine go

      off-old :
          InBucket
            (main_home (split_off seg o o' d goes) o' (d + 1) s.sub_key)
            (main_version (d + 1))
            s
          → InBucket (shared_home seg o d s.sub_key) (shared_version d) s
      unfolding split_off copied
      off-old =
          spread-old Mine seg o d layout goes 8 (inr refl) off_side o' ok (copied o') seg
            (mig_shared_start o) off-copies s mine go
            (λ i il. copied-outside (main_version (d + 1)) _ i (main-lt s.sub_key (d + 1)))

      -- Where the shared buckets of a segment are in order (`Layout`) and the test `goes` holds of the
      -- subkeys of the upper main buckets, a pair whose subkey passes the test is found in the segment
      -- that is split off, at the next depth and at any of the three offsets, if and only if it was
      -- found in the segment before.
      pub split_off-Holds : Holds seg o d s ↔ Holds (split_off seg o o' d goes) o' (d + 1) s
      split_off-Holds =
          let e = off-upper s.sub_key mine go in
          (
            λ h. elim h [
              | inl shared ↦ inr (off-new shared)
              | inr main ↦ inl (rw (e, next_version d) main)
            ],
            λ h. elim h [
              | inl shared ↦ inr (rw (e, next_version d) at shared)
              | inr main ↦ inl (off-old main)
            ],
          )
