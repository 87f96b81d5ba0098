-- ===== src/Wrert/Segment/Spread.antt =====
-- The pairs of eight shared buckets, before and after they are spread over the main buckets.
use wrert.Prelude.{
  ℕ, ◌+◌, ◌-◌, ◌%◌, ◌≤◌, ◌<◌, ◌≡◌, ◌≢◌, inl, inr, ◌⊎◌, refl, sym, ap, subst, ◌∙◌, Bool, true, false,
  ltb, arith, Bool-cases,
}
use wrert.Wrert.Bucket.{Bucket}
use wrert.Wrert.Segment.{Segment, Migration, migrate_buckets}
use wrert.Wrert.Segment.Loops.{At, There, Ready, Goes, Copied, migrate_buckets-Goes}
use wrert.Wrert.Segment.Migrate.{moved, home_of, home_of-lt}
use wrert.Wrert.Slot.{Slot, is_valid, shared_version, main_version}
use wrert.Wrert.Words.{
  calc_bucket_position, shared_bucket_position, get_main_bucket_index, get_shared_bucket_index,
}
use wrert.Wrert.Words.Depths.{main-below}
use wrert.Wrert.Words.Layout.{IsOffset}

-- A valid slot of a version, with the subkey, value and flags of `s`.
abbrev pub as_version : (version : ℕ) → Slot → Slot
as_version version s = record s { mig_version = version; valid_flag = 1 }

abbrev pub InBucket : Bucket → (version : ℕ) → Slot → Type 0
InBucket b version s = (i : ℕ) × (i < 16) × (b i ≡ as_version version s)

-- The two buckets of a subkey.
abbrev pub shared_home : Segment → (offset local_depth subkey : ℕ) → Bucket
shared_home seg o d k = seg (shared_bucket_position o (get_shared_bucket_index k d))

abbrev pub main_home : Segment → (offset local_depth subkey : ℕ) → Bucket
main_home seg o d k = seg (calc_bucket_position o (get_main_bucket_index k d))

-- The pair of `s` stands where a lookup at this offset and depth looks.
abbrev pub Holds : Segment → (offset local_depth : ℕ) → Slot → Type 0
Holds seg o d s =
    InBucket (shared_home seg o d s.sub_key) (shared_version d) s
    ⊎ InBucket (main_home seg o d s.sub_key) (main_version d) s

pub as_version-is_valid : (version : ℕ) (s : Slot) → is_valid version (as_version version s) ≡ true
unfolding is_valid
as_version-is_valid version s = ground arith

is_valid-fields :
    (version : ℕ) (s : Slot)
    → is_valid version s ≡ true
    → (s.valid_flag ≡ 1) × (s.mig_version ≡ version)
unfolding is_valid
is_valid-fields version s e = ground arith

-- A slot that was moved is the one it was moved from.
moved-back :
    (sv v : ℕ) (t s : Slot)
    → is_valid sv t ≡ true
    → moved v t ≡ as_version (main_version v) s
    → t ≡ as_version sv s
moved-back sv v t s valid e =
    let version : t.mig_version ≡ sv = (is_valid-fields sv t valid).1 in
    let same : t ≡ record t { mig_version = sv } =
      ap {A = ℕ} {B = Slot} (λ x. record t { mig_version = x }) version in
    same ∙ ap {A = Slot} {B = Slot} (λ x. record x { mig_version = sv }) e

-- The shared buckets of a segment that a split meets.
pub record Layout (Mine : ℕ → Type 0) (seg : Segment) (o d : ℕ) : Type 0 where
  pub offset : IsOffset o
  pub depth : d ≤ 26
  -- In a shared bucket the valid slots come first.
  pub first :
      (q i j : ℕ)
      → q < 16
      → i ≤ j
      → j < 16
      → is_valid (shared_version d) (seg (o + q) j) ≡ true
      → is_valid (shared_version d) (seg (o + q) i) ≡ true
  -- They belong to the segment and to the bucket.
  pub home :
      (q i : ℕ)
      → q < 16
      → i < 16
      → is_valid (shared_version d) (seg (o + q) i) ≡ true
      → Mine (seg (o + q) i).sub_key × (get_shared_bucket_index (seg (o + q) i).sub_key d % 16 ≡ q)
  -- No slot has the version of a later depth.
  pub past : (p i : ℕ) → p < 48 → i < 16 → is_valid (main_version (d + 1)) (seg p i) ≡ false

module _ (Mine : ℕ → Type 0) (seg : Segment) (o d : ℕ) (layout : Layout Mine seg o d)
    (goes : ℕ → Bool) (half : ℕ) (whole : (half ≡ 0) ⊎ (half ≡ 8))
    (side : (k : ℕ)
      → Mine k
      → goes k ≡ true
      → (half ≤ get_shared_bucket_index k d % 16) × (get_shared_bucket_index k d % 16 < half + 8))
    (o' : ℕ) (ok : IsOffset o') (base : Segment) (src : Segment) (start : ℕ)
    (copies : (q : ℕ) → q < 8 → src (start + q) ≡ seg (o + (half + q))) where
  -- A valid slot of the shared buckets.
  Source : Slot → Type 0
  Source t =
      (is_valid (shared_version d) t ≡ true)
      × ((i : ℕ) × (i < 16) × (shared_home seg o d t.sub_key i ≡ t))

  ready :
      (q : ℕ) → q < 8 → Ready o' (d + 1) ok base Source (shared_version d) goes q (src (start + q))
  unfolding Source shared_bucket_position
  ready q lt = rw (copies q lt) (record {
    first = λ i j le jl valid. layout.first (half + q) i j (omega arith) le jl valid;
    below = λ i il valid go.
        let (mine, at) = layout.home (half + q) i (omega arith) il valid in
        (
          (valid, (i, il, rw at refl)),
          main-below (seg (o + (half + q)) i).sub_key d half q layout.depth whole lt at,
        );
  })

  abbrev start_state : Migration
  start_state = record { target = base; counter = λ i. 0 }

  starts : At o' (d + 1) ok base Source 0 0 start_state
  starts = record {
    writes = record {
      sound = λ b i bl il. absurd (omega arith);
      rest = λ b i bl il. refl;
      frame = λ p out. refl;
    };
    most = λ b bl. omega arith;
    here = λ b bl e. omega arith;
    later = λ b bl e. refl;
  }

  abbrev pub spread : Migration
  spread = migrate_buckets o' (d + 1) (shared_version d) goes src 8 start start_state

  spread-Goes :
      Goes o' (d + 1) ok base Source 8 0 start_state spread
      × ((q : ℕ)
          → q < 8
          → Copied o' (d + 1) ok base Source (shared_version d) goes (src (start + q)) 0 spread)
  spread-Goes =
      let (g, c) =
        migrate_buckets-Goes o' (d + 1) ok base Source (shared_version d) goes src start 8 0
          start_state (λ q lt. ready q lt) starts in
      let e : start + 0 ≡ start = omega arith in (rw e at g, λ q lt. rw e at (c q (omega arith) lt))

  module _ (s : Slot) (mine : Mine s.sub_key) (go : goes s.sub_key ≡ true) where
    -- The pairs of the shared bucket are in the main bucket of the next depth,
    pub spread-new :
        InBucket (shared_home seg o d s.sub_key) (shared_version d) s
        → InBucket (main_home spread.target o' (d + 1) s.sub_key) (main_version (d + 1)) s
    unfolding Copied shared_bucket_position
    spread-new (i, il, e) =
        let (lo, hi) = side s.sub_key mine go in
        let k : ℕ = get_shared_bucket_index s.sub_key d % 16 in
        let q : ℕ = k - half in
        let at : src (start + q) ≡ seg (o + k) = copies q (omega arith) ∙ ap seg (omega arith) in
        let here : src (start + q) i ≡ as_version (shared_version d) s = ap (λ b. b i) at ∙ e in
        let valid : is_valid (shared_version d) (src (start + q) i) ≡ true =
          rw here (as_version-is_valid (shared_version d) s) in
        let go' : goes (src (start + q) i).sub_key ≡ true = rw here go in
        let (j, jl, below, there) =
          subst (There o' (d + 1) ok base Source spread) here
            (spread-Goes.1 q (omega arith) i (omega arith) il valid go') in
        (j, jl, there)

    -- and nothing else is new there.
    pub spread-old :
        ((i : ℕ)
          → i < 16
          → is_valid (main_version (d + 1)) (base (calc_bucket_position o' (home_of (d + 1) s)) i)
            ≡ false)
        → InBucket (main_home spread.target o' (d + 1) s.sub_key) (main_version (d + 1)) s
        → InBucket (shared_home seg o d s.sub_key) (shared_version d) s
    unfolding Source
    spread-old clean (i, il, e) =
        let w = spread-Goes.0.at.writes in
        elim (Bool-cases (ltb i (spread.counter (home_of (d + 1) s)))) [
          | inl new ↦
              let (t, (valid, (j, jl, at)), home, is) =
                w.sound (home_of (d + 1) s) i (home_of-lt (d + 1) s) (ground arith) in
              let t_s : t ≡ as_version (shared_version d) s =
                moved-back (shared_version d) (d + 1) t s valid (sym is ∙ e) in
              (j, jl, subst (λ x. shared_home seg o d x.sub_key j ≡ x) t_s at)
          | inr old ↦
              let is = w.rest (home_of (d + 1) s) i (home_of-lt (d + 1) s) (ground arith) in
              let bad = clean i il in
              let at = sym is ∙ e in
              let good = as_version-is_valid (main_version (d + 1)) s in
              absurd (ground (arith, bad, rw (← at) at good))
        ]

  pub spread-frame :
      (p : ℕ) → ((b : ℕ) → b < 32 → calc_bucket_position o' b ≢ p) → spread.target p ≡ base p
  spread-frame = spread-Goes.0.at.writes.frame
