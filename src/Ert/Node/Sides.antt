-- ===== src/Ert/Node/Sides.antt =====
-- A directory in which one segment has been split: what its entries lead to, by the half of the segment's
-- stretch in which they stand.
use wrert.Prelude.{
  ℕ, ◌+◌, ◌-◌, ◌*◌, ◌/◌, ◌%◌, ◌^◌, ◌<◌, ◌≤◌, ◌≡◌, ◌≢◌, refl, sym, ap, ◌∙◌, subst, Bool, true, arith,
}
use wrert.Ert.{zero_counter, bucket_get, get_seg_num, migrate}
use wrert.Ert.Buckets.Copies.{migrate-bucket_get, migrate-All}
use wrert.Ert.Memory.{Segment, Node}
use wrert.Ert.Node.Shape.{Keyed, Keyed-zero, stretch, IsDirectory, bucket_of, num-lt}

-- The segment that is split off, and the one that stays.
abbrev pub upper_segment : (goes : ℕ → Bool) → Segment → Segment
upper_segment goes seg = record {
  depth = seg.depth + 1;
  bucket = λ i. migrate goes (seg.bucket i) 4 0 0 (λ j. zero_counter);
}

abbrev pub lower_segment : Segment → Segment
lower_segment seg = record seg { depth = seg.depth + 1 }

-- `c` is the number of the stretch of `s`, whose two halves have `2 ^ e` entries each.
module _ (dir dir' : ℕ → ℕ) (next s c e : ℕ) where
  pub data Side (j : ℕ) : Type 0 where
    upper : j / 2 ^ e ≡ c * 2 + 1 → dir' j ≡ next → dir j ≡ s → Side j
    lower : j / 2 ^ e ≡ c * 2 → dir' j ≡ s → dir j ≡ s → Side j
    outer : j / 2 ^ e / 2 ≢ c → dir' j ≡ dir j → dir j ≢ s → Side j

module _ (segments segments' : ℕ → Segment) (next s c e : ℕ) (n : Node) (dir' : ℕ → ℕ)
    (goes : ℕ → Bool) (h : IsDirectory segments next n)
    (deep : n.global_depth ≡ (segments s).depth + 1 + e)
    (side : (j : ℕ) → j < 2 ^ n.global_depth → Side n.dir dir' next s c e j)
    (fresh : segments' next ≡ upper_segment goes (segments s))
    (stays : segments' s ≡ lower_segment (segments s))
    (others : (a : ℕ) → next ≢ a → s ≢ a → segments' a ≡ segments a) where
  abbrev n' : Node
  n' = record n { dir = dir' }

  abbrev g : ℕ
  g = n.global_depth

  stretch_half :
      (i j : ℕ)
      → (segments' (dir' i)).depth ≡ (segments s).depth + 1
      → stretch segments' n' i j ≡ j / 2 ^ e
  stretch_half i j at =
      let f : n.global_depth - ((segments s).depth + 1) ≡ e = omega (arith, deep) in rw (at, f) refl

  depth_upper : (i : ℕ) → dir' i ≡ next → (segments' (dir' i)).depth ≡ (segments s).depth + 1
  depth_upper i at = rw (at, fresh) refl

  depth_lower : (i : ℕ) → dir' i ≡ s → (segments' (dir' i)).depth ≡ (segments s).depth + 1
  depth_lower i at = rw (at, stays) refl

  same_segment :
      (i : ℕ) → i < 2 ^ g → dir' i ≡ n.dir i → n.dir i ≢ s → segments' (dir' i) ≡ segments (n.dir i)
  same_segment i lt at ne =
      let below = h.old i lt in ap segments' at ∙ others (n.dir i) (omega arith) (λ q. ne (sym q))

  same' :
      (i j : ℕ) (l : i < 2 ^ g) (l' : j < 2 ^ g)
      → Side n.dir dir' next s c e i
      → Side n.dir dir' next s c e j
      → stretch segments' n' i j ≡ stretch segments' n' i i
      → dir' j ≡ dir' i
  same' i j l l' (upper yi ai bi) (upper yj aj bj) q = aj ∙ sym ai
  same' i j l l' (upper yi ai bi) (lower yj aj bj) q =
      let r = sym (stretch_half i j (depth_upper i ai)) ∙ q ∙ stretch_half i i (depth_upper i ai) in
      absurd (omega (arith, r, yi, yj))
  same' i j l l' (upper yi ai bi) (outer yj aj bj) q =
      let r = sym (stretch_half i j (depth_upper i ai)) ∙ q ∙ stretch_half i i (depth_upper i ai) in
      absurd (omega (arith, r, yi, yj))
  same' i j l l' (lower yi ai bi) (upper yj aj bj) q =
      let r = sym (stretch_half i j (depth_lower i ai)) ∙ q ∙ stretch_half i i (depth_lower i ai) in
      absurd (omega (arith, r, yi, yj))
  same' i j l l' (lower yi ai bi) (lower yj aj bj) q = aj ∙ sym ai
  same' i j l l' (lower yi ai bi) (outer yj aj bj) q =
      let r = sym (stretch_half i j (depth_lower i ai)) ∙ q ∙ stretch_half i i (depth_lower i ai) in
      absurd (omega (arith, r, yi, yj))
  same' i j l l' (outer yi ai bi) (upper yj aj bj) q =
      absurd (bi (sym (h.same i j l l' (rw (same_segment i l ai bi) at q)) ∙ bj))
  same' i j l l' (outer yi ai bi) (lower yj aj bj) q =
      absurd (bi (sym (h.same i j l l' (rw (same_segment i l ai bi) at q)) ∙ bj))
  same' i j l l' (outer yi ai bi) (outer yj aj bj) q =
      aj ∙ h.same i j l l' (rw (same_segment i l ai bi) at q) ∙ sym ai

  apart' :
      (i j : ℕ) (l : i < 2 ^ g) (l' : j < 2 ^ g)
      → Side n.dir dir' next s c e i
      → Side n.dir dir' next s c e j
      → stretch segments' n' i j ≢ stretch segments' n' i i
      → dir' j ≢ dir' i
  apart' i j l l' (upper yi ai bi) (upper yj aj bj) q r = q (
      stretch_half i j (depth_upper i ai) ∙ yj ∙ sym yi ∙ sym (stretch_half i i (depth_upper i ai)))
  apart' i j l l' (upper yi ai bi) (lower yj aj bj) q r =
      let below = h.old j l' in omega (arith, sym aj ∙ r ∙ ai, bj)
  apart' i j l l' (upper yi ai bi) (outer yj aj bj) q r =
      let below = h.old j l' in omega (arith, sym aj ∙ r ∙ ai)
  apart' i j l l' (lower yi ai bi) (upper yj aj bj) q r =
      let below = h.old i l in omega (arith, sym aj ∙ r ∙ ai, bi)
  apart' i j l l' (lower yi ai bi) (lower yj aj bj) q r = q (
      stretch_half i j (depth_lower i ai) ∙ yj ∙ sym yi ∙ sym (stretch_half i i (depth_lower i ai)))
  apart' i j l l' (lower yi ai bi) (outer yj aj bj) q r = bj (sym aj ∙ r ∙ ai)
  apart' i j l l' (outer yi ai bi) (upper yj aj bj) q r =
      let below = h.old i l in omega (arith, sym aj ∙ r ∙ ai)
  apart' i j l l' (outer yi ai bi) (lower yj aj bj) q r = bi (sym ai ∙ sym r ∙ aj)
  apart' i j l l' (outer yi ai bi) (outer yj aj bj) q r =
      h.apart i j l l' (λ x. q (rw (same_segment i l ai bi) x)) (sym aj ∙ r ∙ ai)

  depth' : (i : ℕ) → i < 2 ^ g → Side n.dir dir' next s c e i → (segments' (dir' i)).depth ≤ g
  depth' i l (upper y a b) = let at = depth_upper i a in omega (arith, deep)
  depth' i l (lower y a b) = let at = depth_lower i a in omega (arith, deep)
  depth' i l (outer y a b) = rw (same_segment i l a b) (h.depth i l)

  old' : (i : ℕ) → i < 2 ^ g → Side n.dir dir' next s c e i → dir' i < next + 1
  old' i l (upper y a b) = omega arith
  old' i l (lower y a b) = let below = h.old i l in omega arith
  old' i l (outer y a b) = let below = h.old i l in omega arith

  keyed' :
      (i : ℕ)
      → i < 2 ^ g
      → Side n.dir dir' next s c e i
      → (index : ℕ) → index < 256
      → (place : ℕ) → place < 4
      → Keyed index ((segments' (dir' i)).bucket index place)
  keyed' i l (upper y a b) index lt place lt' =
      rw (a, fresh)
        (migrate-All (Keyed index) goes ((segments s).bucket index)
          (λ x x4.
            subst (λ z. Keyed index ((segments z).bucket index x)) b (h.keyed i l index lt x x4))
          (Keyed-zero index) place)
  keyed' i l (lower y a b) index lt place lt' =
      rw (a, stays)
        (subst (λ z. Keyed index ((segments z).bucket index place)) b
          (h.keyed i l index lt place lt'))
  keyed' i l (outer y a b) index lt place lt' =
      rw (same_segment i l a b) (h.keyed i l index lt place lt')

  pub sides-IsDirectory : IsDirectory segments' (next + 1) n'
  sides-IsDirectory = record {
    global = h.global;
    depth = λ i l. depth' i l (side i l);
    same = λ i j l l'. same' i j l l' (side i l) (side j l');
    apart = λ i j l l'. apart' i j l l' (side i l) (side j l');
    old = λ i l. old' i l (side i l);
    keyed = λ i l. keyed' i l (side i l);
  }

  -- A lookup goes to a bucket that has the same pairs under its key.
  module _
      (upper_goes : (key : ℕ) → get_seg_num key 32 g / 2 ^ e ≡ c * 2 + 1 → goes key ≡ true) where
    get-Side :
        (key : ℕ)
        → 0 < key
        → get_seg_num key 32 g < 2 ^ g
        → Side n.dir dir' next s c e (get_seg_num key 32 g)
        → bucket_get (bucket_of segments' n' key) key ≡ bucket_get (bucket_of segments n key) key
    get-Side key pos l (upper y a b) =
        ap (λ x. bucket_get ((segments' x).bucket (key % 256)) key) a
        ∙ ap (λ x. bucket_get (x.bucket (key % 256)) key) fresh
        ∙ migrate-bucket_get goes ((segments s).bucket (key % 256)) key pos (upper_goes key y)
        ∙ ap (λ x. bucket_get ((segments x).bucket (key % 256)) key) (sym b)
    get-Side key pos l (lower y a b) =
        ap (λ x. bucket_get ((segments' x).bucket (key % 256)) key) a
        ∙ ap (λ x. bucket_get (x.bucket (key % 256)) key) stays
        ∙ ap (λ x. bucket_get ((segments x).bucket (key % 256)) key) (sym b)
    get-Side key pos l (outer y a b) =
        ap (λ x. bucket_get (x.bucket (key % 256)) key) (same_segment (get_seg_num key 32 g) l a b)

    pub sides-get :
        (key : ℕ)
        → 0 < key
        → key < 2 ^ 32
        → bucket_get (bucket_of segments' n' key) key ≡ bucket_get (bucket_of segments n key) key
    sides-get key pos small =
        let l = num-lt key g h.global small in get-Side key pos l (side (get_seg_num key 32 g) l)
