-- ===== src/Ert/Node/Doubles.antt =====
-- A node whose directory has been doubled.
use wrert.Prelude.{
  ℕ, suc, ◌+◌, ◌-◌, ◌*◌, ◌/◌, ◌%◌, ◌^◌, ◌<◌, ◌≤◌, ◌≡◌, refl, sym, ap, ◌∙◌, subst, ok, none, update,
  update_self, arith, true, ltb,
}
use native.Mathlib.Nat.{div-div-eq-div-mul, pow-suc}
use wrert.Ert.{bucket_get, get_seg_num}
use wrert.Ert.Memory.{Memory, Segment, Node, root_ref, alloc_node, store_before}
use wrert.Ert.Node.{double, init_header}
use wrert.Ert.Node.Shape.{
  seg_at, stretch, IsDirectory, WellFormed, Same, num-next, bucket_of, get-bucket_of,
}

half-lt : (i g : ℕ) → i < 2 ^ (g + 1) → i / 2 < 2 ^ g
half-lt i g lt =
    let e : g + 1 ≡ suc g = omega arith in
    let lt' : i < 2 ^ g * 2 = rw (← pow-suc 2 g) (rw e at lt) in omega (arith, lt')

half_stretch : (i g d : ℕ) → d ≤ g → i / 2 ^ (g + 1 - d) ≡ i / 2 / 2 ^ (g - d)
half_stretch i g d le =
    let e : g + 1 - d ≡ suc (g - d) = omega arith in
    let f : 2 ^ (g - d) * 2 ≡ 2 * 2 ^ (g - d) = omega arith in
    rw (e, pow-suc 2 (g - d), f) (sym (div-div-eq-div-mul i 2 (2 ^ (g - d))))

module _ (segments : ℕ → Segment) (next : ℕ) (n : Node) (h : IsDirectory segments next n)
    (lt : n.global_depth < 24) where
  abbrev wide : Node
  wide = record {
    header = init_header n.header n.header.len n.header.depth;
    global_depth = n.global_depth + 1;
    dir_size = n.dir_size * 2;
    tree_node_values = none;
    dir = λ i. n.dir (i / 2);
  }

  wide-stretch :
      (i j : ℕ)
      → i < 2 ^ (n.global_depth + 1)
      → stretch segments wide i j ≡ stretch segments n (i / 2) (j / 2)
  wide-stretch i j lt' =
      half_stretch j n.global_depth (seg_at segments n (i / 2)).depth
        (h.depth (i / 2) (half-lt i n.global_depth lt'))

  wide-IsDirectory : IsDirectory segments next wide
  wide-IsDirectory =
      let half = λ (i : ℕ) (l : i < 2 ^ (n.global_depth + 1)). half-lt i n.global_depth l in
      record {
        global = omega arith;
        depth = λ i l. omega (arith, h.depth (i / 2) (half i l));
        same = λ i j l l' q.
            h.same (i / 2) (j / 2) (half i l) (half j l')
              (sym (wide-stretch i j l) ∙ q ∙ wide-stretch i i l);
        apart = λ i j l l' q.
            h.apart (i / 2) (j / 2) (half i l) (half j l')
              (λ r. q (wide-stretch i j l ∙ r ∙ sym (wide-stretch i i l)));
        old = λ i l. h.old (i / 2) (half i l);
        keyed = λ i l. h.keyed (i / 2) (half i l);
      }

  wide-bucket : (key : ℕ) → key < 2 ^ 32 → bucket_of segments wide key ≡ bucket_of segments n key
  wide-bucket key small =
      ap (λ i. (seg_at segments n i).bucket (key % 256)) (num-next key n.global_depth lt small)

-- The root of a tree, with a directory of twice the size, is another node that is well formed, in which
-- every key is found as before.
module _ (m : Memory) (p : ℕ) (h : WellFormed m p) (lt : (m.nodes p).global_depth < 24)
    (top : (m.nodes p).header.depth ≡ 0) where
  abbrev wide_node : Node
  wide_node = wide m.segments m.next_segment (m.nodes p) h lt

  unfoldable pub doubled : Memory
  doubled = record m {
    nodes = update m.nodes m.next_node wide_node;
    next_node = m.next_node + 1;
    root = m.next_node;
  }

  pub double-doubled : double m p root_ref ≡ ok (doubled, m.next_node)
  unfolding double doubled alloc_node init_header store_before
  double-doubled = rw (top) refl

  pub doubled-node : doubled.nodes m.next_node ≡ wide_node
  unfolding doubled
  doubled-node = update_self m.nodes m.next_node wide_node

  pub doubled-segments : doubled.segments ≡ m.segments
  unfolding doubled
  doubled-segments = refl

  pub doubled-WellFormed : WellFormed doubled m.next_node
  unfolding doubled
  doubled-WellFormed =
      subst (λ n. IsDirectory m.segments m.next_segment n)
        (sym (update_self m.nodes m.next_node wide_node))
        (wide-IsDirectory m.segments m.next_segment (m.nodes p) h lt)

  pub doubled-Same : Same m p doubled m.next_node
  unfolding Same doubled
  doubled-Same key pos small =
      get-bucket_of doubled m.next_node key
      ∙ ap (λ n. bucket_get (bucket_of m.segments n key) key)
          (update_self m.nodes m.next_node wide_node)
      ∙ ap (λ b. bucket_get b key)
          (wide-bucket m.segments m.next_segment (m.nodes p) h lt key small)
      ∙ sym (get-bucket_of m p key)

  pub doubled-root : doubled.root ≡ m.next_node
  unfolding doubled
  doubled-root = refl

  pub doubled-global : (doubled.nodes m.next_node).global_depth ≡ (m.nodes p).global_depth + 1
  doubled-global = ap (λ x. x.global_depth) doubled-node

  pub doubled-top : (doubled.nodes m.next_node).header.depth ≡ 0
  unfolding init_header
  doubled-top = ap (λ x. x.header.depth) doubled-node ∙ top

  pub doubled-len : (doubled.nodes m.next_node).header.len ≡ (m.nodes p).header.len
  unfolding init_header
  doubled-len = ap (λ x. x.header.len) doubled-node

  pub doubled-array :
      (i : ℕ)
      → i < (m.nodes p).header.len
      → (doubled.nodes m.next_node).header.array i ≡ (m.nodes p).header.array i
  unfolding init_header
  doubled-array i l =
      let e : ltb i (m.nodes p).header.len ≡ true = ground arith in
      ap (λ x. x.header.array i) doubled-node ∙ rw (e) refl

  pub doubled-depth :
      (key : ℕ)
      → key < 2 ^ 32
      → (seg_at doubled.segments
          (doubled.nodes m.next_node)
          (get_seg_num key 32 (doubled.nodes m.next_node).global_depth)).depth
        ≡ (seg_at m.segments (m.nodes p) (get_seg_num key 32 (m.nodes p).global_depth)).depth
  unfolding doubled
  doubled-depth key small =
      ap (λ x. (seg_at m.segments x (get_seg_num key 32 x.global_depth)).depth) doubled-node
      ∙ ap (λ i. (seg_at m.segments (m.nodes p) i).depth)
          (num-next key (m.nodes p).global_depth lt small)

  pub doubled-next : doubled.next_node ≡ m.next_node + 1
  unfolding doubled
  doubled-next = refl
