-- ===== src/Ert/Node/Insertions.antt =====
-- The insertion of a pair into the root of a tree: it ends, and the pair is found afterwards.
use wrert.Prelude.{
  ℕ, zero, suc, ◌+◌, ◌-◌, ◌*◌, ◌%◌, ◌^◌, ◌<◌, ◌≤◌, ◌≡◌, ◌≢◌, inl, inr, refl, sym, ap, ◌∙◌, Bool,
  true, false, Option, none, some, ltb, Option-cases, Bool-cases, Run, ok, ◌>>=◌, arith,
}
use wrert.Ert.{Counter, get_seg_num, get_bucket_num, find_place, put_counter}
use wrert.Ert.Buckets.{kept, key_of, find_place-none}
use wrert.Ert.Memory.{Memory, root_ref, write_counter}
use wrert.Ert.Node.{get, put, put_at, put_in, split, double}
use wrert.Ert.Node.Doubles.{
  doubled, double-doubled, doubled-WellFormed, doubled-Same, doubled-root, doubled-global,
  doubled-top, doubled-depth, doubled-len, doubled-array, doubled-next,
}
use wrert.Ert.Node.Shape.{Keyed, WellFormed, Same, num-lt}
use wrert.Ert.Node.Splits.{
  splitted, split-splitted, splitted-WellFormed, splitted-Same, splitted-global, splitted-header,
  splitted-root, splitted-next, splitted-depth,
}
use wrert.Ert.Node.Writes.{
  put-after, put-after_lem, put-after_nodes, put-after_root, put-after_next, put-WellFormed,
  get-put, get-put_other,
}

-- What an insertion into the root of a tree leaves.
pub record Puts (m : Memory) (p key value : ℕ) (kv_flag : Bool) (m' : Memory) (p' : ℕ)
    : Type 0 where
  pub well : WellFormed m' p'
  pub top : (m'.nodes p').header.depth ≡ 0
  pub len : (m'.nodes p').header.len ≡ (m.nodes p).header.len
  pub array :
      (i : ℕ)
      → i < (m.nodes p).header.len
      → (m'.nodes p').header.array i ≡ (m.nodes p).header.array i
  pub root : m'.root ≡ p'
  pub positive : 0 < p → 0 < m.next_node → (0 < p') × (0 < m'.next_node)
  pub new : get m' p' key ≡ some (value, kept (get m p key) kv_flag)
  pub others : (k : ℕ) → 0 < k → k < 2 ^ 32 → k ≢ key → get m' p' k ≡ get m p k

-- The depth of the segment to which a key leads.
abbrev pub depth_of : Memory → (node key : ℕ) → ℕ
depth_of m p key =
    (m.segments ((m.nodes p).dir (get_seg_num key 32 (m.nodes p).global_depth))).depth

deepest :
    (a b : ℕ)
    → a < 2 ^ 32
    → b < 2 ^ 32
    → a % 256 ≡ b % 256
    → get_seg_num a 32 24 ≡ get_seg_num b 32 24
    → a ≡ b
unfolding get_seg_num
deepest a b la lb low seg = omega arith

-- A segment whose bucket is full is not of the greatest depth, at which a bucket has one key.
full-depth :
    (key depth : ℕ) (c : Counter)
    → key < 2 ^ 32
    → depth ≤ 24
    → Keyed (key % 256) c
    → (((key_of c ≡ 0) × (c.value ≡ 0)) → ⊥)
    → key ≢ key_of c
    → get_seg_num key 32 depth ≡ get_seg_num (key_of c) 32 depth
    → depth < 24
unfolding Keyed
full-depth key depth c small le (inl empty) taken ne seg = absurd (taken empty)
full-depth key depth c small le (inr (small', low, lt)) taken ne seg =
    elim (Bool-cases (ltb depth 24)) [
      | inl e ↦ ground (arith, e)
      | inr e ↦
          let at : depth ≡ 24 = ground (arith, e) in
          let seg' : get_seg_num key 32 24 ≡ get_seg_num (key_of c) 32 24 = rw at at seg in
          absurd (ne (deepest key (key_of c) small small' (sym low) seg'))
    ]

-- The three ways of a round of `put`.
module _ (fuel : ℕ) (m : Memory) (p key value : ℕ) (kv_flag : Bool) where
  abbrev entry : ℕ
  entry = get_seg_num key 32 (m.nodes p).global_depth

  abbrev home : ℕ
  home = (m.nodes p).dir entry

  abbrev place_of : Option ℕ
  place_of = find_place ((m.segments home).bucket (key % 256)) key 32 (m.segments home).depth

  -- A round, for each place.
  abbrev round : Option ℕ → Run (Memory × ℕ)
  round o = put_in (put fuel) m p key value home entry (key % 256) kv_flag root_ref o

  put-round : put (suc fuel) m p key value kv_flag root_ref ≡ round place_of
  unfolding put put_at get_bucket_num
  put-round = refl

  pub put-found :
      (place : ℕ)
      → place_of ≡ some place
      → put (suc fuel) m p key value kv_flag root_ref
        ≡ ok (
          write_counter m
              (record { segment = home; index = key % 256; place = place })
              (put_counter key value kv_flag ((m.segments home).bucket (key % 256) place)),
          p,
        )
  unfolding put_in
  put-found place found = put-round ∙ ap round found

  put-split :
      place_of ≡ none
      → ltb (m.segments home).depth (m.nodes p).global_depth ≡ true
      → put (suc fuel) m p key value kv_flag root_ref
        ≡ put fuel (split m p home entry) p key value kv_flag root_ref
  unfolding put_in
  put-split full shallow = put-round ∙ ap round full ∙ rw shallow refl

  put-double :
      (m' : Memory) (p' : ℕ)
      → place_of ≡ none
      → ltb (m.segments home).depth (m.nodes p).global_depth ≡ false
      → double m p root_ref ≡ ok (m', p')
      → put (suc fuel) m p key value kv_flag root_ref ≡ put fuel m' p' key value kv_flag root_ref
  unfolding put_in
  put-double m' p' full equal doubles =
      put-round
      ∙ ap round full
      ∙ rw equal (ap (λ r. r >>= λ (x, y). put fuel x y key value kv_flag root_ref) doubles)

-- The rounds that an insertion may still take: two for each depth that the segment has left.
rounds : Memory → (node key : ℕ) → ℕ
rounds m p key =
    2 * (24 - depth_of m p key) + (1 - ((m.nodes p).global_depth - depth_of m p key)) + 1

module _ (key value : ℕ) (kv_flag : Bool) (positive : 0 < key) (small : key < 2 ^ 32) where
  abbrev Ends : (fuel : ℕ) → Memory → (node : ℕ) → Type 0
  Ends fuel m p =
      (m' : Memory) × (p' : ℕ) × (put fuel m p key value kv_flag root_ref ≡ ok (m', p'))
      × Puts m p key value kv_flag m' p'

  -- What is left by an insertion into a node in which every key is found as before.
  Puts-Same :
      (m : Memory) (p : ℕ) (m1 : Memory) (p1 : ℕ) (m2 : Memory) (p2 : ℕ)
      → Same m p m1 p1
      → (m1.nodes p1).header.len ≡ (m.nodes p).header.len
      → ((i : ℕ)
          → i < (m.nodes p).header.len
          → (m1.nodes p1).header.array i ≡ (m.nodes p).header.array i)
      → (0 < p → 0 < m.next_node → (0 < p1) × (0 < m1.next_node))
      → Puts m1 p1 key value kv_flag m2 p2
      → Puts m p key value kv_flag m2 p2
  unfolding Same
  Puts-Same m p m1 p1 m2 p2 same len array positive' puts = record {
    well = puts.well;
    top = puts.top;
    len = puts.len ∙ len;
    array = λ i lt. puts.array i (rw len lt) ∙ array i lt;
    root = puts.root;
    positive = λ a b. let (c, d) = positive' a b in puts.positive c d;
    new = puts.new ∙ ap (λ o. some (value, kept o kv_flag)) (same key positive small);
    others = λ k pos lt ne. puts.others k pos lt ne ∙ same k pos lt;
  }

  put-Ends :
      (fuel : ℕ) (m : Memory) (p : ℕ)
      → WellFormed m p
      → (m.nodes p).header.depth ≡ 0
      → m.root ≡ p
      → rounds m p key ≤ fuel
      → Ends fuel m p
  unfolding rounds
  put-Ends zero m p h top root le = absurd (omega arith)
  put-Ends (suc fuel) m p h top root le =
      let g = (m.nodes p).global_depth in
      let here : ℕ = get_seg_num key 32 g in
      let here-lt : here < 2 ^ g = num-lt key g h.global small in
      let s : ℕ = (m.nodes p).dir here in
      let d : ℕ = (m.segments s).depth in
      elim (Option-cases (find_place ((m.segments s).bucket (key % 256)) key 32 d)) [
        | inr (place, found) ↦ (
          put-after m p key value place kv_flag h positive small,
          p,
          put-found fuel m p key value kv_flag place found
              ∙ ap (λ x. ok (x, p)) (put-after_lem m p key value place kv_flag h positive small),
          record {
            well = put-WellFormed m p key value place kv_flag h positive small;
            top =
                ap (λ x. (x p).header.depth)
                  (put-after_nodes m p key value place kv_flag h positive small)
                ∙ top;
            len =
                ap (λ x. (x p).header.len)
                  (put-after_nodes m p key value place kv_flag h positive small);
            array = λ i l.
                ap (λ x. (x p).header.array i)
                  (put-after_nodes m p key value place kv_flag h positive small);
            root = put-after_root m p key value place kv_flag h positive small ∙ root;
            positive =
                λ a b. (a, rw (put-after_next m p key value place kv_flag h positive small) b);
            new = get-put m p key value place kv_flag h positive small found;
            others = get-put_other m p key value place kv_flag h positive small found;
          },
        )
        | inl full ↦
            let (ne, taken, seg) = find_place-none ((m.segments s).bucket (key % 256)) key d full in
            let deep : d < 24 =
              full-depth key d ((m.segments s).bucket (key % 256) 0) small
                (omega (arith, h.depth here here-lt, h.global))
                (h.keyed here here-lt (key % 256) (omega arith) 0 (omega arith)) taken ne seg in
            elim (Bool-cases (ltb d g)) [
              | inl shallow ↦
                  let d-lt : d < g = ground (arith, shallow) in
                  let m1 = splitted m p here h here-lt d-lt in
                  let depth1 = splitted-depth m p here h here-lt d-lt in
                  let global1 = splitted-global m p here h here-lt d-lt in
                  let same = splitted-Same m p here h here-lt d-lt in
                  let depth1' : depth_of m1 p key ≡ d + 1 =
                    ap (λ x. (m1.segments ((m1.nodes p).dir (get_seg_num key 32 x))).depth) global1
                    ∙ depth1 in
                  let (m2, p2, runs, puts) =
                    put-Ends fuel m1 p (splitted-WellFormed m p here h here-lt d-lt)
                      (ap (λ x. x.depth) (splitted-header m p here h here-lt d-lt) ∙ top)
                      (splitted-root m p here h here-lt d-lt ∙ root)
                      (omega (arith, depth1', global1)) in
                  (
                    m2,
                    p2,
                    put-split fuel m p key value kv_flag full shallow
                        ∙ ap (λ x. put fuel x p key value kv_flag root_ref)
                            (split-splitted m p here h here-lt d-lt)
                        ∙ runs,
                    Puts-Same m p m1 p m2 p2 same
                        (ap (λ x. x.len) (splitted-header m p here h here-lt d-lt))
                        (λ i l. ap (λ x. x.array i) (splitted-header m p here h here-lt d-lt))
                        (λ a b. (a, rw (splitted-next m p here h here-lt d-lt) b)) puts,
                  )
              | inr equal ↦
                  let equal' : d ≡ g = ground (arith, equal, h.depth here here-lt) in
                  let g-lt : g < 24 = omega arith in
                  let m1 = doubled m p h g-lt top in
                  let p1 = m.next_node in
                  let depth1 : depth_of m1 p1 key ≡ d = doubled-depth m p h g-lt top key small in
                  let global1 = doubled-global m p h g-lt top in
                  let same = doubled-Same m p h g-lt top in
                  let (m2, p2, runs, puts) =
                    put-Ends fuel m1 p1 (doubled-WellFormed m p h g-lt top)
                      (doubled-top m p h g-lt top) (doubled-root m p h g-lt top)
                      (omega (arith, depth1, global1)) in
                  (
                    m2,
                    p2,
                    put-double fuel m p key value kv_flag m1 p1 full equal
                          (double-doubled m p h g-lt top)
                        ∙ runs,
                    Puts-Same m p m1 p1 m2 p2 same (doubled-len m p h g-lt top)
                        (doubled-array m p h g-lt top)
                        (λ a b. (b, rw (doubled-next m p h g-lt top) (omega arith))) puts,
                  )
            ]
      ]

-- Fifty rounds are enough for the insertion of a pair whose subkey is not 0 into the root of a tree, a
-- well-formed node: it ends, it leaves a well-formed root that may be another node, the pair is found
-- there with its value, and every other subkey of 32 bits but 0 as before.
pub put-Puts :
    (m : Memory) (p key value : ℕ) (kv_flag : Bool) (fuel : ℕ)
    → WellFormed m p
    → (m.nodes p).header.depth ≡ 0
    → m.root ≡ p
    → 0 < key
    → key < 2 ^ 32
    → 50 ≤ fuel
    → (m' : Memory) × (p' : ℕ) × (put fuel m p key value kv_flag root_ref ≡ ok (m', p'))
      × Puts m p key value kv_flag m' p'
unfolding rounds
put-Puts m p key value kv_flag fuel h top root positive small le =
    put-Ends key value kv_flag positive small fuel m p h top root (omega arith)
