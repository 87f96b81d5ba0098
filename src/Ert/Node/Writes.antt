-- ===== src/Ert/Node/Writes.antt =====
-- A node after the write of a pair at the place that `findPlace` answered.
use wrert.Prelude.{
  ℕ, ◌%◌, ◌^◌, ◌<◌, ◌≡◌, ◌≢◌, inl, inr, refl, sym, ap, ◌∙◌, Bool, true, false, ◌&&◌, some, ◌==◌,
  update, arith, Bool-cases, ==→eq,
}
use wrert.Ert.{Counter, Bucket, get_seg_num, bucket_get, find_place, put_counter}
use wrert.Ert.Buckets.{kept, put_counter-key, put_counter-lt}
use wrert.Ert.Buckets.Puts.{bucket_get-put, bucket_get-put_other}
use wrert.Ert.Memory.{Memory, Segment, set_counter, write_counter}
use wrert.Ert.Node.{get}
use wrert.Ert.Node.Shape.{Keyed, WellFormed, dir-number, get-bucket_of}

-- The segments after a write of one counter.
module _ (segments : ℕ → Segment) (s index place : ℕ) (c : Counter) where
  abbrev pub written : Bucket
  written = update ((segments s).bucket index) place c

  abbrev pub rewritten : ℕ → Segment
  rewritten =
      update segments s (record (segments s) { bucket = update (segments s).bucket index written })

  depth-rewritten : (a : ℕ) → (rewritten a).depth ≡ (segments a).depth
  depth-rewritten a = elim (Bool-cases (s == a)) [
    | inl e ↦ let at = ==→eq s a e in rw (e, at) refl
    | inr e ↦ rw e refl
  ]

  pub bucket-rewritten : (rewritten s).bucket index ≡ written
  bucket-rewritten =
      let e : (s == s) ≡ true = ground arith in
      let f : (index == index) ≡ true = ground arith in rw (e, f) refl

  bucket-rewritten_at : (a i : ℕ) → s ≡ a → index ≡ i → (rewritten a).bucket i ≡ written
  bucket-rewritten_at a i q r = rw (← q, ← r) bucket-rewritten

  bucket_at : (a i : ℕ) → s ≡ a → index ≡ i → (segments s).bucket index ≡ (segments a).bucket i
  bucket_at a i q r = rw (q, r) refl

  bucket-rewritten_other :
      (a i : ℕ) → (s ≡ a → index ≢ i) → (rewritten a).bucket i ≡ (segments a).bucket i
  bucket-rewritten_other a i ne = elim (Bool-cases (s == a)) [
    | inr e ↦ rw e refl
    | inl e ↦
        let at = ==→eq s a e in
        let f : (index == i) ≡ false = ground (arith, ne at) in rw (e, f, at) refl
  ]

  keyed-rewritten :
      (P : ℕ → Counter → Type 0)
      → P index c
      → (a : ℕ) → ((i : ℕ) → i < 256 → (j : ℕ) → j < 4 → P i ((segments a).bucket i j))
      → (i : ℕ) → i < 256
      → (j : ℕ) → j < 4
      → P i ((rewritten a).bucket i j)
  keyed-rewritten P new a old i lt j lt' = elim (Bool-cases (s == a && index == i)) [
    | inr e ↦ rw (bucket-rewritten_other a i (λ q r. ground (arith, e, q, r))) (old i lt j lt')
    | inl e ↦
        let at : s ≡ a = ground (arith, e) in
        let at' : index ≡ i = ground (arith, e) in
        let old' : P index ((segments s).bucket index j) = rw (at, at') (old i lt j lt') in
        let both : P index ((rewritten s).bucket index j) =
          rw bucket-rewritten
            (elim (Bool-cases (place == j)) [ inl l ↦ rw l new | inr l ↦ rw l old' ]) in
        rw (← at, ← at') both
  ]

module _ (m : Memory) (p key value place : ℕ) (kv_flag : Bool) (h : WellFormed m p)
    (positive : 0 < key) (small : key < 2 ^ 32) where
  abbrev g : ℕ
  g = (m.nodes p).global_depth

  abbrev s : ℕ
  s = (m.nodes p).dir (get_seg_num key 32 g)

  abbrev bucket : Bucket
  bucket = (m.segments s).bucket (key % 256)

  abbrev stored : Counter
  stored = put_counter key value kv_flag (bucket place)

  abbrev after : Memory
  after = record m { segments = rewritten m.segments s (key % 256) place stored }

  pub put-after : Memory
  put-after = write_counter m (record { segment = s; index = key % 256; place = place }) stored

  pub put-after_lem :
      write_counter m
        (record { segment = s; index = key % 256; place = place })
        (put_counter key value kv_flag (bucket place))
      ≡ put-after
  unfolding put-after
  put-after_lem = refl

  pub put-after_nodes : put-after.nodes ≡ m.nodes
  unfolding put-after write_counter
  put-after_nodes = refl

  pub put-after_root : put-after.root ≡ m.root
  unfolding put-after write_counter
  put-after_root = refl

  pub put-after_next : put-after.next_node ≡ m.next_node
  unfolding put-after write_counter
  put-after_next = refl

  put-after-eq : put-after ≡ after
  unfolding put-after write_counter set_counter
  put-after-eq = refl

  Keyed-stored : Keyed (key % 256) stored
  unfolding Keyed
  Keyed-stored =
      let at = put_counter-key key value kv_flag (bucket place) positive small in
      inr (
        rw (← at) small,
        rw (← at) refl,
        put_counter-lt key value kv_flag (bucket place) positive small,
      )

  after-WellFormed : WellFormed after p
  after-WellFormed =
      let deep = depth-rewritten m.segments s (key % 256) place stored in
      record {
        global = h.global;
        depth = λ i lt. rw (deep ((m.nodes p).dir i)) (h.depth i lt);
        same = λ i j lt lt' q. h.same i j lt lt' (rw (deep ((m.nodes p).dir i)) at q);
        apart = λ i j lt lt' q. h.apart i j lt lt' (rw (deep ((m.nodes p).dir i)) at q);
        old = h.old;
        keyed = λ i lt.
            keyed-rewritten m.segments s (key % 256) place stored Keyed Keyed-stored
              ((m.nodes p).dir i) (h.keyed i lt);
      }

  pub put-WellFormed : WellFormed put-after p
  put-WellFormed = rw put-after-eq after-WellFormed

  module _ (found : find_place bucket key 32 (m.segments s).depth ≡ some place) where
    pub get-put : get put-after p key ≡ some (value, kept (get m p key) kv_flag)
    get-put = rw (put-after-eq) (
        get-bucket_of after p key
        ∙ ap (λ b. bucket_get b key) (bucket-rewritten m.segments s (key % 256) place stored)
        ∙ bucket_get-put bucket key value (m.segments s).depth place kv_flag positive small found
        ∙ ap (λ o. some (value, kept o kv_flag)) (sym (get-bucket_of m p key)))

    pub get-put_other : (k : ℕ) → 0 < k → k < 2 ^ 32 → k ≢ key → get put-after p k ≡ get m p k
    get-put_other k pos small' ne =
        let a : ℕ = (m.nodes p).dir (get_seg_num k 32 g) in
        rw put-after-eq (
          get-bucket_of after p k
          ∙ elim (Bool-cases (s == a && key % 256 == k % 256)) [
            | inr e ↦
                ap (λ b. bucket_get b k)
                  (bucket-rewritten_other m.segments s (key % 256) place stored a (k % 256)
                    (λ q r. ground (arith, e, q, r)))
            | inl e ↦
                let q : s ≡ a = ground (arith, e) in
                let r : key % 256 ≡ k % 256 = ground (arith, e) in
                ap (λ b. bucket_get b k)
                  (bucket-rewritten_at m.segments s (key % 256) place stored a (k % 256) q r)
                ∙ bucket_get-put_other bucket key value (m.segments s).depth place kv_flag positive
                    small found k pos ne (dir-number m p key k h small small' (sym q))
                ∙ ap (λ b. bucket_get b k)
                    (bucket_at m.segments s (key % 256) place stored a (k % 256) q r)
          ]
          ∙ sym (get-bucket_of m p k))
