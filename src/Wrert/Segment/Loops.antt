-- ===== src/Wrert/Segment/Loops.antt =====
-- The migration loops of WRERTNode::put over the slots of eight shared buckets, with the number of
-- slots that are filled in each main bucket.
use wrert.Prelude.{
  ℕ, zero, suc, ◌+◌, ◌/◌, ◌%◌, ◌≤◌, ◌<◌, ◌≡◌, inl, inr, refl, Bool, true, ◌==◌, arith, Bool-cases,
  ==→eq, ==→ne,
}
use wrert.Wrert.Bucket.{Bucket}
use wrert.Wrert.Segment.{Segment, Migration, migrate_slot, migrate_slots, migrate_buckets}
use wrert.Wrert.Segment.Migrate.{
  moved, home_of, home_of-lt, Writes, written, written-Writes, written-at, kept,
}
use wrert.Wrert.Slot.{Slot, is_valid}
use wrert.Wrert.Words.{calc_bucket_position}
use wrert.Wrert.Words.Layout.{IsOffset}

module _ (o v : ℕ) (ok : IsOffset o) (base : Segment) (Source : Slot → Type 0) where
  -- A slot has been copied to its main bucket.
  abbrev pub There : Migration → Slot → Type 0
  There m t =
      (i : ℕ) × (i < 16)
      × (i < m.counter (home_of v t))
      × (m.target (calc_bucket_position o (home_of v t)) i ≡ moved v t)

  -- Before the slot `j` of the shared bucket `r`.
  pub record At (r j : ℕ) (m : Migration) : Type 0 where
    pub writes : Writes o v ok base Source m
    pub most : (b : ℕ) → b < 32 → m.counter b ≤ 16
    pub here : (b : ℕ) → b < 32 → b / 4 ≡ r → m.counter b ≤ j
    pub later : (b : ℕ) → b < 32 → r < b / 4 → m.counter b ≡ 0

  pub record Goes (r j : ℕ) (m m' : Migration) : Type 0 where
    pub at : At r j m'
    pub keeps : (t : Slot) → There m t → There m' t

  migrate_slot-written :
      (s : Slot) (m : Migration)
      → migrate_slot o v s m
        ≡ written o v ok base Source
            (home_of v s)
            (m.counter (home_of v s))
            s
            m
            (home_of-lt v s)
            refl
  unfolding migrate_slot
  migrate_slot-written s m =
      let e : home_of v s % 32 ≡ home_of v s = omega (arith, home_of-lt v s) in rw e refl

  migrate_slot-Goes :
      (r j : ℕ) (s : Slot) (m : Migration)
      → At r j m
      → j < 16
      → Source s
      → home_of v s / 4 ≡ r
      → Goes r (j + 1) m (migrate_slot o v s m) × There (migrate_slot o v s m) s
  migrate_slot-Goes r j s m at lt src home =
      let h = home_of v s in
      let n = m.counter h in
      let hl = home_of-lt v s in
      let few : n ≤ j = at.here h hl home in
      rw (migrate_slot-written s m) (
        record {
          at = record {
            writes = written-Writes o v ok base Source h n s m hl refl src refl at.writes;
            most = λ b bl. elim (Bool-cases (h == b)) [
              | inl e ↦ ground arith
              | inr e ↦ ground (arith, at.most b bl)
            ];
            here = λ b bl q. ground (arith, at.here b bl q);
            later = λ b bl q. elim (Bool-cases (h == b)) [
              | inl e ↦ absurd (ground (arith, ==→eq h b e))
              | inr e ↦ ground (arith, at.later b bl q)
            ];
          };
          keeps = λ t (i, a, b, c).
              let (x, y) = kept o v ok base Source h n s m hl refl t i b c in (i, a, x, y);
        },
        (n, omega arith, ground arith, written-at o v ok base Source h n s m hl refl),
      )

  At-next : (r j : ℕ) (m : Migration) → j ≤ 16 → At r j m → At (r + 1) 0 m
  At-next r j m le at = record {
    writes = at.writes;
    most = at.most;
    here = λ b bl q. omega (arith, at.later b bl (omega arith));
    later = λ b bl q. at.later b bl (omega arith);
  }

  At-skip : (r j : ℕ) (m : Migration) → At r j m → At r (j + 1) m
  At-skip r j m at = record {
    writes = at.writes;
    most = at.most;
    here = λ b bl q. omega (arith, at.here b bl q);
    later = at.later;
  }

  -- A shared bucket whose valid slots come first and belong below the number `r`.
  pub record Ready (sv : ℕ) (goes : ℕ → Bool) (r : ℕ) (src : Bucket) : Type 0 where
    pub first : (i j : ℕ) → i ≤ j → j < 16 → is_valid sv (src j) ≡ true → is_valid sv (src i) ≡ true
    pub below :
        (i : ℕ)
        → i < 16
        → is_valid sv (src i) ≡ true
        → goes (src i).sub_key ≡ true
        → Source (src i) × (home_of v (src i) / 4 ≡ r)

  module _ (sv : ℕ) (goes : ℕ → Bool) where
    -- The slots from `j` on that go are there.
    unfoldable pub Copied : (src : Bucket) (j : ℕ) → Migration → Type 0
    Copied src j m =
        (i : ℕ)
        → j ≤ i
        → i < 16
        → is_valid sv (src i) ≡ true
        → goes (src i).sub_key ≡ true
        → There m (src i)

    migrate_slots-Goes :
        (r : ℕ) (src : Bucket) (n j : ℕ) (m : Migration)
        → Ready sv goes r src
        → j + n ≡ 16
        → At r j m
        → Goes (r + 1) 0 m (migrate_slots o v sv goes src n j m)
          × Copied src j (migrate_slots o v sv goes src n j m)
    unfolding migrate_slots Copied
    migrate_slots-Goes r src zero j m ready sum at = (
      record { at = At-next r j m (omega arith) at; keeps = λ t h. h },
      λ i lo hi. absurd (omega arith),
    )
    migrate_slots-Goes r src (suc n) j m ready sum at = elim (Bool-cases (is_valid sv (src j))) [
      | inr bad ↦ rw bad (
        record { at = At-next r j m (omega arith) at; keeps = λ t h. h },
        λ i lo hi good. absurd (ground (arith, ready.first j i lo hi good)),
      )
      | inl good ↦ elim (Bool-cases (goes (src j).sub_key)) [
        | inr stay ↦
            let (g, c) =
              migrate_slots-Goes r src n (j + 1) m ready (omega arith) (At-skip r j m at) in
            rw (good, stay)
              (
                g,
                λ i lo hi valid go. elim (Bool-cases (i == j)) [
                  | inl e ↦
                      let p : i ≡ j = ==→eq i j e in
                      let go' : goes (src j).sub_key ≡ true = rw (← p) go in
                      absurd (ground (arith, stay, go'))
                  | inr e ↦ c i (ground (arith, ==→ne i j e)) hi valid go
                ],
              )
        | inl go ↦
            let (src', home) = ready.below j (omega arith) good go in
            let (step, new) = migrate_slot-Goes r j (src j) m at (omega arith) src' home in
            let (g, c) =
              migrate_slots-Goes r src n (j + 1) (migrate_slot o v (src j) m) ready (omega arith)
                step.at in
            rw (good, go)
              (
                record { at = g.at; keeps = λ t h. g.keeps t (step.keeps t h) },
                λ i lo hi valid go'. elim (Bool-cases (i == j)) [
                  | inl e ↦ let p : i ≡ j = ==→eq i j e in rw p (g.keeps (src j) new)
                  | inr e ↦ c i (ground (arith, ==→ne i j e)) hi valid go'
                ],
              )
      ]
    ]

    Copied-keeps :
        (r j : ℕ) (src : Bucket) (m m' : Migration)
        → Goes r j m m'
        → Copied src 0 m
        → Copied src 0 m'
    unfolding Copied
    Copied-keeps r j src m m' g c i lo hi valid go = g.keeps (src i) (c i lo hi valid go)

    migrate_buckets-suc :
        (src : Segment) (start n r : ℕ) (m : Migration)
        → migrate_buckets o v sv goes src (suc n) (start + r) m
          ≡ migrate_buckets o v sv goes src n
              (start + (r + 1))
              (migrate_slots o v sv goes (src (start + r)) 16 0 m)
    unfolding migrate_buckets
    migrate_buckets-suc src start n r m =
        let e : start + r + 1 ≡ start + (r + 1) = omega arith in rw e refl

    migrate_buckets-zero :
        (src : Segment) (i : ℕ) (m : Migration) → migrate_buckets o v sv goes src 0 i m ≡ m
    unfolding migrate_buckets
    migrate_buckets-zero src i m = refl

    -- All eight buckets.
    pub migrate_buckets-Goes :
        (src : Segment) (start n r : ℕ) (m : Migration)
        → ((q : ℕ) → q < r + n → Ready sv goes q (src (start + q)))
        → At r 0 m
        → Goes (r + n) 0 m (migrate_buckets o v sv goes src n (start + r) m)
          × ((q : ℕ)
              → r ≤ q
              → q < r + n
              → Copied (src (start + q)) 0 (migrate_buckets o v sv goes src n (start + r) m))
    migrate_buckets-Goes src start zero r m ready at = rw (migrate_buckets-zero src (start + r) m) (
      record { at = let e : r + 0 ≡ r = omega arith in rw e at; keeps = λ t h. h },
      λ q lo hi. absurd (omega arith),
    )
    migrate_buckets-Goes src start (suc n) r m ready at =
        let (step, new) =
          migrate_slots-Goes r (src (start + r)) 16 0 m (ready r (omega arith)) refl at in
        let (g, c) =
          migrate_buckets-Goes src start n (r + 1)
            (migrate_slots o v sv goes (src (start + r)) 16 0 m) (λ q lt. ready q (omega arith))
            step.at in
        let f : r + suc n ≡ r + 1 + n = omega arith in
        rw (migrate_buckets-suc src start n r m) (
          record { at = rw f g.at; keeps = λ t h. g.keeps t (step.keeps t h) },
          λ q lo hi. elim (Bool-cases (r == q)) [
            | inl e ↦ rw (← ==→eq r q e) (Copied-keeps _ 0 (src (start + r)) _ _ g new)
            | inr e ↦ c q (ground (arith, ==→ne r q e)) (omega arith)
          ],
        )
