-- ===== src/Ert/Buckets/Copies.antt =====
-- The copy of a bucket that a split makes: a key that goes to the new segment is found in the copy as it
-- was in the bucket.
use wrert.Prelude.{
  ℕ, zero, suc, ◌+◌, ◌<◌, ◌≤◌, ◌≡◌, inl, inr, refl, sym, ap, ◌∙◌, Bool, true, false, Option, none,
  some, ◌==◌, if◌then◌else◌, update, update_self, update_ne, arith, Bool-cases, ==→eq, ==→ne,
}
use wrert.Ert.{Bucket, Counter, zero_counter, get_node_flag, get_from, bucket_get, migrate}
use wrert.Ert.Buckets.{key_of, Absent, get_from-Absent}

or_else : Option (ℕ × Bool) → Option (ℕ × Bool) → Option (ℕ × Bool)
or_else none o = o
or_else (some r) o = some r

or_else_assoc : (a b c : Option (ℕ × Bool)) → or_else (or_else a b) c ≡ or_else a (or_else b c)
unfolding or_else
or_else_assoc none b c = refl
or_else_assoc (some r) b c = refl

-- The lookup in one counter.
single : Counter → (key : ℕ) → Option (ℕ × Bool)
single c key = if key == key_of c then some (c.value, get_node_flag c.subkey) else none

get_from-single :
    (b : Bucket) (key n i : ℕ)
    → get_from b key (suc n) i ≡ or_else (single (b i) key) (get_from b key n (i + 1))
unfolding get_from single or_else
get_from-single b key n i = ground arith

or_else-single :
    (c : Counter) (key : ℕ) (o : Option (ℕ × Bool))
    → (key == key_of c) ≡ false
    → or_else (single c key) o ≡ o
unfolding single or_else
or_else-single c key o ne = rw ne refl

Rest : Bucket → (cnt : ℕ) → Type 0
Rest b cnt = (j : ℕ) → cnt ≤ j → b j ≡ zero_counter

or_else-none : (a : Option (ℕ × Bool)) → or_else a none ≡ a
unfolding or_else
or_else-none none = refl
or_else-none (some r) = refl

Rest-Absent : (b : Bucket) (key cnt n : ℕ) → 0 < key → Rest b cnt → Absent b key n cnt
unfolding Rest Absent key_of
Rest-Absent b key cnt n pos rest j lo hi = rw (rest j lo) (omega arith)

Rest-next : (b : Bucket) (cnt : ℕ) (c : Counter) → Rest b cnt → Rest (update b cnt c) (cnt + 1)
unfolding Rest
Rest-next b cnt c rest j lo = update_ne b cnt j c (omega arith) ∙ rest j (omega arith)

-- A counter that is appended is looked up after the others.
get_from-append :
    (b : Bucket) (key n i cnt : ℕ) (c : Counter)
    → 0 < key
    → Rest b cnt
    → i ≤ cnt
    → cnt < i + n
    → get_from (update b cnt c) key n i ≡ or_else (get_from b key n i) (single c key)
unfolding Rest or_else single
get_from-append b key zero i cnt c pos rest lo hi = absurd (omega arith)
get_from-append b key (suc n) i cnt c pos rest lo hi = elim (Bool-cases (cnt == i)) [
  | inl e ↦
      let at = ==→eq cnt i e in
      let none_after =
        get_from-Absent (update b cnt c) key n (cnt + 1)
          (Rest-Absent (update b cnt c) key (cnt + 1) n pos (Rest-next b cnt c rest)) in
      let none_before =
        get_from-Absent b key (suc n) cnt (Rest-Absent b key cnt (suc n) pos rest) in
      rw (← at) (
        get_from-single (update b cnt c) key n cnt
        ∙ rw (none_before, none_after, update_self b cnt c) (or_else-none (single c key)))
  | inr e ↦
      let apart = ==→ne cnt i e in
      let ih = get_from-append b key n (i + 1) cnt c pos rest (omega arith) (omega arith) in
      get_from-single (update b cnt c) key n i
      ∙ rw (update_ne b cnt i c apart, ih)
          (sym (or_else_assoc (single (b i) key) (get_from b key n (i + 1)) (single c key))
            ∙ ap (λ o. or_else o (single c key)) (sym (get_from-single b key n i)))
]

other : (goes : ℕ → Bool) (key k : ℕ) → goes key ≡ true → goes k ≡ false → (key == k) ≡ false
other goes key k go stay = elim (Bool-cases (key == k)) [
  | inr e ↦ e
  | inl e ↦
      let same = ==→eq key k e in let go' : goes k ≡ true = rw same at go in absurd (cc (go', stay))
]

migrate-go :
    (goes : ℕ → Bool) (src : Bucket) (n j cnt : ℕ) (dst : Bucket)
    → goes (key_of (src j)) ≡ true
    → migrate goes src (suc n) j cnt dst
      ≡ migrate goes src n (j + 1) (cnt + 1) (update dst cnt (src j))
unfolding migrate key_of
migrate-go goes src n j cnt dst e = rw (e, migrate) refl

migrate-stay :
    (goes : ℕ → Bool) (src : Bucket) (n j cnt : ℕ) (dst : Bucket)
    → goes (key_of (src j)) ≡ false
    → migrate goes src (suc n) j cnt dst ≡ migrate goes src n (j + 1) cnt dst
unfolding migrate key_of
migrate-stay goes src n j cnt dst e = rw (e, migrate) refl

migrate-get :
    (goes : ℕ → Bool) (src : Bucket) (key n j cnt : ℕ) (dst : Bucket)
    → 0 < key
    → goes key ≡ true
    → Rest dst cnt
    → cnt + n ≤ 4
    → get_from (migrate goes src n j cnt dst) key 4 0
      ≡ or_else (get_from dst key 4 0) (get_from src key n j)
unfolding Rest
migrate-get goes src key zero j cnt dst pos go rest le =
    unfold migrate get_from in sym (or_else-none (get_from dst key 4 0))
migrate-get goes src key (suc n) j cnt dst pos go rest le =
    elim (Bool-cases (goes (key_of (src j)))) [
      | inl e ↦
          let c = src j in
          let ih =
            migrate-get goes src key n (j + 1) (cnt + 1) (update dst cnt c) pos go
              (Rest-next dst cnt c rest) (omega arith) in
          rw (migrate-go goes src n j cnt dst e) (
            ih
            ∙ ap (λ o. or_else o (get_from src key n (j + 1)))
                (get_from-append dst key 4 0 cnt c pos rest (omega arith) (omega arith))
            ∙ or_else_assoc (get_from dst key 4 0) (single c key) (get_from src key n (j + 1))
            ∙ ap (λ o. or_else (get_from dst key 4 0) o) (sym (get_from-single src key n j)))
      | inr e ↦
          let ih = migrate-get goes src key n (j + 1) cnt dst pos go rest (omega arith) in
          let ne : (key == key_of (src j)) ≡ false = other goes key (key_of (src j)) go e in
          rw (migrate-stay goes src n j cnt dst e) (
            ih
            ∙ ap (λ o. or_else (get_from dst key 4 0) o)
                (sym (
                  get_from-single src key n j
                  ∙ or_else-single (src j) key (get_from src key n (j + 1)) ne)))
    ]

-- The copy has what the bucket has under the keys that go.
pub migrate-bucket_get :
    (goes : ℕ → Bool) (src : Bucket) (key : ℕ)
    → 0 < key
    → goes key ≡ true
    → bucket_get (migrate goes src 4 0 0 (λ j. zero_counter)) key ≡ bucket_get src key
unfolding bucket_get Rest or_else
migrate-bucket_get goes src key pos go =
    migrate-get goes src key 4 0 0 (λ j. zero_counter) pos go (λ j lo. refl) (omega arith)
    ∙ ap (λ o. or_else o (get_from src key 4 0))
        (get_from-Absent (λ j. zero_counter) key 4 0
          (Rest-Absent (λ j. zero_counter) key 0 4 pos (λ j lo. refl)))

-- What holds of all counters of a bucket and of the empty one holds of all counters of the copy.
migrate-all :
    (P : Counter → Type 0) (goes : ℕ → Bool) (src : Bucket) (n j cnt : ℕ) (dst : Bucket)
    → ((i : ℕ) → i < j + n → P (src i))
    → ((i : ℕ) → P (dst i))
    → (i : ℕ) → P (migrate goes src n j cnt dst i)
migrate-all P goes src zero j cnt dst all here i = unfold migrate in here i
migrate-all P goes src (suc n) j cnt dst all here i = elim (Bool-cases (goes (key_of (src j)))) [
  | inl e ↦ rw (migrate-go goes src n j cnt dst e) (
      migrate-all P goes src n (j + 1) (cnt + 1) (update dst cnt (src j))
        (λ l lt. all l (omega arith))
        (λ l. elim (Bool-cases (cnt == l)) [
          | inl at ↦ rw at (all j (omega arith))
          | inr apart ↦ rw apart (here l)
        ])
        i)
  | inr e ↦
      rw (migrate-stay goes src n j cnt dst e)
        (migrate-all P goes src n (j + 1) cnt dst (λ l lt. all l (omega arith)) here i)
]

pub migrate-All :
    (P : Counter → Type 0) (goes : ℕ → Bool) (src : Bucket)
    → ((i : ℕ) → i < 4 → P (src i))
    → P zero_counter
    → (i : ℕ) → P (migrate goes src 4 0 0 (λ j. zero_counter) i)
migrate-All P goes src all empty i =
    migrate-all P goes src 4 0 0 (λ j. zero_counter) (λ l lt. all l (omega arith)) (λ l. empty) i
