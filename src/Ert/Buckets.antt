-- ===== src/Ert/Buckets.antt =====
-- The loops over the four counters of a bucket: lookup, the place for a key, and the copy of a split.
pub mod Puts
pub mod Copies
use wrert.Prelude.{
  ℕ, zero, suc, ◌+◌, ◌-◌, ◌*◌, ◌/◌, ◌%◌, ◌^◌, ◌≤◌, ◌<◌, ◌≡◌, ◌≢◌, ◌⊎◌, inl, inr, refl, sym, ap, ◌∙◌,
  Bool, true, false, not, ◌&&◌, ◌||◌, Option, none, some, ◌==◌, if◌then◌else◌, update, update_self,
  update_ne, arith, Bool-cases, ==→eq, ==→ne,
}
use wrert.Ert.{
  Bucket, Counter, zero_counter, remove_node_flag, get_node_flag, put_key_value_flag, get_seg_num,
  get_from, bucket_get, note_place, find_from, find_place, put_counter, migrate,
}

abbrev pub key_of : Counter → ℕ
unfolding remove_node_flag
key_of c = remove_node_flag c.subkey

pub key_of-zero : key_of zero_counter ≡ 0
unfolding key_of
key_of-zero = refl

-- A counter that may be taken for a key: it is empty, or its key is of another segment.
unfoldable pub IsVacant : Counter → (key depth : ℕ) → Type 0
IsVacant c key depth =
    ((key_of c ≡ 0) × (c.value ≡ 0)) ⊎ (get_seg_num key 32 depth ≢ get_seg_num (key_of c) 32 depth)

unfoldable pub Absent : Bucket → (key n i : ℕ) → Type 0
Absent b key n i = (j : ℕ) → i ≤ j → j < i + n → key ≢ key_of (b j)

pub Absent-next :
    (b : Bucket) (key n i : ℕ)
    → key ≢ key_of (b i)
    → Absent b key n (i + 1)
    → Absent b key (suc n) i
unfolding Absent
Absent-next b key n i ne rest j lo hi = elim (Bool-cases (i == j)) [
  | inl here ↦ let at = ==→eq i j here in rw (← at) ne
  | inr on ↦ let apart = ==→ne i j on in rest j (omega arith) (omega arith)
]

-- What `findPlace` says of the counter that it answers, from the counter `i` on.
pub data Place (b : Bucket) (key depth n i p : ℕ) (res : Option ℕ) : Type 0 where
  holds :
      i ≤ p → p < i + n → key ≡ key_of (b p) → Absent b key (p - i) i → Place b key depth n i p res
  takes :
      i ≤ p → p < i + n → IsVacant (b p) key depth → Absent b key n i → Place b key depth n i p res
  noted : res ≡ some p → Absent b key n i → Place b key depth n i p res

note_place-cases :
    (c : Counter) (key depth i p : ℕ) (res : Option ℕ)
    → note_place c key 32 depth i res ≡ some p
    → (res ≡ some p) ⊎ ((i ≡ p) × IsVacant c key depth)
unfolding note_place IsVacant
note_place-cases c key depth i p (some r) h = inl h
note_place-cases c key depth i p none h = elim (Bool-cases (key_of c == 0 && c.value == 0)) [
  | inl e ↦ inr (ground (arith, e), inl (ground (arith, e), ground (arith, e)))
  | inr e ↦ elim (Bool-cases (get_seg_num key 32 depth == get_seg_num (key_of c) 32 depth)) [
    | inl f ↦ absurd (ground (arith, e, f))
    | inr f ↦ inr (ground (arith, e, f), inr (==→ne _ _ f))
  ]
]

pub find_from-Place :
    (b : Bucket) (key depth n i p : ℕ) (res : Option ℕ)
    → find_from b key 32 depth n i res ≡ some p
    → Place b key depth n i p res
unfolding find_from Absent
find_from-Place b key depth zero i p res h = noted h (λ j lo hi. absurd (omega arith))
find_from-Place b key depth (suc n) i p res h = elim (Bool-cases (key == key_of (b i))) [
  | inl e ↦
      let at : i ≡ p = ground arith in
      holds (omega arith) (omega arith) (rw (← at) (==→eq _ _ e)) (λ j lo hi. absurd (omega arith))
  | inr e ↦
      let ne = ==→ne key (key_of (b i)) e in
      let rest : Place b key depth n (i + 1) p (note_place (b i) key 32 depth i res) =
        find_from-Place b key depth n (i + 1) p (note_place (b i) key 32 depth i res)
          (ground arith) in
      step ne rest
]
  where
    step :
        key ≢ key_of (b i)
        → Place b key depth n (i + 1) p (note_place (b i) key 32 depth i res)
        → Place b key depth (suc n) i p res
    step ne (holds lo hi at off) = holds (omega arith) (omega arith) at (
        let e : p - i ≡ suc (p - (i + 1)) = omega arith in
        rw e (Absent-next b key (p - (i + 1)) i ne off))
    step ne (takes lo hi v off) = takes (omega arith) (omega arith) v (Absent-next b key n i ne off)
    step ne (noted r off) = elim (note_place-cases (b i) key depth i p res r) [
      | inl same ↦ noted same (Absent-next b key n i ne off)
      | inr (at, v) ↦ takes (omega arith) (omega arith) (rw (← at) v) (Absent-next b key n i ne off)
    ]

find_from-ne-none :
    (b : Bucket) (key depth n i r : ℕ) → find_from b key 32 depth n i (some r) ≢ none
unfolding find_from note_place
find_from-ne-none b key depth zero i r h = cc
find_from-ne-none b key depth (suc n) i r h = elim (Bool-cases (key == key_of (b i))) [
  | inl e ↦ ground (arith, e)
  | inr e ↦ find_from-ne-none b key depth n (i + 1) r (ground (arith, e))
]

-- A bucket that has no place for a key has no vacant counter; here the first.
pub find_place-none :
    (b : Bucket) (key depth : ℕ)
    → find_place b key 32 depth ≡ none
    → (key ≢ key_of (b 0))
      × (((key_of (b 0) ≡ 0) × ((b 0).value ≡ 0)) → ⊥)
      × (get_seg_num key 32 depth ≡ get_seg_num (key_of (b 0)) 32 depth)
unfolding find_place find_from note_place
find_place-none b key depth h = elim (Bool-cases (key == key_of (b 0))) [
  | inl e ↦ absurd (ground (arith, e))
  | inr e ↦
      elim (Bool-cases (
        key_of (b 0) == 0 && (b 0).value == 0
        || not (get_seg_num key 32 depth == get_seg_num (key_of (b 0)) 32 depth))) [
          | inl f ↦ absurd (find_from-ne-none b key depth 3 1 0 (rw (← h) (rw (e, f) refl)))
          | inr f ↦ (==→ne _ _ e, λ (k, v). ground (arith, f, k, v), ground (arith, f))
        ]
]

pub get_from-at :
    (b : Bucket) (key n i p : ℕ)
    → i ≤ p
    → p < i + n
    → key ≡ key_of (b p)
    → Absent b key (p - i) i
    → get_from b key n i ≡ some ((b p).value, get_node_flag (b p).subkey)
unfolding get_from Absent
get_from-at b key zero i p lo hi at off = absurd (omega arith)
get_from-at b key (suc n) i p lo hi at off = elim (Bool-cases (i == p)) [
  | inl e ↦
      let here = ==→eq i p e in
      let at' : (key == key_of (b p)) ≡ true = ground (arith, at) in rw (here, at') refl
  | inr e ↦
      let apart = ==→ne i p e in
      let ne = off i (omega arith) (omega arith) in
      let skip : (key == key_of (b i)) ≡ false = ground (arith, ne) in
      rw skip (
        get_from-at b key n (i + 1) p (omega arith) (omega arith) at
          (λ j a b. off j (omega arith) (omega arith)))
]

find_from-at :
    (b : Bucket) (key depth n i p : ℕ) (res : Option ℕ)
    → i ≤ p
    → p < i + n
    → key ≡ key_of (b p)
    → Absent b key (p - i) i
    → find_from b key 32 depth n i res ≡ some p
unfolding find_from Absent
find_from-at b key depth zero i p res lo hi at off = absurd (omega arith)
find_from-at b key depth (suc n) i p res lo hi at off = elim (Bool-cases (i == p)) [
  | inl e ↦
      let here = ==→eq i p e in
      let at' : (key == key_of (b p)) ≡ true = ground (arith, at) in rw (here, at') refl
  | inr e ↦
      let apart = ==→ne i p e in
      let ne = off i (omega arith) (omega arith) in
      let skip : (key == key_of (b i)) ≡ false = ground (arith, ne) in
      rw skip (
        find_from-at b key depth n (i + 1) p (note_place (b i) key 32 depth i res) (omega arith)
          (omega arith) at (λ j a b. off j (omega arith) (omega arith)))
]

pub find_place-at :
    (b : Bucket) (key depth p : ℕ)
    → p < 4
    → key ≡ key_of (b p)
    → ((j : ℕ) → j < p → key ≢ key_of (b j))
    → find_place b key 32 depth ≡ some p
unfolding find_place Absent
find_place-at b key depth p lt at off =
    find_from-at b key depth 4 0 p none (omega arith) lt at (λ j lo hi. off j (omega arith))

pub get_from-Absent : (b : Bucket) (key n i : ℕ) → Absent b key n i → get_from b key n i ≡ none
unfolding get_from Absent
get_from-Absent b key zero i off = refl
get_from-Absent b key (suc n) i off =
    let ne = off i (omega arith) (omega arith) in
    let skip : (key == key_of (b i)) ≡ false = ground (arith, ne) in
    rw skip (get_from-Absent b key n (i + 1) (λ j lo hi. off j (omega arith) (omega arith)))

-- A write at a counter that has another key, before and after, changes nothing.
pub get_from-update :
    (b : Bucket) (key n i p : ℕ) (c : Counter)
    → key ≢ key_of (b p)
    → key ≢ key_of c
    → get_from (update b p c) key n i ≡ get_from b key n i
unfolding get_from
get_from-update b key zero i p c old new = refl
get_from-update b key (suc n) i p c old new =
    let rest = get_from-update b key n (i + 1) p c old new in
    elim (Bool-cases (p == i)) [
      | inl e ↦
          let here = ==→eq p i e in
          let skip : (key == key_of c) ≡ false = ground (arith, new) in
          let skip' : (key == key_of (b i)) ≡ false = ground (arith, old) in
          rw (e, skip, skip') rest
      | inr e ↦ rw (e, rest) refl
    ]

-- The flag that `put` leaves: a counter whose word is the key alone keeps it.
unfoldable pub kept : Option (ℕ × Bool) → Bool → Bool
kept (some (v, false)) kv_flag = false
kept (some (v, true)) kv_flag = kv_flag
kept none kv_flag = kv_flag

module _ (key value : ℕ) (kv_flag : Bool) (c : Counter) (positive : 0 < key)
    (small : key < 2 ^ 32) where
  pub put_counter-key : key ≡ key_of (put_counter key value kv_flag c)
  unfolding put_counter remove_node_flag put_key_value_flag
  put_counter-key = ground arith

  pub put_counter-lt : (put_counter key value kv_flag c).subkey < 2 ^ 57
  unfolding put_counter remove_node_flag put_key_value_flag
  put_counter-lt = ground arith

  -- A counter that has the key is written as the code writes its value alone.
  pub put_counter-write :
      key ≡ key_of c → c.subkey < 2 ^ 57 → put_counter key value true c ≡ record c { value = value }
  unfolding put_counter remove_node_flag put_key_value_flag
  put_counter-write at lt = ground arith

  pub put_counter-value : (put_counter key value kv_flag c).value ≡ value
  unfolding put_counter
  put_counter-value = ground arith

  pub put_counter-same :
      key ≡ key_of c
      → get_node_flag (put_counter key value kv_flag c).subkey
        ≡ kept (some (c.value, get_node_flag c.subkey)) kv_flag
  unfolding put_counter remove_node_flag put_key_value_flag get_node_flag kept
  put_counter-same at = ground arith

  pub put_counter-other :
      key ≢ key_of c → get_node_flag (put_counter key value kv_flag c).subkey ≡ kv_flag
  unfolding put_counter remove_node_flag put_key_value_flag get_node_flag
  put_counter-other ne = ground arith

pub bucket_get-zero : (key : ℕ) → 0 < key → bucket_get (λ j. zero_counter) key ≡ none
unfolding bucket_get Absent
bucket_get-zero key pos =
    get_from-Absent (λ j. zero_counter) key 4 0 (λ j lo hi. rw key_of-zero (omega arith))
