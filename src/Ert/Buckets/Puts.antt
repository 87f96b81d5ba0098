-- ===== src/Ert/Buckets/Puts.antt =====
-- A pair that is written at the place that `findPlace` answers, and the lookups after it.
use wrert.Prelude.{
  ℕ, ◌^◌, ◌<◌, ◌≡◌, ◌≢◌, inl, inr, refl, sym, ap, ◌∙◌, Bool, none, some, update, update_self,
  update_ne, arith,
}
use wrert.Ert.{Bucket, Counter, get_seg_num, get_node_flag, bucket_get, find_place, put_counter}
use wrert.Ert.Buckets.{
  key_of, kept, IsVacant, Absent, Place, holds, takes, noted, find_from-Place, get_from-at,
  get_from-Absent, get_from-update, put_counter-key, put_counter-value, put_counter-same,
  put_counter-other,
}

module _ (b : Bucket) (key value depth p : ℕ) (kv_flag : Bool) (positive : 0 < key)
    (small : key < 2 ^ 32) where
  abbrev stored : Counter
  stored = put_counter key value kv_flag (b p)

  abbrev after : Bucket
  after = update b p stored

  at_place :
      p < 4
      → Absent b key p 0
      → get_node_flag stored.subkey ≡ kept (bucket_get b key) kv_flag
      → bucket_get after key ≡ some (value, kept (bucket_get b key) kv_flag)
  unfolding bucket_get Absent
  at_place lt off flag =
      let same = put_counter-key key value kv_flag (b p) positive small in
      get_from-at after key 4 0 p (omega arith) lt (rw (update_self b p stored) same)
        (λ j lo hi. rw (update_ne b p j stored (omega arith)) (off j lo (omega arith)))
      ∙ rw (update_self b p stored, put_counter-value key value kv_flag (b p) positive small, flag)
          refl

  from_place :
      Place b key depth 4 0 p none
      → (p < 4) × (bucket_get after key ≡ some (value, kept (bucket_get b key) kv_flag))
  unfolding bucket_get Absent kept
  from_place (holds lo hi at off) = (
    hi,
    at_place hi (λ j a b. off j a (omega arith))
        (put_counter-same key value kv_flag (b p) positive small at
          ∙ ap (λ o. kept o kv_flag) (sym (get_from-at b key 4 0 p lo hi at off))),
  )
  from_place (takes lo hi v off) = (
    hi,
    at_place hi (λ j a b. off j a (omega arith))
        (put_counter-other key value kv_flag (b p) positive small (off p lo hi)
          ∙ ap (λ o. kept o kv_flag) (sym (get_from-Absent b key 4 0 off))),
  )
  from_place (noted r off) = absurd (ground arith)

  other_key :
      (k : ℕ)
      → 0 < k
      → k ≢ key
      → get_seg_num k 32 depth ≡ get_seg_num key 32 depth
      → Place b key depth 4 0 p none
      → k ≢ key_of (b p)
  unfolding IsVacant
  other_key k pos ne seg (holds lo hi at off) = λ e. ne (e ∙ sym at)
  other_key k pos ne seg (takes lo hi (inl (zero_key, v)) off) = λ e. omega (arith, e, zero_key)
  other_key k pos ne seg (takes lo hi (inr stale) off) =
      λ e. stale (sym seg ∙ ap (λ x. get_seg_num x 32 depth) e)
  other_key k pos ne seg (noted r off) = absurd (ground arith)

  module _ (found : find_place b key 32 depth ≡ some p) where
    place : Place b key depth 4 0 p none
    unfolding find_place
    place = find_from-Place b key depth 4 0 p none found

    pub place-lt : p < 4
    place-lt = (from_place place).0

    pub bucket_get-put : bucket_get after key ≡ some (value, kept (bucket_get b key) kv_flag)
    bucket_get-put = (from_place place).1

    pub bucket_get-put_other :
        (k : ℕ)
        → 0 < k
        → k ≢ key
        → get_seg_num k 32 depth ≡ get_seg_num key 32 depth
        → bucket_get after k ≡ bucket_get b k
    unfolding bucket_get
    bucket_get-put_other k pos ne seg =
        let same = put_counter-key key value kv_flag (b p) positive small in
        get_from-update b k 4 0 p stored (other_key k pos ne seg place) (λ e. ne (e ∙ sym same))
