-- ===== src/Ert/Tree/Rooted.antt =====
-- Trees whose root has the upper half of the keys for its prefix: insertions and lookups of keys with that
-- upper half.
use wrert.Prelude.{
  ℕ, zero, suc, ◌+◌, ◌*◌, ◌%◌, ◌^◌, ◌<◌, ◌≤◌, ◌≡◌, ◌≢◌, inl, inr, refl, sym, ap, ◌∙◌, subst, Bool,
  true, false, Option, none, some, ◌==◌, Run, ok, ◌>>=◌, first_index, first_index_least, Bool-cases,
  ==→eq, ==→ne, arith,
}
use wrert.Ert.{Bucket, get_seg_num, get_bucket_num}
use wrert.Ert.Buckets.{key_of, kept, find_place-at, put_counter-write}
use wrert.Ert.Memory.{Memory, root_ref, write_counter}
use wrert.Ert.Node.{get, put}
use wrert.Ert.Node.Shape.{WellFormed, Keyed-lt, num-lt}
use wrert.Ert.Node.Insertions.{Puts, put-Puts, put-found}
use wrert.Ert.Tree.{
  insert, insert_loop, insert_round, insert_here, insert_found, search, search_loop, search_round,
  search_next, missing, steps, insert_in, insert_add,
}
use wrert.Ert.Tree.Heads.{HasPrefix, lower_subkey, compute_prefix-HasPrefix, is_same-HasPrefix}

-- A counter that a lookup finds leads to a value and not to a node.
unfoldable pub IsValue : Option (ℕ × Bool) → Type 0
IsValue none = Unit
IsValue (some (v, flag)) = flag ≡ true

pub record Rooted (upper : ℕ) (m : Memory) : Type 0 where
  pub well : WellFormed m m.root
  pub top : (m.nodes m.root).header.depth ≡ 0
  pub prefix : HasPrefix upper (m.nodes m.root).header
  pub some_root : 0 < m.root
  pub some_node : 0 < m.next_node
  pub values : (low : ℕ) → 0 < low → low < 2 ^ 32 → IsValue (get m m.root low)

-- What a lookup answers for a counter.
unfoldable pub answer : Option (ℕ × Bool) → ℕ
answer none = missing
answer (some (v, flag)) = v

search_next-answer :
    (rec : Memory → (key node pos : ℕ) → Run ℕ) (m : Memory) (key : ℕ) (o : Option (ℕ × Bool))
    → IsValue o
    → search_next rec m key 8 o ≡ ok (answer o)
unfolding search_next answer IsValue
search_next-answer rec m key none v = refl
search_next-answer rec m key (some (x, true)) v = refl
search_next-answer rec m key (some (x, false)) v = absurd (cc v)

module _ (upper low : ℕ) (m : Memory) (h : Rooted upper m) (small : upper < 2 ^ 32)
    (positive : 0 < low) (small' : low < 2 ^ 32) where
  abbrev key : ℕ
  key = upper * 2 ^ 32 + low

  pub search-answer : (fuel : ℕ) → search (suc fuel) m key ≡ ok (answer (get m m.root low))
  unfolding search search_loop search_round
  search-answer fuel =
      let some_root = h.some_root in
      let e : (m.root == 0) ≡ false = ground arith in
      rw
        (
          e,
          h.prefix.len,
          is_same-HasPrefix upper low small small' (m.nodes m.root).header h.prefix,
          lower_subkey upper low small small',
        )
        (search_next-answer (search_loop fuel) m key (get m m.root low)
          (h.values low positive small'))

  abbrev s : ℕ
  s = (m.nodes m.root).dir (get_seg_num low 32 (m.nodes m.root).global_depth)

  abbrev bucket : Bucket
  bucket = (m.segments s).bucket (low % 256)

  abbrev found : Option ℕ
  found = first_index (λ i. low == key_of (bucket i)) 4 0

  module _ (value fuel : ℕ) where
    abbrev inner : Option ℕ → Run Memory
    inner o =
        insert_in (insert_loop fuel) fuel m key value m.root low 8 (m.nodes m.root).header.depth
          root_ref s (low % 256) o

    insert-inner : insert (suc fuel) m key value ≡ inner found
    unfolding insert insert_loop insert_round insert_here get_bucket_num steps
    insert-inner =
        rw
          (
            compute_prefix-HasPrefix upper low small small' (m.nodes m.root).header h.prefix,
            h.prefix.len,
            lower_subkey upper low small small',
          )
          refl

    -- The insertion of a pair is a call of `put` of the root.
    abbrev putting : Run Memory
    putting = put (suc fuel) m m.root low value true root_ref >>= λ (m2, p2). ok m2

    inner-add : insert_add fuel m key value m.root low 8 root_ref ≡ putting
    unfolding insert_add put get_bucket_num
    inner-add = refl

    inner-found :
        (i : ℕ)
        → found ≡ some i
        → insert_found
            (insert_loop fuel)
            m
            key
            value
            8
            (m.nodes m.root).header.depth
            (record { segment = s; index = low % 256; place = i })
          ≡ putting
    unfolding insert_found
    inner-found i e =
        let (good, lo, hi, before) = first_index_least (λ j. low == key_of (bucket j)) 4 0 i e in
        let at : low ≡ key_of (bucket i) = ==→eq low (key_of (bucket i)) good in
        let place =
          find_place-at bucket low (m.segments s).depth i hi at
            (λ j lt. ==→ne low (key_of (bucket j)) (before j (omega arith) lt)) in
        let entry-lt = num-lt low (m.nodes m.root).global_depth h.well.global small' in
        let keyed =
          h.well.keyed (get_seg_num low 32 (m.nodes m.root).global_depth) entry-lt (low % 256)
            (omega arith) i hi in
        let lt = Keyed-lt (low % 256) (bucket i) keyed (rw at at positive) in
        sym (
          ap (λ r. r >>= λ (m2, p2). ok m2) (put-found fuel m m.root low value true i place)
          ∙ ap (λ c. ok (write_counter m (record { segment = s; index = low % 256; place = i }) c))
              (put_counter-write low value true (bucket i) positive small' at lt))

    inner-putting : (o : Option ℕ) → found ≡ o → inner o ≡ putting
    unfolding insert_in
    inner-putting none e = inner-add
    inner-putting (some i) e = elim (Bool-cases ((bucket i).value == 0)) [
      | inl f ↦ rw f inner-add
      | inr f ↦ rw f (inner-found i e)
    ]

    insert-put : insert (suc fuel) m key value ≡ putting
    insert-put = insert-inner ∙ inner-putting found refl

kept-IsValue : (o : Option (ℕ × Bool)) → IsValue o → kept o true ≡ true
unfolding kept IsValue
kept-IsValue none v = refl
kept-IsValue (some (x, true)) v = refl
kept-IsValue (some (x, false)) v = v

-- What the insertion of a pair leaves of a tree whose root has the key's upper half for its prefix.
pub record Inserts (upper low value : ℕ) (m m' : Memory) : Type 0 where
  pub rooted : Rooted upper m'
  pub new : get m' m'.root low ≡ some (value, true)
  pub others : (k : ℕ) → 0 < k → k < 2 ^ 32 → k ≢ low → get m' m'.root k ≡ get m m.root k

Puts-Inserts :
    (upper low value : ℕ) (m m' : Memory) (p' : ℕ)
    → Rooted upper m
    → 0 < low
    → low < 2 ^ 32
    → Puts m m.root low value true m' p'
    → Inserts upper low value m m'
unfolding IsValue
Puts-Inserts upper low value m m' p' h positive small puts =
    let (some_root, some_node) = puts.positive h.some_root h.some_node in
    let new : get m' p' low ≡ some (value, true) =
      puts.new
      ∙ ap (λ f. some (value, f)) (kept-IsValue (get m m.root low) (h.values low positive small)) in
    let values : (k : ℕ) → 0 < k → k < 2 ^ 32 → IsValue (get m' p' k) = λ k pos lt.
      elim (Bool-cases (k == low)) [
        | inl e ↦ let at = ==→eq k low e in rw (at, new) refl
        | inr e ↦ rw (puts.others k pos lt (==→ne k low e)) (h.values k pos lt)
      ] in
    let at : p' ≡ m'.root = sym puts.root in
    record {
      rooted = record {
        well = subst (λ x. WellFormed m' x) at puts.well;
        top = subst (λ x. (m'.nodes x).header.depth ≡ 0) at puts.top;
        prefix =
            subst (λ x. HasPrefix upper (m'.nodes x).header) at
              (record {
                len = puts.len ∙ h.prefix.len;
                array = λ i lt. puts.array i (omega (arith, h.prefix.len)) ∙ h.prefix.array i lt;
              });
        some_root = subst (λ x. 0 < x) at some_root;
        some_node = some_node;
        values = λ k pos lt. subst (λ x. IsValue (get m' x k)) at (values k pos lt);
      };
      new = subst (λ x. get m' x low ≡ some (value, true)) at new;
      others = λ k pos lt ne. subst (λ x. get m' x k ≡ get m m.root k) at (puts.others k pos lt ne);
    }

-- In a tree whose root has the upper half of a key for its prefix, the insertion of the key ends, with 50
-- rounds, if its lower half is not 0: it leaves such a tree again, a lookup of the key answers the new
-- value, and a lookup of another key with that upper half and a lower half that is not 0 what it answered
-- before.
pub insert-search :
    (upper low value fuel : ℕ) (m : Memory)
    → Rooted upper m
    → upper < 2 ^ 32
    → 0 < low
    → low < 2 ^ 32
    → 50 ≤ fuel
    → (m' : Memory) × (insert fuel m (upper * 2 ^ 32 + low) value ≡ ok m')
      × Rooted upper m'
      × ((rounds : ℕ) → search (suc rounds) m' (upper * 2 ^ 32 + low) ≡ ok value)
      × ((rounds k : ℕ)
          → 0 < k
          → k < 2 ^ 32
          → k ≢ low
          → search (suc rounds) m' (upper * 2 ^ 32 + k)
            ≡ search (suc rounds) m (upper * 2 ^ 32 + k))
unfolding answer
insert-search upper low value zero m h small pos small' le = absurd (omega arith)
insert-search upper low value (suc fuel) m h small pos small' le =
    let (m', p', runs, puts) =
      put-Puts m m.root low value true (suc fuel) h.well h.top refl pos small' le in
    let done = Puts-Inserts upper low value m m' p' h pos small' puts in
    (
      m',
      insert-put upper low m h small pos small' value fuel ∙ ap (λ r. r >>= λ (m2, p2). ok m2) runs,
      done.rooted,
      λ rounds.
          search-answer upper low m' done.rooted small pos small' rounds
          ∙ ap (λ o. ok (answer o)) done.new,
      λ rounds k pos' lt ne.
          search-answer upper k m' done.rooted small pos' lt rounds
          ∙ ap (λ o. ok (answer o)) (done.others k pos' lt ne)
          ∙ sym (search-answer upper k m h small pos' lt rounds),
    )
