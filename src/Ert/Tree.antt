-- ===== src/Ert/Tree.antt =====
-- `ERTInt::Insert` and `ERTInt::Search` of ert/ERT_int.cpp. The loops take fuel for their rounds; an
-- insertion into a new child, which is a call of `Insert`, and a call of `put` take the fuel that is
-- left.
pub mod Heads
pub mod Rooted
pub mod Sequences
use wrert.Prelude.{
  ℕ, zero, suc, ◌+◌, ◌-◌, ◌*◌, ◌/◌, ◌%◌, ◌^◌, Bool, true, false, ◌&&◌, not, Option, none, some, ltb,
  leb, ◌==◌, if◌then◌else◌, update, first_index, Run, ok, stray, out_of_fuel, ◌>>=◌,
}
use wrert.Ert.Memory.{
  Memory, Node, Header, KeyValue, Segment, CounterRef, Before, root_ref, local_ref, value_ref,
  counter_at, write_counter, alloc_kv, alloc_node, store_before,
}
use wrert.Ert.Node.{get, put, put_at, new_node, init_header}
use wrert.Ert.{
  get_seg_num, get_bucket_num, get_subkey, get_node_flag, remove_node_flag, node_length,
  bucket_size, bucket_mask_len, node_prefix_max_bytes,
}

-- `header.array[i]`: the byte behind the array is the node's `global_depth`.
unfoldable pub array_byte : Node → ℕ → ℕ
array_byte n i = if ltb i node_prefix_max_bytes then n.header.array i else n.global_depth

-- GET_32BITS: four bytes as a word, the lowest first
unfoldable pub get_32bits : Node → (pos : ℕ) → ℕ
unfolding array_byte
get_32bits n pos =
    array_byte n pos
    + 2 ^ 8 * array_byte n (pos + 1)
    + 2 ^ 16 * array_byte n (pos + 2)
    + 2 ^ 24 * array_byte n (pos + 3)

-- `(subkey >> (56 - i * 8)) & 0xFF`, where the subkey stands in the upper half of the word
unfoldable pub byte_of : (subkey i : ℕ) → ℕ
byte_of subkey i = subkey / 2 ^ (56 - i * 8) % 2 ^ 8

-- The loop of `computePrefix`
unfoldable pub match_from : Header → (subkey n i : ℕ) → ℕ
unfolding byte_of
match_from h subkey zero i = i
match_from h subkey (suc n) i =
    if byte_of subkey i == h.array i then match_from h subkey n (i + 1) else i

-- The number of bytes by which a header's length moves a key on, in `computePrefix` and in `Insert`.
unfoldable pub steps : (len : ℕ) → ℕ
steps len = if len % 4 == 0 then len else len / 4

-- `computePrefix`
unfoldable pub compute_prefix : Header → (key start : ℕ) → ℕ
unfolding match_from get_subkey steps
compute_prefix h key start =
    if h.len == 0
    then 0
    else match_from h (get_subkey key start node_length * 2 ^ (64 - node_length)) (steps h.len) 0

-- `assign(uint64_t key, int startPos)`: the bytes from the last to the first
unfoldable pub assign : Header → (key start : ℕ) → Header
unfolding get_subkey
assign h key start =
    let subkey = get_subkey key (start * 8) (h.len * 8) * 2 ^ (48 - h.len * 8) in
    record h {
      array = λ i.
          if ltb i node_prefix_max_bytes
          then subkey / 2 ^ ((node_prefix_max_bytes - 1 - i) * 8) % 2 ^ 8
          else h.array i;
    }

-- The length that a header gets at its first key.
unfoldable pub first_len : (len : ℕ) → ℕ
first_len len =
    if len == 0
    then (if leb (64 - len * 8) (48 / node_length * node_length)
        then (64 - len * 8) / 8
        else 48 / node_length * node_length / 8)
    else 0

-- `nodePut`, at a null pointer a fault
unfoldable pub node_put : Memory → (node pos : ℕ) → KeyValue → Run Memory
node_put m p pos kv =
    let n = m.nodes p in
    elim n.tree_node_values [
      | none ↦ stray
      | some values ↦ ok (record m {
        nodes =
            update m.nodes p
              (record n { tree_node_values = some (update values (n.header.len - pos) kv) });
      })
    ]

-- A call of `Insert` from the head of its loop: the node at hand, the length of the key that is
-- consumed, `headerDepth` and `beforeAddress`.
abbrev pub Insert : Type 0
Insert = Memory → (key value node len header_depth : ℕ) → Before → Run Memory

-- The branch for a pair with another key: both pairs go to a new node, which takes its place.
unfoldable pub insert_both :
    Insert → Memory → (key value len header_depth : ℕ) → CounterRef → Run Memory
unfolding new_node write_counter remove_node_flag
insert_both rec m key value len header_depth r =
    let old = m.kvs (counter_at m r).value in
    let (p, m1) = new_node m (header_depth + 1) in
    rec m1 old.key old.value p len (header_depth + 1) root_ref >>= λ m2.
    rec m2 key value p len (header_depth + 1) root_ref >>= λ m3.
    ok (
      write_counter m3 r (record { subkey = remove_node_flag (counter_at m3 r).subkey; value = p }))

-- The branches behind the loop over the bucket, for a counter that has the subkey and a value.
unfoldable pub insert_found :
    Insert → Memory → (key value len header_depth : ℕ) → CounterRef → Run Memory
unfolding insert_both write_counter get_node_flag
insert_found rec m key value len header_depth r =
    let c = counter_at m r in
    if len == 8
    then ok (write_counter m r (record c { value = value }))
    else if get_node_flag c.subkey
    then (if key == (m.kvs c.value).key
        then ok (record m { kvs = update m.kvs c.value (record (m.kvs c.value) { value = value }) })
        else insert_both rec m key value len header_depth r)
    else rec m key value c.value len (m.nodes c.value).header.depth (value_ref r)

-- The branches for a subkey that has no counter, or one with the value 0; `len` is what is consumed
-- behind it.
unfoldable pub insert_add :
    (fuel : ℕ) → Memory → (key value node subkey len : ℕ) → Before → Run Memory
unfolding put put_at alloc_kv get_seg_num get_bucket_num
insert_add fuel m key value p subkey len before =
    let n = m.nodes p in
    let dir_index = get_seg_num subkey node_length n.global_depth in
    let store : Memory → ℕ → Run Memory = λ m1 v.
      put_at (put fuel) m1 p subkey v (n.dir dir_index) dir_index
        (get_bucket_num subkey bucket_mask_len) true before
      >>= λ (m2, p2). ok m2 in
    if len == 8 then store m value else (let (kv, m1) = alloc_kv m key value in store m1 kv)

-- The branches behind the loop over the bucket, by the counter that it found.
unfoldable pub insert_in :
    Insert
    → (fuel : ℕ) → Memory
    → (key value node subkey len header_depth : ℕ) → Before
    → (segment seg_index : ℕ) → Option ℕ
    → Run Memory
unfolding insert_found insert_add
insert_in rec fuel m key value p subkey len header_depth before s seg_index none =
    insert_add fuel m key value p subkey len before
insert_in rec fuel m key value p subkey len header_depth before s seg_index (some i) =
    let r : CounterRef = record { segment = s; index = seg_index; place = i } in
    if (counter_at m r).value == 0
    then insert_add fuel m key value p subkey len before
    else insert_found rec m key value len header_depth r

-- The branch for a key that has the node's prefix; `len` is what is consumed before the subkey.
unfoldable pub insert_here :
    Insert → (fuel : ℕ) → Memory → (key value node len header_depth : ℕ) → Before → Run Memory
unfolding insert_in get_subkey get_seg_num get_bucket_num remove_node_flag
insert_here rec fuel m key value p len header_depth before =
    let n = m.nodes p in
    let subkey = get_subkey key (len * 8) node_length in
    let s = n.dir (get_seg_num subkey node_length n.global_depth) in
    let seg_index = get_bucket_num subkey bucket_mask_len in
    let bucket = (m.segments s).bucket seg_index in
    insert_in rec fuel m key value p subkey (len + 4) header_depth before s seg_index
      (first_index (λ i. subkey == remove_node_flag (bucket i).subkey) bucket_size 0)

-- The branch for a key that leaves the node's prefix: a new node with the pair and with the old node,
-- which keeps the rest of its prefix.
unfoldable pub insert_above :
    (fuel : ℕ) → Memory → (key value node len header_depth matched : ℕ) → Before → Run Memory
unfolding new_node init_header alloc_kv put get_subkey get_32bits store_before
insert_above fuel m key value p len header_depth matched before =
    let (q, m1) = new_node m header_depth in
    let n = m1.nodes p in
    let fresh = m1.nodes q in
    let header = init_header n.header matched n.header.depth in
    elim n.tree_node_values [
      | none ↦ stray
      | some values ↦
          let m2 : Memory = record m1 {
            nodes = update m1.nodes q (record fresh {
              header = header;
              tree_node_values = some (λ i.
                  if leb i matched
                  then values (i + n.header.len - matched)
                  else record { key = 0; value = 0 });
            });
          } in
          let start = if len + matched % 4 == 0 then matched else 0 in
          let (kv, m3) = alloc_kv m2 key value in
          put fuel m3 q (get_subkey key start node_length) kv true local_ref >>= λ (m4, q1).
          put fuel m4 q1 (get_32bits (m4.nodes p) matched) p false local_ref >>= λ (m5, q2).
          let n5 = m5.nodes p in
          let top = (m5.nodes q2).header in
          let below : Header = record {
            len = (n5.header.len + 256 - (matched + top.depth + 1) % 256) % 256;
            depth = top.depth + top.len / 4 + 1;
            array = λ i.
                if ltb i (node_prefix_max_bytes - matched)
                then n5.header.array (i + matched)
                else n5.header.array i;
          } in
          let m6 : Memory = record m5 {
            nodes = update m5.nodes p (record n5 { header = below });
          } in
          store_before m6 top.depth before q2
    ]

-- One round of the loop of `Insert`.
unfoldable pub insert_round :
    Insert → (fuel : ℕ) → Memory → (key value node len header_depth : ℕ) → Before → Run Memory
unfolding insert_here insert_above node_put alloc_kv compute_prefix assign first_len steps
insert_round rec fuel m key value p len header_depth before =
    let n = m.nodes p in
    let matched = compute_prefix n.header key (len * 8) in
    if ltb node_prefix_max_bytes n.header.len
    then rec
        (record m {
          nodes =
              update m.nodes p
                (record n { header = assign (record (n.header) { len = first_len len }) key len });
        })
        key value p len header_depth before
    else if len + matched == 8
    then node_put m p matched (record { key = key; value = value })
    else if matched / 4 == n.header.len / 4
    then insert_here rec fuel m key value p (len + steps n.header.len) header_depth before
    else insert_above fuel m key value p len header_depth matched before

unfoldable pub insert_loop : (fuel : ℕ) → Insert
unfolding insert_round
insert_loop zero m key value p len header_depth before = out_of_fuel
insert_loop (suc fuel) m key value p len header_depth before =
    if ltb len 8
    then insert_round (insert_loop fuel) fuel m key value p len header_depth before
    else ok m

-- `tree->Insert(key, value)`
unfoldable pub insert : (fuel : ℕ) → Memory → (key value : ℕ) → Run Memory
unfolding insert_loop
insert fuel m key value =
    insert_loop fuel m key value m.root 0 (m.nodes m.root).header.depth root_ref

-- `isSame`
unfoldable pub is_same_from : (array : ℕ → ℕ) (subkey n i : ℕ) → Bool
unfolding byte_of
is_same_from array subkey zero i = true
is_same_from array subkey (suc n) i =
    byte_of subkey i == array i && is_same_from array subkey n (i + 1)

unfoldable pub is_same : (array : ℕ → ℕ) (key pos length : ℕ) → Bool
unfolding is_same_from get_subkey
is_same array key pos length =
    is_same_from array (get_subkey key pos length * 2 ^ (64 - length)) (length / 8) 0

-- -1 as a `uint64_t`
abbrev pub missing : ℕ
missing = 2 ^ 64 - 1

-- The end of a round of `Search`, at the position behind the subkey.
unfoldable pub search_next :
    (Memory → (key node pos : ℕ) → Run ℕ) → Memory → (key pos : ℕ) → Option (ℕ × Bool) → Run ℕ
search_next rec m key pos none = ok missing
search_next rec m key pos (some (next, true)) =
    ok (if pos == 8 then next else if key == (m.kvs next).key then (m.kvs next).value else 0)
search_next rec m key pos (some (next, false)) = rec m key next pos

-- One round of the loop of `Search`: a prefix that may reach the end of the key is a read at a place
-- below 0 of the array.
unfoldable pub search_round :
    (Memory → (key node pos : ℕ) → Run ℕ) → Memory → (key node pos : ℕ) → Run ℕ
unfolding search_next get is_same get_subkey
search_round rec m key p pos =
    let h = (m.nodes p).header in
    let go : ℕ → Run ℕ =
      λ at. search_next rec m key (at + 4) (get m p (get_subkey key (at * 8) node_length)) in
    if h.len / 4 == 0
    then go pos
    else if leb (8 - pos) h.len
    then stray
    else if is_same h.array key (pos * 8) (h.len * 8)
    then go (pos + h.len)
    else ok 0

unfoldable pub search_loop : (fuel : ℕ) → Memory → (key node pos : ℕ) → Run ℕ
unfolding search_round
search_loop zero m key p pos = out_of_fuel
search_loop (suc fuel) m key p pos =
    if ltb pos 8
    then (if p == 0 then stray else search_round (search_loop fuel) m key p pos)
    else ok 0

-- `tree->Search(key)`
unfoldable pub search : (fuel : ℕ) → Memory → (key : ℕ) → Run ℕ
unfolding search_loop
search fuel m key = if m.root == 0 then ok 0 else search_loop fuel m key m.root 0

-- Memory from which nothing has been taken.
abbrev pub no_memory : Memory
no_memory = record {
  segments = λ a. record { depth = 0; bucket = λ i j. record { subkey = 0; value = 0 } };
  next_segment = 1;
  nodes = λ a. record {
    header = record { len = 0; depth = 0; array = λ i. 0 };
    global_depth = 0;
    dir_size = 0;
    tree_node_values = none;
    dir = λ i. 0;
  };
  next_node = 1;
  kvs = λ a. record { key = 0; value = 0 };
  next_kv = 1;
  root = 0;
}

-- `NewExtendibleRadixTreeInt`
unfoldable pub new_tree : Memory
unfolding new_node
new_tree = let (p, m) = new_node no_memory 0 in record m { root = p }
