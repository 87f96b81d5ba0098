-- ===== src/Wrert/Tree.antt =====
-- `WRERT::insert` and `WRERT::search` of wrert/wrert.cpp. A loop takes fuel for its rounds, and an
-- insertion into a new child, which is a call of `insert`, takes the fuel that is left.
use wrert.Prelude.{
  ℕ, zero, suc, ◌+◌, ◌-◌, ◌*◌, ◌/◌, ◌%◌, ◌^◌, Bool, true, false, ◌&&◌, not, Option, none, some, ltb,
  leb, ◌==◌, if◌then◌else◌, Run, ok, stray, out_of_fuel, ◌>>=◌,
}
use wrert.Wrert.Bucket.{hit, vacant, full, probe}
use wrert.Wrert.Header.{compute_prefix, assign_prefix, initialize, prefix_array_bits, shift_array}
use wrert.Wrert.Memory.{
  Memory, SlotRef, Before, root_ref, slot_ref, slot_at, write_slot, write_node, write_kv, alloc_kv,
  store_before,
}
use wrert.Wrert.Node.{Home, home, get_seg_node, put, put_seg_node, new_node}
use wrert.Wrert.Slot.{Slot, shared_version, main_version}
use wrert.Wrert.Words.{
  key_max_bytes, node_span, node_subkey_max_bytes, get_subkey, failed, not_found,
}

-- What the two loops of an insertion settle: the slot of the subkey, or where a new one goes, with
-- `_isShareOrMainFlag`.
pub data Spot : Type 0 where
  found : SlotRef → Spot
  free : Option (Bool × SlotRef) → Spot

unfoldable pub locate : Memory → Home → (subkey : ℕ) → Spot
locate m at subkey =
    let segment = m.segments at.entry.segment_ptr in
    let shared : ℕ → SlotRef =
      λ i. record { segment = at.entry.segment_ptr; position = at.shared_position; index = i } in
    let main : ℕ → SlotRef =
      λ i. record { segment = at.entry.segment_ptr; position = at.main_position; index = i } in
    let in_main = probe (segment at.main_position) (main_version at.entry.local_depth) subkey in
    elim (probe (segment at.shared_position) (shared_version at.entry.local_depth) subkey) [
      | hit i ↦ found (shared i)
      | vacant i ↦ elim in_main [
        | hit j ↦ found (main j)
        | vacant j ↦ free (some (false, shared i))
        | full ↦ free (some (false, shared i))
      ]
      | full ↦ elim in_main [
        | hit j ↦ found (main j)
        | vacant j ↦ free (some (true, main j))
        | full ↦ free none
      ]
    ]

-- `OperationResults::Success` (true) or `Failed`, with the memory.
abbrev pub Result : Type 0
Result = Run (Memory × Bool)

abbrev pub success : Memory → Result
success m = ok (m, true)

-- A call of `insert` on a node, with the bytes of the key that are used up and the pair that already
-- holds the key, if any (`_kv`).
abbrev pub Insert : Type 0
Insert = Memory → (key value node position : ℕ) → (pair : Option ℕ) → Before → Result

-- The store of a value in a slot's value field.
unfoldable pub set_value : Memory → SlotRef → ℕ → Memory
set_value m r v = write_slot m r (record (slot_at m r) { value = v % 2 ^ 48 })

-- Case 2.1: the last four bytes of the key. The value stands in the slot itself.
unfoldable pub insert_last :
    (fuel : ℕ) → Memory → (subkey value node : ℕ) → Home → Spot → Before → Result
unfolding set_value
insert_last fuel m subkey value p at (found r) before = success (set_value m r value)
insert_last fuel m subkey value p at (free slot) before =
    put fuel m p (record { subkey = subkey; value = value; fingerprint = 0; node_flag = 0 }) at slot
      before
    >>= success

-- `kv` of case 2.2.1: the pair that was passed in, or a new one.
unfoldable pub pair_for : Memory → (key value : ℕ) → Option ℕ → ℕ × Memory
pair_for m key value (some kv) = (kv, m)
pair_for m key value none = alloc_kv m key value

-- Case 2.2.4: two keys share the subkey, and go to a new node below.
unfoldable pub insert_below :
    Insert → Memory → (key value node position kv : ℕ) → (pair : Option ℕ) → SlotRef → Result
insert_below rec m key value p position kv pair r =
    let (child, m1) = new_node m 0 0 in
    let n = m1.nodes child in
    let header =
      initialize n.header (some (m1.nodes p).header) 0 (position / node_subkey_max_bytes) in
    let m2 = write_node m1 child (record n { header = header }) in
    let old = m2.kvs kv in
    rec m2 old.key old.value child position (some kv) root_ref >>= λ (m3, _).
    rec m3 key value child position pair root_ref >>= λ (m4, _).
    success (write_slot m4 r (record (slot_at m4 r) { node_flag = 1; value = child % 2 ^ 48 }))

-- Case 2.2: bytes of the key are left.
unfoldable pub insert_inner :
    Insert
    → (fuel : ℕ) → Memory
    → (key value subkey node position : ℕ) → (pair : Option ℕ) → Home
    → Spot
    → Before
    → Result
unfolding pair_for insert_below
insert_inner rec fuel m key value subkey p position pair at (free slot) before =
    let (kv, m1) = pair_for m key value pair in
    put fuel m1 p (record { subkey = subkey; value = kv; fingerprint = 0; node_flag = 0 }) at slot
      before
    >>= success
insert_inner rec fuel m key value subkey p position pair at (found r) before =
    let s = slot_at m r in
    if s.node_flag == 1
    then rec m key value s.value position pair (slot_ref r)
    else let kv = m.kvs s.value in
      if kv.key == key
      then success (write_kv m s.value (record kv { value = value }))
      else insert_below rec m key value p position s.value pair r

-- Case 2: the key runs along the prefix of the node.
unfoldable pub insert_here :
    Insert
    → (fuel : ℕ) → Memory
    → (key value node position : ℕ) → (pair : Option ℕ) → Before
    → Result
unfolding locate insert_last insert_inner
insert_here rec fuel m key value p position pair before =
    let n = m.nodes p in
    let start = position + n.header.prefix_length * 4 in
    let subkey = get_subkey key (start * 8) node_span in
    let at = home n subkey in
    let spot = locate m at subkey in
    let next = start + node_subkey_max_bytes in
    if next == key_max_bytes
    then insert_last fuel m subkey value p at spot before
    else insert_inner rec fuel m key value subkey p next pair at spot before

-- Case 3: a new node above this one, at the first group of bytes that differs.
unfoldable pub insert_above :
    (fuel : ℕ) → Memory → (key value node position matched : ℕ) → Before → Result
insert_above fuel m key value p position matched before =
    let (q, m1) = new_node m 0 0 in
    let n = m1.nodes p in
    let above = m1.nodes q in
    let header = initialize above.header (some n.header) matched n.header.node_header_depth in
    let m2 = write_node m1 q (record above { header = header }) in
    let subkey = get_subkey key ((position + matched) * 8) node_span in
    let (kv, m3) = alloc_kv m2 key value in
    put_seg_node fuel m3 q (record { subkey = subkey; value = kv; fingerprint = 0; node_flag = 0 })
      before
    >>= λ m4.
        put_seg_node fuel m4 q
          (record {
            subkey =
                prefix_array_bits n.header.prefix_array (matched * node_subkey_max_bytes)
                  node_subkey_max_bytes 0;
            value = p;
            fingerprint = 0;
            node_flag = 1;
          })
          before
        >>= λ m5.
            let low = record n {
              header = record {
                node_header_depth = matched + n.header.node_header_depth + 1;
                prefix_length = n.header.prefix_length - (matched + n.header.node_header_depth + 1);
                prefix_array = shift_array n.header matched;
              };
            } in
            store_before (write_node m5 p low) n.header.node_header_depth before q >>= success

-- One round of the loop of `insert`. `arrayMatchLength` stays 0, so case 1 (the key ends in the
-- prefix) never comes up.
unfoldable pub insert_round :
    Insert
    → (fuel : ℕ) → Memory
    → (key value node position : ℕ) → (pair : Option ℕ) → Before
    → Result
unfolding insert_here insert_above
insert_round rec fuel m key value p position pair before =
    let n = m.nodes p in
    elim (compute_prefix n.header key (position * 4)) [
      | none ↦
          let fresh = record (n.header) { prefix_length = 1 } in
          rec (write_node m p (record n { header = assign_prefix fresh key (position * 8) })) key
            value p position pair before
      | some matched ↦
          if n.header.prefix_length == matched
          then insert_here rec fuel m key value p position pair before
          else if not (n.header.prefix_length == 0) && ltb matched n.header.prefix_length
          then insert_above fuel m key value p position matched before
          else rec m key value p position pair before
    ]

unfoldable pub insert_loop : (fuel : ℕ) → Insert
unfolding insert_round
insert_loop zero m key value p position pair before = out_of_fuel
insert_loop (suc fuel) m key value p position pair before =
    if ltb position key_max_bytes
    then insert_round (insert_loop fuel) fuel m key value p position pair before
    else ok (m, false)

-- `tree->insert(key, value)`
unfoldable pub insert : (fuel : ℕ) → Memory → (key value : ℕ) → Result
unfolding insert_loop
insert fuel m key value = insert_loop fuel m key value m.root 0 none root_ref

-- The value of a slot in `search`: the value itself at the end of the key, or a pair.
unfoldable pub search_slot : Memory → (key position : ℕ) → Slot → ℕ
search_slot m key position s =
    if position == key_max_bytes
    then s.value
    else if key == (m.kvs s.value).key
    then (m.kvs s.value).value
    else failed

-- The end of a round: a subkey that is missing, a value, or the next node.
unfoldable pub search_next :
    (Memory → (key node position : ℕ) → Run ℕ)
    → Memory
    → (key position : ℕ) → Option SlotRef
    → Run ℕ
unfolding search_slot
search_next rec m key position none = ok failed
search_next rec m key position (some r) =
    let s = slot_at m r in
    if s.node_flag == 0 then ok (search_slot m key position s) else rec m key s.value position

-- The loop of `search`. `arrayMatchLength`, which is never set, is an argument; where it is not 0
-- the code may go on to read a global segment, and no node has one.
unfoldable pub search_loop :
    (array_match_length : ℕ) (fuel : ℕ) → Memory → (key node position : ℕ) → Run ℕ
unfolding search_next
search_loop aml zero m key p position = out_of_fuel
search_loop aml (suc fuel) m key p position =
    let n = m.nodes p in
    let len = n.header.prefix_length in
    let go : ℕ → Run ℕ = λ start.
      search_next (search_loop aml fuel) m key
        (start + (if len == 0 then node_subkey_max_bytes else len * 4))
        (get_seg_node m n (get_subkey key (start * 8) node_span)) in
    if leb key_max_bytes position
    then ok not_found
    else if len == 0
    then go position
    else if not (aml == 0) && leb (position + aml) (len * node_subkey_max_bytes)
    then stray
    else elim (compute_prefix n.header key (position * 8)) [
      | none ↦ ok failed
      | some matched ↦
          if len == matched then go (position + len * node_subkey_max_bytes) else ok failed
    ]

-- `tree->search(key)`
unfoldable pub search : (array_match_length fuel : ℕ) → Memory → (key : ℕ) → Run ℕ
unfolding search_loop
search aml fuel m key = if m.root == 0 then ok not_found else search_loop aml fuel m key m.root 0
