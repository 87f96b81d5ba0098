-- ===== src/Wrert/Header.antt =====
-- `WRERTHeader`: the path that a node skips, kept as bytes; its length counts groups of four.
pub mod Prefixes
use wrert.Prelude.{
  ℕ, zero, suc, ◌+◌, ◌-◌, ◌*◌, ◌/◌, ◌%◌, ◌^◌, ◌&&◌, Option, none, some, ltb, ◌==◌, if◌then◌else◌,
}
use wrert.Wrert.Words.{get_subkey, node_subkey_max_bytes, node_prefix_max_bytes, init_prefix_length}

pub record Header : Type 0 where
  pub node_header_depth : ℕ
  pub prefix_length : ℕ
  pub prefix_array : ℕ → ℕ

abbrev pub zero_header : Header
zero_header = record { node_header_depth = 0; prefix_length = 0; prefix_array = λ i. 0 }

-- `(shiftedSubKey >> (56 - j * 8)) & 0xFF`
unfoldable pub byte_of : (shifted_sub_key j : ℕ) → ℕ
byte_of shifted_sub_key j = shifted_sub_key / 2 ^ (56 - j * 8) % 2 ^ 8

-- The inner loop over the bytes `j`, `j + 1`, … of a group: how many match before the first that
-- does not (`flag`). Each round also says `arrayMatchLength++`, which moves the pointer and leaves
-- the number alone.
unfoldable pub match_bytes : (Header) → (shifted_sub_key n j flag : ℕ) → ℕ
unfolding byte_of
match_bytes h shifted_sub_key zero j flag = flag
match_bytes h shifted_sub_key (suc n) j flag =
    if ltb j node_prefix_max_bytes && byte_of shifted_sub_key j == h.prefix_array j
    then match_bytes h shifted_sub_key n (j + 1) (flag + 1)
    else flag

-- The outer loop over the groups.
unfoldable pub match_groups : (Header) → (shifted_sub_key n i matched : ℕ) → ℕ
match_groups h shifted_sub_key zero i matched = matched
match_groups h shifted_sub_key (suc n) i matched = match_groups h shifted_sub_key n (i + 1) (
    if match_bytes h shifted_sub_key node_subkey_max_bytes (i * node_subkey_max_bytes) 0
      == node_subkey_max_bytes
    then matched + 1
    else matched)

-- `computePrefix`: `none` where it answers -1.
unfoldable pub compute_prefix : Header → (key start_position : ℕ) → Option ℕ
compute_prefix h key start_position =
    if h.prefix_length == 6
    then none
    else if h.prefix_length == 0
    then some 0
    else let bits = h.prefix_length * node_subkey_max_bytes * 8 in
      let shifted = get_subkey key start_position bits * 2 ^ (64 - bits) % 2 ^ 64 in
      some (match_groups h shifted h.prefix_length 0 0)

-- `assignPrefix(uint64_t key, int startPosition)`: the bytes from the last to the first.
unfoldable pub assign_prefix : Header → (key start_position : ℕ) → Header
assign_prefix h key start_position =
    let bits = h.prefix_length * node_subkey_max_bytes * 8 in
    let subkey = get_subkey key start_position bits * 2 ^ (48 - bits) in
    record h {
      prefix_array = λ i.
          if ltb i node_prefix_max_bytes
          then subkey / 2 ^ ((node_prefix_max_bytes - 1 - i) * 8) % 2 ^ 8
          else h.prefix_array i;
    }

-- `assignPrefix(const unsigned char* key, unsigned char assignedLength)`
unfoldable pub assign_prefix_bytes : Header → (ℕ → ℕ) → ℕ → Header
assign_prefix_bytes h key assigned_length =
    if assigned_length == init_prefix_length then h else record h {
      prefix_array = λ i.
          if ltb i (assigned_length * node_subkey_max_bytes) && ltb i node_prefix_max_bytes
          then key i
          else h.prefix_array i;
    }

-- `initialize`
unfoldable pub initialize : Header → Option Header → (prefix_length node_header_depth : ℕ) → Header
unfolding assign_prefix_bytes
initialize h old prefix_length node_header_depth =
    let base : Header = elim old [
      | none ↦ h
      | some o ↦ assign_prefix_bytes h o.prefix_array prefix_length
    ] in
    record base { prefix_length = prefix_length; node_header_depth = node_header_depth }

-- WRERT_GET_PREFIX_ARRAY_BITS
unfoldable pub prefix_array_bits : (ℕ → ℕ) → (start_position n result : ℕ) → ℕ
prefix_array_bits a start zero result = result
prefix_array_bits a start (suc n) result =
    prefix_array_bits a (start + 1) n (result * 2 ^ 8 + a start)

-- The bytes of a header that moves down below `prefix_match_length` groups and one more.
unfoldable pub shift_array : Header → (prefix_match_length : ℕ) → ℕ → ℕ
shift_array h prefix_match_length j =
    if ltb j ((prefix_match_length + 1) * node_subkey_max_bytes)
    then (if ltb (j + node_subkey_max_bytes) node_prefix_max_bytes
        then h.prefix_array (j + node_subkey_max_bytes)
        else 0)
    else h.prefix_array j
