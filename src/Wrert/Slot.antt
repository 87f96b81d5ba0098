-- ===== src/Wrert/Slot.antt =====
-- `WRERTSlotKeyValue`: sixteen bytes, the bit fields of the first word and the value fields of the
-- second.
use wrert.Prelude.{ℕ, ◌+◌, ◌*◌, ◌/◌, ◌%◌, ◌^◌, ◌≡◌, ◌<◌, Bool, ◌&&◌, ◌==◌, arith}

-- The fields as they stand in the word: `mig_version` is the pattern of the signed 9-bit field.
-- (The second `migVersion`, in the upper bits of the value, is never used.)
pub record Slot : Type 0 where
  pub sub_key : ℕ
  pub mig_version : ℕ
  pub valid_flag : ℕ
  pub node_flag : ℕ
  pub fingerprint : ℕ
  pub value : ℕ

-- Fresh memory is zero.
abbrev pub zero_slot : Slot
zero_slot = record {
  sub_key = 0;
  mig_version = 0;
  valid_flag = 0;
  node_flag = 0;
  fingerprint = 0;
  value = 0;
}

-- The word that the vector instructions load.
unfoldable pub word : Slot → ℕ
word s =
    s.sub_key
    + 2 ^ 32 * s.mig_version
    + 2 ^ 41 * s.valid_flag
    + 2 ^ 42 * s.node_flag
    + 2 ^ 43 * s.fingerprint

-- A version as the pattern of nine bits; a local depth less one is -1 at depth 0.
unfoldable pub shared_version : ℕ → ℕ
shared_version local_depth = (local_depth + 511) % 512

unfoldable pub main_version : ℕ → ℕ
main_version local_depth = local_depth % 512

-- A field fits its bits.
pub record Fits (s : Slot) : Type 0 where
  pub sub_key : s.sub_key < 2 ^ 32
  pub mig_version : s.mig_version < 2 ^ 9
  pub valid_flag : s.valid_flag < 2
  pub node_flag : s.node_flag < 2
  pub fingerprint : s.fingerprint < 2 ^ 16

-- The fields of the word under the masks that the code uses.
unfoldable pub valid_version_bits : ℕ → ℕ
valid_version_bits w = w / 2 ^ 32 % 2 ^ 10 * 2 ^ 32

unfoldable pub version_bits : ℕ → ℕ
version_bits w = w / 2 ^ 32 % 2 ^ 8

unfoldable pub subkey_bits : ℕ → ℕ
subkey_bits w = w % 2 ^ 32

unfoldable pub valid_version_subkey_bits : ℕ → ℕ
valid_version_subkey_bits w = w % 2 ^ 42

-- `slot->subKeyFields.validFlag == 1 && slot->subKeyFields.migVersion == version`
unfoldable pub is_valid : ℕ → Slot → Bool
is_valid version s = s.valid_flag == 1 && s.mig_version == version

-- The masked comparison of a lane is the test of the two fields.
pub valid_version_bits-word :
    (s : Slot) (version : ℕ)
    → Fits s
    → version < 2 ^ 9
    → (valid_version_bits (word s) == 2 ^ 41 + version * 2 ^ 32) ≡ is_valid version s
unfolding valid_version_bits word is_valid
valid_version_bits-word s version fits small = ground arith

pub subkey_bits-word : (s : Slot) → Fits s → subkey_bits (word s) ≡ s.sub_key
unfolding subkey_bits word
subkey_bits-word s fits = ground arith

pub valid_version_subkey_bits-word :
    (s : Slot) (version subkey : ℕ)
    → Fits s
    → version < 2 ^ 9
    → subkey < 2 ^ 32
    → (valid_version_subkey_bits (word s) == 2 ^ 41 + version * 2 ^ 32 + subkey)
      ≡ (is_valid version s && s.sub_key == subkey)
unfolding valid_version_subkey_bits word is_valid
valid_version_subkey_bits-word s version subkey fits small sub_small = ground arith
