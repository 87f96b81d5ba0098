-- ===== src/Wrert/Examples.antt =====
-- A bucket with two pairs.
mod Recoveries
mod Scans
mod Splits
use wrert.Prelude.{some, ℕ, zero, suc, ◌<◌, ◌≡◌, refl, ltb, arith, true, false, update, first_index}
use wrert.Wrert.Header.Prefixes.{compute_prefix-assign_prefix}
use wrert.Wrert.Header.{Header, assign_prefix, compute_prefix}
use wrert.Wrert.Bucket.Find.{Tells, has, find-Tells}
use wrert.Wrert.Bucket.{
  find, Bucket, probe, scalar_probe, vacant, find_lanes, probe_lanes, hit_lane, or_next, last_index,
}
use wrert.Wrert.Bucket.Insertion.{find-probe, probe-Filled}
use wrert.Wrert.Bucket.Scan.{Filled, probe-scalar}
use wrert.Wrert.Slot.{Slot, zero_slot, Fits, is_valid, word, valid_version_bits, subkey_bits}

abbrev taken : ℕ → Slot
taken sub_key = record zero_slot { sub_key = sub_key; mig_version = 2; valid_flag = 1; value = 10 }

-- The third slot was valid at an earlier depth.
abbrev two_pairs : Bucket
two_pairs zero = taken 7
two_pairs (suc zero) = taken 9
two_pairs (suc (suc zero)) = record (taken 9) { mig_version = 1 }
two_pairs (suc (suc (suc i))) = zero_slot

two_pairs-Filled : Filled two_pairs 2 2
unfolding is_valid
two_pairs-Filled = record { fits = fits; count = omega arith; prefix = prefix }
  where
    fits : (i : ℕ) → i < 16 → Fits (two_pairs i)
    fits zero lt = record {
      sub_key = omega arith;
      mig_version = omega arith;
      valid_flag = omega arith;
      node_flag = omega arith;
      fingerprint = omega arith;
    }
    fits (suc zero) lt = record {
      sub_key = omega arith;
      mig_version = omega arith;
      valid_flag = omega arith;
      node_flag = omega arith;
      fingerprint = omega arith;
    }
    fits (suc (suc zero)) lt = record {
      sub_key = omega arith;
      mig_version = omega arith;
      valid_flag = omega arith;
      node_flag = omega arith;
      fingerprint = omega arith;
    }
    fits (suc (suc (suc i))) lt = record {
      sub_key = omega arith;
      mig_version = omega arith;
      valid_flag = omega arith;
      node_flag = omega arith;
      fingerprint = omega arith;
    }

    prefix : (i : ℕ) → i < 16 → is_valid 2 (two_pairs i) ≡ ltb i 2
    prefix zero lt = refl
    prefix (suc zero) lt = refl
    prefix (suc (suc zero)) lt = refl
    prefix (suc (suc (suc i))) lt = ground arith

probe-scalar_example : probe two_pairs 2 9 ≡ scalar_probe two_pairs 2 9 16 0
probe-scalar_example = probe-scalar two_pairs 2 9 2 (omega arith) two_pairs-Filled

two_pairs-Fits : (i : ℕ) → i < 16 → Fits (two_pairs i)
two_pairs-Fits i lt = two_pairs-Filled.fits i lt

find-Tells_example :
    Tells (λ i. has 2 9 (two_pairs i)) (λ i. has 3 9 (two_pairs i)) (find two_pairs two_pairs 2 3 9)
find-Tells_example =
    find-Tells two_pairs two_pairs 2 3 9 two_pairs-Fits two_pairs-Fits (omega arith) (omega arith)
      (omega arith)

none_at_three : (i : ℕ) → i < 16 → has 3 5 (two_pairs i) ≡ false
unfolding has is_valid
none_at_three zero lt = refl
none_at_three (suc zero) lt = refl
none_at_three (suc (suc zero)) lt = refl
none_at_three (suc (suc (suc i))) lt = refl

taken-Fits : Fits (taken 5)
taken-Fits = record {
  sub_key = omega arith;
  mig_version = omega arith;
  valid_flag = omega arith;
  node_flag = omega arith;
  fingerprint = omega arith;
}

third_is_free : probe two_pairs 2 5 ≡ vacant 2
unfolding probe probe_lanes hit_lane or_next last_index word valid_version_bits subkey_bits
    first_index
third_is_free = refl

taken-has : has 2 5 (taken 5) ≡ true
unfolding has is_valid
taken-has = refl

find-probe_example : find two_pairs (update two_pairs 2 (taken 5)) 3 2 5 ≡ some (false, 2)
find-probe_example =
    find-probe two_pairs two_pairs 3 2 5 2 2 (taken 5) (omega arith) (omega arith) (omega arith)
      two_pairs-Fits none_at_three two_pairs-Filled third_is_free taken-Fits taken-has

taken-is_valid : is_valid 2 (taken 5) ≡ true
unfolding is_valid
taken-is_valid = refl

probe-Filled_example : Filled (update two_pairs 2 (taken 5)) 2 3
probe-Filled_example =
    probe-Filled two_pairs 2 5 2 2 (taken 5) (omega arith) two_pairs-Filled third_is_free taken-Fits
      taken-is_valid

-- A header of one group, at the second byte of a key.
abbrev short : Header
short = record { node_header_depth = 0; prefix_length = 1; prefix_array = λ i. 0 }

compute_prefix-assign_prefix_example :
    compute_prefix (assign_prefix short 0x1122_3344_5566_7788 8) 0x1122_3344_5566_7788 8 ≡ some 1
compute_prefix-assign_prefix_example =
    compute_prefix-assign_prefix short 0x1122_3344_5566_7788 8 refl
