-- ===== src/Rng/Tests.antt =====
-- Runs of the generator.
use wrert.Prelude.{◌+◌, ◌≡◌, refl, ◌^◌}
use wrert.Rng.{rotl, rng_init, rng_next}

rotl_sample : rotl (2 ^ 63 + 1) 1 ≡ 3
unfolding rotl
rotl_sample = refl

next_sample : (rng_next (rng_init 1 2)).0 ≡ 1
unfolding rng_next rng_init
next_sample = refl
