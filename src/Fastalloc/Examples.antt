-- ===== src/Fastalloc/Examples.antt =====
-- Blocks from arenas that follow one another.
use wrert.Prelude.{
  ℕ, ◌+◌, ◌*◌, ◌≤◌, ◌<◌, ◌≡◌, ◌⊎◌, inl, Bool, true, false, some, List, [], ◌∷◌, arith, length,
}
use wrert.Fastalloc.{Fastalloc, Request, Block, alloc_size, init, alloc_all}
use wrert.Fastalloc.Blocks.{Separate}
use wrert.Fastalloc.Sequence.{Small, Answers, alloc_all-Answers}

abbrev arenas : Bool → ℕ → ℕ
arenas true i = 2 * i * alloc_size
arenas false i = (2 * i + 1) * alloc_size

arenas-Separate : Separate arenas
arenas-Separate = record { same = same; across = λ i j. omega arith }
  where
    same :
        (s : Bool) (i j : ℕ)
        → i < j
        → (arenas s i + alloc_size ≤ arenas s j) ⊎ (arenas s j + alloc_size ≤ arenas s i)
    same true i j lt = inl (omega arith)
    same false i j lt = inl (omega arith)

-- The third request opens a second arena.
abbrev requests : List Request
requests =
    record { size = 100; on_nvm = true }
    ∷ record { size = 24; on_nvm = false }
    ∷ record { size = alloc_size; on_nvm = true }
    ∷ []

requests-Small : Small requests
unfolding Small
requests-Small = (omega arith, (omega arith, (omega arith, tt)))

few : length requests < 100
unfolding length
few = omega arith

alloc_all-Answers_example :
    (r : List Block × Fastalloc) × (alloc_all arenas requests (init arenas) ≡ some r)
    × Answers arenas requests r.0
alloc_all-Answers_example = alloc_all-Answers arenas arenas-Separate requests requests-Small few
