-- ===== src/Fastalloc/Sequence.antt =====
-- A sequence of calls of fastalloc::alloc.
use wrert.Prelude.{
  ℕ, ◌+◌, ◌≤◌, ◌<◌, ◌≡◌, inl, inr, refl, Bool, true, false, some, List, [], ◌∷◌, arith, length,
}
use wrert.Fastalloc.{
  Fastalloc, Request, Block, alloc_size, max_arenas, init, first_arena, alloc_all,
}
use wrert.Fastalloc.Blocks.{Apart, Separate, IsPool, Given, IsFastalloc, alloc-Allocs}

-- A stretch of memory that no block of a list touches.
unfoldable pub ApartFrom : (start size : ℕ) → List Block → Type 0
ApartFrom start size [] = Unit
ApartFrom start size (b ∷ bs) = Apart start size b.start b.size × ApartFrom start size bs

-- Every block answers its request, stands in one arena, and is apart from those after it.
unfoldable pub Answers : (arenas : Bool → ℕ → ℕ) → List Request → List Block → Type 0
unfolding ApartFrom
Answers arenas [] [] = Unit
Answers arenas [] (b ∷ bs) = ⊥
Answers arenas (r ∷ rs) [] = ⊥
Answers arenas (r ∷ rs) (b ∷ bs) =
    (b.size ≡ r.size)
    × ((s : Bool) × (i : ℕ) × (arenas s i ≤ b.start) × (b.start + b.size ≤ arenas s i + alloc_size))
    × ApartFrom b.start b.size bs
    × Answers arenas rs bs

-- No request asks for more than an arena.
unfoldable pub Small : List Request → Type 0
Small [] = Unit
Small (r ∷ rs) = (r.size ≤ alloc_size) × Small rs

module _ (arenas : Bool → ℕ → ℕ) (sep : Separate arenas) where
  -- What a sequence of calls gives, also against the blocks that were given before.
  record Goes (rs : List Request) (a : Fastalloc) (bs : List Block) : Type 0 where
    answers : Answers arenas rs bs
    apart : (b n : ℕ) → Given arenas a b n → ApartFrom b n bs

  inside :
      (a : Fastalloc) (b n : ℕ)
      → Given arenas a b n
      → (s : Bool) × (i : ℕ) × (arenas s i ≤ b) × (b + n ≤ arenas s i + alloc_size)
  inside a b n (inl u) = (true, u.number, u.from, u.to)
  inside a b n (inr u) = (false, u.number, u.from, u.to)

  turned : (a m b n : ℕ) → Apart a m b n → Apart b n a m
  turned a m b n (inl l) = inr l
  turned a m b n (inr r) = inl r

  goes :
      (rs : List Request) (a : Fastalloc)
      → IsFastalloc arenas a
      → Small rs
      → a.dram.cnt + length rs ≤ max_arenas
      → a.nvm.cnt + length rs ≤ max_arenas
      → (r : List Block × Fastalloc) × (alloc_all arenas rs a ≡ some r) × Goes rs a r.0
  unfolding alloc_all Small Answers length ApartFrom
  goes [] a w small d n = (([], a), refl, record { answers = tt; apart = λ b m g. tt })
  goes (q ∷ rs) a w small d n =
      let (r, e, s) =
        alloc-Allocs arenas sep q.size q.on_nvm a w small.0 (omega arith) (omega arith) in
      let (rest, f, g) =
        goes rs r.1 s.shape small.1 (omega (arith, s.dram_count)) (omega (arith, s.nvm_count)) in
      (
        (record { start = r.0; size = q.size } ∷ rest.0, rest.1),
        rw (e, alloc_all) (rw (f, alloc_all) refl),
        record {
          answers = (refl, inside r.1 r.0 q.size s.used, g.apart r.0 q.size s.used, g.answers);
          apart = λ b m h. (turned r.0 q.size b m (s.apart b m h), g.apart b m (s.kept b m h));
        },
      )

-- Where arenas do not overlap and no request is larger than an arena, fewer than a hundred calls from a
-- new allocator all give a block. Each block has the size that was asked for, stands in one arena, and
-- overlaps none of the others.
pub alloc_all-Answers :
    (arenas : Bool → ℕ → ℕ)
    → Separate arenas
    → (rs : List Request) → Small rs
    → length rs < max_arenas
    → (r : List Block × Fastalloc) × (alloc_all arenas rs (init arenas) ≡ some r)
      × Answers arenas rs r.0
unfolding init first_arena
alloc_all-Answers arenas sep rs small few =
    let pool : (s : Bool) → IsPool (arenas s) (first_arena (arenas s)) =
      λ s. record { some_arena = omega arith; end = omega arith; bound = omega arith } in
    let (r, e, g) =
      goes arenas sep rs (init arenas) (record { dram = pool false; nvm = pool true }) small
        (omega arith) (omega arith) in
    (r, e, g.answers)
