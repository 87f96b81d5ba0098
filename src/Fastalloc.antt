-- ===== src/Fastalloc.antt =====
-- The bump allocator of fastalloc/fastalloc.h and fastalloc/fastalloc.cpp: arenas of 64 GB, one
-- list of them in main memory and one in persistent memory, from which blocks are cut in order.
--
-- `new char[…]` and `mmap` are not part of the repository: the addresses they give are the
-- parameter `arenas` of the operations, by the kind of memory and the number of the arena.
pub mod Blocks
pub mod Sequence
mod Examples
use wrert.Prelude.{
  ℕ, ◌+◌, ◌-◌, ◌*◌, ◌/◌, ◌%◌, ◌^◌, Bool, true, false, Option, none, some, ltb, leb, ◌==◌,
  if◌then◌else◌, List, [], ◌∷◌,
}

-- ALLOC_SIZE
abbrev pub alloc_size : ℕ
alloc_size = 64 * 2 ^ 30

-- The length of the arrays `dram` and `nvm`.
abbrev pub max_arenas : ℕ
max_arenas = 100

-- `dram_curr`, `dram_left`, `dram_cnt`, or the same for `nvm`.
pub record Pool : Type 0 where
  pub curr : ℕ
  pub left : ℕ
  pub cnt : ℕ

pub record Fastalloc : Type 0 where
  pub dram : Pool
  pub nvm : Pool

-- The first line of `alloc`: the size in whole cache lines.
unfoldable pub round_up : ℕ → ℕ
round_up size = (size / 64 * 64 + (if size % 64 == 0 then 0 else 64)) % 2 ^ 64

-- The rest of `alloc` on one kind of memory; `none` where the arena would be stored past the end of
-- the array.
unfoldable pub cut : (arenas : ℕ → ℕ) (size : ℕ) → Pool → Option (ℕ × Pool)
cut arenas size p =
    if ltb p.left size
    then (if ltb p.cnt max_arenas
        then some (
          arenas p.cnt,
          record {
            curr = arenas p.cnt + size;
            left = (alloc_size + 2 ^ 64 - size) % 2 ^ 64;
            cnt = p.cnt + 1;
          },
        )
        else none)
    else some (p.curr, record p { curr = p.curr + size; left = p.left - size })

-- `alloc`: the address of the block.
unfoldable pub alloc :
    (arenas : Bool → ℕ → ℕ) (size : ℕ) (on_nvm : Bool) → Fastalloc → Option (ℕ × Fastalloc)
unfolding cut round_up
alloc arenas size true a = elim (cut (arenas true) (round_up size) a.nvm) [
  | none ↦ none
  | some r ↦ some (r.0, record a { nvm = r.1 })
]
alloc arenas size false a = elim (cut (arenas false) (round_up size) a.dram) [
  | none ↦ none
  | some r ↦ some (r.0, record a { dram = r.1 })
]

-- `init` on one kind of memory.
unfoldable pub first_arena : (arenas : ℕ → ℕ) → Pool
first_arena arenas = record { curr = arenas 0; left = alloc_size; cnt = 1 }

-- `init`
unfoldable pub init : (arenas : Bool → ℕ → ℕ) → Fastalloc
unfolding first_arena
init arenas = record { dram = first_arena (arenas false); nvm = first_arena (arenas true) }

-- A request, and the block that answers it.
pub record Request : Type 0 where
  pub size : ℕ
  pub on_nvm : Bool

pub record Block : Type 0 where
  pub start : ℕ
  pub size : ℕ

-- A sequence of calls of `alloc`: the blocks, in order.
unfoldable pub alloc_all :
    (arenas : Bool → ℕ → ℕ) → List Request → Fastalloc → Option (List Block × Fastalloc)
alloc_all arenas [] a = some ([], a)
alloc_all arenas (r ∷ rs) a = elim (alloc arenas r.size r.on_nvm a) [
  | none ↦ none
  | some (start, a') ↦ elim (alloc_all arenas rs a') [
    | none ↦ none
    | some (bs, end) ↦ some (record { start = start; size = r.size } ∷ bs, end)
  ]
]
