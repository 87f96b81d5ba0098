-- ===== src/Fastalloc/Blocks.antt =====
-- The blocks that one call of fastalloc::alloc cuts, against those that were cut before.
use wrert.Prelude.{
  ℕ, ◌+◌, ◌-◌, ◌%◌, ◌^◌, ◌≤◌, ◌<◌, ◌≡◌, ◌⊎◌, inl, inr, refl, Bool, true, false, some, ltb, ◌==◌,
  arith, Bool-cases, ==→eq, ==→ne,
}
use wrert.Fastalloc.{Pool, Fastalloc, alloc_size, max_arenas, round_up, cut, alloc}

-- Two stretches of memory have no byte in common.
abbrev pub Apart : (a m b n : ℕ) → Type 0
Apart a m b n = (a + m ≤ b) ⊎ (b + n ≤ a)

-- What `new` and `mmap` promise: arenas do not overlap.
pub record Separate (arenas : Bool → ℕ → ℕ) : Type 0 where
  pub same : (s : Bool) (i j : ℕ) → i < j → Apart (arenas s i) alloc_size (arenas s j) alloc_size
  pub across : (i j : ℕ) → Apart (arenas true i) alloc_size (arenas false j) alloc_size

pub round_up-bounds :
    (size : ℕ)
    → size ≤ alloc_size
    → (size ≤ round_up size) × (round_up size ≤ alloc_size) × (round_up size % 64 ≡ 0)
unfolding round_up
round_up-bounds size h = (ground arith, ground arith, ground arith)

-- The current arena is the last one, and what is left is its end.
pub record IsPool (arenas : ℕ → ℕ) (p : Pool) : Type 0 where
  pub some_arena : 0 < p.cnt
  pub end : p.curr + p.left ≡ arenas (p.cnt - 1) + alloc_size
  pub bound : p.left ≤ alloc_size

-- A block that stands in the part of the arenas that is given away.
pub record Used (arenas : ℕ → ℕ) (p : Pool) (start size : ℕ) : Type 0 where
  pub number : ℕ
  pub below : number < p.cnt
  pub from : arenas number ≤ start
  pub to : start + size ≤ arenas number + alloc_size
  pub given : (number + 1 ≡ p.cnt) → start + size ≤ p.curr

-- What a cut does.
pub record Cuts (arenas : ℕ → ℕ) (size : ℕ) (p : Pool) (r : ℕ × Pool) : Type 0 where
  pub shape : IsPool arenas r.1
  pub used : Used arenas r.1 r.0 size
  pub kept : (b n : ℕ) → Used arenas p b n → Used arenas r.1 b n
  pub apart : (b n : ℕ) → Used arenas p b n → Apart r.0 size b n
  pub count : r.1.cnt ≤ p.cnt + 1

module _ (arenas : ℕ → ℕ)
    (same : (i j : ℕ) → i < j → Apart (arenas i) alloc_size (arenas j) alloc_size) where
  -- A block in the open part of an arena is apart from all that is given away.
  fresh-Apart :
      (p : Pool) (size : ℕ)
      → IsPool arenas p
      → size ≤ p.left
      → (b n : ℕ) → Used arenas p b n
      → Apart p.curr size b n
  fresh-Apart p size w fits b n u = elim (Bool-cases (u.number + 1 == p.cnt)) [
    | inl last ↦ inr (u.given (==→eq _ _ last))
    | inr before ↦
        let lt : u.number < p.cnt - 1 = ground (arith, ==→ne (u.number + 1) p.cnt, u.below) in
        elim (same u.number (p.cnt - 1) lt) [
          | inl l ↦ inr (omega (arith, u.to, w.end, w.bound))
          | inr r ↦ inl (omega (arith, u.from, w.end, w.bound))
        ]
  ]

  cut-here :
      (p : Pool) (size : ℕ)
      → IsPool arenas p
      → size ≤ p.left
      → Cuts arenas size p (p.curr, record p { curr = p.curr + size; left = p.left - size })
  cut-here p size w fits = record {
    shape = record {
      some_arena = w.some_arena;
      end = omega (arith, w.end);
      bound = omega (arith, w.bound);
    };
    used = record {
      number = p.cnt - 1;
      below = omega (arith, w.some_arena);
      from = omega (arith, w.end, w.bound);
      to = omega (arith, w.end);
      given = λ e. omega arith;
    };
    kept = λ b n u. record {
      number = u.number;
      below = u.below;
      from = u.from;
      to = u.to;
      given = λ e. omega (arith, u.given e);
    };
    apart = fresh-Apart p size w fits;
    count = omega arith;
  }

  opened : (p : Pool) (size : ℕ) → Pool
  opened p size = record {
    curr = arenas p.cnt + size;
    left = (alloc_size + 2 ^ 64 - size) % 2 ^ 64;
    cnt = p.cnt + 1;
  }

  cut-there :
      (p : Pool) (size : ℕ)
      → IsPool arenas p
      → size ≤ alloc_size
      → Cuts arenas size p (arenas p.cnt, opened p size)
  unfolding opened
  cut-there p size w le =
      let rest : (alloc_size + 2 ^ 64 - size) % 2 ^ 64 ≡ alloc_size - size = omega arith in
      record {
        shape = record {
          some_arena = omega arith;
          end = let at : p.cnt + 1 - 1 ≡ p.cnt = omega arith in rw at (omega (arith, rest));
          bound = omega arith;
        };
        used = record {
          number = p.cnt;
          below = omega arith;
          from = omega arith;
          to = omega arith;
          given = λ e. omega arith;
        };
        kept = λ b n u. record {
          number = u.number;
          below = omega (arith, u.below);
          from = u.from;
          to = u.to;
          given = λ e. absurd (omega (arith, u.below, e));
        };
        apart = λ b n u. elim (same u.number p.cnt u.below) [
          | inl l ↦ inr (omega (arith, u.to))
          | inr r ↦ inl (omega (arith, u.from))
        ];
        count = omega arith;
      }

  cut-Cuts :
      (p : Pool) (size : ℕ)
      → IsPool arenas p
      → size ≤ alloc_size
      → p.cnt < max_arenas
      → (r : ℕ × Pool) × (cut arenas size p ≡ some r) × Cuts arenas size p r
  unfolding cut opened
  cut-Cuts p size w le room = elim (Bool-cases (ltb p.left size)) [
    | inl e ↦
        let full : ltb p.cnt max_arenas ≡ true = ground arith in
        (_, rw (e, full) refl, cut-there p size w le)
    | inr e ↦ (_, rw e refl, cut-here p size w (ground arith))
  ]

-- The blocks of the two kinds of memory.
abbrev pub Given : (arenas : Bool → ℕ → ℕ) → Fastalloc → (b n : ℕ) → Type 0
Given arenas a b n = Used (arenas true) a.nvm b n ⊎ Used (arenas false) a.dram b n

pub record IsFastalloc (arenas : Bool → ℕ → ℕ) (a : Fastalloc) : Type 0 where
  pub dram : IsPool (arenas false) a.dram
  pub nvm : IsPool (arenas true) a.nvm

pub record Allocs (arenas : Bool → ℕ → ℕ) (size : ℕ) (a : Fastalloc) (r : ℕ × Fastalloc)
    : Type 0 where
  pub shape : IsFastalloc arenas r.1
  pub used : Given arenas r.1 r.0 size
  pub kept : (b n : ℕ) → Given arenas a b n → Given arenas r.1 b n
  pub apart : (b n : ℕ) → Given arenas a b n → Apart r.0 size b n
  pub dram_count : r.1.dram.cnt ≤ a.dram.cnt + 1
  pub nvm_count : r.1.nvm.cnt ≤ a.nvm.cnt + 1

-- A smaller block in a larger one.
Used-le : {arenas : ℕ → ℕ} {p : Pool} {b n m : ℕ} → m ≤ n → Used arenas p b n → Used arenas p b m
Used-le le u = record {
  number = u.number;
  below = u.below;
  from = u.from;
  to = omega (arith, u.to);
  given = λ e. omega (arith, u.given e);
}

Apart-le : (a b n k m : ℕ) → m ≤ k → Apart a k b n → Apart a m b n
Apart-le a b n k m le h = omega arith

module _ (arenas : Bool → ℕ → ℕ) (sep : Separate arenas) where
  across-Apart :
      (p q : Pool) (b n c m : ℕ)
      → Used (arenas true) p b n
      → Used (arenas false) q c m
      → Apart b n c m
  across-Apart p q b n c m u v = elim (sep.across u.number v.number) [
    | inl l ↦ inl (omega (arith, u.to, v.from))
    | inr r ↦ inr (omega (arith, v.to, u.from))
  ]

  pub alloc-Allocs :
      (size : ℕ) (on_nvm : Bool) (a : Fastalloc)
      → IsFastalloc arenas a
      → size ≤ alloc_size
      → a.dram.cnt < max_arenas
      → a.nvm.cnt < max_arenas
      → (r : ℕ × Fastalloc) × (alloc arenas size on_nvm a ≡ some r) × Allocs arenas size a r
  unfolding alloc
  alloc-Allocs size true a w le room_d room_n =
      let (lo, hi, whole) = round_up-bounds size le in
      let (r, e, c) =
        cut-Cuts (arenas true) (sep.same true) a.nvm (round_up size) w.nvm hi room_n in
      (
        _,
        rw (e, alloc) refl,
        record {
          shape = record { dram = w.dram; nvm = c.shape };
          used = inl (Used-le lo c.used);
          kept = λ b n g. elim g [ inl u ↦ inl (c.kept b n u) | inr u ↦ inr u ];
          apart = λ b n g. elim g [
            | inl u ↦ Apart-le _ b n (round_up size) size lo (c.apart b n u)
            | inr u ↦
                Apart-le _ b n (round_up size) size lo
                  (across-Apart r.1 a.dram r.0 (round_up size) b n c.used u)
          ];
          dram_count = omega arith;
          nvm_count = c.count;
        },
      )
  alloc-Allocs size false a w le room_d room_n =
      let (lo, hi, whole) = round_up-bounds size le in
      let (r, e, c) =
        cut-Cuts (arenas false) (sep.same false) a.dram (round_up size) w.dram hi room_d in
      (
        _,
        rw (e, alloc) refl,
        record {
          shape = record { dram = c.shape; nvm = w.nvm };
          used = inr (Used-le lo c.used);
          kept = λ b n g. elim g [ inl u ↦ inl u | inr u ↦ inr (c.kept b n u) ];
          apart = λ b n g. elim g [
            | inl u ↦ elim (across-Apart a.nvm r.1 b n r.0 (round_up size) u c.used) [
              | inl l ↦ inr l
              | inr h ↦ inl (omega arith)
            ]
            | inr u ↦ Apart-le _ b n (round_up size) size lo (c.apart b n u)
          ];
          dram_count = c.count;
          nvm_count = omega arith;
        },
      )
