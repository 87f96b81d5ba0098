-- ===== src/Prelude/Ranges.antt =====
-- Lists that loops append.
use Prim.Native.Nat.{ℕ, zero, suc, ◌+◌}
use mathlib.Core.List.{List, [], ◌++◌}

-- `for (i = first; i < first + n; i++) body(i)`, where each round appends to the result
unfoldable pub for_append {ℓ} : {A : Type ℓ} → (ℕ → List A) → ℕ → ℕ → List A
for_append body zero first = []
for_append body (suc n) first = body first ++ for_append body n (first + 1)
