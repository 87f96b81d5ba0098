-- ===== src/Prelude/Arrays.antt =====
-- Arrays as functions of the index, and the search loops that run over them.
use Prim.Native.Nat.{ℕ, zero, suc, ◌+◌, ◌-◌, ◌≤◌, ◌<◌}
use mathlib.Core.Path.{◌≡◌, refl}
use mathlib.Core.Logic.{◌≢◌, inl, inr}
use mathlib.Core.Bool.{Bool, true, false}
use mathlib.Core.Option.{Option, none, some}
use mathlib.Core.List.{List, [], ◌∷◌}
use native.Mathlib.Omega.{arith}
use wrert.Prelude.Tests.{◌==◌, if◌then◌else◌, Bool-cases, ==→eq, ==→ne}

-- `a[k] = v`
abbrev pub update {ℓ} : {A : Type ℓ} → (ℕ → A) → ℕ → A → ℕ → A
update a k v i = if k == i then v else a i

pub update_self {ℓ} : {A : Type ℓ} (a : ℕ → A) (k : ℕ) (v : A) → update a k v k ≡ v
update_self a k v = ground arith

pub update_ne {ℓ} : {A : Type ℓ} (a : ℕ → A) (k i : ℕ) (v : A) → k ≢ i → update a k v i ≡ a i
update_ne a k i v h = ground arith

-- `for (; n > 0; n--, i++) if (p[i] != q[i]) return i; return i;`
unfoldable pub first_diff : (ℕ → ℕ) → (ℕ → ℕ) → ℕ → ℕ → ℕ
first_diff p q zero i = i
first_diff p q (suc n) i = if p i == q i then first_diff p q n (i + 1) else i

-- The loop stops inside its range, and all entries before the stop are equal.
pub first_diff_bounds :
    (p q : ℕ → ℕ) (n i : ℕ) → (i ≤ first_diff p q n i) × (first_diff p q n i ≤ i + n)
unfolding first_diff
first_diff_bounds p q zero i = omega arith
first_diff_bounds p q (suc n) i = ground (arith, first_diff_bounds p q n (i + 1))

pub first_diff_agree : (p q : ℕ → ℕ) (n i j : ℕ) → i ≤ j → j < first_diff p q n i → p j ≡ q j
unfolding first_diff
first_diff_agree p q zero i j lo hi = absurd (omega arith)
first_diff_agree p q (suc n) i j lo hi = elim (Bool-cases (p i == q i)) [
  | inl e ↦ elim (Bool-cases (i == j)) [
    | inl here ↦ ground (arith, ==→eq i j, ==→eq (p i) (q i))
    | inr on ↦ first_diff_agree p q n (i + 1) j (ground (arith, ==→ne i j)) (ground arith)
  ]
  | inr ne ↦ absurd (ground arith)
]

-- Where it stops before the end, the entries differ.
pub first_diff_differ :
    (p q : ℕ → ℕ) (n i : ℕ)
    → first_diff p q n i < i + n
    → p (first_diff p q n i) ≢ q (first_diff p q n i)
unfolding first_diff
first_diff_differ p q zero i h = absurd (omega arith)
first_diff_differ p q (suc n) i h = elim (Bool-cases (p i == q i)) [
  | inl e ↦ rw e (first_diff_differ p q n (i + 1) (ground arith))
  | inr ne ↦ rw ne (==→ne _ _ ne)
]

-- An equal stretch is passed in full.
pub first_diff_skip :
    (p q : ℕ → ℕ) (n i m : ℕ)
    → i ≤ m
    → m ≤ i + n
    → ((j : ℕ) → i ≤ j → j < m → p j ≡ q j)
    → m ≤ first_diff p q n i
unfolding first_diff
first_diff_skip p q zero i m lo hi same = omega arith
first_diff_skip p q (suc n) i m lo hi same = elim (Bool-cases (p i == q i)) [
  | inl e ↦ elim (Bool-cases (i == m)) [
    | inl end ↦ rw e (ground (arith, first_diff_bounds p q n (i + 1)))
    | inr on ↦ rw e (
        first_diff_skip p q n (i + 1) m (ground (arith, ==→ne i m)) (omega arith)
          (λ j a b. same j (omega arith) b))
  ]
  | inr ne ↦ rw ne (ground (arith, same i))
]

-- `while (!test(i)) i++`, over the `n` entries from `i` on; `none` when no entry passes.
unfoldable pub first_index : (ℕ → Bool) → ℕ → ℕ → Option ℕ
first_index test zero i = none
first_index test (suc n) i = if test i then some i else first_index test n (i + 1)

pub first_index-some :
    (test : ℕ → Bool) (n i j : ℕ)
    → i ≤ j
    → j < i + n
    → test j ≡ true
    → (k : ℕ) × (first_index test n i ≡ some k) × (test k ≡ true) × (i ≤ k) × (k ≤ j)
unfolding first_index
first_index-some test zero i j lo hi h = absurd (omega arith)
first_index-some test (suc n) i j lo hi h = elim (Bool-cases (test i)) [
  | inl e ↦ (i, rw e, e, omega arith, lo)
  | inr e ↦ elim (Bool-cases (i == j)) [
    | inl here ↦ absurd (ground (arith, ==→eq i j))
    | inr on ↦
        let (k, found, good, a, b) =
          first_index-some test n (i + 1) j (ground (arith, ==→ne i j)) (omega arith) h in
        (k, rw e found, good, omega arith, b)
  ]
]

-- What the search says of the entries that it passed.
pub first_index_least :
    (test : ℕ → Bool) (n i k : ℕ)
    → first_index test n i ≡ some k
    → (test k ≡ true) × (i ≤ k) × (k < i + n) × ((j : ℕ) → i ≤ j → j < k → test j ≡ false)
unfolding first_index
first_index_least test zero i k h = absurd (cc h)
first_index_least test (suc n) i k h = elim (Bool-cases (test i)) [
  | inl e ↦
      let at : i ≡ k = ground arith in
      (rw (← at) e, omega arith, omega arith, λ j lo hi. absurd (omega arith))
  | inr e ↦
      let (good, lo, hi, before) = first_index_least test n (i + 1) k (ground arith) in
      (
        good,
        omega arith,
        omega arith,
        λ j a b. elim (Bool-cases (i == j)) [
          | inl here ↦ rw (← ==→eq i j here) e
          | inr on ↦ before j (ground (arith, ==→ne i j)) b
        ],
      )
]

pub first_index-none :
    (test : ℕ → Bool) (n i j : ℕ) → first_index test n i ≡ none → i ≤ j → j < i + n → test j ≡ false
unfolding first_index
first_index-none test zero i j h lo hi = absurd (omega arith)
first_index-none test (suc n) i j h lo hi = elim (Bool-cases (test i)) [
  | inl e ↦ absurd (ground arith)
  | inr e ↦ elim (Bool-cases (i == j)) [
    | inl here ↦ rw (← ==→eq i j here) e
    | inr on ↦
        first_index-none test n (i + 1) j (ground arith) (ground (arith, ==→ne i j)) (omega arith)
  ]
]

-- The search stops at the first entry that passes.
pub first_index-at :
    (test : ℕ → Bool) (n i k : ℕ)
    → i ≤ k
    → k < i + n
    → test k ≡ true
    → ((j : ℕ) → i ≤ j → j < k → test j ≡ false)
    → first_index test n i ≡ some k
first_index-at test n i k lo hi h before =
    let (k', found, good, a, b) = first_index-some test n i k lo hi h in
    elim (Bool-cases (k' == k)) [
      | inl same ↦ rw (found, ==→eq k' k same) refl
      | inr apart ↦ absurd (ground (arith, before k', ==→ne k' k apart))
    ]

-- No entry passes.
pub first_index_empty :
    (test : ℕ → Bool) (n i : ℕ)
    → ((j : ℕ) → i ≤ j → j < i + n → test j ≡ false)
    → first_index test n i ≡ none
unfolding first_index
first_index_empty test zero i off = refl
first_index_empty test (suc n) i off =
    rw (off i (omega arith) (omega arith))
      (first_index_empty test n (i + 1) (λ j lo hi. off j (omega arith) (omega arith)))

-- Entries that fail are passed.
pub first_index_skip :
    (test : ℕ → Bool) (n i m : ℕ)
    → i ≤ m
    → m ≤ i + n
    → ((j : ℕ) → i ≤ j → j < m → test j ≡ false)
    → first_index test n i ≡ first_index test (i + n - m) m
unfolding first_index
first_index_skip test zero i m lo hi off =
    let at : i ≡ m = omega arith in let left : i + 0 - m ≡ 0 = omega arith in rw left refl
first_index_skip test (suc n) i m lo hi off = elim (Bool-cases (i == m)) [
  | inl here ↦
      let at : i ≡ m = ==→eq i m here in
      let left : i + suc n - m ≡ suc n = omega arith in rw (left, at) refl
  | inr on ↦
      let next : i + suc n - m ≡ i + 1 + n - m = omega arith in
      rw (off i (omega arith) (ground (arith, ==→ne i m on)), next)
        (first_index_skip test n (i + 1) m (ground (arith, ==→ne i m on)) (omega arith)
          (λ j a b. off j (omega arith) b))
]

-- The search reads the entries of its range only.
pub first_index_congr :
    (f g : ℕ → Bool) (n i : ℕ)
    → ((j : ℕ) → i ≤ j → j < i + n → f j ≡ g j)
    → first_index f n i ≡ first_index g n i
unfolding first_index
first_index_congr f g zero i same = refl
first_index_congr f g (suc n) i same =
    rw
      (
        same i (omega arith) (omega arith),
        first_index_congr f g n (i + 1) (λ j lo hi. same j (omega arith) (omega arith)),
      )
      refl

unfoldable pub length {ℓ} : {A : Type ℓ} → List A → ℕ
length [] = 0
length (x ∷ xs) = suc (length xs)
