-- ===== src/Wort/Shape.antt =====
-- The shape that wort trees keep: every key below a node has the digits of the path to it.
use wrert.Prelude.{
  ℕ, ◌+◌, ◌^◌, ◌<◌, ◌≡◌, refl, ◌∙◌, inl, inr, false, not, arith, ◌==◌, update, min,
  first_index-some, Bool-cases, ==→eq,
}
use wrert.Wort.{
  Leaf, Header, Node, null, leaf, node16, ok, get_index, is_null, minimum, max_prefix_len,
}

-- The first `d` digits of the key are those of the path `p`.
abbrev pub Agrees : (ℕ → ℕ) → ℕ → ℕ → Type 0
Agrees p d key = (j : ℕ) → j < d → get_index key j ≡ p j

abbrev pub IsLeaf : ℕ → (ℕ → ℕ) → ℕ → Leaf → Type 0
IsLeaf key_len p d l = (l.key_len ≡ key_len) × (l.key < 2 ^ 64) × Agrees p d l.key

-- Two children at least.
abbrev pub Branches : (ℕ → Node) → Type 0
Branches c =
    (a : ℕ) × (b : ℕ) × (a < b) × (b < 16) × (is_null (c a) ≡ false) × (is_null (c b) ≡ false)

-- The header stores the path from digit `d` on: its length, and its first six digits.
abbrev pub IsHeader : (ℕ → ℕ) → ℕ → Header → Type 0
IsHeader q d h =
    (h.depth ≡ d)
    × (d + h.pwortial_len < 16)
    × ((i : ℕ) → i < min max_prefix_len h.pwortial_len → h.pwortial i ≡ q (d + i))

abbrev pub Wf : ℕ → (ℕ → ℕ) → ℕ → Node → Type 0
Wf key_len p d null = Unit
Wf key_len p d (leaf l) = IsLeaf key_len p d l
Wf key_len p d (node16 h c) =
    (q : ℕ → ℕ) × IsHeader q d h
    × ((j : ℕ) → j < d → q j ≡ p j)
    × Branches c
    × ((i : ℕ)
        → i < 16
        → Wf key_len (update q (d + h.pwortial_len) i) (d + h.pwortial_len + 1) (c i))

-- Only the digits before the depth matter.
pub Wf-congr :
    (key_len : ℕ) (p p' : ℕ → ℕ) (d : ℕ) (n : Node)
    → ((j : ℕ) → j < d → p j ≡ p' j)
    → Wf key_len p d n
    → Wf key_len p' d n
Wf-congr key_len p p' d null same w = tt
Wf-congr key_len p p' d (leaf l) same (a, b, c) = (a, b, λ j h. c j h ∙ same j h)
Wf-congr key_len p p' d (node16 h c) same (q, head, above, two, below) =
    (q, head, λ j lt. above j lt ∙ same j lt, two, below)

-- A digit set at the depth leaves the digits above it.
pub update_above : (q : ℕ → ℕ) (e i j : ℕ) → j < e → update q e i j ≡ q j
update_above q e i j lt = ground arith

-- A key with the digits of the path and the next digit.
pub Agrees-update :
    (q : ℕ → ℕ) (e i key : ℕ)
    → Agrees q e key
    → get_index key e ≡ i
    → Agrees (update q e i) (e + 1) key
Agrees-update q e i key on at j lt = elim (Bool-cases (e == j)) [
  | inl here ↦ rw here (rw (← ==→eq e j here) at)
  | inr other ↦ rw other (on j (ground arith))
]

-- Under a branching node the loop of `minimum` ends at a child.
min_step :
    (key_len : ℕ) (q : ℕ → ℕ) (e : ℕ) (h : Header) (c : ℕ → Node)
    → Branches c
    → ((i : ℕ)
        → i < 16
        → is_null (c i) ≡ false
        → (l : Leaf) × (minimum (c i) ≡ ok l) × IsLeaf key_len (update q e i) (e + 1) l)
    → (l : Leaf) × (minimum (node16 h c) ≡ ok l) × IsLeaf key_len q e l
unfolding minimum is_null
min_step key_len q e h c (a, b, ab, b16, ha, hb) child =
    let (k, found, good, k0, ka) =
      first_index-some (λ i. not (is_null (c i))) 16 0 a (omega arith) (omega arith) (rw ha refl) in
    let (l, run, (len, small, agree)) = child k (omega arith) (ground arith) in
    (
      l,
      rw (found, minimum) run,
      (len, small, λ j lt. agree j (omega arith) ∙ update_above q e k j lt),
    )

-- The least leaf has the digits of the path.
pub minimum-IsLeaf :
    (key_len : ℕ) (p : ℕ → ℕ) (d : ℕ) (n : Node)
    → Wf key_len p d n
    → is_null n ≡ false
    → (l : Leaf) × (minimum n ≡ ok l) × IsLeaf key_len p d l
minimum-IsLeaf key_len p d null w h = unfold is_null in cc
minimum-IsLeaf key_len p d (leaf l) w h = (l, unfold minimum in refl, w)
minimum-IsLeaf key_len p d (node16 h c) (q, head, above, two, below) nn =
    let e = d + h.pwortial_len in
    let (l, run, (len, small, agree)) =
      min_step key_len q e h c two
        (λ i lt. minimum-IsLeaf key_len (update q e i) (e + 1) (c i) (below i lt)) in
    (l, run, (len, small, λ j lt. agree j (omega arith) ∙ above j lt))

-- Below a node it also has the digits that the header skips.
pub minimum-path :
    (key_len : ℕ) (q : ℕ → ℕ) (e : ℕ) (h : Header) (c : ℕ → Node)
    → Branches c
    → ((i : ℕ) → i < 16 → Wf key_len (update q e i) (e + 1) (c i))
    → (l : Leaf) × (minimum (node16 h c) ≡ ok l) × IsLeaf key_len q e l
minimum-path key_len q e h c two below =
    min_step key_len q e h c two
      (λ i lt. minimum-IsLeaf key_len (update q e i) (e + 1) (c i) (below i lt))
