-- ===== src/Woart/Puts.antt =====
-- An insertion into a tree of adaptive nodes, and the same insertion into the tree without layouts.
use wrert.Prelude.{
  ℕ, ◌+◌, ◌<◌, ◌≡◌, refl, ◌∙◌, ap, inl, inr, false, not, Option, none, some, leb, ◌==◌,
  if◌then◌else◌, update, Bool-cases, Option-cases,
}
use mathlib.Core.Path.{fun_ext}
use wrert.Woart.Add.{add_child-Grows}
use wrert.Woart.Additions.{views-add, Laid-add}
use wrert.Woart.Children.{views-update, Laid-update}
use wrert.Woart.Layout.{IsIndex}
use wrert.Woart.Node.{
  Leaf, PathComp, Index, Node, null, leaf, inner, Run, ok, fault, ◌>>=◌, is_null, find_child,
  add_child,
}
use wrert.Woart.SplitNodes.{
  Simulates, get_index-lt, answer-none, split_leaf-Simulates, split_path-Simulates, least-view,
}
use wrert.Woart.Tree.{
  get_index, leaf_matches, make_leaf, prefix_mismatch, split_path, recursive_insert,
}
use wrert.Woart.Views.{IsPath, Laid, views}
use wrert.Woart.Wide.{Wide, void, wide, view, first_leaf, part_path, new_item, put}

-- The child is there: what the recursion leaves takes its place.
child-Simulates :
    (p : PathComp) (ix : Index) (children : ℕ → Node) (c i : ℕ) (a : Run (Node × Option ℕ))
    (b : Run (Wide × Option ℕ))
    → Laid (inner p ix children)
    → find_child ix children c ≡ some i
    → Simulates a b
    → Simulates
        (a >>= λ (n, old). ok (inner p ix (update children i n), old))
        (b >>= λ (w, old). ok (wide p (update (views ix children) c w), old))
unfolding Simulates
child-Simulates p ix children c i a fault laid here s = tt
child-Simulates p ix children c i a (ok (w, old)) laid here (n, run, shown, laid_n, full) =
    let (bytes, is, below) : IsPath p
        × IsIndex ix
        × ((c i : ℕ)
            → find_child ix children c ≡ some i
            → (is_null (children i) ≡ false) × Laid (children i)) =
      unfold Laid in laid in
    let old_full = (below c i here).0 in
    (
      inner p ix (update children i n),
      rw run refl,
      unfold view in
          ap (wide p) (
            fun_ext (λ k.
              views-update ix children c i n is here old_full full k
              ∙ ap (λ x. update (views ix children) c x k) shown)),
      Laid-update ix children c i n is here old_full full p laid laid_n,
      unfold is_null in refl,
    )

-- The child is missing: the leaf is added.
add-Simulates :
    (p : PathComp) (ix : Index) (children : ℕ → Node) (c key key_len value : ℕ)
    → c < 256
    → Laid (inner p ix children)
    → find_child ix children c ≡ none
    → Simulates
        (add_child ix children c (make_leaf key key_len value) >>= λ (ix', children').
          ok (inner p ix' children', none))
        (ok (wide p (update (views ix children) c (new_item key key_len value)), none))
unfolding Simulates make_leaf
add-Simulates p ix children c key key_len value byte laid off =
    let child : Node = leaf (record { value = value; key_len = key_len; key = key }) in
    let is : IsIndex ix = unfold Laid in laid.1 in
    let (r, run, adds) = add_child-Grows ix children c child is byte off in
    (
      inner p r.0 r.1,
      rw run refl,
      unfold view in ap (wide p) (fun_ext (λ k. views-add ix children c child r adds k)),
      Laid-add ix children c child r adds p laid (unfold Laid in tt) (unfold is_null in refl),
      unfold is_null in refl,
    )

-- The three ways of an insertion at an inner node.
step-Simulates :
    (p : PathComp) (ix : Index) (children : ℕ → Node) (key key_len value depth : ℕ)
    (a : Run (Node × Option ℕ)) (b : Run (Wide × Option ℕ)) (m : Run (ℕ × Option Leaf))
    → Laid (inner p ix children)
    → Simulates a b
    → Simulates
        (if not (p.depth == depth)
          then fault
          else if p.pwoartial_len == 0
          then a
          else m >>= λ (diff, seen).
              if leb p.pwoartial_len diff
              then a
              else split_path p ix children key key_len value depth diff seen >>= λ n. ok (n, none))
        (if not (p.depth == depth)
          then fault
          else if p.pwoartial_len == 0
          then b
          else m >>= λ (diff, seen).
              if leb p.pwoartial_len diff
              then b
              else part_path p (views ix children) key key_len value depth diff seen >>= λ n.
                  ok (n, none))
step-Simulates p ix children key key_len value depth a b m laid s =
    elim (Bool-cases (p.depth == depth)) [
      | inr off ↦ rw off (unfold Simulates in tt)
      | inl at ↦ rw at (elim (Bool-cases (p.pwoartial_len == 0)) [
        | inl no_path ↦ rw no_path s
        | inr path ↦ rw path (with_path m)
      ])
    ]
  where
    with_path :
        (m : Run (ℕ × Option Leaf))
        → Simulates
            (m >>= λ (diff, seen).
              if leb p.pwoartial_len diff
              then a
              else split_path p ix children key key_len value depth diff seen >>= λ n. ok (n, none))
            (m >>= λ (diff, seen).
              if leb p.pwoartial_len diff
              then b
              else part_path p (views ix children) key key_len value depth diff seen >>= λ n.
                  ok (n, none))
    with_path fault = unfold Simulates in tt
    with_path (ok (diff, seen)) = elim (Bool-cases (leb p.pwoartial_len diff)) [
      | inl whole ↦ rw whole s
      | inr part ↦ rw part (
          answer-none _ _
            (split_path-Simulates p ix children key key_len value depth diff seen laid))
    ]

-- The child is looked up, and replaced or added.
inside-Simulates :
    (p : PathComp) (ix : Index) (children : ℕ → Node) (key key_len value d : ℕ)
    → Laid (inner p ix children)
    → ((i : ℕ)
        → find_child ix children (get_index key d) ≡ some i
        → Simulates
            (recursive_insert (children i) key key_len value (d + 1))
            (put (view (children i)) key key_len value (d + 1)))
    → Simulates
        (elim (find_child ix children (get_index key d)) [
          | none ↦
              add_child ix children (get_index key d) (make_leaf key key_len value)
              >>= λ (ix', children'). ok (inner p ix' children', none)
          | some i ↦ recursive_insert (children i) key key_len value (d + 1) >>= λ (n, old).
              ok (inner p ix (update children i n), old)
        ])
        (put (views ix children (get_index key d)) key key_len value (d + 1) >>= λ (w, old).
          ok (wide p (update (views ix children) (get_index key d) w), old))
inside-Simulates p ix children key key_len value d laid ih =
    elim (Option-cases (find_child ix children (get_index key d))) [
      | inl none' ↦
          let at : views ix children (get_index key d) ≡ void = rw (none', views) refl in
          rw (none', at)
            (unfold put in
              add-Simulates p ix children (get_index key d) key key_len value (get_index-lt key d)
                laid none')
      | inr (i, some') ↦
          let at : views ix children (get_index key d) ≡ view (children i) =
            rw (some', views) refl in
          rw (some', at)
            (child-Simulates p ix children (get_index key d) i
              (recursive_insert (children i) key key_len value (d + 1))
              (put (view (children i)) key key_len value (d + 1)) laid some' (ih i some'))
    ]

Laid-child :
    (p : PathComp) (ix : Index) (children : ℕ → Node) (c i : ℕ)
    → Laid (inner p ix children)
    → find_child ix children c ≡ some i
    → Laid (children i)
unfolding Laid
Laid-child p ix children c i (bytes, is, below) h = (below c i h).1

-- In a well-formed tree, whose nodes may have any of the four layouts, an insertion does what it does to
-- the tree without layouts. Where that one answers, the code answers too, without a fault: with the same
-- replaced value, and with a well-formed node that shows the resulting tree.
pub recursive_insert-Simulates :
    (n : Node) (key key_len value depth : ℕ)
    → Laid n
    → Simulates (recursive_insert n key key_len value depth) (put (view n) key key_len value depth)
unfolding recursive_insert put view
recursive_insert-Simulates null key key_len value depth laid =
    unfold Simulates make_leaf view Laid is_null in (leaf _, refl, refl, tt, refl)
recursive_insert-Simulates (leaf l) key key_len value depth laid =
    elim (Bool-cases (leaf_matches l key key_len)) [
      | inl same ↦ rw same (unfold Simulates view Laid is_null in (leaf _, refl, refl, tt, refl))
      | inr other ↦ rw other (answer-none _ _ (split_leaf-Simulates l key key_len value depth))
    ]
recursive_insert-Simulates (inner p ix children) key key_len value depth laid =
    rw (least-view p ix children laid) (
      step-Simulates p ix children key key_len value depth _ _
        (prefix_mismatch p (first_leaf (wide p (views ix children))) key depth) laid
        (inside-Simulates p ix children key key_len value (depth + p.pwoartial_len) laid (λ i h.
          recursive_insert-Simulates (children i) key key_len value (depth + p.pwoartial_len + 1)
            (Laid-child p ix children (get_index key (depth + p.pwoartial_len)) i laid h))))
