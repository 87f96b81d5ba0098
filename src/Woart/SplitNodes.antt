-- ===== src/Woart/SplitNodes.antt =====
-- The splits of an insertion, in a tree of adaptive nodes and in the tree without layouts.
use wrert.Prelude.{
  ℕ, ◌+◌, ◌-◌, ◌<◌, ◌≡◌, refl, inl, inr, true, false, Option, none, arith, ltb, leb, min, ◌==◌,
  if◌then◌else◌, Bool-cases, ==→ne,
}
use wrert.Woart.Additions.{node_of_two-pair}
use wrert.Woart.Node.{Leaf, PathComp, Index, Node, leaf, inner, Run, ok, fault, ◌>>=◌, is_null}
use wrert.Woart.Tree.{
  get_index, make_leaf, minimum, path_of, longest_common_prefix, leaf_or_minimum, max_prefix_len,
  shorten, node_of_two, split_path, split_leaf,
}
use wrert.Woart.Views.{IsPath, Laid, views, minimum-first_leaf}
use wrert.Woart.Wide.{Wide, item, wide, view, first_leaf, pair, part_path, part_leaf}

-- Where the specification answers, the code answers with a well-formed node that shows the same tree.
pub SimulatesNode : Run Node → Run Wide → Type 0
SimulatesNode run fault = Unit
SimulatesNode run (ok w) = (n : Node) × (run ≡ ok n) × (view n ≡ w) × Laid n × (is_null n ≡ false)

unfoldable pub Simulates : Run (Node × Option ℕ) → Run (Wide × Option ℕ) → Type 0
Simulates run fault = Unit
Simulates run (ok (w, old)) =
    (n : Node) × (run ≡ ok (n, old)) × (view n ≡ w) × Laid n × (is_null n ≡ false)

pub get_index-lt : (key d : ℕ) → get_index key d < 256
unfolding get_index
get_index-lt key d = omega arith

node_of_two-Simulates :
    (path : PathComp) (c c' : ℕ) (child child' : Node)
    → c < 256
    → c' < 256
    → IsPath path
    → Laid child
    → Laid child'
    → is_null child ≡ false
    → is_null child' ≡ false
    → SimulatesNode (node_of_two path c child c' child') (pair path c (view child) c' (view child'))
unfolding SimulatesNode
node_of_two-Simulates path c c' child child' byte byte' bytes laid laid' new new' =
    elim (Bool-cases (c == c')) [
      | inl same ↦ rw (pair-fault path c c' (view child) (view child') same) tt
      | inr apart ↦
          let (n, run, shown, laid_n, full) =
            node_of_two-pair path c c' child child' byte byte' (==→ne c c' apart) bytes laid laid'
              new new' in
          rw shown (n, run, refl, laid_n, full)
    ]
  where
    pair-fault :
        (path : PathComp) (c c' : ℕ) (w w' : Wide) → (c == c') ≡ true → pair path c w c' w' ≡ fault
    pair-fault path c c' w w' same = unfold pair in rw same refl

path_of-lt : (key depth len i : ℕ) → path_of key depth len i < 256
unfolding path_of
path_of-lt key depth len i = ground (arith, get_index-lt key (depth + i))

node_of_two-leaves :
    (path : PathComp) (c c' : ℕ) (l l2 : Leaf)
    → c < 256
    → c' < 256
    → IsPath path
    → SimulatesNode (node_of_two path c (leaf l) c' (leaf l2)) (pair path c (item l) c' (item l2))
unfolding view Laid is_null
node_of_two-leaves path c c' l l2 byte byte' bytes =
    node_of_two-Simulates path c c' (leaf l) (leaf l2) byte byte' bytes tt tt refl refl

pub answer-none :
    (a : Run Node) (b : Run Wide)
    → SimulatesNode a b
    → Simulates (a >>= λ n. ok (n, none)) (b >>= λ n. ok (n, none))
unfolding SimulatesNode Simulates
answer-none a fault s = tt
answer-none a (ok w) (n, run, shown, laid, full) = (n, rw run refl, shown, laid, full)

pub split_leaf-Simulates :
    (l : Leaf) (key key_len value depth : ℕ)
    → SimulatesNode (split_leaf l key key_len value depth) (part_leaf l key key_len value depth)
unfolding split_leaf part_leaf
split_leaf-Simulates l key key_len value depth =
    let l2 : Leaf = record { value = value; key_len = key_len; key = key } in
    let n = longest_common_prefix l l2 depth in
    node_of_two-leaves
      (record { depth = depth; pwoartial_len = n; pwoartial = path_of key depth n })
      (get_index l.key (depth + n)) (get_index key (depth + n)) l l2
      (get_index-lt l.key (depth + n)) (get_index-lt key (depth + n)) (path_of-lt key depth n)

-- A shortened path is one of bytes.
ShortPath : Run (ℕ × PathComp) → Type 0
ShortPath fault = Unit
ShortPath (ok (digit, path)) = (digit < 256) × IsPath path

shorten-ShortPath :
    (p : PathComp) (least : Run Leaf) (depth diff : ℕ) (seen : Option Leaf)
    → IsPath p
    → ShortPath (shorten p least depth diff seen)
unfolding ShortPath shorten
shorten-ShortPath p least depth diff seen bytes =
    elim (Bool-cases (leb p.pwoartial_len max_prefix_len)) [
      | inl few ↦ rw few (bytes diff, λ i. ground (arith, bytes (diff + 1 + i)))
      | inr many ↦ rw many (from_leaf (leaf_or_minimum seen least))
    ]
  where
    from_leaf :
        (run : Run Leaf)
        → ShortPath (
            run >>= λ l. ok (
              get_index l.key (depth + diff),
              record {
                depth = depth + diff + 1;
                pwoartial_len = p.pwoartial_len - (diff + 1);
                pwoartial = path_of l.key (depth + diff + 1) (p.pwoartial_len - (diff + 1));
              },
            ))
    from_leaf fault = tt
    from_leaf (ok l) = (
      get_index-lt l.key (depth + diff),
      path_of-lt l.key (depth + diff + 1) (p.pwoartial_len - (diff + 1)),
    )

Laid-IsPath :
    (p : PathComp) (ix : Index) (children : ℕ → Node) → Laid (inner p ix children) → IsPath p
unfolding Laid
Laid-IsPath p ix children laid = laid.0

pub least-view :
    (p : PathComp) (ix : Index) (children : ℕ → Node)
    → Laid (inner p ix children)
    → minimum (inner p ix children) ≡ first_leaf (wide p (views ix children))
unfolding view
least-view p ix children laid = minimum-first_leaf (inner p ix children) laid

Laid-path :
    (p t : PathComp) (ix : Index) (children : ℕ → Node)
    → Laid (inner p ix children)
    → IsPath t
    → Laid (inner t ix children)
unfolding Laid
Laid-path p t ix children (path, is, below) bytes = (bytes, is, below)

node_of_two-above :
    (path p t : PathComp) (digit c : ℕ) (l : Leaf) (ix : Index) (children : ℕ → Node)
    → IsPath path
    → c < 256
    → Laid (inner p ix children)
    → digit < 256
    → IsPath t
    → SimulatesNode
        (node_of_two path digit (inner t ix children) c (leaf l))
        (pair path digit (wide t (views ix children)) c (item l))
unfolding view is_null
node_of_two-above path p t digit c l ix children bytes byte laid byte' bytes' =
    node_of_two-Simulates path digit c (inner t ix children) (leaf l) byte' byte bytes
      (Laid-path p t ix children laid bytes') (unfold Laid in tt) refl refl

above :
    (path p : PathComp) (c : ℕ) (l : Leaf) (ix : Index) (children : ℕ → Node)
    (run : Run (ℕ × PathComp))
    → IsPath path
    → c < 256
    → Laid (inner p ix children)
    → ShortPath run
    → SimulatesNode
        (run >>= λ (digit, t). node_of_two path digit (inner t ix children) c (leaf l))
        (run >>= λ (digit, t). pair path digit (wide t (views ix children)) c (item l))
unfolding ShortPath
above path p c l ix children fault bytes byte laid short = unfold SimulatesNode in tt
above path p c l ix children (ok (digit, t)) bytes byte laid (byte', bytes') =
    node_of_two-above path p t digit c l ix children bytes byte laid byte' bytes'

-- A new node above the old one, whose layout and children stay.
pub split_path-Simulates :
    (p : PathComp) (ix : Index) (children : ℕ → Node) (key key_len value depth diff : ℕ)
    (seen : Option Leaf)
    → Laid (inner p ix children)
    → SimulatesNode
        (split_path p ix children key key_len value depth diff seen)
        (part_path p (views ix children) key key_len value depth diff seen)
unfolding split_path part_path make_leaf
split_path-Simulates p ix children key key_len value depth diff seen laid =
    let path : PathComp = record {
      depth = depth;
      pwoartial_len = diff;
      pwoartial = λ i. if ltb i (min max_prefix_len diff) then p.pwoartial i else 0;
    } in
    let l : Leaf = record { value = value; key_len = key_len; key = key } in
    rw (least-view p ix children laid) (
      above path p (get_index key (depth + diff)) l ix children
        (shorten p (first_leaf (wide p (views ix children))) depth diff seen)
        (λ i. ground (arith, Laid-IsPath p ix children laid i)) (get_index-lt key (depth + diff))
        laid
        (shorten-ShortPath p (first_leaf (wide p (views ix children))) depth diff seen
          (Laid-IsPath p ix children laid)))
