-- ===== src/Woart/Map.antt =====
-- The public functions of woart/woart.cpp and the tree without layouts.
use wrert.Prelude.{ℕ, ◌+◌, ◌≡◌, refl, ◌∙◌, ap, subst, false, Option, none, some, List, [], ◌∷◌}
use wrert.Woart.Node.{Node, Run, ok, fault, ◌>>=◌, is_null}
use wrert.Woart.Puts.{recursive_insert-Simulates}
use wrert.Woart.SplitNodes.{Simulates}
use wrert.Woart.Tree.{
  Tree, KeyValue, woart_get, recursive_insert, woart_put, new_woart_tree, woart_all_subtree_kv,
}
use wrert.Woart.Views.{Laid, get_loop-get, all_subtree-pairs}
use wrert.Woart.Wide.{Wide, void, view, get, put, pairs}

-- A well-formed tree that shows `w`, with a count.
pub record Shows (t : Tree) (w : Wide) (number : ℕ) : Type 0 where
  pub shows : view t.root ≡ w
  pub laid : Laid t.root
  pub count : t.size ≡ number

pub new-Shows : Shows new_woart_tree void 0
unfolding new_woart_tree view Laid
new-Shows = record { shows = refl; laid = tt; count = refl }

-- One more pair where no value was replaced.
pub counted : ℕ → Option ℕ → ℕ
counted size none = size + 1
counted size (some v) = size

-- In a tree that shows `w`, where the insertion into `w` answers, `woart_put` answers too, whatever the
-- layouts of the nodes: it gives the same replaced value, and leaves a well-formed tree that shows what the
-- insertion into `w` leaves and counts the pairs.
pub woart_put-Shows :
    (t : Tree) (w : Wide) (size key key_len value : ℕ) (r : Wide × Option ℕ)
    → Shows t w size
    → put w key key_len value 0 ≡ ok r
    → (t' : Tree) × (woart_put t key key_len value ≡ ok (t', r.1)) × Shows t' r.0 (counted size r.1)
unfolding woart_put
woart_put-Shows t w size key key_len value r s run =
    let run' : put (view t.root) key key_len value 0 ≡ ok r = rw s.shows run in
    let (n, answer, shown, laid, full) : (n : Node) × (recursive_insert t.root key key_len value 0
          ≡ ok (n, r.1))
        × (view n ≡ r.0)
        × Laid n
        × (is_null n ≡ false) =
      unfold Simulates in
      subst (Simulates (recursive_insert t.root key key_len value 0)) run'
        (recursive_insert-Simulates t.root key key_len value 0 s.laid) in
    (
      record { root = n; size = elim r.1 [ none ↦ t.size + 1 | some v ↦ t.size ] },
      rw answer refl,
      record { shows = shown; laid = laid; count = new_size r.1 t.size size s.count },
    )
  where
    new_size :
        (old : Option ℕ) (a b : ℕ)
        → a ≡ b
        → elim old as (λ x. ℕ) [ none ↦ a + 1 | some v ↦ a ] ≡ counted b old
    new_size none a b e = unfold counted in ap (λ x. x + 1) e
    new_size (some v) a b e = unfold counted in e

-- A lookup in a tree that shows `w` answers what the lookup in `w` answers, NULL as 0.
woart_get-get :
    (t : Tree) (w : Wide) (size key key_len : ℕ)
    → Shows t w size
    → woart_get t key key_len ≡ (get w key key_len 0 >>= λ r. ok (elim r [ none ↦ 0 | some v ↦ v ]))
unfolding woart_get
woart_get-get t w size key key_len s = rw (get_loop-get t.root key key_len 0, s.shows) refl

-- The listing of a tree that shows `w` is the list of the pairs of `w`, in the order of their bytes.
woart_all-pairs :
    (t : Tree) (w : Wide) (size : ℕ) → Shows t w size → woart_all_subtree_kv t.root ≡ pairs w
woart_all-pairs t w size s = all_subtree-pairs t.root ∙ ap pairs s.shows

-- A sequence of insertions, in the tree and without layouts.
unfoldable pub put_all : List KeyValue → (key_len : ℕ) → Tree → Run Tree
put_all [] key_len t = ok t
put_all (kv ∷ kvs) key_len t =
    woart_put t kv.key key_len kv.value >>= λ (t', old). put_all kvs key_len t'

unfoldable pub put_each : List KeyValue → (key_len : ℕ) → Wide × ℕ → Run (Wide × ℕ)
unfolding counted
put_each [] key_len (w, size) = ok (w, size)
put_each (kv ∷ kvs) key_len (w, size) =
    put w kv.key key_len kv.value 0 >>= λ (w', old). put_each kvs key_len (w', counted size old)

ok-injective : (a b : Wide × ℕ) → ok a ≡ ok b → a ≡ b
ok-injective a b e = ap (λ o. elim o as (λ x. Wide × ℕ) [ ok c ↦ c | fault ↦ a ]) e

first_state :
    (r : Wide × ℕ) (t : Tree) (w : Wide) (size : ℕ)
    → Shows t w size
    → ok (w, size) ≡ ok r
    → Shows t r.0 r.1
first_state r t w size s e = subst (λ x. Shows t x.0 x.1) (ok-injective (w, size) r e) s

after_put :
    (kvs : List KeyValue) (key_len : ℕ) (t : Tree) (w : Wide) (size key value : ℕ)
    (o : Run (Wide × Option ℕ)) (r : Wide × ℕ)
    → Shows t w size
    → put w key key_len value 0 ≡ o
    → (o >>= λ (w', old). put_each kvs key_len (w', counted size old)) ≡ ok r
    → ((t' : Tree) (w' : Wide) (size' : ℕ)
        → Shows t' w' size'
        → put_each kvs key_len (w', size') ≡ ok r
        → (t'' : Tree) × (put_all kvs key_len t' ≡ ok t'') × Shows t'' r.0 r.1)
    → (t'' : Tree) × ((woart_put t key key_len value >>= λ (t', old). put_all kvs key_len t')
        ≡ ok t'')
      × Shows t'' r.0 r.1
after_put kvs key_len t w size key value fault r s here run rest = absurd (cc run)
after_put kvs key_len t w size key value (ok (w', old)) r s here run rest =
    let (t', answer, s') = woart_put-Shows t w size key key_len value (w', old) s here in
    let (t'', run', shown) = rest t' w' (counted size old) s' run in (t'', rw answer run', shown)

-- A sequence of insertions into a tree that shows `w`, where the insertions into `w` all answer: the code
-- goes through all of them without a fault, and leaves a well-formed tree that shows the outcome and
-- counts its pairs.
pub put_all-Shows :
    (kvs : List KeyValue) (key_len : ℕ) (t : Tree) (w : Wide) (size : ℕ) (r : Wide × ℕ)
    → Shows t w size
    → put_each kvs key_len (w, size) ≡ ok r
    → (t' : Tree) × (put_all kvs key_len t ≡ ok t') × Shows t' r.0 r.1
unfolding put_all put_each
put_all-Shows [] key_len t w size r s run = (t, refl, first_state r t w size s run)
put_all-Shows (kv ∷ kvs) key_len t w size r s run =
    after_put kvs key_len t w size kv.key kv.value (put w kv.key key_len kv.value 0) r s refl run
      (λ t' w' size'. put_all-Shows kvs key_len t' w' size' r)

-- After a sequence of insertions into a new tree, where the insertions without layouts all answer, a lookup
-- of any key answers what the lookup without layouts does, NULL as 0, and the listing is the list of the
-- pairs without layouts, in the order of their bytes.
pub put_all-reads :
    (kvs : List KeyValue) (key_len key : ℕ) (r : Wide × ℕ)
    → put_each kvs key_len (void, 0) ≡ ok r
    → (t' : Tree) × (put_all kvs key_len new_woart_tree ≡ ok t')
      × (woart_get t' key key_len
          ≡ (get r.0 key key_len 0 >>= λ o. ok (elim o [ none ↦ 0 | some v ↦ v ])))
      × (woart_all_subtree_kv t'.root ≡ pairs r.0)
put_all-reads kvs key_len key r run =
    let (t', answer, shows) = put_all-Shows kvs key_len new_woart_tree void 0 r new-Shows run in
    (t', answer, woart_get-get t' r.0 r.1 key key_len shows, woart_all-pairs t' r.0 r.1 shows)
