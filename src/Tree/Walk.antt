-- ===== src/Tree/Walk.antt =====
-- WalkTree of include/xgboost/tree_model.h, with GetNumLeaves and GetNumSplitNodes of
-- src/tree/tree_model.cc.
use mathlib.Core.List.{append_assoc, append-nil}
use xgboost.Prelude.{
  ℕ, zero, suc, ◌+◌, ◌≤◌, ◌<◌, ◌≡◌, refl, sym, ◌∙◌, ap, subst, Bool, true, false, List, [], ◌∷◌,
  ◌++◌, some, arith, ne→==, if◌then◌else◌, Bool-cases, inl, inr,
}
use xgboost.Float.{Float}
use xgboost.Tree.Node.{Node, invalid_node_id, set_high_bit, is_leaf}
use xgboost.Tree.RegTree.{RegTree, node, int_max}
use xgboost.Tree.Query.{push_child, walk_from, walk_tree, get_num_leaves, get_num_split_nodes}
use xgboost.Tree.Shape.{Shape, tip, fork, root, leaves, splits, size}
use xgboost.Tree.Invariant.{Represents, IsTree, root-in_range, is_leaf-tip, is_leaf-fork}
use xgboost.Tree.Size.{size_le}

-- The order in which WalkTree visits the nodes: a node, its right part, its left part.
unfoldable pub visits : Shape → List ℕ
visits (tip n) = n ∷ []
visits (fork n l r) = n ∷ (visits r ++ visits l)

-- A fold that stops where the function says so.
unfoldable pub scan {ℓ} : {S : Type ℓ} → (ℕ → S → S × Bool) → List ℕ → S → S
scan func [] s = s
scan func (x ∷ xs) s = elim ((func x s).1) [
  | true ↦ scan func xs (func x s).0
  | false ↦ (func x s).0
]

module _ {F : Float} where
  -- No leaf of the shape uses its right child as a marker.
  abbrev pub Unmarked : (ℕ → Node F) → Shape → Type 0
  Unmarked g (tip n) = (g n).cright ≡ invalid_node_id
  Unmarked g (fork n l r) = Unmarked g l × Unmarked g r

  -- The stack of WalkTree holds the roots of the parts still to visit.
  abbrev Pending : (ℕ → Node F) → List Shape → Type 0
  Pending g [] = Unit {0}
  Pending g (s ∷ ss) = ((up : ℕ) × Represents g up s) × Unmarked g s × Pending g ss

abbrev roots : List Shape → List ℕ
roots [] = []
roots (s ∷ ss) = root s ∷ roots ss

abbrev visits_all : List Shape → List ℕ
visits_all [] = []
visits_all (s ∷ ss) = visits s ++ visits_all ss

abbrev total : List Shape → ℕ
total [] = 0
total (s ∷ ss) = size s + total ss

push_root : (c : ℕ) (st : List ℕ) → c < int_max → push_child c st ≡ c ∷ st
push_root c st h = rw (ne→== c invalid_node_id (omega arith))

module _ {ℓ} {F : Float} {S : Type ℓ} (func : ℕ → S → S × Bool) (t : RegTree F) where
  size_pos : (s : Shape) → 1 ≤ leaves s
  unfolding leaves
  size_pos (tip n) = omega arith
  size_pos (fork n l r) = omega (arith, size_pos l)

  walk_from-scan :
      (fuel : ℕ) (ss : List Shape) (st : S)
      → total ss ≤ fuel
      → Pending (node t) ss
      → walk_from func fuel t (roots ss) st ≡ some (scan func (visits_all ss) st)
  unfolding walk_from scan visits leaves splits
  walk_from-scan fuel [] st le h = refl
  walk_from-scan zero (s ∷ ss) st le h = absurd (omega (arith, size_pos s))
  walk_from-scan (suc fuel) (tip n ∷ ss) st le h = elim (Bool-cases (func n st).1) [
    | inl go ↦
        rw (go, walk_from, h.0.1.1, h.1) (walk_from-scan fuel ss (func n st).0 (omega arith) h.2)
    | inr stop ↦ rw (stop, walk_from)
  ]
  walk_from-scan (suc fuel) (fork n l r ∷ ss) st le h = elim (Bool-cases (func n st).1) [
    | inl go ↦
        rw
          (
            go,
            walk_from,
            h.0.1.1,
            h.0.1.2,
            push_root (root l) (roots ss) (root-in_range (node t) (set_high_bit n) l h.0.1.3),
            push_root (root r) (root l ∷ roots ss) (root-in_range (node t) n r h.0.1.4),
            append_assoc (visits r) (visits l) (visits_all ss),
          )
          (walk_from-scan fuel (r ∷ l ∷ ss) (func n st).0 (omega arith)
            ((n, h.0.1.4), h.1.1, ((set_high_bit n, h.0.1.3), h.1.0, h.2)))
    | inr stop ↦ rw (stop, walk_from)
  ]

module _ {F : Float} {t : RegTree F} {s : Shape} (o : IsTree t s) (u : Unmarked (node t) s) where
  -- WalkTree over a well-formed tree whose leaves have no right child, run for as many rounds as
  -- there are slots, calls its function on the nodes of the tree in the order root, right part, left
  -- part, each once, until the function stops it.
  pub walk_tree-eq-scan {ℓ} :
      {S : Type ℓ} (func : ℕ → S → S × Bool) (st : S)
      → walk_tree func t.param.num_nodes t st ≡ some (scan func (visits s) st)
  unfolding walk_tree
  walk_tree-eq-scan func st =
      subst (λ r. walk_from func t.param.num_nodes t (r ∷ []) st ≡ some (scan func (visits s) st))
        o.rooted
        (walk_from-scan func t t.param.num_nodes (s ∷ []) st (omega (arith, size_le o))
            ((invalid_node_id, o.shaped), u, tt)
          ∙ ap (λ xs. some (scan func xs st)) (append-nil (visits s)))

module _ {F : Float} (t : RegTree F) where
  abbrev count_leaf : ℕ → ℕ → ℕ × Bool
  count_leaf nidx n = (if is_leaf (node t nidx) then n + 1 else n, true)

  abbrev count_split : ℕ → ℕ → ℕ × Bool
  count_split nidx n = (if is_leaf (node t nidx) then n else n + 1, true)

  scan-leaf_cons :
      (k : ℕ) (xs : List ℕ) (n : ℕ)
      → scan count_leaf (k ∷ xs) n ≡ scan count_leaf xs (count_leaf k n).0
  unfolding scan
  scan-leaf_cons k xs n = refl

  scan-split_cons :
      (k : ℕ) (xs : List ℕ) (n : ℕ)
      → scan count_split (k ∷ xs) n ≡ scan count_split xs (count_split k n).0
  unfolding scan
  scan-split_cons k xs n = refl

  scan-leaves :
      (up : ℕ) (s : Shape) (rest : List ℕ) (n : ℕ)
      → Represents (node t) up s
      → scan count_leaf (visits s ++ rest) n ≡ scan count_leaf rest (n + leaves s)
  unfolding visits leaves
  scan-leaves up (tip k) rest n h = rw (scan-leaf_cons k rest n, is_leaf-tip (node t) up k h)
  scan-leaves up (fork k l r) rest n h =
      rw
        (
          scan-leaf_cons k ((visits r ++ visits l) ++ rest) n,
          is_leaf-fork (node t) up k l r h,
          append_assoc (visits r) (visits l) rest,
          scan-leaves k r (visits l ++ rest) n h.4,
          scan-leaves (set_high_bit k) l rest (n + leaves r) h.3,
        )
        (ap (scan count_leaf rest) (omega arith))

  scan-splits :
      (up : ℕ) (s : Shape) (rest : List ℕ) (n : ℕ)
      → Represents (node t) up s
      → scan count_split (visits s ++ rest) n ≡ scan count_split rest (n + splits s)
  unfolding visits splits
  scan-splits up (tip k) rest n h =
      rw (scan-split_cons k rest n, is_leaf-tip (node t) up k h)
        (ap (scan count_split rest) (omega arith))
  scan-splits up (fork k l r) rest n h =
      rw
        (
          scan-split_cons k ((visits r ++ visits l) ++ rest) n,
          is_leaf-fork (node t) up k l r h,
          append_assoc (visits r) (visits l) rest,
          scan-splits k r (visits l ++ rest) (n + 1) h.4,
          scan-splits (set_high_bit k) l rest (n + 1 + splits r) h.3,
        )
        (ap (scan count_split rest) (omega arith))

module _ {F : Float} {t : RegTree F} {s : Shape} (o : IsTree t s) (u : Unmarked (node t) s) where
  -- GetNumLeaves and GetNumSplitNodes of such a tree return the numbers of leaves and of splits of
  -- the shape.
  pub get_num-counts :
      (get_num_leaves t.param.num_nodes t ≡ some (leaves s))
      × (get_num_split_nodes t.param.num_nodes t ≡ some (splits s))
  unfolding get_num_leaves get_num_split_nodes
  get_num-counts = (
    walk_tree-eq-scan o u (count_leaf t) 0 ∙ ap some leaf_scan,
    walk_tree-eq-scan o u (count_split t) 0 ∙ ap some split_scan,
  )
    where
      leaf_scan : scan (count_leaf t) (visits s) 0 ≡ leaves s
      leaf_scan =
          ap (λ xs. scan (count_leaf t) xs 0) (sym (append-nil (visits s)))
          ∙ scan-leaves t invalid_node_id s [] 0 o.shaped
          ∙ unfold scan in omega arith

      split_scan : scan (count_split t) (visits s) 0 ≡ splits s
      split_scan =
          ap (λ xs. scan (count_split t) xs 0) (sym (append-nil (visits s)))
          ∙ scan-splits t invalid_node_id s [] 0 o.shaped
          ∙ unfold scan in omega arith
