-- ===== src/Tree/Regrow.antt =====
-- A split that is grown on the nodes that ChangeToLeaf has freed (include/xgboost/tree_model.h).
use xgboost.Prelude.{ℕ, ◌+◌, ◌≡◌, refl, ap, true, false, some, List, ◌∷◌}
use xgboost.Prelude.Check.{◌>>=◌}
use xgboost.Float.{Float}
use xgboost.Tree.Node.{left_child, right_child, split_cond}
use xgboost.Tree.RegTree.{RegTree, SplitArgs, node, modify, take_free, change_to_leaf, expand_node}
use xgboost.Tree.Query.{get_next}
use xgboost.Tree.Shape.{Shape, LeafAt, TwigAt, pruned_leaf}
use xgboost.Tree.Invariant.{IsTree}
use xgboost.Tree.Alloc.{alloc_reused-Allocated}
use xgboost.Tree.Expand.{expanded, expanded-split, expand_node-run}
use xgboost.Tree.Collapse.{change_to_leaf-Pruned}

module _ {F : Float} where
  -- Growing on a free list that ends in `a`, then `b`.
  regrow :
      {t : RegTree F} {s : Shape} {k : ℕ} (a b : ℕ) (rest : List ℕ) (o : IsTree t s)
      (p : LeafAt k s) (args : SplitArgs F)
      → t.deleted_nodes ≡ b ∷ a ∷ rest
      → (t' : RegTree F) × (expand_node t k args ≡ some t')
        × (left_child (node t' k) ≡ b)
        × (right_child (node t' k) ≡ a)
        × (split_cond (node t' k) ≡ args.split_value)
  regrow {t} {k = k} a b rest o p args e =
      let (run1, A) = alloc_reused-Allocated o b (a ∷ rest) e in
      let (run2, B) = alloc_reused-Allocated A.owned a rest freed in
      let top = expanded-split B.owned p args in
      (
        expanded (take_free (take_free t b (a ∷ rest)) a rest) k b a args,
        expand_node-run o p args A B run1 run2,
        ap left_child top,
        ap right_child top,
        ap split_cond top,
      )
    where
      freed : (take_free t b (a ∷ rest)).deleted_nodes ≡ a ∷ rest
      freed = unfold take_free modify in refl

  -- ChangeToLeaf at a split of two leaves, and then ExpandNode at the same node, both succeed and
  -- swap the two children: the left child is the old right one, and the right child the old left one.
  -- For a value that is not below the condition, GetNext<true> then returns the right child, and
  -- GetNext<false> the slot after the left child.
  pub expand_node-change_to_leaf_swaps :
      {t : RegTree F} {s : Shape} {k a b : ℕ} (o : IsTree t s) (p : TwigAt k a b s) (v : F.Carrier)
      (args : SplitArgs F) (fvalue : F.Carrier)
      → F.lt fvalue args.split_value ≡ false
      → (t' : RegTree F) × ((change_to_leaf t k v >>= λ u. expand_node u k args) ≡ some t')
        × (left_child (node t' k) ≡ b)
        × (right_child (node t' k) ≡ a)
        × (get_next true t' k fvalue false ≡ a)
        × (get_next false t' k fvalue false ≡ b + 1)
  unfolding get_next
  expand_node-change_to_leaf_swaps {t} {k = k} {a} {b} o p v args fvalue above =
      let (u, run, x) = change_to_leaf-Pruned o p v in
      let (t', run', l, r, c) = regrow a b t.deleted_nodes x.tree (pruned_leaf p) args x.freed in
      (t', rw run run', l, r, rw (c, above, r), rw (c, above, l))
