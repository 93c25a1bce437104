-- ===== src/Prune/Sound.antt =====
-- TryPruneLeaf of src/tree/updater_prune.cc on a well-formed tree.

use xgboost.Prelude.{
  ℕ, zero, suc, ◌+◌, ◌-◌, ◌<◌, ◌≡◌, refl, ◌∙◌, ap, subst, Bool, true, false, ◌&&◌, arith, ne→==,
  inl, inr, some, Bool-cases, get_or,
}
use xgboost.Float.{Float}
use xgboost.Tree.Node.{invalid_node_id, is_leaf, is_root}
use xgboost.Tree.RegTree.{RegTree, node, stat, default_stat, change_to_leaf}
use xgboost.Tree.Shape.{
  Shape, tip, LeafAt, TwigAt, prune, pruned_leaf, leaves, splits, size, leaves-graft, splits-graft,
  graft-pruned_leaf,
}
use xgboost.Tree.Invariant.{IsTree, Represents}
use xgboost.Tree.Graft.{LeafAt-is_leaf}
use xgboost.Tree.Collapse.{change_to_leaf-Pruned}
use xgboost.Prune.{TrainParam, need_prune, balanced, try_prune_leaf}
use xgboost.Prune.Parent.{
  IsParent, alone, twig, split_sibling, above, leaf_depth, twig_depth, leaf_depth-pruned_leaf,
}

pub size-prune : {k a b : ℕ} {s : Shape} (p : TwigAt k a b s) → size s ≡ size (prune p) + 2
size-prune {a = a} {b = b} {s = s} p = omega (
  arith,
  leaves-graft (pruned_leaf p) a b,
  splits-graft (pruned_leaf p) a b,
  ap leaves (graft-pruned_leaf p),
  ap splits (graft-pruned_leaf p),
)

-- A shape loses, one after the other, splits of two leaves that `need` asks for, by the node and the
-- depth of its children.
pub data PrunesTo (need : ℕ → ℕ → Bool) : Shape → Shape → Type 0 where
  done : {s : Shape} → PrunesTo need s s
  step :
      {s s' : Shape} {k a b : ℕ} (p : TwigAt k a b s)
      → need k (suc (twig_depth p)) ≡ true
      → PrunesTo need (prune p) s'
      → PrunesTo need s s'

pub PrunesTo-trans :
    {need : ℕ → ℕ → Bool} {s s' s'' : Shape}
    → PrunesTo need s s'
    → PrunesTo need s' s''
    → PrunesTo need s s''
PrunesTo-trans done q = q
PrunesTo-trans (step p e r) q = step p e (PrunesTo-trans r q)

module _ {F : Float} (param : TrainParam F) where
  -- NeedPrune at a node of the tree.
  abbrev pub needs : RegTree F → ℕ → ℕ → Bool
  needs t k depth = need_prune param (stat t k).loss_chg depth

  module _ (t : RegTree F) (fuel nid depth npruned : ℕ) (leaf : is_leaf (node t nid) ≡ true) where
    try_root :
        is_root (node t nid) ≡ true
        → try_prune_leaf (suc fuel) param t nid depth npruned ≡ some (t, npruned)
    unfolding try_prune_leaf
    try_root e = rw (leaf, e, try_prune_leaf)

    module _ {k a b : ℕ} {both : Bool} (i : IsParent (node t) nid k a b both) where
      balanced-both : balanced t k ≡ both
      balanced-both = rw (i.left_eq, i.right_eq, ne→== b invalid_node_id i.right_valid) i.both_eq

      try_stop :
          (balanced t k && needs t k depth) ≡ false
          → try_prune_leaf (suc fuel) param t nid depth npruned ≡ some (t, npruned)
      unfolding try_prune_leaf
      try_stop e = rw (leaf, i.not_root, try_prune_leaf, i.up_eq, i.not_leaf, e)

      try_go :
          (t' : RegTree F)
          → (balanced t k && needs t k depth) ≡ true
          → change_to_leaf t k (F.mul param.learning_rate (stat t k).base_weight) ≡ some t'
          → try_prune_leaf (suc fuel) param t nid depth npruned
            ≡ try_prune_leaf fuel param t' k (depth - 1) (npruned + 2)
      unfolding try_prune_leaf
      try_go t' e run = rw (leaf, i.not_root, try_prune_leaf, i.up_eq, i.not_leaf, e, i.up_eq, run)

  -- What a run of the pruner from `t`, which stands for `s`, has done.
  pub record Tried (t : RegTree F) (s : Shape) (npruned : ℕ) (r : RegTree F × ℕ) : Type 0 where
    pub shape : Shape
    pub tree : IsTree r.0 shape
    pub steps : PrunesTo (needs t) s shape
    pub count_eq : r.1 + size shape ≡ npruned + size s
    pub same_stats : r.0.stats ≡ t.stats
    pub same_count : r.0.param.num_nodes ≡ t.param.num_nodes

  pub Tried-refl :
      (t : RegTree F) {s : Shape} (npruned : ℕ) → IsTree t s → Tried t s npruned (t, npruned)
  Tried-refl t {s} npruned o = record {
    shape = s;
    tree = o;
    steps = done;
    count_eq = refl;
    same_stats = refl;
    same_count = refl;
  }

  needs-stats : (t u : RegTree F) → u.stats ≡ t.stats → needs u ≡ needs t
  unfolding stat
  needs-stats t u e = λ i k depth. need_prune param (get_or (e i) k (default_stat F)).loss_chg depth

  pub Tried-trans :
      (t u : RegTree F) (s s' : Shape) (n n' : ℕ) (r : RegTree F × ℕ)
      → PrunesTo (needs t) s s'
      → n' + size s' ≡ n + size s
      → u.stats ≡ t.stats
      → u.param.num_nodes ≡ t.param.num_nodes
      → Tried u s' n' r
      → Tried t s n r
  Tried-trans t u s s' n n' r steps count stats same x = record {
    shape = x.shape;
    tree = x.tree;
    steps =
        PrunesTo-trans steps
          (subst (λ need. PrunesTo need s' x.shape) (needs-stats t u stats) x.steps);
    count_eq = omega (arith, x.count_eq, count);
    same_stats = x.same_stats ∙ stats;
    same_count = x.same_count ∙ same;
  }

  abbrev Tries : ℕ → RegTree F → Shape → ℕ → ℕ → ℕ → Type 0
  Tries fuel t s nid depth npruned =
      (r : RegTree F × ℕ) × (try_prune_leaf fuel param t nid depth npruned ≡ some r)
      × Tried t s npruned r

  module _ {t : RegTree F} {s : Shape} (o : IsTree t s) {nid : ℕ} (p : LeafAt nid s)
      (fuel npruned : ℕ) where
    leaf : is_leaf (node t nid) ≡ true
    leaf = LeafAt-is_leaf (node t) invalid_node_id p o.shaped

    round_alone : s ≡ tip nid → Tries (suc fuel) t s nid (leaf_depth p) npruned
    round_alone q =
        let h : Represents (node t) invalid_node_id (tip nid) =
          subst (Represents (node t) invalid_node_id) q o.shaped in
        (
          (t, npruned),
          try_root t fuel nid (leaf_depth p) npruned leaf (ground (arith, h.0.up_eq)),
          Tried-refl t npruned o,
        )

    round_stop :
        {k a b : ℕ} {both : Bool} (i : IsParent (node t) nid k a b both)
        → (balanced t k && needs t k (leaf_depth p)) ≡ false
        → Tries (suc fuel) t s nid (leaf_depth p) npruned
    round_stop i e =
        ((t, npruned), try_stop t fuel nid (leaf_depth p) npruned leaf i e, Tried-refl t npruned o)

    module _ {k a b : ℕ} (q : TwigAt k a b s) (i : IsParent (node t) nid k a b true)
        (d : leaf_depth p ≡ suc (twig_depth q)) (e : needs t k (leaf_depth p) ≡ true)
        (again : (t' : RegTree F) (s' : Shape)
          → IsTree t' s'
          → (p' : LeafAt k s') (npruned' : ℕ) → leaf_depth p' < fuel
          → Tries fuel t' s' k (leaf_depth p') npruned') where
      round_go : leaf_depth p < suc fuel → Tries (suc fuel) t s nid (leaf_depth p) npruned
      round_go lt =
          let value = F.mul param.learning_rate (stat t k).base_weight in
          let (t', run, x) = change_to_leaf-Pruned o q value in
          let (r, run', y) =
            again t' (prune q) x.tree (pruned_leaf q) (npruned + 2)
              (omega (arith, leaf_depth-pruned_leaf q, d)) in
          let depth_eq : leaf_depth (pruned_leaf q) ≡ leaf_depth p - 1 =
            omega (arith, leaf_depth-pruned_leaf q, d) in
          let tests : (balanced t k && needs t k (leaf_depth p)) ≡ true =
            rw (balanced-both t fuel nid (leaf_depth p) npruned leaf i, e) in
          (
            r,
            try_go t fuel nid (leaf_depth p) npruned leaf i t' tests run ∙ rw (← depth_eq) run',
            Tried-trans t t' s (prune q) npruned (npruned + 2) r (step q (rw (← d) e) done)
                (omega (arith, size-prune q)) x.same_stats x.same_count y,
          )

  -- TryPruneLeaf at a leaf of a well-formed tree, at its depth and with more fuel than that, passes
  -- its checks and ends. It leaves a well-formed tree, got by taking back splits of two leaves that
  -- NeedPrune asks for, and adds the number of nodes taken away to `npruned`.
  pub try_prune_leaf-Tried :
      (fuel : ℕ) (t : RegTree F) (s : Shape) (o : IsTree t s) (nid : ℕ) (p : LeafAt nid s)
      (npruned : ℕ)
      → leaf_depth p < fuel
      → (r : RegTree F × ℕ) × (try_prune_leaf fuel param t nid (leaf_depth p) npruned ≡ some r)
        × Tried t s npruned r
  try_prune_leaf-Tried zero t s o nid p npruned lt = elim lt [ ]
  try_prune_leaf-Tried (suc fuel) t s o nid p npruned lt =
      elim (above (node t) invalid_node_id p o.shaped) [
        | alone q ↦ round_alone o p fuel npruned q
        | split_sibling i ↦
            round_stop o p fuel npruned i
              (rw (balanced-both t fuel nid (leaf_depth p) npruned (leaf o p fuel npruned) i))
        | twig {k} q i d ↦ elim (Bool-cases (needs t k (leaf_depth p))) [
          | inl e ↦
              round_go o p fuel npruned q i d e
                (λ t' s' o' p' n' lt'. try_prune_leaf-Tried fuel t' s' o' k p' n' lt') lt
          | inr e ↦
              round_stop o p fuel npruned i
                (rw (balanced-both t fuel nid (leaf_depth p) npruned (leaf o p fuel npruned) i, e))
        ]
      ]
