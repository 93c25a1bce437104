-- ===== src/Prune/Loop.antt =====
-- DoPrune and Update of src/tree/updater_prune.cc: the loop over all node ids.
use mathlib.Core.List.{mem-append, mem-cons, not-mem-nil}
use mathlib.Core.List.Perm
use mathlib.Core.Logic.Or
use mathlib.Core.HLevel.{⊥_prop}
use mathlib.Core.Bool.{false≢true}
use xgboost.Prelude.{
  ℕ, zero, suc, ◌+◌, ◌≤◌, ◌<◌, ◌≡◌, refl, sym, ◌∙◌, subst, true, false, not, ◌&&◌, arith, ◌⊎◌, inl,
  inr, some, Bool-cases, Mem, mem-below, ℕ_discrete,
}
use xgboost.Float.{Float}
use xgboost.Tree.Node.{Node, invalid_node_id, set_high_bit, is_leaf, is_deleted}
use xgboost.Tree.RegTree.{RegTree, node}
use xgboost.Tree.Shape.{Shape, tip, fork, ids, LeafAt}
use xgboost.Tree.Invariant.{IsTree, Represents, is_leaf-fork}
use xgboost.Tree.Depth.{get_depth-eq-depth_of}
use xgboost.Prune.{TrainParam, prune_at, prune_from, do_prune}
use xgboost.Prune.Parent.{leaf_depth, leaf_node, depth_of-leaf_node}
use xgboost.Prune.Sound.{Tried, Tried-refl, Tried-trans, try_prune_leaf-Tried}

module _ {F : Float} where
  -- An id of a well-formed tree that reads as a leaf is a leaf of the shape.
  locate :
      (g : ℕ → Node F) (k up : ℕ) (s : Shape)
      → Represents g up s
      → is_leaf (g k) ≡ true
      → LeafAt k s ⊎ (¬ Mem k (ids s))
  unfolding ids
  locate g k up (tip n) h leaf = elim (ℕ_discrete n k) [
    | yes e ↦ inl (subst (λ y. LeafAt k (tip y)) (sym e) LeafAt.here)
    | no ne ↦ inr (λ m. Or.elim ⊥_prop (mem-cons.0 m) (λ e. ne (sym e)) not-mem-nil)
  ]
  locate g k up (fork n l r) h leaf =
      both (locate g k (set_high_bit n) l h.3 leaf) (locate g k n r h.4 leaf)
    where
      both :
          LeafAt k l ⊎ (¬ Mem k (ids l))
          → LeafAt k r ⊎ (¬ Mem k (ids r))
          → LeafAt k (fork n l r) ⊎ (¬ Mem k (ids (fork n l r)))
      both (inl p) y = inl (LeafAt.left p)
      both (inr a) (inl p) = inl (LeafAt.right p)
      both (inr a) (inr b) = inr (λ m.
          Or.elim ⊥_prop (mem-cons.0 m)
            (λ e.
              false≢true (
                sym (subst (λ y. is_leaf (g y) ≡ false) (sym e) (is_leaf-fork g up n l r h))
                ∙ leaf))
            (λ m'. Or.elim ⊥_prop (mem-append.0 m') a b))

  leaf_of_live :
      {t : RegTree F} {s : Shape} (o : IsTree t s) (k : ℕ)
      → k < t.param.num_nodes
      → is_leaf (node t k) ≡ true
      → is_deleted (node t k) ≡ false
      → LeafAt k s
  leaf_of_live {t} {s} o k lt leaf live = found (locate (node t) k invalid_node_id s o.shaped leaf)
    where
      found : LeafAt k s ⊎ (¬ Mem k (ids s)) → LeafAt k s
      found (inl p) = p
      found (inr out) = absurd (
          Or.elim ⊥_prop (mem-append.0 ((Perm.mem_iff o.cover).1 (mem-below _ lt))) out
            (λ m. ground (arith, o.marked k m)))

  module _ (param : TrainParam F) where
    prune_at-Tried :
        (t : RegTree F) (s : Shape) (o : IsTree t s) (nid npruned : ℕ)
        → nid < t.param.num_nodes
        → (r : RegTree F × ℕ) × (prune_at param t nid npruned ≡ some r) × Tried param t s npruned r
    unfolding prune_at
    prune_at-Tried t s o nid npruned lt =
        elim (Bool-cases (is_leaf (node t nid) && not (is_deleted (node t nid)))) [
          | inr e ↦ ((t, npruned), rw e, Tried-refl param t npruned o)
          | inl e ↦
              let p = leaf_of_live o nid lt (ground arith) (ground arith) in
              let (r, run, x) =
                try_prune_leaf-Tried param (suc (leaf_depth p)) t s o nid p npruned (omega arith) in
              (r, rw (e, get_depth-eq-depth_of o (leaf_node p), depth_of-leaf_node p) run, x)
        ]

    prune_from-Tried :
        (rounds : ℕ) (t : RegTree F) (s : Shape) (o : IsTree t s) (nid npruned : ℕ)
        → nid + rounds ≤ t.param.num_nodes
        → (r : RegTree F × ℕ) × (prune_from rounds param t nid npruned ≡ some r)
          × Tried param t s npruned r
    unfolding prune_from
    prune_from-Tried zero t s o nid npruned le = ((t, npruned), refl, Tried-refl param t npruned o)
    prune_from-Tried (suc rounds) t s o nid npruned le =
        let (u, run, x) = prune_at-Tried t s o nid npruned (omega arith) in
        let (r, run', y) =
          prune_from-Tried rounds u.0 x.shape x.tree (nid + 1) u.1 (omega (arith, x.same_count)) in
        (
          r,
          rw run run',
          Tried-trans param t u.0 s x.shape npruned u.1 r x.steps x.count_eq x.same_stats
              x.same_count y,
        )

    -- DoPrune on a well-formed tree passes all its checks and ends. The tree that it leaves is
    -- well-formed, has the statistics and the slots of the given one, and its shape comes from the
    -- given one by taking back splits of two leaves that NeedPrune asks for; the count that it logs is
    -- the number of nodes taken away.
    pub do_prune-Tried :
        {t : RegTree F} {s : Shape}
        → IsTree t s
        → (r : RegTree F × ℕ) × (do_prune param t ≡ some r) × Tried param t s 0 r
    unfolding do_prune
    do_prune-Tried {t} {s} o = prune_from-Tried t.param.num_nodes t s o 0 0 (omega arith)
