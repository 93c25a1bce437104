-- ===== src/Tree/Collapse.antt =====
-- ChangeToLeaf and CollapseToLeaf of include/xgboost/tree_model.h.
use mathlib.Core.List.{
  Perm, Nodup-append, Nodup-cons, mem-append_left, mem-cons_self, mem-cons_of_mem, perm_middle,
  not-mem-nil, mem-cons,
}
use mathlib.Core.List.Perm
use mathlib.Core.Logic.Or
use xgboost.Prelude.{
  ℕ, ◌≤◌, ◌<◌, ◌≡◌, ◌≢◌, refl, sym, ◌∙◌, ap, subst, ◌∷◌, ◌++◌, Mem, Nodup, arith, length, below,
  some, ℕ-eq_prop,
}
use xgboost.Float.{Float}
use xgboost.Tree.Node.{invalid_node_id, deleted_node_marker, leaf_value, set_leaf}
use xgboost.Tree.RegTree.{RegTree, node, modify, release, delete_node, change_to_leaf}
use xgboost.Tree.Shape.{Shape, root, ids, TwigAt, prune, root-prune}
use xgboost.Tree.Invariant.{Represents, IsTree, all-Nodup, mem_lt}
use xgboost.Tree.Graft.{
  TwigAt-root, TwigAt-left, TwigAt-right, Represents-prune, fork-left_Nodup, fork-right_Nodup,
  fork-not_left, fork-not_right,
}
use xgboost.Tree.Cut.{delete_node-left, delete_node-right}
use xgboost.Tree.Unlink.{
  IsTwig, TwigAt-IsTwig, prune-perm, pruned, cut_left, cut_both, cut_left-top, cut_left-others,
  pruned-top, pruned-left, pruned-right, pruned-others, length-pruned,
}

-- The children of a twig are not the root of the tree.
twig_ne_root :
    {k a b : ℕ} {s : Shape} (p : TwigAt k a b s)
    → Nodup (ids s)
    → (root s ≢ a) × (root s ≢ b) × (k ≢ a) × (k ≢ b) × (a ≢ b)
unfolding ids
twig_ne_root {k} {a} {b} TwigAt.here d =
    let ka : k ≢ a = λ e. (Nodup-cons.0 d).0 (rw e mem-cons_self) in
    let kb : k ≢ b = λ e. (Nodup-cons.0 d).0 (rw e (mem-cons_of_mem a mem-cons_self)) in
    let ab : a ≢ b = λ e. (Nodup-cons.0 (Nodup-cons.0 d).1).0 (rw e mem-cons_self) in
    (ka, kb, ka, kb, ab)
twig_ne_root (TwigAt.left {n} {l} {r} p) d =
    let (_, _, ka, kb, ab) = twig_ne_root p (fork-left_Nodup n l r d) in
    (
      λ e. fork-not_left n l r d (rw e (TwigAt-left p)),
      λ e. fork-not_left n l r d (rw e (TwigAt-right p)),
      ka,
      kb,
      ab,
    )
twig_ne_root (TwigAt.right {n} {l} {r} p) d =
    let (_, _, ka, kb, ab) = twig_ne_root p (fork-right_Nodup n l r d) in
    (
      λ e. fork-not_right n l r d (rw e (TwigAt-left p)),
      λ e. fork-not_right n l r d (rw e (TwigAt-right p)),
      ka,
      kb,
      ab,
    )

module _ {F : Float} {t : RegTree F} {s : Shape} {k a b : ℕ} (o : IsTree t s) (p : TwigAt k a b s)
    (v : F.Carrier) where
  twig : IsTwig (node t) k a b
  twig = TwigAt-IsTwig (node t) invalid_node_id p o.shaped

  own_Nodup : Nodup (ids s)
  own_Nodup = (Nodup-append.0 (all-Nodup o)).0

  k≢a : k ≢ a
  k≢a = (twig_ne_root p own_Nodup).2

  k≢b : k ≢ b
  k≢b = (twig_ne_root p own_Nodup).3

  a≢b : a ≢ b
  a≢b = (twig_ne_root p own_Nodup).4

  a_pos : 1 ≤ a
  a_pos = omega (arith, (twig_ne_root p own_Nodup).0, o.rooted)

  b_pos : 1 ≤ b
  b_pos = omega (arith, (twig_ne_root p own_Nodup).1, o.rooted)

  own_lt : (x : ℕ) → Mem x (ids s) → x < length t.nodes
  own_lt x m = omega (arith, o.nodes_size, mem_lt o (mem-append_left t.deleted_nodes m))

  k_lt : k < length t.nodes
  k_lt = own_lt k (TwigAt-root p)

  a_lt : a < length t.nodes
  a_lt = own_lt a (TwigAt-left p)

  b_lt : b < length t.nodes
  b_lt = own_lt b (TwigAt-right p)

  -- After the first DeleteNode the parent still names its right child.
  second_cut : delete_node (cut_left t k a) b ≡ some (cut_both t k a b)
  second_cut =
      delete_node-right (cut_left t k a) k b twig.k_lt b_pos twig.b_lt
        (rw (cut_left-others t k a b v k≢a k≢b a≢b k_lt a_lt b_lt b k≢b a≢b) twig.right_up)
        (rw (cut_left-top t k a b v k≢a k≢b a≢b k_lt a_lt b_lt) (omega (arith, twig.b_lt)))

  right_kept : (node (cut_left t k a) k).cright ≡ b
  right_kept = rw (cut_left-top t k a b v k≢a k≢b a≢b k_lt a_lt b_lt) twig.right_eq

  change_to_leaf-run : change_to_leaf t k v ≡ some (pruned t k a b v)
  unfolding change_to_leaf pruned
  change_to_leaf-run = rw (
    twig.left_eq,
    twig.right_eq,
    twig.left_leaf,
    twig.right_leaf,
    delete_node-left t k a twig.k_lt a_pos twig.a_lt twig.left_up twig.left_eq,
    right_kept,
    second_cut,
  )

  pruned-frame : (x : ℕ) → k ≢ x → a ≢ x → b ≢ x → node (pruned t k a b v) x ≡ node t x
  pruned-frame = pruned-others t k a b v k≢a k≢b a≢b k_lt a_lt b_lt

  top_eq : node (pruned t k a b v) k ≡ set_leaf v invalid_node_id (node t k)
  top_eq = pruned-top t k a b v k≢a k≢b a≢b k_lt a_lt b_lt

  pruned-shaped : Represents (node (pruned t k a b v)) invalid_node_id (prune p)
  pruned-shaped =
      Represents-prune (node t) (node (pruned t k a b v)) invalid_node_id p own_Nodup
        (λ x m i j l. pruned-frame x (λ e. i (sym e)) (λ e. j (sym e)) (λ e. l (sym e)))
        (λ up h. rw top_eq (record { up_eq = h.up_eq; live = h.live; in_range = h.in_range }, refl))
        o.shaped

  pruned-cover : Perm (ids (prune p) ++ (b ∷ a ∷ t.deleted_nodes)) (below t.param.num_nodes)
  pruned-cover =
      Perm.trans
        (Perm.trans (perm_middle (ids (prune p)) (a ∷ t.deleted_nodes)) (
          Perm.trans (Perm.cons b (perm_middle (ids (prune p)) t.deleted_nodes))
            (Perm.swap a b (ids (prune p) ++ t.deleted_nodes))))
        (Perm.trans (Perm.symm (Perm.append_right t.deleted_nodes (prune-perm p))) o.cover)

  not_free : {x d : ℕ} → Mem x (ids s) → Mem d t.deleted_nodes → x ≢ d
  not_free {x} m m' e =
      (Nodup-append.0 (all-Nodup o)).2 x m (subst (λ z. Mem z t.deleted_nodes) (sym e) m')

  pruned-marked :
      (d : ℕ)
      → Mem d (b ∷ a ∷ t.deleted_nodes)
      → (node (pruned t k a b v) d).sindex ≡ deleted_node_marker
  pruned-marked d m =
      Or.elim ℕ-eq_prop (mem-cons.0 m)
        (λ e. rw (e, pruned-right t k a b v k≢a k≢b a≢b k_lt a_lt b_lt))
        (λ m'.
          Or.elim ℕ-eq_prop (mem-cons.0 m')
            (λ e. rw (e, pruned-left t k a b v k≢a k≢b a≢b k_lt a_lt b_lt))
            (λ m''.
              rw
                (pruned-frame d (not_free (TwigAt-root p) m'') (not_free (TwigAt-left p) m'')
                  (not_free (TwigAt-right p) m''))
                (o.marked d m'')))

  pruned-IsTree : IsTree (pruned t k a b v) (prune p)
  unfolding pruned release modify
  pruned-IsTree = record {
    nodes_size = length-pruned t k a b v k≢a k≢b a≢b k_lt a_lt b_lt ∙ o.nodes_size;
    stats_size = o.stats_size;
    types_size = o.types_size;
    segments_size = o.segments_size;
    counted = omega (arith, o.counted);
    cover = pruned-cover;
    rooted = root-prune p ∙ o.rooted;
    shaped = pruned-shaped;
    marked = pruned-marked;
    cleared = λ d m. absurd (not-mem-nil m);
    small = o.small;
  }

  -- What a successful ChangeToLeaf at `k` has done.
  pub record Pruned (t' : RegTree F) : Type 0 where
    pub tree : IsTree t' (prune p)
    pub value_eq : leaf_value (node t' k) ≡ v
    pub freed : t'.deleted_nodes ≡ b ∷ a ∷ t.deleted_nodes
    pub same_stats : t'.stats ≡ t.stats
    pub same_count : t'.param.num_nodes ≡ t.param.num_nodes
    pub others : (x : ℕ) → k ≢ x → a ≢ x → b ≢ x → node t' x ≡ node t x

  -- ChangeToLeaf at a node with two leaves passes all its checks. The result is a well-formed tree
  -- for the shape in which the node is a leaf of the given value; its two children, the left one
  -- first, have gone to the free list, and no other node has changed.
  pub change_to_leaf-Pruned : (t' : RegTree F) × (change_to_leaf t k v ≡ some t') × Pruned t'
  change_to_leaf-Pruned = (
    pruned t k a b v,
    change_to_leaf-run,
    record {
      tree = pruned-IsTree;
      value_eq = ap leaf_value top_eq;
      freed = unfold pruned release modify in refl;
      same_stats = unfold pruned release modify in refl;
      same_count = unfold pruned release modify in refl;
      others = pruned-frame;
    },
  )
