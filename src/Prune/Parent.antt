-- ===== src/Prune/Parent.antt =====
-- The parent of a leaf, as src/tree/updater_prune.cc reads it from the nodes.
use xgboost.Prelude.{ℕ, suc, ◌≡◌, ◌≢◌, refl, ap, Bool, true, false, ◌&&◌, arith}
use xgboost.Float.{Float}
use xgboost.Tree.Node.{Node, invalid_node_id, set_high_bit, is_leaf, is_root, parent_id}
use xgboost.Tree.Shape.{
  Shape, tip, fork, root, LeafAt, TwigAt, NodeAt, depth_of, prune, pruned_leaf,
}
use xgboost.Tree.Invariant.{Represents, root-in_range, is_leaf-tip, is_leaf-fork}
use xgboost.Tree.Cut.{parent_of_high, parent_of_low}

unfoldable pub leaf_depth : {k : ℕ} {s : Shape} → LeafAt k s → ℕ
leaf_depth LeafAt.here = 0
leaf_depth (LeafAt.left p) = suc (leaf_depth p)
leaf_depth (LeafAt.right p) = suc (leaf_depth p)

pub leaf_node : {k : ℕ} {s : Shape} → LeafAt k s → NodeAt k s
leaf_node LeafAt.here = NodeAt.top refl
leaf_node (LeafAt.left p) = NodeAt.left (leaf_node p)
leaf_node (LeafAt.right p) = NodeAt.right (leaf_node p)

pub depth_of-leaf_node :
    {k : ℕ} {s : Shape} (p : LeafAt k s) → depth_of (leaf_node p) ≡ leaf_depth p
unfolding depth_of leaf_node leaf_depth
depth_of-leaf_node LeafAt.here = refl
depth_of-leaf_node (LeafAt.left p) = ap suc (depth_of-leaf_node p)
depth_of-leaf_node (LeafAt.right p) = ap suc (depth_of-leaf_node p)

pub twig_depth : {k a b : ℕ} {s : Shape} → TwigAt k a b s → ℕ
twig_depth TwigAt.here = 0
twig_depth (TwigAt.left p) = suc (twig_depth p)
twig_depth (TwigAt.right p) = suc (twig_depth p)

pub leaf_depth-pruned_leaf :
    {k a b : ℕ} {s : Shape} (p : TwigAt k a b s) → leaf_depth (pruned_leaf p) ≡ twig_depth p
unfolding leaf_depth twig_depth prune pruned_leaf
leaf_depth-pruned_leaf TwigAt.here = refl
leaf_depth-pruned_leaf (TwigAt.left p) = ap suc (leaf_depth-pruned_leaf p)
leaf_depth-pruned_leaf (TwigAt.right p) = ap suc (leaf_depth-pruned_leaf p)

module _ {F : Float} (g : ℕ → Node F) where
  -- What the nodes hold of a leaf's parent `k`, whose children are `a` and `b`.
  pub record IsParent (nid k a b : ℕ) (both : Bool) : Type 0 where
    pub not_root : is_root (g nid) ≡ false
    pub up_eq : parent_id (g nid) ≡ k
    pub not_leaf : is_leaf (g k) ≡ false
    pub left_eq : (g k).cleft ≡ a
    pub right_eq : (g k).cright ≡ b
    pub right_valid : b ≢ invalid_node_id
    pub both_eq : (is_leaf (g a) && is_leaf (g b)) ≡ both

  -- A leaf is the root, or a child of a twig, or has a sibling that is a split.
  pub data Above (nid : ℕ) (s : Shape) (depth : ℕ) : Type 0 where
    alone : s ≡ tip nid → Above nid s depth
    twig :
        {k a b : ℕ} (p : TwigAt k a b s)
        → IsParent nid k a b true
        → depth ≡ suc (twig_depth p)
        → Above nid s depth
    split_sibling : {k a b : ℕ} → IsParent nid k a b false → Above nid s depth

  left-IsParent :
      (up n nid : ℕ) (r : Shape) (both : Bool)
      → Represents g up (fork n (tip nid) r)
      → is_leaf (g (root r)) ≡ both
      → IsParent nid n nid (root r) both
  left-IsParent up n nid r both h e = record {
    not_root = rw h.3.0.up_eq (ground (arith, h.0.in_range));
    up_eq = rw h.3.0.up_eq (parent_of_high n (omega (arith, h.0.in_range)));
    not_leaf = is_leaf-fork g up n (tip nid) r h;
    left_eq = h.1;
    right_eq = h.2;
    right_valid = omega (arith, root-in_range g n r h.4);
    both_eq = rw (is_leaf-tip g (set_high_bit n) nid h.3, e);
  }

  right-IsParent :
      (up n nid : ℕ) (l : Shape) (both : Bool)
      → Represents g up (fork n l (tip nid))
      → is_leaf (g (root l)) ≡ both
      → IsParent nid n (root l) nid both
  right-IsParent up n nid l both h e = record {
    not_root = rw h.4.0.up_eq (ground (arith, h.0.in_range));
    up_eq = rw h.4.0.up_eq (parent_of_low n (omega (arith, h.0.in_range)));
    not_leaf = is_leaf-fork g up n l (tip nid) h;
    left_eq = h.1;
    right_eq = h.2;
    right_valid = omega (arith, h.4.0.in_range);
    both_eq = rw (e, is_leaf-tip g n nid h.4) (ground arith);
  }

  lift_left :
      (n m : ℕ) (x y r : Shape) {nid d : ℕ}
      → Above nid (fork m x y) d
      → Above nid (fork n (fork m x y) r) (suc d)
  unfolding twig_depth
  lift_left n m x y r (alone e) = cc
  lift_left n m x y r (twig p i e) = twig (TwigAt.left p) i (ap suc e)
  lift_left n m x y r (split_sibling i) = split_sibling i

  lift_right :
      (n m : ℕ) (x y l : Shape) {nid d : ℕ}
      → Above nid (fork m x y) d
      → Above nid (fork n l (fork m x y)) (suc d)
  unfolding twig_depth
  lift_right n m x y l (alone e) = cc
  lift_right n m x y l (twig p i e) = twig (TwigAt.right p) i (ap suc e)
  lift_right n m x y l (split_sibling i) = split_sibling i

  pub above :
      {nid : ℕ} (up : ℕ) {s : Shape} (p : LeafAt nid s)
      → Represents g up s
      → Above nid s (leaf_depth p)
  unfolding leaf_depth twig_depth
  above up LeafAt.here h = alone refl
  above {nid} up (LeafAt.left {n} {r = tip b} LeafAt.here) h =
      twig TwigAt.here (left-IsParent up n nid (tip b) true h (is_leaf-tip g n b h.4)) refl
  above {nid} up (LeafAt.left {n} {r = fork m x y} LeafAt.here) h =
      split_sibling (left-IsParent up n nid (fork m x y) false h (is_leaf-fork g n m x y h.4))
  above up (LeafAt.left {n} {r = r} (LeafAt.left {n = m} {l = x} {r = y} p)) h =
      lift_left n m x y r (above (set_high_bit n) (LeafAt.left p) h.3)
  above up (LeafAt.left {n} {r = r} (LeafAt.right {n = m} {l = x} {r = y} p)) h =
      lift_left n m x y r (above (set_high_bit n) (LeafAt.right p) h.3)
  above {nid} up (LeafAt.right {n} {l = tip a} LeafAt.here) h =
      twig TwigAt.here
        (right-IsParent up n nid (tip a) true h (is_leaf-tip g (set_high_bit n) a h.3)) refl
  above {nid} up (LeafAt.right {n} {l = fork m x y} LeafAt.here) h =
      split_sibling
        (right-IsParent up n nid (fork m x y) false h (is_leaf-fork g (set_high_bit n) m x y h.3))
  above up (LeafAt.right {n} {l = l} (LeafAt.left {n = m} {l = x} {r = y} p)) h =
      lift_right n m x y l (above n (LeafAt.left p) h.4)
  above up (LeafAt.right {n} {l = l} (LeafAt.right {n = m} {l = x} {r = y} p)) h =
      lift_right n m x y l (above n (LeafAt.right p) h.4)
