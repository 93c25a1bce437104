-- ===== src/Tree/Unlink.antt =====
-- The writes of ChangeToLeaf (include/xgboost/tree_model.h) into `nodes_`: what each slot holds
-- afterwards.
use mathlib.Core.List.{Perm}
use xgboost.Prelude.{ℕ, ◌^◌, ◌<◌, ◌≡◌, ◌≢◌, sym, ◌∙◌, ap, subst, ◌∷◌, arith, length, true}
use xgboost.Float.{Float}
use xgboost.Tree.Node.{
  Node, invalid_node_id, set_high_bit, is_leaf, set_left_child, set_right_child, set_leaf,
  mark_delete,
}
use xgboost.Tree.RegTree.{RegTree, node, modify, release}
use xgboost.Tree.Shape.{Shape, ids, TwigAt, prune, pruned_leaf, graft-pruned_leaf, ids-graft-perm}
use xgboost.Tree.Invariant.{Represents, is_leaf-tip}
use xgboost.Tree.Alloc.{node-modify_self, node-modify_ne, length-modify}
use xgboost.Tree.Cut.{node-release_self, node-release_ne, length-release}

module _ {k a b : ℕ} where
  pub prune-perm : {s : Shape} (p : TwigAt k a b s) → Perm (ids s) (a ∷ b ∷ ids (prune p))
  prune-perm {s} p =
      subst (λ s'. Perm (ids s') (a ∷ b ∷ ids (prune p))) (graft-pruned_leaf p)
        (ids-graft-perm (pruned_leaf p) a b)

module _ {F : Float} where
  -- What the nodes of a twig hold.
  pub record IsTwig (g : ℕ → Node F) (k a b : ℕ) : Type 0 where
    pub left_eq : (g k).cleft ≡ a
    pub right_eq : (g k).cright ≡ b
    pub left_leaf : is_leaf (g a) ≡ true
    pub right_leaf : is_leaf (g b) ≡ true
    pub left_up : (g a).parent ≡ set_high_bit k
    pub right_up : (g b).parent ≡ k
    pub k_lt : k < 2 ^ 31
    pub a_lt : a < 2 ^ 31
    pub b_lt : b < 2 ^ 31

  pub TwigAt-IsTwig :
      {k a b : ℕ} (g : ℕ → Node F) (up : ℕ) {s : Shape}
      → TwigAt k a b s
      → Represents g up s
      → IsTwig g k a b
  TwigAt-IsTwig {k} {a} {b} g up TwigAt.here h = record {
    left_eq = h.1;
    right_eq = h.2;
    left_leaf = is_leaf-tip g (set_high_bit k) a h.3;
    right_leaf = is_leaf-tip g k b h.4;
    left_up = h.3.0.up_eq;
    right_up = h.4.0.up_eq;
    k_lt = omega (arith, h.0.in_range);
    a_lt = omega (arith, h.3.0.in_range);
    b_lt = omega (arith, h.4.0.in_range);
  }
  TwigAt-IsTwig g up (TwigAt.left {n} p) h = TwigAt-IsTwig g (set_high_bit n) p h.3
  TwigAt-IsTwig g up (TwigAt.right {n} p) h = TwigAt-IsTwig g n p h.4

  -- The states of ChangeToLeaf.
  abbrev pub cut_left : RegTree F → ℕ → ℕ → RegTree F
  cut_left t k a = release a (modify (set_left_child invalid_node_id) k t)

  abbrev pub cut_both : RegTree F → ℕ → ℕ → ℕ → RegTree F
  cut_both t k a b = release b (modify (set_right_child invalid_node_id) k (cut_left t k a))

  unfoldable pub pruned : RegTree F → ℕ → ℕ → ℕ → F.Carrier → RegTree F
  pruned t k a b v = modify (set_leaf v invalid_node_id) k (cut_both t k a b)

  module _ (t : RegTree F) (k a b : ℕ) (v : F.Carrier) (k≢a : k ≢ a) (k≢b : k ≢ b) (a≢b : a ≢ b)
      (hk : k < length t.nodes) (ha : a < length t.nodes) (hb : b < length t.nodes) where
    abbrev u1 : RegTree F
    u1 = modify (set_left_child invalid_node_id) k t

    abbrev u2 : RegTree F
    u2 = cut_left t k a

    abbrev u3 : RegTree F
    u3 = modify (set_right_child invalid_node_id) k u2

    abbrev u4 : RegTree F
    u4 = cut_both t k a b

    lt-u1 : {x : ℕ} → x < length t.nodes → x < length u1.nodes
    lt-u1 h = simp length-modify h

    lt-u3 : {x : ℕ} → x < length t.nodes → x < length u3.nodes
    lt-u3 h = simp (length-modify, length-release) h

    lt-u4 : {x : ℕ} → x < length t.nodes → x < length u4.nodes
    lt-u4 h = simp (length-modify, length-release) h

    pub length-pruned : length (pruned t k a b v).nodes ≡ length t.nodes
    unfolding pruned
    length-pruned = simp (length-modify, length-release)

    pub cut_left-top : node u2 k ≡ set_left_child invalid_node_id (node t k)
    cut_left-top = node-release_ne a k u1 (λ e. k≢a (sym e)) ∙ node-modify_self _ k t hk

    pub cut_left-others : (x : ℕ) → k ≢ x → a ≢ x → node u2 x ≡ node t x
    cut_left-others x p q = node-release_ne a x u1 q ∙ node-modify_ne _ k x t p

    cut_left-left : node u2 a ≡ mark_delete (node t a)
    cut_left-left = node-release_self a u1 (lt-u1 ha) ∙ ap mark_delete (node-modify_ne _ k a t k≢a)

    cut_both-top :
        node u4 k ≡ set_right_child invalid_node_id (set_left_child invalid_node_id (node t k))
    cut_both-top =
        node-release_ne b k u3 (λ e. k≢b (sym e))
        ∙ node-modify_self _ k u2 (simp (length-modify, length-release) hk)
        ∙ ap (set_right_child invalid_node_id) cut_left-top

    pub pruned-top : node (pruned t k a b v) k ≡ set_leaf v invalid_node_id (node t k)
    unfolding pruned
    pruned-top = node-modify_self _ k u4 (lt-u4 hk) ∙ ap (set_leaf v invalid_node_id) cut_both-top

    pub pruned-left : node (pruned t k a b v) a ≡ mark_delete (node t a)
    unfolding pruned
    pruned-left =
        node-modify_ne _ k a u4 k≢a
        ∙ node-release_ne b a u3 (λ e. a≢b (sym e))
        ∙ node-modify_ne _ k a u2 k≢a
        ∙ cut_left-left

    pub pruned-right : node (pruned t k a b v) b ≡ mark_delete (node t b)
    unfolding pruned
    pruned-right =
        node-modify_ne _ k b u4 k≢b
        ∙ node-release_self b u3 (lt-u3 hb)
        ∙ ap mark_delete (node-modify_ne _ k b u2 k≢b ∙ cut_left-others b k≢b a≢b)

    pub pruned-others : (x : ℕ) → k ≢ x → a ≢ x → b ≢ x → node (pruned t k a b v) x ≡ node t x
    unfolding pruned
    pruned-others x p q r =
        node-modify_ne _ k x u4 p
        ∙ node-release_ne b x u3 r
        ∙ node-modify_ne _ k x u2 p
        ∙ cut_left-others x p q
