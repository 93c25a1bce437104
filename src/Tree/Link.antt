-- ===== src/Tree/Link.antt =====
-- The writes of ExpandNode (src/tree/tree_model.cc) into `nodes_`: what each slot holds afterwards.

use xgboost.Prelude.{ℕ, ◌<◌, ◌≡◌, ◌≢◌, sym, ◌∙◌, ap, length, true, false}
use xgboost.Float.{Float}
use xgboost.Tree.Node.{Node, set_left_child, set_right_child, set_split, set_leaf, set_parent}
use xgboost.Tree.RegTree.{RegTree, SplitArgs, node, modify, link_children}
use xgboost.Tree.Alloc.{node-modify_self, node-modify_ne, length-modify, lt_modify}

module _ {F : Float} where
  -- The node that ExpandNode leaves at the split, and at its children.
  abbrev pub split_node : Node F → ℕ → ℕ → SplitArgs F → Node F
  split_node n pleft pright s =
      set_split s.split_index s.split_value s.default_left
        (set_right_child pright (set_left_child pleft n))

  abbrev pub left_node : Node F → ℕ → SplitArgs F → Node F
  left_node n nid s = set_leaf s.left_leaf_weight s.leaf_right_child (set_parent nid true n)

  abbrev pub right_node : Node F → ℕ → SplitArgs F → Node F
  right_node n nid s = set_leaf s.right_leaf_weight s.leaf_right_child (set_parent nid false n)

  module _ (t : RegTree F) (nid a b : ℕ) (s : SplitArgs F) (nid≢a : nid ≢ a) (nid≢b : nid ≢ b)
      (a≢b : a ≢ b) (hn : nid < length t.nodes) (ha : a < length t.nodes)
      (hb : b < length t.nodes) where
    a≢nid : a ≢ nid
    a≢nid e = nid≢a (sym e)

    b≢nid : b ≢ nid
    b≢nid e = nid≢b (sym e)

    b≢a : b ≢ a
    b≢a e = a≢b (sym e)

    -- The states between the writes.
    abbrev t1 : RegTree F
    t1 = modify (set_left_child a) nid t

    abbrev t2 : RegTree F
    t2 = modify (set_right_child b) nid t1

    abbrev t3 : RegTree F
    t3 = modify (set_parent nid true) a t2

    abbrev t4 : RegTree F
    t4 = modify (set_parent nid false) b t3

    abbrev t5 : RegTree F
    t5 = modify (set_split s.split_index s.split_value s.default_left) nid t4

    abbrev t6 : RegTree F
    t6 = modify (set_leaf s.left_leaf_weight s.leaf_right_child) a t5

    lt-t2 : {x : ℕ} → x < length t.nodes → x < length t2.nodes
    lt-t2 h = simp length-modify h

    lt-t4 : {x : ℕ} → x < length t.nodes → x < length t4.nodes
    lt-t4 h = simp length-modify h

    lt-t6 : {x : ℕ} → x < length t.nodes → x < length t6.nodes
    lt-t6 h = simp length-modify h

    pub length-link : length (link_children t nid a b s).nodes ≡ length t.nodes
    unfolding link_children
    length-link = simp length-modify

    attached-split : node t4 nid ≡ set_right_child b (set_left_child a (node t nid))
    attached-split = rw (
      node-modify_ne _ b nid t3 b≢nid,
      node-modify_ne _ a nid t2 a≢nid,
      node-modify_self _ nid t1 (lt_modify _ _ t hn),
      node-modify_self _ nid t hn,
    )

    attached-left : node t4 a ≡ set_parent nid true (node t a)
    attached-left = rw (
      node-modify_ne _ b a t3 b≢a,
      node-modify_self _ a t2 (lt-t2 ha),
      node-modify_ne _ nid a t1 nid≢a,
      node-modify_ne _ nid a t nid≢a,
    )

    attached-right : node t4 b ≡ set_parent nid false (node t b)
    attached-right = rw (
      node-modify_self _ b t3 (lt_modify _ _ t2 (lt-t2 hb)),
      node-modify_ne _ a b t2 a≢b,
      node-modify_ne _ nid b t1 nid≢b,
      node-modify_ne _ nid b t nid≢b,
    )

    pub link-split : node (link_children t nid a b s) nid ≡ split_node (node t nid) a b s
    unfolding link_children
    link-split =
        node-modify_ne _ b nid t6 b≢nid
        ∙ node-modify_ne _ a nid t5 a≢nid
        ∙ node-modify_self _ nid t4 (lt-t4 hn)
        ∙ ap (set_split s.split_index s.split_value s.default_left) attached-split

    pub link-left : node (link_children t nid a b s) a ≡ left_node (node t a) nid s
    unfolding link_children
    link-left =
        node-modify_ne _ b a t6 b≢a
        ∙ node-modify_self _ a t5 (lt_modify _ _ t4 (lt-t4 ha))
        ∙ ap (set_leaf s.left_leaf_weight s.leaf_right_child)
            (node-modify_ne _ nid a t4 nid≢a ∙ attached-left)

    pub link-right : node (link_children t nid a b s) b ≡ right_node (node t b) nid s
    unfolding link_children
    link-right =
        node-modify_self _ b t6 (lt-t6 hb)
        ∙ ap (set_leaf s.right_leaf_weight s.leaf_right_child)
            (node-modify_ne _ a b t5 a≢b ∙ node-modify_ne _ nid b t4 nid≢b ∙ attached-right)

    pub link-others :
        (x : ℕ) → nid ≢ x → a ≢ x → b ≢ x → node (link_children t nid a b s) x ≡ node t x
    unfolding link_children
    link-others x p q r =
        node-modify_ne _ b x t6 r
        ∙ node-modify_ne _ a x t5 q
        ∙ node-modify_ne _ nid x t4 p
        ∙ node-modify_ne _ b x t3 r
        ∙ node-modify_ne _ a x t2 q
        ∙ node-modify_ne _ nid x t1 p
        ∙ node-modify_ne _ nid x t p
