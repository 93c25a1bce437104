-- ===== src/Tree/RegTree.antt =====
-- The tree model of include/xgboost/tree_model.h and src/tree/tree_model.cc: its vectors, the free
-- list of nodes, and the operations that change them. `none` is a failed CHECK (an exception).
use xgboost.Prelude.{
  ℕ, zero, suc, ◌+◌, ◌-◌, ◌^◌, Bool, true, false, List, [], ◌∷◌, Option, none, some, ◌&&◌, ◌==◌,
  ltb, leb, if◌then◌else◌, length, get_or, set, resize,
}
use xgboost.Prelude.Check.{◌>>=◌, ◌>>◌, check}
use xgboost.Float.{Float}
use xgboost.Tree.Node.{
  Node, default_node, invalid_node_id, left_child, right_child, is_leaf, parent_id, set_left_child,
  set_right_child, set_split, set_leaf, mark_delete, reuse, set_parent,
}

-- `reserved` is left out: nothing reads it.
pub record TreeParam : Type 0 where
  pub deprecated_num_roots : ℕ
  pub num_nodes : ℕ
  pub num_deleted : ℕ
  pub deprecated_max_depth : ℕ
  pub num_feature : ℕ
  pub size_leaf_vector : ℕ

pub record RTreeNodeStat (F : Float) : Type 0 where
  pub loss_chg : F.Carrier
  pub sum_hess : F.Carrier
  pub base_weight : F.Carrier
  pub leaf_child_cnt : ℕ

pub data FeatureType : Type 0 where
  numerical categorical : FeatureType

pub record Segment : Type 0 where
  pub beg : ℕ
  pub size : ℕ

-- The head of `deleted_nodes` is the back of the vector.
pub record RegTree (F : Float) : Type 0 where
  pub param : TreeParam
  pub nodes : List (Node F)
  pub deleted_nodes : List ℕ
  pub stats : List (RTreeNodeStat F)
  pub split_types : List FeatureType
  pub split_categories : List ℕ
  pub split_categories_segments : List Segment

-- std::numeric_limits<int>::max()
abbrev pub int_max : ℕ
int_max = 2 ^ 31 - 1

abbrev pub initial_param : TreeParam
initial_param = record {
  deprecated_num_roots = 1;
  num_nodes = 1;
  num_deleted = 0;
  deprecated_max_depth = 0;
  num_feature = 0;
  size_leaf_vector = 0;
}

abbrev pub empty_segment : Segment
empty_segment = record { beg = 0; size = 0 }

abbrev pub default_stat : (F : Float) → RTreeNodeStat F
default_stat F = record {
  loss_chg = F.zero;
  sum_hess = F.zero;
  base_weight = F.zero;
  leaf_child_cnt = 0;
}

-- The constructor: a single leaf of value 0, its own root.
abbrev pub empty_tree : (F : Float) → RegTree F
empty_tree F = record {
  param = initial_param;
  nodes = set_parent invalid_node_id true (set_leaf F.zero invalid_node_id (default_node F)) ∷ [];
  deleted_nodes = [];
  stats = default_stat F ∷ [];
  split_types = FeatureType.numerical ∷ [];
  split_categories = [];
  split_categories_segments = empty_segment ∷ [];
}

-- The arguments of ExpandNode after the node.
pub record SplitArgs (F : Float) : Type 0 where
  pub split_index : ℕ
  pub split_value : F.Carrier
  pub default_left : Bool
  pub base_weight : F.Carrier
  pub left_leaf_weight : F.Carrier
  pub right_leaf_weight : F.Carrier
  pub loss_change : F.Carrier
  pub sum_hess : F.Carrier
  pub left_sum : F.Carrier
  pub right_sum : F.Carrier
  pub leaf_right_child : ℕ

module _ {F : Float} where
  -- nodes_[nid]. The source's read is undefined out of range.
  unfoldable pub node : RegTree F → ℕ → Node F
  node t nid = get_or t.nodes nid (default_node F)

  unfoldable pub stat : RegTree F → ℕ → RTreeNodeStat F
  stat t nid = get_or t.stats nid (default_stat F)

  -- A call of a setter on nodes_[nid].
  unfoldable pub modify : (Node F → Node F) → ℕ → RegTree F → RegTree F
  unfolding node
  modify f nid t = record t { nodes = set t.nodes nid (f (node t nid)) }

  abbrev set_stat : ℕ → RTreeNodeStat F → RegTree F → RegTree F
  set_stat nid s t = record t { stats = set t.stats nid s }

  abbrev make_stat : F.Carrier → F.Carrier → F.Carrier → RTreeNodeStat F
  make_stat loss hess weight = record {
    loss_chg = loss;
    sum_hess = hess;
    base_weight = weight;
    leaf_child_cnt = 0;
  }

  -- The vectors of AllocNode after `param.num_nodes++`, with one more slot.
  unfoldable pub add_slot : RegTree F → RegTree F
  add_slot t =
      let n = t.param.num_nodes + 1 in
      record t {
        param = record (t.param) { num_nodes = n };
        nodes = resize n (default_node F) t.nodes;
        stats = resize n (default_stat F) t.stats;
        split_types = resize n FeatureType.numerical t.split_types;
        split_categories_segments = resize n empty_segment t.split_categories_segments;
      }

  -- AllocNode where no node is free.
  unfoldable pub alloc_fresh : RegTree F → Option (ℕ × RegTree F)
  alloc_fresh t = do
    check (ltb (t.param.num_nodes + 1) int_max)
    some (t.param.num_nodes, add_slot t)

  -- The last free node, `nid`, leaves the free list.
  unfoldable pub take_free : RegTree F → ℕ → List ℕ → RegTree F
  take_free t nid rest = modify reuse nid (record t {
    deleted_nodes = rest;
    param = record (t.param) { num_deleted = t.param.num_deleted - 1 };
  })

  -- AllocNode where the free list is used. An empty list with a positive count is undefined.
  unfoldable pub alloc_reused : RegTree F → List ℕ → Option (ℕ × RegTree F)
  alloc_reused t [] = none
  alloc_reused t (nid ∷ rest) = some (nid, take_free t nid rest)

  unfoldable pub alloc_node : RegTree F → Option (ℕ × RegTree F)
  alloc_node t = if t.param.num_deleted == 0 then alloc_fresh t else alloc_reused t t.deleted_nodes

  -- The end of DeleteNode: `nid` goes to the free list.
  unfoldable pub release : ℕ → RegTree F → RegTree F
  release nid t = modify mark_delete nid (record t {
    deleted_nodes = nid ∷ t.deleted_nodes;
    param = record (t.param) { num_deleted = t.param.num_deleted + 1 };
  })

  unfoldable pub delete_node : RegTree F → ℕ → Option (RegTree F)
  delete_node t nid = do
    check (leb 1 nid && ltb nid (2 ^ 31))
    let pid = parent_id (node t nid)
    some (
        release nid (
          if nid == left_child (node t pid)
          then modify (set_left_child invalid_node_id) pid t
          else modify (set_right_child invalid_node_id) pid t))

  -- The writes of ExpandNode into nodes_, in their order.
  unfoldable pub link_children : RegTree F → ℕ → ℕ → ℕ → SplitArgs F → RegTree F
  link_children t nid pleft pright s =
      let t1 = modify (set_left_child pleft) nid t in
      let t2 = modify (set_right_child pright) nid t1 in
      let t3 = modify (set_parent nid true) pleft t2 in
      let t4 = modify (set_parent nid false) pright t3 in
      let t5 = modify (set_split s.split_index s.split_value s.default_left) nid t4 in
      let t6 = modify (set_leaf s.left_leaf_weight s.leaf_right_child) pleft t5 in
      modify (set_leaf s.right_leaf_weight s.leaf_right_child) pright t6

  -- The writes of ExpandNode into stats_ and split_types_.
  unfoldable pub record_stats : RegTree F → ℕ → ℕ → ℕ → SplitArgs F → RegTree F
  record_stats t nid pleft pright s =
      let t1 = set_stat nid (make_stat s.loss_change s.sum_hess s.base_weight) t in
      let t2 = set_stat pleft (make_stat F.zero s.left_sum s.left_leaf_weight) t1 in
      let t3 = set_stat pright (make_stat F.zero s.right_sum s.right_leaf_weight) t2 in
      record t3 { split_types = set t3.split_types nid FeatureType.numerical }

  unfoldable pub expand_node : RegTree F → ℕ → SplitArgs F → Option (RegTree F)
  expand_node t nid s = do
    (pleft, t1) ← alloc_node t
    (pright, t2) ← alloc_node t1
    check (is_leaf (node t2 nid))
    let t3 = record_stats (link_children t2 nid pleft pright s) nid pleft pright s
    check (ltb nid (length t3.split_types))
    some t3

  unfoldable pub change_to_leaf : RegTree F → ℕ → F.Carrier → Option (RegTree F)
  change_to_leaf t rid value = do
    check (is_leaf (node t (left_child (node t rid))))
    check (is_leaf (node t (right_child (node t rid))))
    t1 ← delete_node t (left_child (node t rid))
    t2 ← delete_node t1 (right_child (node t1 rid))
    some (modify (set_leaf value invalid_node_id) rid t2)

  -- The recursion has fuel; `none` when it runs out.
  unfoldable pub collapse_to_leaf : ℕ → RegTree F → ℕ → F.Carrier → Option (RegTree F)
  collapse_to_leaf zero t rid value = none
  collapse_to_leaf (suc fuel) t rid value = elim (is_leaf (node t rid)) [
    | true ↦ some t
    | false ↦ do
      t1 ← elim (is_leaf (node t (left_child (node t rid)))) [
        | true ↦ some t
        | false ↦ collapse_to_leaf fuel t (left_child (node t rid)) F.zero
      ]
      t2 ← elim (is_leaf (node t1 (right_child (node t1 rid)))) [
        | true ↦ some t1
        | false ↦ collapse_to_leaf fuel t1 (right_child (node t1 rid)) F.zero
      ]
      change_to_leaf t2 rid value
  ]

  -- NumExtraNodes. The difference is not negative on the trees that the operations build.
  unfoldable pub num_extra_nodes : RegTree F → ℕ
  num_extra_nodes t = t.param.num_nodes - 1 - t.param.num_deleted
