-- ===== src/Tree/Node.antt =====
-- `RegTree::Node` of include/xgboost/tree_model.h. An `int32_t` or `uint32_t` is its 32-bit pattern,
-- a number below 2 ^ 32; -1 is 2 ^ 32 - 1.
use xgboost.Prelude.{ℕ, ◌+◌, ◌-◌, ◌/◌, ◌%◌, ◌^◌, Bool, not, ◌==◌, ltb, if◌then◌else◌}
use xgboost.Float.{Float}

-- The bit pattern of kInvalidNodeId.
abbrev pub invalid_node_id : ℕ
invalid_node_id = 2 ^ 32 - 1

-- kDeletedNodeMarker, the largest uint32_t.
abbrev pub deleted_node_marker : ℕ
deleted_node_marker = 2 ^ 32 - 1

-- kRoot
abbrev pub root_id : ℕ
root_id = 0

-- x | (1U << 31) of a 32-bit pattern.
abbrev pub set_high_bit : ℕ → ℕ
set_high_bit x = if ltb x (2 ^ 31) then x + 2 ^ 31 else x

pub record Node (F : Float) : Type 0 where
  pub parent : ℕ
  pub cleft : ℕ
  pub cright : ℕ
  pub sindex : ℕ
  pub info : F.Carrier

-- A default-constructed node. Its `info_` is indeterminate in the source.
abbrev pub default_node : (F : Float) → Node F
default_node F = record {
  parent = invalid_node_id;
  cleft = invalid_node_id;
  cright = invalid_node_id;
  sindex = 0;
  info = F.zero;
}

module _ {F : Float} where
  abbrev pub left_child : Node F → ℕ
  left_child n = n.cleft

  abbrev pub right_child : Node F → ℕ
  right_child n = n.cright

  abbrev pub default_left : Node F → Bool
  default_left n = not (n.sindex / 2 ^ 31 == 0)

  abbrev pub default_child : Node F → ℕ
  default_child n = if default_left n then left_child n else right_child n

  abbrev pub split_index : Node F → ℕ
  split_index n = n.sindex % 2 ^ 31

  abbrev pub is_leaf : Node F → Bool
  is_leaf n = n.cleft == invalid_node_id

  abbrev pub leaf_value : Node F → F.Carrier
  leaf_value n = n.info

  abbrev pub split_cond : Node F → F.Carrier
  split_cond n = n.info

  -- Parent()
  abbrev pub parent_id : Node F → ℕ
  parent_id n = n.parent % 2 ^ 31

  abbrev pub is_left_child : Node F → Bool
  is_left_child n = not (n.parent / 2 ^ 31 == 0)

  abbrev pub is_deleted : Node F → Bool
  is_deleted n = n.sindex == deleted_node_marker

  abbrev pub is_root : Node F → Bool
  is_root n = n.parent == invalid_node_id

  abbrev pub set_left_child : ℕ → Node F → Node F
  set_left_child nid n = record n { cleft = nid }

  abbrev pub set_right_child : ℕ → Node F → Node F
  set_right_child nid n = record n { cright = nid }

  abbrev pub set_split : ℕ → F.Carrier → Bool → Node F → Node F
  set_split index cond to_left n = record n {
    sindex = if to_left then set_high_bit index else index;
    info = cond;
  }

  abbrev pub set_leaf : F.Carrier → ℕ → Node F → Node F
  set_leaf value right n = record n { cleft = invalid_node_id; cright = right; info = value }

  abbrev pub mark_delete : Node F → Node F
  mark_delete n = record n { sindex = deleted_node_marker }

  abbrev pub reuse : Node F → Node F
  reuse n = record n { sindex = 0 }

  abbrev pub set_parent : ℕ → Bool → Node F → Node F
  set_parent pidx left n = record n { parent = if left then set_high_bit pidx else pidx }
