-- ===== src/Tree/Query.antt =====
-- The questions that a tree answers without changing: GetNext, GetLeafIndex, GetDepth, MaxDepth,
-- WalkTree and what is built on it (include/xgboost/tree_model.h, src/tree/tree_model.cc). A loop or
-- a recursion has fuel, and is `none` when it runs out.
use xgboost.Prelude.{
  ℕ, zero, suc, ◌+◌, Bool, true, false, ◌&&◌, List, [], ◌∷◌, Option, none, some, ◌==◌,
  if◌then◌else◌, max,
}
use xgboost.Prelude.Check.{◌>>=◌}
use xgboost.Float.{Float}
use xgboost.Tree.Node.{
  invalid_node_id, root_id, left_child, right_child, default_child, split_index, split_cond,
  is_leaf, is_root, parent_id,
}
use xgboost.Tree.RegTree.{RegTree, node}
use xgboost.Tree.FVec.{FVec, get_fvalue, is_missing}

-- `if (c != kInvalidNodeId) nodes.push(c)` of WalkTree. The head of the list is the stack's top.
abbrev pub push_child : ℕ → List ℕ → List ℕ
push_child c stack = if c == invalid_node_id then stack else c ∷ stack

module _ {F : Float} where
  -- GetNext<has_missing>: the second form takes the left child's neighbour for the right child.
  unfoldable pub get_next : Bool → RegTree F → ℕ → F.Carrier → Bool → ℕ
  get_next true t pid fvalue is_unknown =
      if is_unknown
      then default_child (node t pid)
      else if F.lt fvalue (split_cond (node t pid))
      then left_child (node t pid)
      else right_child (node t pid)
  get_next false t pid fvalue is_unknown =
      left_child (node t pid) + (if F.lt fvalue (split_cond (node t pid)) then 0 else 1)

  -- The loop of GetLeafIndex<has_missing>.
  unfoldable pub leaf_from : ℕ → Bool → RegTree F → FVec F → ℕ → Option ℕ
  leaf_from zero has_missing t feat nid = none
  leaf_from (suc fuel) has_missing t feat nid = elim (is_leaf (node t nid)) [
    | true ↦ some nid
    | false ↦
        let index = split_index (node t nid) in
        leaf_from fuel has_missing t feat (
          get_next has_missing t nid (get_fvalue feat index) (has_missing && is_missing feat index))
  ]

  unfoldable pub get_leaf_index : ℕ → Bool → RegTree F → FVec F → Option ℕ
  get_leaf_index fuel has_missing t feat = leaf_from fuel has_missing t feat root_id

  -- The loop of GetDepth.
  unfoldable pub depth_from : ℕ → RegTree F → ℕ → ℕ → Option ℕ
  depth_from zero t nid depth = none
  depth_from (suc fuel) t nid depth = elim (is_root (node t nid)) [
    | true ↦ some depth
    | false ↦ depth_from fuel t (parent_id (node t nid)) (depth + 1)
  ]

  unfoldable pub get_depth : ℕ → RegTree F → ℕ → Option ℕ
  get_depth fuel t nid = depth_from fuel t nid 0

  unfoldable pub max_depth : ℕ → RegTree F → ℕ → Option ℕ
  max_depth zero t nid = none
  max_depth (suc fuel) t nid = elim (is_leaf (node t nid)) [
    | true ↦ some 0
    | false ↦ do
      l ← max_depth fuel t (left_child (node t nid))
      r ← max_depth fuel t (right_child (node t nid))
      some (max (l + 1) (r + 1))
  ]

  -- The loop of WalkTree. `func` carries a state, and says whether to go on.
  unfoldable pub walk_from {ℓ} :
      {S : Type ℓ} → (ℕ → S → S × Bool) → ℕ → RegTree F → List ℕ → S → Option S
  walk_from func fuel t [] s = some s
  walk_from func zero t (nidx ∷ stack) s = none
  walk_from func (suc fuel) t (nidx ∷ stack) s = elim ((func nidx s).1) [
    | true ↦
        walk_from func fuel t
          (push_child (right_child (node t nidx)) (push_child (left_child (node t nidx)) stack))
          (func nidx s).0
    | false ↦ some (func nidx s).0
  ]

  unfoldable pub walk_tree {ℓ} : {S : Type ℓ} → (ℕ → S → S × Bool) → ℕ → RegTree F → S → Option S
  walk_tree func fuel t s = walk_from func fuel t (root_id ∷ []) s

  unfoldable pub get_num_leaves : ℕ → RegTree F → Option ℕ
  get_num_leaves fuel t =
      walk_tree (λ nidx n. (if is_leaf (node t nidx) then n + 1 else n, true)) fuel t 0

  unfoldable pub get_num_split_nodes : ℕ → RegTree F → Option ℕ
  get_num_split_nodes fuel t =
      walk_tree (λ nidx n. (if is_leaf (node t nidx) then n else n + 1, true)) fuel t 0
