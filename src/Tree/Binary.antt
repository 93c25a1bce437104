-- ===== src/Tree/Binary.antt =====
-- Load and Save of the tree (src/tree/tree_model.cc). A stream is the sequence of the objects whose bytes it
-- holds, on a machine that swaps no bytes. `none` is a failed CHECK.
use xgboost.Prelude.{
  ℕ, zero, suc, ◌-◌, not, List, [], ◌∷◌, ◌++◌, map, Option, none, some, ◌==◌, if◌then◌else◌, length,
  get_or, resize, take,
}
use xgboost.Prelude.Check.{◌>>=◌, ◌>>◌, check}
use xgboost.Float.{Float}
use xgboost.Tree.Node.{Node, default_node, is_deleted}
use xgboost.Tree.RegTree.{RegTree, TreeParam, RTreeNodeStat, FeatureType, empty_segment}

pub data Item (F : Float) : Type 0 where
  param_item : TreeParam → Item F
  node_item : Node F → Item F
  stat_item : RTreeNodeStat F → Item F

module _ {F : Float} where
  unfoldable pub read_param : List (Item F) → Option (TreeParam × List (Item F))
  read_param (Item.param_item p ∷ items) = some (p, items)
  read_param items = none

  -- A Read of `n` nodes, and of `n` statistics.
  unfoldable pub read_nodes : ℕ → List (Item F) → Option (List (Node F) × List (Item F))
  read_nodes zero items = some ([], items)
  read_nodes (suc n) (Item.node_item x ∷ items) = read_nodes n items >>= λ w. some (x ∷ w.0, w.1)
  read_nodes (suc n) items = none

  unfoldable pub read_stats : ℕ → List (Item F) → Option (List (RTreeNodeStat F) × List (Item F))
  read_stats zero items = some ([], items)
  read_stats (suc n) (Item.stat_item x ∷ items) = read_stats n items >>= λ w. some (x ∷ w.0, w.1)
  read_stats (suc n) items = none

  -- The loop over the ids from 1 to `n`; the head is the back of the vector.
  unfoldable pub find_deleted : List (Node F) → ℕ → List ℕ
  find_deleted nodes zero = []
  find_deleted nodes (suc n) =
      let found = find_deleted nodes n in
      if is_deleted (get_or nodes (suc n) (default_node F)) then (suc n ∷ found) else found

  -- Load over the tree `t`: the tree, and the rest of the stream.
  unfoldable pub load : RegTree F → List (Item F) → Option (RegTree F × List (Item F))
  load t items = do
    (param, items1) ← read_param items
    let n = param.num_nodes
    _ ← check (not (n == 0))
    (nodes, items2) ← read_nodes n items1
    (stats, items3) ← read_stats n items2
    let deleted = find_deleted nodes (n - 1)
    _ ← check (length deleted == param.num_deleted)
    some (
      record t {
        param = param;
        nodes = nodes;
        stats = stats;
        deleted_nodes = deleted;
        split_types = resize n FeatureType.numerical t.split_types;
        split_categories_segments = resize n empty_segment t.split_categories_segments;
      },
      items3,
    )

  -- Save: what is written.
  unfoldable pub save : RegTree F → Option (List (Item F))
  save t =
      check (t.param.num_nodes == length t.nodes)
      >> check (t.param.num_nodes == length t.stats)
      >> check (t.param.deprecated_num_roots == 1)
      >> check (not (t.param.num_nodes == 0))
      >> some (
          Item.param_item t.param
          ∷ (map Item.node_item t.nodes ++ map Item.stat_item (take (length t.nodes) t.stats)))
