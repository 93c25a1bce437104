-- ===== src/Prune.antt =====
-- The pruner of src/tree/updater_prune.cc, with `TrainParam::NeedPrune` of src/tree/param.h: from each
-- leaf upwards, splits of two leaves that gain too little or lie too deep are taken back.
pub mod Parent
pub mod Sound
pub mod Loop
mod Tests
use xgboost.Prelude.{
  ℕ, zero, suc, ◌+◌, ◌-◌, Bool, true, false, not, ◌&&◌, ◌||◌, List, [], ◌∷◌, Option, none, some,
  ◌==◌, ltb, if◌then◌else◌, length,
}
use xgboost.Prelude.Check.{◌>>=◌, ◌>>◌, check}
use xgboost.Float.{Float}
use xgboost.Tree.Node.{
  invalid_node_id, is_leaf, is_root, is_deleted, parent_id, left_child, right_child,
}
use xgboost.Tree.RegTree.{RegTree, node, stat, change_to_leaf}
use xgboost.Tree.Query.{get_depth}

-- The fields of TrainParam that the pruner reads. A `max_depth` of 0 is no limit.
pub record TrainParam (F : Float) : Type 0 where
  pub learning_rate : F.Carrier
  pub min_split_loss : F.Carrier
  pub max_depth : ℕ

module _ {F : Float} where
  unfoldable pub need_prune : TrainParam F → F.Carrier → ℕ → Bool
  need_prune param loss_chg depth =
      F.lt loss_chg param.min_split_loss
      || (not (param.max_depth == 0) && ltb param.max_depth depth)

  abbrev pub balanced : RegTree F → ℕ → Bool
  balanced t pid =
      is_leaf (node t (left_child (node t pid)))
      && (not (right_child (node t pid) == invalid_node_id)
          && is_leaf (node t (right_child (node t pid))))

  -- TryPruneLeaf, with fuel for its tail recursion. The depth of a leaf that has a parent is positive.
  unfoldable pub try_prune_leaf : ℕ → TrainParam F → RegTree F → ℕ → ℕ → ℕ → Option (RegTree F × ℕ)
  try_prune_leaf zero param t nid depth npruned = none
  try_prune_leaf (suc fuel) param t nid depth npruned = do
    check (is_leaf (node t nid))
    elim (is_root (node t nid)) [
      | true ↦ some (t, npruned)
      | false ↦ do
        let pid = parent_id (node t nid)
        check (not (is_leaf (node t pid)))
        elim (balanced t pid && need_prune param (stat t pid).loss_chg depth) [
          | true ↦ do
            t' ← change_to_leaf t pid (F.mul param.learning_rate (stat t pid).base_weight)
            try_prune_leaf fuel param t' pid (depth - 1) (npruned + 2)
          | false ↦ some (t, npruned)
        ]
    ]

  -- The body of DoPrune's loop.
  unfoldable pub prune_at : TrainParam F → RegTree F → ℕ → ℕ → Option (RegTree F × ℕ)
  prune_at param t nid npruned =
      if is_leaf (node t nid) && not (is_deleted (node t nid))
      then (do
        depth ← get_depth t.param.num_nodes t nid
        try_prune_leaf (suc depth) param t nid depth npruned)
      else some (t, npruned)

  -- The loop of DoPrune over the `rounds` node ids from `nid` on. Pruning leaves `num_nodes` alone.
  unfoldable pub prune_from : ℕ → TrainParam F → RegTree F → ℕ → ℕ → Option (RegTree F × ℕ)
  prune_from zero param t nid npruned = some (t, npruned)
  prune_from (suc rounds) param t nid npruned = do
    (t', npruned') ← prune_at param t nid npruned
    prune_from rounds param t' (nid + 1) npruned'

  unfoldable pub do_prune : TrainParam F → RegTree F → Option (RegTree F × ℕ)
  do_prune param t = prune_from t.param.num_nodes param t 0 0

  unfoldable pub prune_trees : TrainParam F → List (RegTree F) → Option (List (RegTree F))
  prune_trees param [] = some []
  prune_trees param (t ∷ ts) = do
    (t', npruned) ← do_prune param t
    ts' ← prune_trees param ts
    some (t' ∷ ts')

  -- Update, without the monitor, and with the call of the synchroniser after it left to the caller:
  -- the learning rate is divided by the number of trees while they are pruned.
  unfoldable pub update : TrainParam F → List (RegTree F) → Option (List (RegTree F))
  update param trees =
      prune_trees (record param { learning_rate = F.div_count param.learning_rate (length trees) })
        trees
