-- ===== src/Tree.antt =====
-- Regression trees: include/xgboost/tree_model.h, src/tree/tree_model.cc and the pruner
-- src/tree/updater_prune.cc.
pub mod Node
pub mod RegTree
pub mod FVec
pub mod Row
pub mod Query
pub mod Shape
pub mod Invariant
pub mod Alloc
pub mod Graft
pub mod Link
pub mod Expand
pub mod Cut
pub mod Unlink
pub mod Collapse
pub mod Size
pub mod Depth
pub mod Walk
pub mod Predict
pub mod Growth
pub mod Regrow
pub mod Categorical
pub mod Binary
pub mod Loaded
pub mod Sample
mod Tests
