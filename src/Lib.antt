-- ===== src/Lib.antt =====
-- XGBoost's tree library: the regression tree of include/xgboost/tree_model.h and
-- src/tree/tree_model.cc with its free list of nodes, the row vector that it is asked about, and the
-- pruner of src/tree/updater_prune.cc.
-- Beside it stand the interaction constraints of src/tree/constraints.cc, and the rows of each node
-- with the builder that divides them, src/common/row_set.h; the pages of training data of
-- src/data/data.cc and the builder of src/common/group_data.h that fills them; the division of work
-- among threads of src/common/threading_utils.h; the base64 streams of src/common/base64.h; and the JSON
-- documents that models are stored in, src/common/json.cc, with the integer printing of
-- src/common/charconv.h.
--
-- The parts and how they interact. A `RegTree` is a set of vectors over node ids, of which some are
-- on a free list. ExpandNode takes two ids by AllocNode and links them under a leaf; ChangeToLeaf
-- gives the two leaves under a node back by DeleteNode; the pruner walks the leaves, asks for their
-- depth by GetDepth, and calls ChangeToLeaf upwards as long as NeedPrune says so. GetLeafIndex walks
-- down by GetNext from the root, reading an `FVec` that is filled from a sparse row.
--
-- The files.
-- - Prelude: shared names, lists over the native numbers, the list of the numbers below a bound.
-- - Float: the hardware's floats, a parameter of all models.
-- - Tree/Node: `RegTree::Node`, its accessors and setters on 32-bit patterns.
-- - Tree/RegTree: `RegTree`, `TreeParam`, AllocNode, DeleteNode, ExpandNode, ChangeToLeaf,
--   CollapseToLeaf, NumExtraNodes (include/xgboost/tree_model.h, src/tree/tree_model.cc).
-- - Tree/FVec: `RegTree::FVec` with Init, Fill, Drop, GetFvalue, IsMissing. Tree/Row: Drop
--   after Fill.
-- - Tree/Query: GetNext, GetLeafIndex, GetDepth, MaxDepth, WalkTree, GetNumLeaves,
--   GetNumSplitNodes.
-- - Tree/Categorical: ExpandCategorical.
-- - Tree/Binary: Load and Save of the binary format. Tree/Loaded: what is saved is loaded.
-- - Tree/Shape: the tree of ids that a `RegTree` stands for. Tree/Invariant: when it does. The other
--   files of Tree are lemmas and theorems about the operations, named for them.
-- - Prune: TryPruneLeaf, DoPrune, Update and NeedPrune (src/tree/updater_prune.cc,
--   src/tree/param.h).
-- - Constraints: FeatureInteractionConstraintHost, which the updaters ask for the features permitted
--   below a node (src/tree/constraints.h, src/tree/constraints.cc). Constraints/Spec: what the groups
--   mean; Split and Runs: one split, and the states that configuring and splits lead to.
-- - RowSet: RowSetCollection, the rows of each node (src/common/row_set.h). RowSet/Cover: the invariant
--   on the live nodes' segments. RowSet/Split: AddSplit.
-- - Partition: PartitionBuilder of the same file, which divides a node's rows by tasks.
--   Partition/Init: Init. Partition/Offsets and Nodes: CalculateRowOffsets.
--   Partition/Merge and Tasks: MergeToArray.
-- - Threading: blocks of work and the loop over them by threads (src/common/threading_utils.h).
--   Threading/Blocks: the blocks make up the rows. Threading/Deal: ParallelFor2d.
-- - Group: ParallelGroupBuilder, which builds CSR matrices with many threads (src/common/group_data.h).
--   Group/Spec: the calls and what they give a key. Budget, Storage, Stored, Push, Build: its steps in
--   turn, column-major. Group/Grouped: the steps together.
-- - Page: SparsePage (include/xgboost/data.h, src/data/data.cc) with GetTranspose, which is a client of
--   Group, Push and PushCSC. Page/Transpose: the columns. Page/Rows, Push and Merge: pages as lists
--   of rows.
-- - Base64: the two base64 streams (src/common/base64.h). Base64/Spec: the text of a list of bytes.
--   Base64/Alphabet: that of RFC 4648. Base64/Reader: the buffer reader. Base64/Out: Write and Finish.
--   Base64/In, Rounds, Read: Read.
--   Base64/RoundTrip: what is written is read back. Base64/Bounds, Fuel, Ends: any stream.
-- - SplitEntry: SplitEntryContainer, the best split found so far (src/tree/param.h).
--   SplitEntry/Best: updates by many candidates.
-- - Charconv: to_chars of an int64_t (src/common/charconv.h, src/common/charconv.cc). Charconv/Digits:
--   decimal texts. Charconv/Lut, Buffer and Itoa: the table, the count of digits, the loop.
-- - Json/Value: the values of include/xgboost/json.h, an object as the std::map in its order, and the
--   floats' format as a parameter. Json/Equal: their comparison. Json/Writer: JsonWriter and Json::Dump. Json/Cursor, Number and
--   Reader: JsonReader and Json::Load (src/common/json.cc, include/xgboost/json_io.h).
-- - Json/Escapes, Strings, Scan, Floats, Start, Order, Loops and RoundTrip: what is read of what was written, part
--   by part. Json/Valid: the values that the library can hold, and those that come back. Json/Render: the
--   text of a value. Json/Lengths, Keys, Invariant, Sound and Fuel: the reader on any input.
--
-- Bounds and fuel. Ids and `parent_` are 32-bit patterns, with the wrap-around and the marker bits
-- written out; AllocNode's check that `num_nodes` stays below the largest int is part of the model.
-- A loop of the source that has no bound of its own has fuel, which the theorems give as
-- `num_nodes`: a well-formed tree is lower than that. The loops over a base64 stream have fuel for its
-- characters or for the bytes wanted. The reader of JSON has fuel for the calls of Parse inside each
-- other and for the turns of a loop, and a number above the input's length is enough; what a call answers
-- at its end is an argument, an error for Load; the loops of the
-- integer printing have the nine and the five rounds that 64 bits can need. A failed CHECK is `none`.
--
-- The readers of constraint strings (JSON) and std::isinf are parameters, and so is the thread that
-- OpenMP gives a row to. Tasks that run in parallel in the source run in turn here; the calls to the
-- group builder come in any order of the threads.
--
-- The printing and reading of floats in src/common/charconv.cc is a copy of the Ryu library and a
-- parameter; the round trip of JSON asks of each float of the document that its text has the form of
-- scientific notation and is read back. A signed overflow in ParseNumber wraps.
--
-- Not modelled: predictions by categories, trees and boosters in JSON, indexing and assignment of JSON
-- values, the text of error messages, the dumps, and the rest of the learner.
pub mod Prelude
pub mod Float
pub mod Page
pub mod Group
pub mod Json
pub mod Tree
pub mod Prune
pub mod Constraints
pub mod RowSet
pub mod Partition
pub mod SplitEntry
pub mod Threading
pub mod Base64
pub mod Charconv
