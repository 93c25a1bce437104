-- ===== src/Tree/Sample.antt =====
-- Concrete trees of include/xgboost/tree_model.h for the tests, over numbers in place of floats: the
-- number 999 is read as a missing value.
use mathlib.Core.List.Perm
use mathlib.Core.List.{not-mem-nil}
use xgboost.Prelude.{ℕ, ◌*◌, ◌/◌, ◌^◌, refl, true, [], ◌∷◌, arith, below, ◌==◌, ltb}
use xgboost.Float.{Float}
use xgboost.Tree.Node.{Node, invalid_node_id}
use xgboost.Tree.RegTree.{
  RegTree, FeatureType, SplitArgs, node, initial_param, empty_segment, default_stat,
}
use xgboost.Tree.FVec.{FVec}
use xgboost.Tree.Shape.{Shape, tip, fork, ids, LeafAt, NodeAt, TwigAt}
use xgboost.Tree.Invariant.{IsTree}

abbrev pub toy : Float
toy = record {
  Carrier = ℕ;
  zero = 0;
  nan = 1000;
  missing = 999;
  lt = ltb;
  mul = λ a b. a * b;
  div_count = λ a n. a / n;
  is_flag = λ a. a == 999;
  is_flag-missing = refl;
}

abbrev leaf_node : ℕ → ℕ → Node toy
leaf_node up value = record {
  parent = up;
  cleft = invalid_node_id;
  cright = invalid_node_id;
  sindex = 0;
  info = value;
}

-- One split on feature 3 at 50, missing values to the right, with the leaves 1 and 2.
abbrev pub stump : RegTree toy
stump = record {
  param = record initial_param { num_nodes = 3 };
  nodes =
      record { parent = invalid_node_id; cleft = 1; cright = 2; sindex = 3; info = 50 }
      ∷ leaf_node (2 ^ 31) 7
      ∷ leaf_node 0 9
      ∷ [];
  deleted_nodes = [];
  stats =
      record { loss_chg = 4; sum_hess = 10; base_weight = 8; leaf_child_cnt = 0 }
      ∷ default_stat toy
      ∷ default_stat toy
      ∷ [];
  split_types = FeatureType.numerical ∷ FeatureType.numerical ∷ FeatureType.numerical ∷ [];
  split_categories = [];
  split_categories_segments = empty_segment ∷ empty_segment ∷ empty_segment ∷ [];
}

abbrev pub stump_shape : Shape
stump_shape = fork 0 (tip 1) (tip 2)

abbrev pub right_leaf : LeafAt 2 stump_shape
right_leaf = LeafAt.right LeafAt.here

abbrev pub right_node : NodeAt 2 stump_shape
right_node = NodeAt.right (NodeAt.top refl)

abbrev pub whole_twig : TwigAt 0 1 2 stump_shape
whole_twig = TwigAt.here

pub stump-IsTree : IsTree stump stump_shape
unfolding ids node below
stump-IsTree = record {
  nodes_size = refl;
  stats_size = refl;
  types_size = refl;
  segments_size = refl;
  counted = refl;
  cover =
      Perm.trans (Perm.cons 0 (Perm.swap 2 1 []))
        (Perm.trans (Perm.swap 2 0 (1 ∷ [])) (Perm.cons 2 (Perm.swap 1 0 [])));
  rooted = refl;
  shaped = (
    record { up_eq = refl; live = omega arith; in_range = omega arith },
    refl,
    refl,
    (record { up_eq = refl; live = omega arith; in_range = omega arith }, refl),
    (record { up_eq = refl; live = omega arith; in_range = omega arith }, refl),
  );
  marked = λ d m. absurd (not-mem-nil m);
  cleared = λ d m. absurd (not-mem-nil m);
  small = omega arith;
}

abbrev pub growth : SplitArgs toy
growth = record {
  split_index = 1;
  split_value = 20;
  default_left = true;
  base_weight = 9;
  left_leaf_weight = 5;
  right_leaf_weight = 6;
  loss_change = 2;
  sum_hess = 10;
  left_sum = 4;
  right_sum = 6;
  leaf_right_child = invalid_node_id;
}

-- Feature 3 is 60; feature 1 is missing.
abbrev pub row : FVec toy
row = record { entries = 10 ∷ 999 ∷ 30 ∷ 60 ∷ []; has_missing = true }
