-- ===== src/Constraints/Tests.antt =====
-- Runs and instances of the theorems about src/tree/constraints.cc on two groups of features.
use xgboost.Prelude.{ℕ, ◌≡◌, refl, true, false, List, [], ◌∷◌, Option, some, elem}
use xgboost.Constraints.{FeatureInteractionConstraintHost, query}

-- Every string reads as the groups {0, 1} and {1, 2}.
abbrev two_groups : List ℕ → Option (List (List ℕ))
two_groups s = some ((0 ∷ 1 ∷ []) ∷ (1 ∷ 2 ∷ []) ∷ [])

abbrev fresh : FeatureInteractionConstraintHost
fresh = record {
  interaction_constraints = [];
  node_constraints = [];
  splits = [];
  interaction_constraint_str = [];
  n_features = 0;
  enabled = false;
}

abbrev started : FeatureInteractionConstraintHost
started = record {
  interaction_constraints = (1 ∷ 0 ∷ []) ∷ (2 ∷ 1 ∷ []) ∷ [];
  node_constraints = (3 ∷ 2 ∷ 1 ∷ 0 ∷ []) ∷ [];
  splits = [] ∷ [];
  interaction_constraint_str = 7 ∷ [];
  n_features = 4;
  enabled = true;
}

-- The root splits on feature 0.
abbrev after_split : FeatureInteractionConstraintHost
after_split = record started {
  node_constraints = (3 ∷ 2 ∷ 1 ∷ 0 ∷ []) ∷ (1 ∷ 0 ∷ []) ∷ (1 ∷ 0 ∷ []) ∷ [];
  splits = [] ∷ (0 ∷ []) ∷ (0 ∷ []) ∷ [];
}

-- Below a split on feature 0, feature 2 is in no group with it.
feature_two_denied : query after_split 1 2 ≡ some false
unfolding query elem
feature_two_denied = refl

abbrev read_groups : List (List ℕ)
read_groups = (0 ∷ 1 ∷ []) ∷ (1 ∷ 2 ∷ []) ∷ []
