-- ===== src/Constraints.antt =====
-- The interaction constraints of src/tree/constraints.h and src/tree/constraints.cc: which features
-- the splits below a node may use. `none` is an exception.
pub mod Spec
pub mod Split
pub mod Runs
mod Tests
use xgboost.Prelude.{
  ℕ, zero, suc, ◌+◌, Bool, true, false, not, List, [], ◌∷◌, ◌++◌, map, Option, none, some, ◌==◌,
  max, if◌then◌else◌, get_elem?, get_or, set, resize, elem, insert, insert_all, subset,
}
use xgboost.Prelude.Check.{◌>>=◌, ◌>>◌, check}

-- The string is kept as its bytes.
pub record FeatureInteractionConstraintHost : Type 0 where
  pub interaction_constraints : List (List ℕ)
  pub node_constraints : List (List ℕ)
  pub splits : List (List ℕ)
  pub interaction_constraint_str : List ℕ
  pub n_features : ℕ
  pub enabled : Bool

-- The loop of Reset that inserts the features from `i` on, `count` of them.
unfoldable pub insert_range : ℕ → ℕ → List ℕ → List ℕ
insert_range zero i s = s
insert_range (suc count) i s = insert_range count (i + 1) (insert i s)

unfoldable pub is_empty : List ℕ → Bool
is_empty [] = true
is_empty (x ∷ xs) = false

-- The writes of Reset after the string is parsed.
unfoldable pub reset_to :
    List (List ℕ) → FeatureInteractionConstraintHost → FeatureInteractionConstraintHost
reset_to tmp h = record h {
  interaction_constraints = h.interaction_constraints ++ map (λ e. insert_all e []) tmp;
  node_constraints = insert_range h.n_features 0 [] ∷ [];
  splits = [] ∷ [];
}

-- `parse` is ParseInteractionConstraint of src/tree/param.cc, a reader of JSON.
module _ (parse : List ℕ → Option (List (List ℕ))) where
  unfoldable pub reset : FeatureInteractionConstraintHost → Option FeatureInteractionConstraintHost
  reset h =
      if h.enabled
      then (parse h.interaction_constraint_str >>= λ tmp. some (reset_to tmp h))
      else some h

  -- Configure. `constraints` is the training parameter `interaction_constraints`.
  unfoldable pub configure :
      FeatureInteractionConstraintHost → List ℕ → ℕ → Option FeatureInteractionConstraintHost
  configure h constraints n_features =
      if is_empty constraints
      then some (record h { enabled = false })
      else reset (record h {
        enabled = true;
        interaction_constraint_str = constraints;
        n_features = n_features;
      })

-- The body of the loop over the groups of SplitImpl, for one child: what it permits there.
abbrev pub permit : List ℕ → List ℕ → List ℕ → List ℕ
permit feature_splits constraint allowed =
    if subset feature_splits constraint then insert_all constraint allowed else allowed

unfoldable pub permit_all : List ℕ → List (List ℕ) → List ℕ → List ℕ
permit_all feature_splits [] allowed = allowed
permit_all feature_splits (c ∷ cs) allowed =
    permit_all feature_splits cs (permit feature_splits c allowed)

-- The insertions of SplitImpl into one child's permitted set: first the features of the way there,
-- then the groups that hold them all.
unfoldable pub permit_child : List ℕ → List (List ℕ) → List ℕ → List ℕ
permit_child feature_splits cs allowed =
    permit_all feature_splits cs (insert_all feature_splits allowed)

-- The loops of SplitImpl fill the two children's sets side by side; here the left one is filled
-- first, as the two are different.
unfoldable pub split_impl :
    FeatureInteractionConstraintHost → ℕ → ℕ → ℕ → ℕ → Option FeatureInteractionConstraintHost
split_impl h node_id feature_id left_id right_id =
    let newsize = max left_id right_id + 1 in
    let feature_splits = insert feature_id (get_or h.splits node_id []) in
    let splits1 = set (resize newsize [] h.splits) left_id feature_splits in
    let splits2 = set splits1 right_id feature_splits in
    let allowed0 = resize newsize [] h.node_constraints in
    let cs = h.interaction_constraints in
    let allowed1 =
      set allowed0 left_id (permit_child feature_splits cs (get_or allowed0 left_id [])) in
    let allowed2 =
      set allowed1 right_id (permit_child feature_splits cs (get_or allowed1 right_id [])) in
    check (not (newsize == 0)) >> some (record h { splits = splits2; node_constraints = allowed2 })

unfoldable pub split :
    FeatureInteractionConstraintHost → ℕ → ℕ → ℕ → ℕ → Option FeatureInteractionConstraintHost
split h node_id feature_id left_id right_id =
    if not h.enabled then some h else split_impl h node_id feature_id left_id right_id

-- `node_constraints_.at(nid)` throws out of range.
unfoldable pub query : FeatureInteractionConstraintHost → ℕ → ℕ → Option Bool
query h nid fid =
    if not h.enabled
    then some true
    else (get_elem? h.node_constraints nid >>= λ allowed. some (elem fid allowed))
