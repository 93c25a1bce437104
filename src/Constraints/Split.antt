-- ===== src/Constraints/Split.antt =====
-- One split of FeatureInteractionConstraintHost (src/tree/constraints.cc) against its meaning.
use xgboost.Prelude.{
  ℕ, ◌+◌, ◌≡◌, ◌≢◌, refl, sym, ap, ◌∙◌, ◌≤◌, ◌<◌, true, ◌&&◌, ◌||◌, List, [], ◌∷◌, some, ◌==◌, max,
  length, get_or, set, resize, elem, insert, subset, elem-insert, subset-insert, length-set,
  length-resize, get_or-resize, get_or_past, get_or-set_self, get_or-set_ne, arith,
}
use xgboost.Constraints.{FeatureInteractionConstraintHost, permit_child, split_impl, split}
use xgboost.Constraints.Spec.{permitted, in_group_same, elem-permit_child}

-- Node `nid` has been reached over splits by the features of `path`, the last one first.
pub record Tracked (h : FeatureInteractionConstraintHost) (nid : ℕ) (path : List ℕ) : Type 0 where
  pub in_splits : nid < length h.splits
  pub in_nodes : nid < length h.node_constraints
  pub held : (c : List ℕ) → subset (get_or h.splits nid []) c ≡ subset path c
  pub used : (fid : ℕ) → elem fid (get_or h.splits nid []) ≡ elem fid path
  pub allows :
      (fid : ℕ)
      → elem fid (get_or h.node_constraints nid [])
        ≡ permitted h.interaction_constraints h.n_features path fid

-- Two slots past the end of a vector of sets that is resized to hold them, and then written.
abbrev grow : List (List ℕ) → ℕ → ℕ → List (List ℕ)
grow xs l r = resize (max l r + 1) [] xs

abbrev write_two : List (List ℕ) → ℕ → ℕ → List ℕ → List ℕ → List (List ℕ)
write_two xs l r a b = set (set (grow xs l r) l a) r b

module _ (xs : List (List ℕ)) (l r : ℕ) (a b : List ℕ) where
  length-write_two : length (write_two xs l r a b) ≡ max l r + 1
  length-write_two =
      length-set (set (grow xs l r) l a) r b
      ∙ length-set (grow xs l r) l a
      ∙ length-resize (max l r + 1) [] xs

  length-grow : length (grow xs l r) ≡ max l r + 1
  length-grow = length-resize (max l r + 1) [] xs

  module _ (left_new : length xs ≤ l) (right_new : length xs ≤ r) (differ : l ≢ r) where
    write_two-left : get_or (write_two xs l r a b) l [] ≡ a
    write_two-left =
        get_or-set_ne (set (grow xs l r) l a) r l b [] (λ e. differ (sym e))
        ∙ get_or-set_self (grow xs l r) l a [] (omega (arith, length-grow))

    write_two-right : get_or (write_two xs l r a b) r [] ≡ b
    write_two-right =
        get_or-set_self (set (grow xs l r) l a) r b []
          (omega (arith, length-set (grow xs l r) l a, length-grow))

    write_two-others : (k : ℕ) → k < length xs → get_or (write_two xs l r a b) k [] ≡ get_or xs k []
    write_two-others k h =
        get_or-set_ne (set (grow xs l r) l a) r k b [] (λ e. omega arith)
        ∙ get_or-set_ne (grow xs l r) l k a [] (λ e. omega arith)
        ∙ get_or-resize (max l r + 1) [] xs k (omega arith)

    grow-new : (k : ℕ) → length xs ≤ k → get_or (grow xs l r) k [] ≡ []
    grow-new k h = get_or-resize (max l r + 1) [] xs k (omega arith) ∙ get_or_past xs k [] h

    grow-new_right : get_or (set (grow xs l r) l a) r [] ≡ []
    grow-new_right = get_or-set_ne (grow xs l r) l r a [] differ ∙ grow-new r right_new

module _ (h : FeatureInteractionConstraintHost) (nid fid l r : ℕ) where
  abbrev child_splits : List ℕ
  child_splits = insert fid (get_or h.splits nid [])

  abbrev child_allowed : List ℕ
  child_allowed = permit_child child_splits h.interaction_constraints []

  -- The state after SplitImpl at two new children.
  abbrev split_state : FeatureInteractionConstraintHost
  split_state = record h {
    splits = write_two h.splits l r child_splits child_splits;
    node_constraints = write_two h.node_constraints l r child_allowed child_allowed;
  }

  module _ (path : List ℕ) (tracked : Tracked h nid path) (on : h.enabled ≡ true)
      (same_size : length h.node_constraints ≡ length h.splits) (left_new : length h.splits ≤ l)
      (right_new : length h.splits ≤ r) (differ : l ≢ r) where
    split-run : split h nid fid l r ≡ some split_state
    unfolding split split_impl
    split-run =
        rw
          (
            on,
            grow-new h.node_constraints l r [] [] (omega arith) (omega arith) differ l
                (omega arith),
            grow-new_right h.node_constraints l r child_allowed [] (omega arith) (omega arith)
                differ,
          )
          (ground arith)

    child-held : (c : List ℕ) → subset child_splits c ≡ subset (fid ∷ path) c
    unfolding subset
    child-held c =
        subset-insert fid (get_or h.splits nid []) c ∙ ap (λ b. elem fid c && b) (tracked.held c)

    child-used : (f : ℕ) → elem f child_splits ≡ elem f (fid ∷ path)
    unfolding elem
    child-used f =
        elem-insert f fid (get_or h.splits nid []) ∙ ap (λ b. (f == fid) || b) (tracked.used f)

    child-allows :
        (f : ℕ)
        → elem f child_allowed ≡ permitted h.interaction_constraints h.n_features (fid ∷ path) f
    unfolding permitted
    child-allows f =
        elem-permit_child h.interaction_constraints child_splits f
        ∙ rw
            (
              child-used f,
              in_group_same h.interaction_constraints child_splits (fid ∷ path) f child-held,
            )
            refl

    child-Tracked :
        (k : ℕ)
        → k < max l r + 1
        → get_or split_state.splits k [] ≡ child_splits
        → get_or split_state.node_constraints k [] ≡ child_allowed
        → Tracked split_state k (fid ∷ path)
    child-Tracked k inside splits_eq allowed_eq = record {
      in_splits = omega (arith, length-write_two h.splits l r child_splits child_splits);
      in_nodes = omega (arith, length-write_two h.node_constraints l r child_allowed child_allowed);
      held = λ c. ap (λ s. subset s c) splits_eq ∙ child-held c;
      used = λ f. ap (elem f) splits_eq ∙ child-used f;
      allows = λ f. ap (elem f) allowed_eq ∙ child-allows f;
    }

    left-Tracked : Tracked split_state l (fid ∷ path)
    left-Tracked =
        child-Tracked l (omega arith)
          (write_two-left h.splits l r child_splits child_splits left_new right_new differ)
          (write_two-left h.node_constraints l r child_allowed child_allowed (omega arith)
            (omega arith) differ)

    right-Tracked : Tracked split_state r (fid ∷ path)
    right-Tracked =
        child-Tracked r (omega arith)
          (write_two-right h.splits l r child_splits child_splits left_new right_new differ)
          (write_two-right h.node_constraints l r child_allowed child_allowed (omega arith)
            (omega arith) differ)

    others-Tracked : (k : ℕ) (path' : List ℕ) → Tracked h k path' → Tracked split_state k path'
    others-Tracked k path' x = record {
      in_splits =
          omega (arith, x.in_splits, length-write_two h.splits l r child_splits child_splits);
      in_nodes =
          omega (
            arith,
            x.in_nodes,
            length-write_two h.node_constraints l r child_allowed child_allowed,
          );
      held = λ c. ap (λ s. subset s c) (same_splits k x.in_splits) ∙ x.held c;
      used = λ f. ap (elem f) (same_splits k x.in_splits) ∙ x.used f;
      allows = λ f.
          ap (elem f) (
            write_two-others h.node_constraints l r child_allowed child_allowed (omega arith)
              (omega arith) differ k x.in_nodes)
          ∙ x.allows f;
    }
      where
        same_splits :
            (k' : ℕ)
            → k' < length h.splits
            → get_or (write_two h.splits l r child_splits child_splits) k' []
              ≡ get_or h.splits k' []
        same_splits =
            write_two-others h.splits l r child_splits child_splits left_new right_new differ

    -- A split at a tracked node with two new children succeeds. The children are tracked by the path
    -- with the split's feature, and every node that was tracked still is.
    pub split-Tracked :
        (h' : FeatureInteractionConstraintHost) × (split h nid fid l r ≡ some h')
        × Tracked h' l (fid ∷ path)
        × Tracked h' r (fid ∷ path)
        × ((k : ℕ) (path' : List ℕ) → Tracked h k path' → Tracked h' k path')
        × (length h'.node_constraints ≡ length h'.splits)
        × (h'.enabled ≡ true)
        × (h'.interaction_constraints ≡ h.interaction_constraints)
        × (h'.n_features ≡ h.n_features)
    split-Tracked = (
      split_state,
      split-run,
      left-Tracked,
      right-Tracked,
      others-Tracked,
      omega (
        arith,
        length-write_two h.splits l r child_splits child_splits,
        length-write_two h.node_constraints l r child_allowed child_allowed,
      ),
      on,
      refl,
      refl,
    )
