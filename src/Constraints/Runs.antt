-- ===== src/Constraints/Runs.antt =====
-- The states that FeatureInteractionConstraintHost (src/tree/constraints.h) goes through while a tree
-- grows, and what it answers in them.
use mathlib.Core.List.{Memᴰ}
use mathlib.Core.List.Memᴰ
use xgboost.Prelude.{
  ℕ, ◌≡◌, ◌≢◌, refl, sym, ap, ◌∙◌, subst, ◌≤◌, true, false, ◌||◌, List, [], ◌∷◌, ◌++◌, map, Option,
  some_inj, none-ne-some, none, some, ltb, length, elem, insert_all, subset, get_elem?-get_or,
  arith,
}
use xgboost.Prelude.Check.{◌>>=◌}
use xgboost.Constraints.{
  FeatureInteractionConstraintHost, is_empty, reset_to, reset, configure, split, query,
}
use xgboost.Constraints.Spec.{
  permitted, in_group, in_group-append, in_group-map, permitted_same, elem-insert_range,
}
use xgboost.Constraints.Split.{Tracked, split-Tracked}

-- The groups that count, the number of features, and the nodes that have been reached with the features of the
-- splits above each, after Configure and some splits into new nodes. The groups are those that the host had
-- before Configure and those that the given string is read as.
pub data Reached (parse : List ℕ → Option (List (List ℕ)))
    : FeatureInteractionConstraintHost → List (List ℕ) → ℕ → List (ℕ × List ℕ) → Type 0 where
  configured :
      (h h' : FeatureInteractionConstraintHost) (constraints : List ℕ) (n_features : ℕ)
      (tmp : List (List ℕ))
      → is_empty constraints ≡ false
      → parse constraints ≡ some tmp
      → configure parse h constraints n_features ≡ some h'
      → Reached parse h' (h.interaction_constraints ++ tmp) n_features ((0, []) ∷ [])
  grown :
      (h h' : FeatureInteractionConstraintHost) (groups : List (List ℕ)) (n_features : ℕ)
      (live : List (ℕ × List ℕ)) (nid fid l r : ℕ) (path : List ℕ)
      → Reached parse h groups n_features live
      → Memᴰ (nid, path) live
      → length h.splits ≤ l
      → length h.splits ≤ r
      → l ≢ r
      → split h nid fid l r ≡ some h'
      → Reached parse h' groups n_features ((l, fid ∷ path) ∷ (r, fid ∷ path) ∷ live)

-- The host in such a state: its own groups mean the ones that count.
pub record Sound (h : FeatureInteractionConstraintHost) (groups : List (List ℕ)) (n_features : ℕ)
    (live : List (ℕ × List ℕ)) : Type 0 where
  pub on : h.enabled ≡ true
  pub same_size : length h.node_constraints ≡ length h.splits
  pub tracked : (k : ℕ) (path : List ℕ) → Memᴰ (k, path) live → Tracked h k path
  pub meaning :
      (path : List ℕ) (fid : ℕ)
      → in_group h.interaction_constraints path fid ≡ in_group groups path fid
  pub count_eq : h.n_features ≡ n_features

query-Tracked :
    (h : FeatureInteractionConstraintHost) (k fid : ℕ) (path : List ℕ)
    → h.enabled ≡ true
    → Tracked h k path
    → query h k fid ≡ some (permitted h.interaction_constraints h.n_features path fid)
unfolding query
query-Tracked h k fid path on x =
    rw (on, get_elem?-get_or h.node_constraints k [] x.in_nodes) (ap some (x.allows fid))

-- The fields that Configure sets before it calls Reset.
abbrev given : FeatureInteractionConstraintHost → List ℕ → ℕ → FeatureInteractionConstraintHost
given h constraints n_features = record h {
  enabled = true;
  interaction_constraint_str = constraints;
  n_features = n_features;
}

-- Nodes that are tracked, with one more.
cons-Tracked :
    (h : FeatureInteractionConstraintHost) (n : ℕ) (p : List ℕ) (live : List (ℕ × List ℕ))
    → Tracked h n p
    → ((k : ℕ) (path : List ℕ) → Memᴰ (k, path) live → Tracked h k path)
    → (k : ℕ) (path : List ℕ) → Memᴰ (k, path) ((n, p) ∷ live)
    → Tracked h k path
cons-Tracked h n p live this rest k path (Memᴰ.head e) = subst (λ q. Tracked h q.0 q.1) (sym e) this
cons-Tracked h n p live this rest k path (Memᴰ.tail m) = rest k path m

-- A split that has run, at a node that was reached, keeps the invariant.
grown-Sound :
    (h h' : FeatureInteractionConstraintHost) (groups : List (List ℕ)) (n_features : ℕ)
    (live : List (ℕ × List ℕ)) (nid fid l r : ℕ) (path : List ℕ)
    → Sound h groups n_features live
    → Memᴰ (nid, path) live
    → length h.splits ≤ l
    → length h.splits ≤ r
    → l ≢ r
    → split h nid fid l r ≡ some h'
    → Sound h' groups n_features ((l, fid ∷ path) ∷ (r, fid ∷ path) ∷ live)
grown-Sound h h' groups n_features live nid fid l r path S m left_new right_new differ run =
    let (g, ok, at_l, at_r, others, sizes, on, same_groups, same_count) =
      split-Tracked h nid fid l r path (S.tracked nid path m) S.on S.same_size left_new right_new
        differ in
    subst (λ x. Sound x groups n_features ((l, fid ∷ path) ∷ (r, fid ∷ path) ∷ live))
      (some_inj (sym ok ∙ run))
      (record {
        on = on;
        same_size = sizes;
        tracked =
            cons-Tracked g l (fid ∷ path) ((r, fid ∷ path) ∷ live) at_l
              (cons-Tracked g r (fid ∷ path) live at_r (λ j q m'. others j q (S.tracked j q m')));
        meaning = λ p f. ap (λ cs. in_group cs p f) same_groups ∙ S.meaning p f;
        count_eq = same_count ∙ S.count_eq;
      })

module _ (parse : List ℕ → Option (List (List ℕ))) where
  -- Configure with constraints either fails to parse them or resets the host to the groups parsed.
  configure_result :
      (h h' : FeatureInteractionConstraintHost) (constraints : List ℕ) (n_features : ℕ)
      → is_empty constraints ≡ false
      → configure parse h constraints n_features ≡ some h'
      → (tmp : List (List ℕ)) × (h' ≡ reset_to tmp (given h constraints n_features))
        × (parse constraints ≡ some tmp)
  unfolding configure reset
  configure_result h h' constraints n_features some_given run =
      from_parsed (parse constraints) refl (sym configure-parse ∙ run)
    where
      configure-parse :
          configure parse h constraints n_features
          ≡ (parse constraints >>= λ tmp. some (reset_to tmp (given h constraints n_features)))
      configure-parse = rw some_given refl

      from_parsed :
          (o : Option (List (List ℕ)))
          → parse constraints ≡ o
          → (o >>= λ tmp. some (reset_to tmp (given h constraints n_features))) ≡ some h'
          → (tmp : List (List ℕ)) × (h' ≡ reset_to tmp (given h constraints n_features))
            × (parse constraints ≡ some tmp)
      from_parsed none read e = absurd (none-ne-some e)
      from_parsed (some tmp) read e = (tmp, sym (some_inj e), read)

  root-Tracked :
      (tmp : List (List ℕ)) (h : FeatureInteractionConstraintHost) → Tracked (reset_to tmp h) 0 []
  unfolding reset_to elem subset permitted
  root-Tracked tmp h = record {
    in_splits = omega arith;
    in_nodes = omega arith;
    held = λ c. refl;
    used = λ f. refl;
    allows = λ f. elem-insert_range h.n_features 0 f [] ∙ ground arith;
  }

  configured-Sound :
      (tmp : List (List ℕ)) (h : FeatureInteractionConstraintHost)
      → h.enabled ≡ true
      → Sound (reset_to tmp h) (h.interaction_constraints ++ tmp) h.n_features ((0, []) ∷ [])
  configured-Sound tmp h on = record {
    on = unfold reset_to in on;
    same_size = unfold reset_to in refl;
    tracked = λ k path m.
        cons-Tracked (reset_to tmp h) 0 [] [] (root-Tracked tmp h)
          (λ j q e. absurd (Memᴰ.not-nil e)) k path m;
    meaning = λ path fid.
        unfold reset_to in
        (in_group-append h.interaction_constraints (map (λ c. insert_all c []) tmp) path fid
          ∙ ap (λ b. in_group h.interaction_constraints path fid || b) (in_group-map tmp path fid)
          ∙ sym (in_group-append h.interaction_constraints tmp path fid));
    count_eq = unfold reset_to in refl;
  }

  Reached-Sound :
      {h : FeatureInteractionConstraintHost} {groups : List (List ℕ)} {n_features : ℕ}
      {live : List (ℕ × List ℕ)}
      → Reached parse h groups n_features live
      → Sound h groups n_features live
  Reached-Sound (Reached.configured h h' constraints n_features tmp some_given read run) =
      let (tmp', e, read') = configure_result h h' constraints n_features some_given run in
      let host = given h constraints n_features in
      subst (λ t. Sound h' (h.interaction_constraints ++ t) n_features ((0, []) ∷ []))
        (some_inj (sym read' ∙ read))
        (subst (λ x. Sound x (h.interaction_constraints ++ tmp') n_features ((0, []) ∷ [])) (sym e)
          (configured-Sound tmp' host refl))
  Reached-Sound
        (Reached.grown h h' groups n_features live nid fid l r path before m left_new right_new
          differ run) =
      grown-Sound h h' groups n_features live nid fid l r path (Reached-Sound before) m left_new
        right_new differ run

  pub query-permitted :
      {h : FeatureInteractionConstraintHost} {groups : List (List ℕ)} {n_features : ℕ}
      {live : List (ℕ × List ℕ)} {nid : ℕ} {path : List ℕ}
      → Reached parse h groups n_features live
      → Memᴰ (nid, path) live
      → (fid : ℕ) → query h nid fid ≡ some (permitted groups n_features path fid)
  query-permitted {h} {groups} {n_features} {live} {nid} {path} run m fid =
      let S = Reached-Sound run in
      query-Tracked h nid fid path S.on (S.tracked nid path m)
      ∙ ap some (
          permitted_same h.interaction_constraints groups h.n_features path fid S.meaning
          ∙ ap (λ n. permitted groups n path fid) S.count_eq)

  -- After Configure with constraints, Query at the root permits the features below the number that
  -- Configure was given.
  pub query-configure :
      (h h' : FeatureInteractionConstraintHost) (constraints : List ℕ) (n_features : ℕ)
      → is_empty constraints ≡ false
      → configure parse h constraints n_features ≡ some h'
      → (fid : ℕ) → query h' 0 fid ≡ some (ltb fid n_features)
  unfolding permitted reset_to
  query-configure h h' constraints n_features some_given run fid =
      let (tmp, e, read) = configure_result h h' constraints n_features some_given run in
      query-permitted (Reached.configured h h' constraints n_features tmp some_given read run)
        (Memᴰ.head refl) fid

  -- Configure with constraints keeps the groups of the constraints that it was given before: what they
  -- permit below a path stays permitted.
  pub configure_keeps :
      (h h' : FeatureInteractionConstraintHost) (constraints : List ℕ) (n_features : ℕ)
      → is_empty constraints ≡ false
      → configure parse h constraints n_features ≡ some h'
      → (path : List ℕ) (fid : ℕ) → in_group h.interaction_constraints path fid ≡ true
      → in_group h'.interaction_constraints path fid ≡ true
  unfolding reset_to
  configure_keeps h h' constraints n_features some_given run path fid before =
      let (tmp, e, read) = configure_result h h' constraints n_features some_given run in
      let groups = map (λ c. insert_all c []) tmp in
      ap (λ x. in_group x.interaction_constraints path fid) e
      ∙ in_group-append h.interaction_constraints groups path fid
      ∙ ap (λ b. b || in_group groups path fid) before
