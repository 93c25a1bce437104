-- ===== src/Tree/Predict.antt =====
-- GetNext and GetLeafIndex of include/xgboost/tree_model.h: the leaf that a row reaches.
use xgboost.Prelude.{
  ℕ, zero, suc, ◌+◌, ◌<◌, ◌≡◌, refl, sym, ◌∙◌, ap, subst, Bool, true, false, ◌&&◌, some, arith,
  if◌then◌else◌, Bool-cases, inl, inr,
}
use xgboost.Float.{Float}
use xgboost.Tree.Node.{
  invalid_node_id, set_high_bit, is_leaf, split_index, split_cond, default_left,
}
use xgboost.Tree.RegTree.{RegTree, node}
use xgboost.Tree.FVec.{FVec, get_fvalue, is_missing}
use xgboost.Tree.Query.{get_next, leaf_from, get_leaf_index}
use xgboost.Tree.Shape.{Shape, tip, fork, root, height, LeafAt}
use xgboost.Tree.Invariant.{Represents, IsTree, is_leaf-tip, is_leaf-fork}
use xgboost.Tree.Size.{height_lt}

-- The leaf that is reached by going left where the function says so.
unfoldable pub route : (ℕ → Bool) → Shape → ℕ
route goes (tip n) = n
route goes (fork n l r) = if goes n then route goes l else route goes r

pub route-LeafAt : (goes : ℕ → Bool) (s : Shape) → LeafAt (route goes s) s
unfolding route
route-LeafAt goes (tip n) = LeafAt.here
route-LeafAt goes (fork n l r) = elim (Bool-cases (goes n)) [
  | inl e ↦ rw e (LeafAt.left (route-LeafAt goes l))
  | inr e ↦ rw e (LeafAt.right (route-LeafAt goes r))
]

-- The two children of each split are neighbours.
abbrev pub Neighbours : Shape → Type 0
Neighbours (tip n) = Unit {0}
Neighbours (fork n l r) = (root r ≡ root l + 1) × Neighbours l × Neighbours r

module _ {F : Float} where
  -- The direction that a split takes: its default where the feature is missing, and otherwise left
  -- exactly if the value is below the condition.
  abbrev pub sends_left : FVec F → ℕ → F.Carrier → Bool → Bool
  sends_left feat index cond to_left =
      if is_missing feat index then to_left else F.lt (get_fvalue feat index) cond

  abbrev pub goes_left : RegTree F → FVec F → ℕ → Bool
  goes_left t feat n =
      sends_left feat (split_index (node t n)) (split_cond (node t n)) (default_left (node t n))

  -- The row has a value for each feature that a split of the shape asks about.
  abbrev pub Answers : RegTree F → FVec F → Shape → Type 0
  Answers t feat (tip n) = Unit {0}
  Answers t feat (fork n l r) =
      (is_missing feat (split_index (node t n)) ≡ false) × Answers t feat l × Answers t feat r

  module _ (t : RegTree F) (feat : FVec F) where
    get_next-child :
        (up n : ℕ) (l r : Shape)
        → Represents (node t) up (fork n l r)
        → let index = split_index (node t n) in
          get_next true t n (get_fvalue feat index) (true && is_missing feat index)
          ≡ (if goes_left t feat n then root l else root r)
    unfolding get_next
    get_next-child up n l r h = ground (arith, h.1, h.2)

    leaf_step :
        (fuel n : ℕ) (has_missing : Bool)
        → is_leaf (node t n) ≡ false
        → let index = split_index (node t n) in
          leaf_from (suc fuel) has_missing t feat n
          ≡ leaf_from fuel has_missing t feat (
              get_next has_missing t n
                (get_fvalue feat index)
                (has_missing && is_missing feat index))
    unfolding leaf_from
    leaf_step fuel n has_missing e = rw (e, leaf_from)

    leaf_from-route :
        (fuel up : ℕ) (s : Shape)
        → height s < fuel
        → Represents (node t) up s
        → leaf_from fuel true t feat (root s) ≡ some (route (goes_left t feat) s)
    unfolding leaf_from route height
    leaf_from-route zero up s lt h = elim lt [ ]
    leaf_from-route (suc fuel) up (tip n) lt h = rw (is_leaf-tip (node t) up n h, leaf_from)
    leaf_from-route (suc fuel) up (fork n l r) lt h =
        leaf_step fuel n true (is_leaf-fork (node t) up n l r h)
        ∙ ap (leaf_from fuel true t feat) (get_next-child up n l r h)
        ∙ pick (leaf_from-route fuel (set_high_bit n) l (omega arith) h.3)
            (leaf_from-route fuel n r (omega arith) h.4)
      where
        pick :
            leaf_from fuel true t feat (root l) ≡ some (route (goes_left t feat) l)
            → leaf_from fuel true t feat (root r) ≡ some (route (goes_left t feat) r)
            → leaf_from fuel true t feat (if goes_left t feat n then root l else root r)
              ≡ some (
                  if goes_left t feat n
                  then route (goes_left t feat) l
                  else route (goes_left t feat) r)
        pick p q = elim (Bool-cases (goes_left t feat n)) [ inl e ↦ rw e p | inr e ↦ rw e q ]

    -- Where the right child follows the left one, the two forms of GetNext agree on a row that has
    -- the feature.
    get_next-agree :
        (up n : ℕ) (l r : Shape)
        → Represents (node t) up (fork n l r)
        → root r ≡ root l + 1
        → is_missing feat (split_index (node t n)) ≡ false
        → let index = split_index (node t n) in
          get_next false t n (get_fvalue feat index) (false && is_missing feat index)
          ≡ get_next true t n (get_fvalue feat index) (true && is_missing feat index)
    unfolding get_next
    get_next-agree up n l r h e m = ground (arith, h.1, h.2)

    leaf_from-agree :
        (fuel up : ℕ) (s : Shape)
        → Represents (node t) up s
        → Neighbours s
        → Answers t feat s
        → leaf_from fuel false t feat (root s) ≡ leaf_from fuel true t feat (root s)
    unfolding leaf_from
    leaf_from-agree zero up s h nb an = refl
    leaf_from-agree (suc fuel) up (tip n) h nb an = rw (is_leaf-tip (node t) up n h, leaf_from)
    leaf_from-agree (suc fuel) up (fork n l r) h nb an =
        leaf_step fuel n false (is_leaf-fork (node t) up n l r h)
        ∙ ap (leaf_from fuel false t feat)
            (get_next-agree up n l r h nb.0 an.0 ∙ get_next-child up n l r h)
        ∙ pick (leaf_from-agree fuel (set_high_bit n) l h.3 nb.1 an.1)
            (leaf_from-agree fuel n r h.4 nb.2 an.2)
        ∙ ap (leaf_from fuel true t feat) (sym (get_next-child up n l r h))
        ∙ sym (leaf_step fuel n true (is_leaf-fork (node t) up n l r h))
      where
        pick :
            leaf_from fuel false t feat (root l) ≡ leaf_from fuel true t feat (root l)
            → leaf_from fuel false t feat (root r) ≡ leaf_from fuel true t feat (root r)
            → leaf_from fuel false t feat (if goes_left t feat n then root l else root r)
              ≡ leaf_from fuel true t feat (if goes_left t feat n then root l else root r)
        pick p q = elim (Bool-cases (goes_left t feat n)) [ inl e ↦ rw e p | inr e ↦ rw e q ]

module _ {F : Float} {t : RegTree F} {s : Shape} (o : IsTree t s) (feat : FVec F) where
  -- GetLeafIndex<true> on a well-formed tree ends within as many rounds as there are slots, at the
  -- leaf that the splits' directions lead to from the root.
  pub get_leaf_index-eq-route :
      get_leaf_index t.param.num_nodes true t feat ≡ some (route (goes_left t feat) s)
  unfolding get_leaf_index
  get_leaf_index-eq-route =
      subst (λ r. leaf_from t.param.num_nodes true t feat r ≡ some (route (goes_left t feat) s))
        o.rooted (leaf_from-route t feat t.param.num_nodes invalid_node_id s (height_lt o) o.shaped)

  -- GetLeafIndex<false> returns what GetLeafIndex<true> does, if in each split the right child
  -- follows the left one and the row has the feature of each split.
  pub get_leaf_index-agree :
      Neighbours s
      → Answers t feat s
      → get_leaf_index t.param.num_nodes false t feat ≡ get_leaf_index t.param.num_nodes true t feat
  unfolding get_leaf_index
  get_leaf_index-agree nb an =
      subst
        (λ r.
          leaf_from t.param.num_nodes false t feat r ≡ leaf_from t.param.num_nodes true t feat r)
        o.rooted (leaf_from-agree t feat t.param.num_nodes invalid_node_id s o.shaped nb an)
