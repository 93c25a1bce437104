-- ===== src/Tree/Depth.antt =====
-- MaxDepth and GetDepth of include/xgboost/tree_model.h.
use xgboost.Prelude.{ℕ, zero, suc, ◌+◌, ◌%◌, ◌^◌, ◌≢◌, subst, ◌<◌, ◌≡◌, ◌∙◌, ap, some, arith, ne→==}
use xgboost.Float.{Float}
use xgboost.Tree.Node.{invalid_node_id, set_high_bit}
use xgboost.Tree.RegTree.{RegTree, node, int_max}
use xgboost.Tree.Query.{max_depth, depth_from, get_depth}
use xgboost.Tree.Shape.{Shape, tip, fork, root, height, NodeAt, depth_of, depth_of-le-height}
use xgboost.Tree.Invariant.{Represents, IsTree, is_leaf-tip, is_leaf-fork}
use xgboost.Tree.Size.{height_lt}
use xgboost.Tree.Cut.{parent_of_high, parent_of_low}

module _ {F : Float} (t : RegTree F) where
  max_depth-height :
      (fuel up : ℕ) (s : Shape)
      → height s < fuel
      → Represents (node t) up s
      → max_depth fuel t (root s) ≡ some (height s)
  unfolding max_depth height
  max_depth-height zero up s lt h = elim lt [ ]
  max_depth-height (suc fuel) up (tip n) lt h = rw (is_leaf-tip (node t) up n h, max_depth)
  max_depth-height (suc fuel) up (fork n l r) lt h = rw (
    is_leaf-fork (node t) up n l r h,
    max_depth,
    h.1,
    h.2,
    max_depth-height fuel (set_high_bit n) l (omega arith) h.3,
    max_depth-height fuel n r (omega arith) h.4,
  )

  -- One round of GetDepth from a node that is not the root.
  depth_step :
      (fuel n up acc : ℕ)
      → (node t n).parent ≡ up
      → up ≢ invalid_node_id
      → depth_from (suc fuel) t n acc ≡ depth_from fuel t (up % 2 ^ 31) (acc + 1)
  unfolding depth_from
  depth_step fuel n up acc e ne = rw (e, ne→== up invalid_node_id ne, depth_from, e)

  high_ne : (n : ℕ) → n < int_max → set_high_bit n ≢ invalid_node_id
  high_ne n h = ground arith

  climb_child :
      (d n c up : ℕ)
      → (node t c).parent ≡ up
      → up ≢ invalid_node_id
      → up % 2 ^ 31 ≡ n
      → ((fuel acc : ℕ) → d < fuel → depth_from fuel t n acc ≡ some (acc + d))
      → (fuel acc : ℕ) → suc d < fuel
      → depth_from fuel t c acc ≡ some (acc + suc d)
  climb_child d n c up e ne low climb zero acc lt = elim lt [ ]
  climb_child d n c up e ne low climb (suc fuel) acc lt =
      let above : depth_from fuel t (up % 2 ^ 31) (acc + 1) ≡ some (acc + 1 + d) =
        rw low (climb fuel (acc + 1) (omega arith)) in
      depth_step fuel c up acc e ne ∙ above ∙ ap some (omega arith)

  up_eq-root : (up : ℕ) (s : Shape) → Represents (node t) up s → (node t (root s)).parent ≡ up
  up_eq-root up (tip n) h = h.0.up_eq
  up_eq-root up (fork n l r) h = h.0.up_eq

  -- If GetDepth climbs from the root of a part in `d` rounds, it climbs from a node in it in `d` more
  -- than the node's depth.
  depth_from-depth_of :
      {k : ℕ} (up d : ℕ) {s : Shape} (p : NodeAt k s)
      → Represents (node t) up s
      → ((fuel acc : ℕ) → d < fuel → depth_from fuel t (root s) acc ≡ some (acc + d))
      → (fuel acc : ℕ) → depth_of p + d < fuel
      → depth_from fuel t k acc ≡ some (acc + (depth_of p + d))
  unfolding depth_of
  depth_from-depth_of up d (NodeAt.top e) h climb fuel acc lt =
      rw (← e) (climb fuel acc (omega arith) ∙ ap some (omega arith))
  depth_from-depth_of up d (NodeAt.left {n} {l} {r} p) h climb fuel acc lt =
      depth_from-depth_of (set_high_bit n) (suc d) p h.3
        (climb_child d n (root l) (set_high_bit n) (up_eq-root (set_high_bit n) l h.3)
          (high_ne n h.0.in_range) (parent_of_high n (omega (arith, h.0.in_range))) climb)
        fuel acc (omega arith)
      ∙ ap some (omega arith)
  depth_from-depth_of up d (NodeAt.right {n} {l} {r} p) h climb fuel acc lt =
      depth_from-depth_of n (suc d) p h.4
        (climb_child d n (root r) n (up_eq-root n r h.4) (omega (arith, h.0.in_range))
          (parent_of_low n (omega (arith, h.0.in_range))) climb)
        fuel acc (omega arith)
      ∙ ap some (omega arith)

module _ {F : Float} {t : RegTree F} {s : Shape} (o : IsTree t s) where
  -- MaxDepth of a well-formed tree, run for as many rounds as there are slots, is the height of the
  -- tree that it stands for.
  pub max_depth-eq-height : max_depth t.param.num_nodes t 0 ≡ some (height s)
  max_depth-eq-height =
      subst (λ r. max_depth t.param.num_nodes t r ≡ some (height s)) o.rooted
        (max_depth-height t t.param.num_nodes invalid_node_id s (height_lt o) o.shaped)

  root_climb : (fuel acc : ℕ) → 0 < fuel → depth_from fuel t (root s) acc ≡ some (acc + 0)
  unfolding depth_from
  root_climb zero acc lt = elim lt [ ]
  root_climb (suc fuel) acc lt =
      rw (up_eq-root t invalid_node_id s o.shaped, depth_from) (ap some (omega arith))

  -- GetDepth of a node of a well-formed tree ends within as many rounds as there are slots, with the
  -- length of the way from the root to the node.
  pub get_depth-eq-depth_of :
      {k : ℕ} (p : NodeAt k s) → get_depth t.param.num_nodes t k ≡ some (depth_of p)
  unfolding get_depth
  get_depth-eq-depth_of {k} p =
      depth_from-depth_of t invalid_node_id 0 p o.shaped root_climb t.param.num_nodes 0
        (omega (arith, height_lt o, depth_of-le-height p))
      ∙ ap some (omega arith)
