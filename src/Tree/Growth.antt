-- ===== src/Tree/Growth.antt =====
-- What ExpandNode (src/tree/tree_model.cc) does to predictions, and to the order of a split's
-- children.
use mathlib.Core.List.{Nodup-append}
use xgboost.Prelude.{
  ℕ, ◌+◌, ◌-◌, ◌^◌, ◌/◌, ◌%◌, ◌<◌, ◌≡◌, ◌≢◌, refl, sym, ◌∙◌, ap, subst, Bool, true, not, Option,
  some, arith, if◌then◌else◌, Bool-cases, inl, inr, Mem, Nodup, ◌==◌, ==_refl, ne_of_==, ne→==,
  ne_of_==,
}
use xgboost.Prelude.Check.{◌>>=◌}
use xgboost.Float.{Float}
use xgboost.Tree.Node.{Node, set_high_bit, split_index, split_cond, default_left, leaf_value}
use xgboost.Tree.RegTree.{RegTree, SplitArgs, node, expand_node, int_max}
use xgboost.Tree.FVec.{FVec}
use xgboost.Tree.Query.{get_leaf_index}
use xgboost.Tree.Shape.{Shape, tip, fork, ids, LeafAt, graft}
use xgboost.Tree.Invariant.{IsTree, all-Nodup}
use xgboost.Tree.Graft.{
  LeafAt-mem, ne_of_mem, mem-fork_root, mem-fork_left, mem-fork_right, fork-left_Nodup,
  fork-right_Nodup, fork-disjoint, fork-not_left, fork-not_right,
}
use xgboost.Tree.Expand.{Expanded, expand_node-Expanded}
use xgboost.Tree.Predict.{route, route-LeafAt, sends_left, goes_left, get_leaf_index-eq-route}

module _ (goes goes' : ℕ → Bool) where
  route-frame :
      (s : Shape) → ((x : ℕ) → Mem x (ids s) → goes' x ≡ goes x) → route goes' s ≡ route goes s
  unfolding route
  route-frame (tip n) e = refl
  route-frame (fork n l r) e = rw (
    e n (mem-fork_root n l r),
    route-frame l (λ x m. e x (mem-fork_left n l r m)),
    route-frame r (λ x m. e x (mem-fork_right n l r m)),
  )

  -- Where a row goes once the leaf `k` has two children.
  abbrev pub regrown : ℕ → ℕ → ℕ → ℕ → ℕ
  regrown k a b leaf = if leaf == k then (if goes' k then a else b) else leaf

  pub route-graft :
      {k : ℕ} (a b : ℕ) {s : Shape} (p : LeafAt k s)
      → Nodup (ids s)
      → ((x : ℕ) → Mem x (ids s) → x ≢ k → goes' x ≡ goes x)
      → route goes' (graft p a b) ≡ regrown k a b (route goes s)
  unfolding route graft
  route-graft {k} a b LeafAt.here d e = rw (==_refl k)
  route-graft {k} a b (LeafAt.left {n} {l} {r} p) d e =
      let top : goes' n ≡ goes n =
        e n (mem-fork_root n l r)
          (λ q. fork-not_left n l r d (subst (λ z. Mem z (ids l)) (sym q) (LeafAt-mem p))) in
      let away : (x : ℕ) → Mem x (ids r) → x ≢ k =
        λ x m. ne_of_mem m (fork-disjoint n l r d (LeafAt-mem p)) in
      elim (Bool-cases (goes n)) [
        | inl q ↦
            rw (top, q)
              (route-graft a b p (fork-left_Nodup n l r d) (λ x m. e x (mem-fork_left n l r m)))
        | inr q ↦
            rw (top, q, ne→== (route goes r) k (away _ (LeafAt-mem (route-LeafAt goes r))))
              (route-frame r (λ x m. e x (mem-fork_right n l r m) (away x m)))
      ]
  route-graft {k} a b (LeafAt.right {n} {l} {r} p) d e =
      let top : goes' n ≡ goes n =
        e n (mem-fork_root n l r)
          (λ q. fork-not_right n l r d (subst (λ z. Mem z (ids r)) (sym q) (LeafAt-mem p))) in
      let away : (x : ℕ) → Mem x (ids l) → x ≢ k =
        λ x m. ne_of_mem m (λ m'. fork-disjoint n l r d m' (LeafAt-mem p)) in
      elim (Bool-cases (goes n)) [
        | inl q ↦
            rw (top, q, ne→== (route goes l) k (away _ (LeafAt-mem (route-LeafAt goes l))))
              (route-frame l (λ x m. e x (mem-fork_left n l r m) (away x m)))
        | inr q ↦
            rw (top, q)
              (route-graft a b p (fork-right_Nodup n l r d) (λ x m. e x (mem-fork_right n l r m)))
      ]

split_bits :
    (index : ℕ) (to_left : Bool)
    → index < 2 ^ 31
    → let word = if to_left then set_high_bit index else index in
      (word % 2 ^ 31 ≡ index) × (not (word / 2 ^ 31 == 0) ≡ to_left)
split_bits index to_left h = ground arith

module _ {F : Float} where
  -- The value of the leaf that a row reaches.
  unfoldable pub leaf_output : RegTree F → FVec F → Option F.Carrier
  leaf_output t feat = do
    leaf ← get_leaf_index t.param.num_nodes true t feat
    some (leaf_value (node t leaf))

  leaf_output-route :
      {t : RegTree F} {s : Shape} (o : IsTree t s) (feat : FVec F)
      → leaf_output t feat ≡ some (leaf_value (node t (route (goes_left t feat) s)))
  unfolding leaf_output
  leaf_output-route o feat = rw (get_leaf_index-eq-route o feat)

  module _ {t t' : RegTree F} {s : Shape} {nid : ℕ} (o : IsTree t s) (p : LeafAt nid s)
      (args : SplitArgs F) (index_lt : args.split_index < 2 ^ 31 - 1) (x : Expanded t s p args t')
      (feat : FVec F) where
    abbrev leaf : ℕ
    leaf = route (goes_left t feat) s

    goes-split :
        goes_left t' feat nid ≡ sends_left feat args.split_index args.split_value args.default_left
    goes-split =
        let bits = split_bits args.split_index args.default_left (omega arith) in
        rw (x.split_eq, bits.0, bits.1)

    goes-others : (n : ℕ) → Mem n (ids s) → n ≢ nid → goes_left t' feat n ≡ goes_left t feat n
    goes-others n m ne =
        ap (λ (k : Node F). sends_left feat (split_index k) (split_cond k) (default_left k))
          (x.others n m ne)

    regrown-value :
        leaf_value
          (node t' (regrown (goes_left t feat) (goes_left t' feat) nid x.pleft x.pright leaf))
        ≡ (if leaf == nid
            then (if sends_left feat args.split_index args.split_value args.default_left
                then args.left_leaf_weight
                else args.right_leaf_weight)
            else leaf_value (node t leaf))
    regrown-value = elim (Bool-cases (leaf == nid)) [
      | inl e ↦
          rw (e, goes-split)
            (elim (Bool-cases
              (sends_left feat args.split_index args.split_value args.default_left)) [
                | inl q ↦ rw q x.left_eq
                | inr q ↦ rw q x.right_eq
              ])
      | inr e ↦ rw e (
          ap leaf_value
            (x.others leaf (LeafAt-mem (route-LeafAt (goes_left t feat) s)) (ne_of_== leaf nid e)))
    ]

    expanded_output :
        leaf_output t' feat
        ≡ some (
            if leaf == nid
            then (if sends_left feat args.split_index args.split_value args.default_left
                then args.left_leaf_weight
                else args.right_leaf_weight)
            else leaf_value (node t leaf))
    expanded_output =
        leaf_output-route x.tree feat
        ∙ ap (λ n. some (leaf_value (node t' n)))
            (route-graft (goes_left t feat) (goes_left t' feat) x.pleft x.pright p
              (Nodup-append.0 (all-Nodup o)).0 goes-others)
        ∙ ap some regrown-value

  -- After ExpandNode at the leaf `nid`, a row that reached `nid` before gets the left or the right
  -- leaf weight, as the new split sends it; every other row keeps its output.
  pub leaf_output-expand_node :
      {t : RegTree F} {s : Shape} {nid : ℕ} (o : IsTree t s) (p : LeafAt nid s) (args : SplitArgs F)
      (feat : FVec F)
      → t.param.num_nodes + 2 < int_max
      → args.split_index < 2 ^ 31 - 1
      → (t' : RegTree F) × (expand_node t nid args ≡ some t')
        × (leaf_output t' feat
            ≡ some (
                if route (goes_left t feat) s == nid
                then (if sends_left feat args.split_index args.split_value args.default_left
                    then args.left_leaf_weight
                    else args.right_leaf_weight)
                else leaf_value (node t (route (goes_left t feat) s))))
  leaf_output-expand_node o p args feat room index_lt =
      let (t', run, x) = expand_node-Expanded o p args room index_lt in
      (t', run, expanded_output o p args index_lt x feat)
