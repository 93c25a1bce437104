-- ===== src/Tree/Alloc.antt =====
-- AllocNode of include/xgboost/tree_model.h on a well-formed tree.
use mathlib.Core.List.Perm
use mathlib.Core.List.{
  Nodup-append, Nodup-cons, mem-append_right, mem-cons_self, mem-cons_of_mem, mem-cons, perm_middle,
}
use mathlib.Core.Logic.Or
use native.Mathlib.Numerals.{add-one}
use xgboost.Prelude.{
  ℕ, ◌+◌, ◌≤◌, ◌<◌, ◌≡◌, ◌≢◌, refl, sym, ◌∙◌, ap, subst, List, [], ◌∷◌, ◌++◌, Mem, Nodup, arith,
  length, below, lt→ltb, ne→==, some, length-resize, ℕ-eq_prop, get_or-resize, length-set,
  get_or-set_self, get_or-set_ne, get_or_past,
}
use xgboost.Float.{Float}
use xgboost.Tree.Node.{Node, default_node, reuse}
use xgboost.Tree.RegTree.{
  RegTree, node, modify, add_slot, take_free, alloc_node, alloc_fresh, alloc_reused, int_max,
}
use xgboost.Tree.Shape.{Shape, ids}
use xgboost.Tree.Invariant.{Represents-frame, Owns, all-Nodup, mem_lt}

module _ {F : Float} where
  pub node-modify_self :
      (f : Node F → Node F) (i : ℕ) (t : RegTree F)
      → i < length t.nodes
      → node (modify f i t) i ≡ f (node t i)
  unfolding modify node
  node-modify_self f i t h = get_or-set_self t.nodes i _ _ h

  pub node-modify_ne :
      (f : Node F → Node F) (i j : ℕ) (t : RegTree F) → i ≢ j → node (modify f i t) j ≡ node t j
  unfolding modify node
  node-modify_ne f i j t h = get_or-set_ne t.nodes i j _ _ h

  pub length-modify :
      (f : Node F → Node F) (i : ℕ) (t : RegTree F) → length (modify f i t).nodes ≡ length t.nodes
  unfolding modify
  length-modify f i t = length-set t.nodes i _

  pub lt_modify :
      {x : ℕ} (f : Node F → Node F) (i : ℕ) (t : RegTree F)
      → x < length t.nodes
      → x < length (modify f i t).nodes
  lt_modify f i t h = rw (length-modify f i t) h

  -- AllocNode adds `id` to the ids handed out and touches no other node.
  pub record Allocated (t : RegTree F) (s : Shape) (ps : List ℕ) (id : ℕ) (t' : RegTree F)
      : Type 0 where
    pub owned : Owns t' s (id ∷ ps)
    pub others : (x : ℕ) → x ≢ id → node t' x ≡ node t x
    pub grown : t'.param.num_nodes ≤ t.param.num_nodes + 1

  module _ {t : RegTree F} {s : Shape} {ps : List ℕ} (o : Owns t s ps) where
    node-add_slot : (x : ℕ) → node (add_slot t) x ≡ node t x
    unfolding node add_slot
    node-add_slot x = get_or-resize _ _ t.nodes x (omega (arith, o.nodes_size))

    node_past : node t t.param.num_nodes ≡ default_node F
    unfolding node
    node_past = get_or_past t.nodes _ _ (omega (arith, o.nodes_size))

    add_slot-Owns : t.param.num_nodes + 1 < int_max → Owns (add_slot t) s (t.param.num_nodes ∷ ps)
    unfolding add_slot below
    add_slot-Owns h = record {
      nodes_size = length-resize _ _ t.nodes;
      stats_size = length-resize _ _ t.stats;
      types_size = length-resize _ _ t.split_types;
      segments_size = length-resize _ _ t.split_categories_segments;
      counted = o.counted;
      cover = rw add-one (
          Perm.trans (perm_middle (ids s) (ps ++ t.deleted_nodes))
            (Perm.cons t.param.num_nodes o.cover));
      rooted = o.rooted;
      shaped = Represents-frame (node t) (node (add_slot t)) _ s (λ x m. node-add_slot x) o.shaped;
      marked = λ d m. rw (node-add_slot d) (o.marked d m);
      cleared = λ d m.
          rw (node-add_slot d)
            (Or.elim ℕ-eq_prop (mem-cons.0 m) (λ e. rw (e, node_past)) (o.cleared d));
      small = h;
    }

    module _ {nid : ℕ} {rest : List ℕ} (e : t.deleted_nodes ≡ nid ∷ rest) where
      free_mem : Mem nid t.deleted_nodes
      free_mem = rw e mem-cons_self

      free_lt : nid < length t.nodes
      free_lt =
          omega (
            arith,
            o.nodes_size,
            mem_lt o (mem-append_right (ids s) (mem-append_right ps free_mem)),
          )

      free_not_own : ¬ Mem nid (ids s)
      free_not_own m = (Nodup-append.0 (all-Nodup o)).2 nid m (mem-append_right ps free_mem)

      rest_Nodup : Nodup (ps ++ (nid ∷ rest))
      rest_Nodup = (Nodup-append.0 (rw e at (all-Nodup o))).1

      free_not_pending : ¬ Mem nid ps
      free_not_pending m = (Nodup-append.0 rest_Nodup).2 nid m mem-cons_self

      free_not_rest : ¬ Mem nid rest
      free_not_rest = (Nodup-cons.0 (Nodup-append.0 rest_Nodup).1).0

      node-take_free_self : node (take_free t nid rest) nid ≡ reuse (node t nid)
      unfolding take_free node
      node-take_free_self = node-modify_self reuse nid _ free_lt

      node-take_free_ne : (x : ℕ) → x ≢ nid → node (take_free t nid rest) x ≡ node t x
      unfolding take_free node
      node-take_free_ne x h = node-modify_ne reuse nid x _ (λ p. h (sym p))

      take_free-Owns : Owns (take_free t nid rest) s (nid ∷ ps)
      unfolding take_free modify
      take_free-Owns = record {
        nodes_size = length-set t.nodes nid _ ∙ o.nodes_size;
        stats_size = o.stats_size;
        types_size = o.types_size;
        segments_size = o.segments_size;
        counted = omega (arith, o.counted, ap length e);
        cover =
            Perm.trans (Perm.append_left (ids s) (Perm.symm (perm_middle ps rest)))
              (rw e at (o.cover));
        rooted = o.rooted;
        shaped =
            Represents-frame (node t) (node (take_free t nid rest)) _ s
              (λ x m. node-take_free_ne x (λ p. free_not_own (subst (λ y. Mem y (ids s)) p m)))
              o.shaped;
        marked = λ d m.
            rw (node-take_free_ne d (λ p. free_not_rest (subst (λ y. Mem y rest) p m)))
              (o.marked d (rw e (mem-cons_of_mem nid m)));
        cleared = λ d m.
            Or.elim ℕ-eq_prop (mem-cons.0 m) (λ p. rw (p, node-take_free_self))
              (λ m'.
                rw (node-take_free_ne d (λ p. free_not_pending (subst (λ y. Mem y ps) p m')))
                  (o.cleared d m'));
        small = o.small;
      }

    alloc_node-fresh : t.deleted_nodes ≡ [] → alloc_node t ≡ alloc_fresh t
    unfolding alloc_node
    alloc_node-fresh e =
        let z : t.param.num_deleted ≡ 0 = omega (arith, o.counted, ap length e) in rw z

    alloc_node-reused :
        (nid : ℕ) (rest : List ℕ)
        → t.deleted_nodes ≡ nid ∷ rest
        → alloc_node t ≡ alloc_reused t (nid ∷ rest)
    unfolding alloc_node
    alloc_node-reused nid rest e =
        rw (ne→== t.param.num_deleted 0 (omega (arith, o.counted, ap length e)), e)

    -- AllocNode takes the node that was freed last.
    pub alloc_reused-Allocated :
        (nid : ℕ) (rest : List ℕ)
        → t.deleted_nodes ≡ nid ∷ rest
        → (alloc_node t ≡ some (nid, take_free t nid rest))
          × Allocated t s ps nid (take_free t nid rest)
    unfolding alloc_reused
    alloc_reused-Allocated nid rest e = (
      alloc_node-reused nid rest e,
      record {
        owned = take_free-Owns e;
        others = node-take_free_ne e;
        grown = unfold take_free modify in omega arith;
      },
    )

    alloc_cases :
        (ds : List ℕ)
        → t.deleted_nodes ≡ ds
        → t.param.num_nodes + 1 < int_max
        → (id : ℕ) × (t' : RegTree F) × (alloc_node t ≡ some (id, t')) × Allocated t s ps id t'
    unfolding alloc_fresh alloc_reused
    alloc_cases [] e h = (
      t.param.num_nodes,
      add_slot t,
      rw (alloc_node-fresh e, lt→ltb (t.param.num_nodes + 1) int_max h),
      record {
        owned = add_slot-Owns h;
        others = λ x ne. node-add_slot x;
        grown = num_nodes-add_slot;
      },
    )
      where
        num_nodes-add_slot : (add_slot t).param.num_nodes ≤ t.param.num_nodes + 1
        num_nodes-add_slot = unfold add_slot in omega arith
    alloc_cases (nid ∷ rest) e h =
        let (run, A) = alloc_reused-Allocated nid rest e in (nid, take_free t nid rest, run, A)

    -- AllocNode on a well-formed tree below the limit returns, and what it returns was free.
    pub alloc-Allocated :
        t.param.num_nodes + 1 < int_max
        → (id : ℕ) × (t' : RegTree F) × (alloc_node t ≡ some (id, t')) × Allocated t s ps id t'
    alloc-Allocated h = alloc_cases t.deleted_nodes refl h
