-- ===== src/Tree/Expand.antt =====
-- ExpandNode of src/tree/tree_model.cc turns a leaf into a split with two new leaves.
use mathlib.Core.List.{
  Perm, Nodup-append, Nodup-cons, mem-append_left, mem-append_right, mem-cons_self, mem-cons_of_mem,
  perm_middle, not-mem-nil,
}
use mathlib.Core.List.Perm
use xgboost.Prelude.{
  ℕ, ◌+◌, ◌-◌, ◌^◌, ◌<◌, ◌≡◌, ◌≢◌, refl, sym, ◌∙◌, ap, subst, [], ◌∷◌, ◌++◌, Mem, Nodup, arith,
  length, below, true, ltb, lt→ltb, some, length-set,
}
use xgboost.Float.{Float}
use xgboost.Tree.Node.{invalid_node_id, deleted_node_marker, is_leaf, leaf_value}
use xgboost.Tree.RegTree.{
  RegTree, SplitArgs, node, modify, alloc_node, link_children, record_stats, expand_node, int_max,
}
use xgboost.Tree.Shape.{Shape, tip, fork, ids, LeafAt, graft, root-graft, ids-graft-perm}
use xgboost.Tree.Invariant.{IsLive, Represents, Owns, IsTree, all-Nodup, mem_lt}
use xgboost.Tree.Alloc.{Allocated, alloc-Allocated}
use xgboost.Tree.Graft.{LeafAt-is_leaf, LeafAt-mem, ne_of_mem, Represents-graft}
use xgboost.Tree.Link.{
  split_node, left_node, right_node, length-link, link-split, link-left, link-right, link-others,
}

module _ {F : Float} where
  -- ExpandNode once it has its two slots.
  abbrev pub expanded : RegTree F → ℕ → ℕ → ℕ → SplitArgs F → RegTree F
  expanded t nid a b args = record_stats (link_children t nid a b args) nid a b args

  expanded-types :
      (t : RegTree F) (nid a b : ℕ) (args : SplitArgs F)
      → length (expanded t nid a b args).split_types ≡ length t.split_types
  unfolding record_stats link_children modify
  expanded-types t nid a b args = simp length-set

  pub node-expanded :
      (t : RegTree F) (nid a b : ℕ) (args : SplitArgs F) (x : ℕ)
      → node (expanded t nid a b args) x ≡ node (link_children t nid a b args) x
  unfolding node record_stats
  node-expanded t nid a b args x = refl

  module _ {t : RegTree F} {s : Shape} {nid a b : ℕ} (o : Owns t s (b ∷ a ∷ [])) (p : LeafAt nid s)
      (args : SplitArgs F) where
    rest_Nodup : Nodup (b ∷ a ∷ t.deleted_nodes)
    rest_Nodup = (Nodup-append.0 (all-Nodup o)).1

    pub a-new : ¬ Mem a (ids s)
    a-new m = (Nodup-append.0 (all-Nodup o)).2 a m (mem-cons_of_mem b mem-cons_self)

    pub b-new : ¬ Mem b (ids s)
    b-new m = (Nodup-append.0 (all-Nodup o)).2 b m mem-cons_self

    pub a≢b : a ≢ b
    a≢b e = (Nodup-cons.0 rest_Nodup).0 (rw (sym e) mem-cons_self)

    pub nid≢a : nid ≢ a
    nid≢a = ne_of_mem (LeafAt-mem p) a-new

    pub nid≢b : nid ≢ b
    nid≢b = ne_of_mem (LeafAt-mem p) b-new

    nid_lt : nid < length t.nodes
    nid_lt = omega (arith, o.nodes_size, mem_lt o (mem-append_left _ (LeafAt-mem p)))

    pub a_lt : a < length t.nodes
    a_lt =
        omega (
          arith,
          o.nodes_size,
          mem_lt o (mem-append_right (ids s) (mem-cons_of_mem b mem-cons_self)),
        )

    pub b_lt : b < length t.nodes
    b_lt = omega (arith, o.nodes_size, mem_lt o (mem-append_right (ids s) mem-cons_self))

    pub expanded-split : node (expanded t nid a b args) nid ≡ split_node (node t nid) a b args
    expanded-split =
        node-expanded t nid a b args nid
        ∙ link-split t nid a b args nid≢a nid≢b a≢b nid_lt a_lt b_lt

    pub expanded-left : node (expanded t nid a b args) a ≡ left_node (node t a) nid args
    expanded-left =
        node-expanded t nid a b args a ∙ link-left t nid a b args nid≢a nid≢b a≢b nid_lt a_lt b_lt

    pub expanded-right : node (expanded t nid a b args) b ≡ right_node (node t b) nid args
    expanded-right =
        node-expanded t nid a b args b ∙ link-right t nid a b args nid≢a nid≢b a≢b nid_lt a_lt b_lt

    pub expanded-others :
        (x : ℕ) → x ≢ nid → x ≢ a → x ≢ b → node (expanded t nid a b args) x ≡ node t x
    expanded-others x p q r =
        node-expanded t nid a b args x
        ∙ link-others t nid a b args nid≢a nid≢b a≢b nid_lt a_lt b_lt x (λ e. p (sym e))
            (λ e. q (sym e)) (λ e. r (sym e))

    module _ (index_lt : args.split_index < 2 ^ 31 - 1) where
      new_fork :
          (up : ℕ)
          → (node t nid).parent ≡ up
          → IsLive (node t nid) nid up
          → Represents (node (expanded t nid a b args)) up (fork nid (tip a) (tip b))
      new_fork up e h =
          rw (expanded-split, expanded-left, expanded-right)
            (
              record { up_eq = h.up_eq; live = ground arith; in_range = h.in_range },
              refl,
              refl,
              (
                record {
                  up_eq = refl;
                  live = a_live;
                  in_range = omega (arith, a_lt, o.small, o.nodes_size);
                },
                refl,
              ),
              (
                record {
                  up_eq = refl;
                  live = b_live;
                  in_range = omega (arith, b_lt, o.small, o.nodes_size);
                },
                refl,
              ),
            )
        where
          a_live : (node t a).sindex ≢ deleted_node_marker
          a_live = omega (arith, o.cleared a (mem-cons_of_mem b mem-cons_self))

          b_live : (node t b).sindex ≢ deleted_node_marker
          b_live = omega (arith, o.cleared b mem-cons_self)

      expanded-shaped : Represents (node (expanded t nid a b args)) invalid_node_id (graft p a b)
      expanded-shaped =
          Represents-graft (node t) (node (expanded t nid a b args)) a b invalid_node_id p
            (Nodup-append.0 (all-Nodup o)).0
            (λ x m ne. expanded-others x ne (ne_of_mem m a-new) (ne_of_mem m b-new)) new_fork
            o.shaped

      expanded-cover : Perm (ids (graft p a b) ++ t.deleted_nodes) (below t.param.num_nodes)
      expanded-cover = Perm.trans (Perm.append_right t.deleted_nodes (ids-graft-perm p a b)) (
          Perm.trans (Perm.swap b a (ids s ++ t.deleted_nodes)) (
            Perm.trans
              (Perm.symm (
                Perm.trans (perm_middle (ids s) (a ∷ t.deleted_nodes))
                  (Perm.cons b (perm_middle (ids s) t.deleted_nodes))))
              o.cover))

      expanded-IsTree : IsTree (expanded t nid a b args) (graft p a b)
      unfolding link_children record_stats modify
      expanded-IsTree = record {
        nodes_size = length-link t nid a b args nid≢a nid≢b a≢b nid_lt a_lt b_lt ∙ o.nodes_size;
        stats_size = simp length-set o.stats_size;
        types_size = simp length-set o.types_size;
        segments_size = o.segments_size;
        counted = o.counted;
        cover = expanded-cover;
        rooted = root-graft p a b ∙ o.rooted;
        shaped = expanded-shaped;
        marked = λ d m.
            rw
              (expanded-others d
                (λ e.
                  (Nodup-append.0 (all-Nodup o)).2 nid (LeafAt-mem p) (
                    mem-cons_of_mem b (mem-cons_of_mem a (subst (λ z. Mem z t.deleted_nodes) e m))))
                (λ e.
                  (Nodup-cons.0 (Nodup-cons.0 rest_Nodup).1).0
                    (subst (λ z. Mem z t.deleted_nodes) e m))
                (λ e.
                  (Nodup-cons.0 rest_Nodup).0
                    (mem-cons_of_mem a (subst (λ z. Mem z t.deleted_nodes) e m))))
              (o.marked d m);
        cleared = λ d m. absurd (not-mem-nil m);
        small = o.small;
      }

  -- What a successful ExpandNode at the leaf `nid` has done.
  pub record Expanded {nid : ℕ} (t : RegTree F) (s : Shape) (p : LeafAt nid s) (args : SplitArgs F)
      (t' : RegTree F) : Type 0 where
    pub pleft : ℕ
    pub pright : ℕ
    pub tree : IsTree t' (graft p pleft pright)
    pub left_new : ¬ Mem pleft (ids s)
    pub right_new : ¬ Mem pright (ids s)
    pub split_eq : node t' nid ≡ split_node (node t nid) pleft pright args
    pub left_eq : leaf_value (node t' pleft) ≡ args.left_leaf_weight
    pub right_eq : leaf_value (node t' pright) ≡ args.right_leaf_weight
    pub others : (x : ℕ) → Mem x (ids s) → x ≢ nid → node t' x ≡ node t x

  module _ {t : RegTree F} {s : Shape} {nid : ℕ} (o : IsTree t s) (p : LeafAt nid s)
      (args : SplitArgs F) where
    module _ {t1 t2 : RegTree F} {a b : ℕ} (A : Allocated t s [] a t1)
        (B : Allocated t1 s (a ∷ []) b t2) where
      same_node : (x : ℕ) → Mem x (ids s) → node t2 x ≡ node t x
      same_node x m =
          B.others x (ne_of_mem m (b-new B.owned p args))
          ∙ A.others x (ne_of_mem m (a-new B.owned p args))

      expanded-Expanded :
          args.split_index < 2 ^ 31 - 1 → Expanded t s p args (expanded t2 nid a b args)
      expanded-Expanded index = record {
        pleft = a;
        pright = b;
        tree = expanded-IsTree B.owned p args index;
        left_new = a-new B.owned p args;
        right_new = b-new B.owned p args;
        split_eq =
            expanded-split B.owned p args
            ∙ ap (λ n. split_node n a b args) (same_node nid (LeafAt-mem p));
        left_eq = ap leaf_value (expanded-left B.owned p args);
        right_eq = ap leaf_value (expanded-right B.owned p args);
        others = λ x m ne.
            expanded-others B.owned p args x ne (ne_of_mem m (a-new B.owned p args))
              (ne_of_mem m (b-new B.owned p args))
            ∙ same_node x m;
      }

      pub expand_node-run :
          alloc_node t ≡ some (a, t1)
          → alloc_node t1 ≡ some (b, t2)
          → expand_node t nid args ≡ some (expanded t2 nid a b args)
      unfolding expand_node
      expand_node-run e1 e2 = rw (e1, e2, leaf, types)
        where
          leaf : is_leaf (node t2 nid) ≡ true
          leaf = LeafAt-is_leaf (node t2) invalid_node_id p B.owned.shaped

          types : ltb nid (length (expanded t2 nid a b args).split_types) ≡ true
          types = lt→ltb _ _ (
              omega (
                arith,
                expanded-types t2 nid a b args,
                nid_lt B.owned p args,
                B.owned.nodes_size,
                B.owned.types_size,
              ))

    -- ExpandNode at a leaf of a well-formed tree with room for two nodes passes all its checks. Its
    -- result is a well-formed tree that stands for the shape with two new leaves under `nid`; the two
    -- leaves hold the given weights, the split holds the given condition, and no other node of the
    -- tree has changed.
    pub expand_node-Expanded :
        t.param.num_nodes + 2 < int_max
        → args.split_index < 2 ^ 31 - 1
        → (t' : RegTree F) × (expand_node t nid args ≡ some t') × Expanded t s p args t'
    expand_node-Expanded room index = first (alloc-Allocated o (omega arith))
      where
        second :
            (a : ℕ) (t1 : RegTree F)
            → alloc_node t ≡ some (a, t1)
            → Allocated t s [] a t1
            → (b : ℕ) × (t2 : RegTree F) × (alloc_node t1 ≡ some (b, t2))
              × Allocated t1 s (a ∷ []) b t2
            → (t' : RegTree F) × (expand_node t nid args ≡ some t') × Expanded t s p args t'
        second a t1 e1 A (b, t2, e2, B) =
            (expanded t2 nid a b args, expand_node-run A B e1 e2, expanded-Expanded A B index)

        first :
            (a : ℕ) × (t1 : RegTree F) × (alloc_node t ≡ some (a, t1)) × Allocated t s [] a t1
            → (t' : RegTree F) × (expand_node t nid args ≡ some t') × Expanded t s p args t'
        first (a, t1, e1, A) = second a t1 e1 A (alloc-Allocated A.owned (omega (arith, A.grown)))
