-- ===== src/Tree/Loaded.antt =====
-- What Load reads back of what Save has written (src/tree/tree_model.cc).
use mathlib.Core.List.{
  Perm, filter, filter-append, filter-eq_self, mem-cons, mem-append, not-mem-nil, mem-cons_self,
  mem-cons_of_mem, mem-append_left, append_assoc,
}
use mathlib.Core.List.Perm
use mathlib.Core.Logic.{ite}
use mathlib.Core.Logic.Or
use mathlib.Core.HLevel.{⊥_prop}
use xgboost.Prelude.{
  ℕ, zero, suc, ◌-◌, ◌<◌, ◌≡◌, ◌≢◌, refl, sym, ap, ◌∙◌, subst, true, false, List, [], ◌∷◌, ◌++◌,
  map, some, ◌==◌, arith, length, get_or, resize, take, length-resize, Mem, below, below_lt,
  ℕ_discrete, take_agree,
}
use xgboost.Prelude.Check.{◌>>=◌}
use xgboost.Float.{Float}
use xgboost.Tree.Node.{
  Node, default_node, is_deleted, deleted_node_marker, invalid_node_id, set_high_bit,
}
use xgboost.Tree.RegTree.{RegTree, RTreeNodeStat, FeatureType, empty_segment, node}
use xgboost.Tree.Shape.{Shape, tip, fork, root, ids}
use xgboost.Tree.Invariant.{IsTree, Represents}
use xgboost.Tree.Size.{Perm-length}
use xgboost.Tree.Binary.{Item, read_param, read_nodes, read_stats, find_deleted, load, save}

module _ {P : Type 0} where
  ite_yes : (d : Dec P) (xs ys : List ℕ) → P → ite {C = List ℕ} d xs ys ≡ xs
  ite_yes (yes p) xs ys h = refl
  ite_yes (no np) xs ys h = absurd (np h)

  ite_no : (d : Dec P) (xs ys : List ℕ) → (P → ⊥) → ite {C = List ℕ} d xs ys ≡ ys
  ite_no (yes p) xs ys h = absurd (h p)
  ite_no (no np) xs ys h = refl

mem-root : (s : Shape) → Mem (root s) (ids s)
unfolding ids
mem-root (tip n) = mem-cons_self
mem-root (fork n l r) = mem-cons_self

module _ {F : Float} where
  read_nodes-map :
      (nodes : List (Node F)) (items : List (Item F))
      → read_nodes (length nodes) (map Item.node_item nodes ++ items) ≡ some (nodes, items)
  unfolding read_nodes
  read_nodes-map [] items = refl
  read_nodes-map (x ∷ nodes) items =
      ap (λ r. r >>= λ w. some (x ∷ w.0, w.1)) (read_nodes-map nodes items)

  read_stats-map :
      (stats : List (RTreeNodeStat F)) (items : List (Item F))
      → read_stats (length stats) (map Item.stat_item stats ++ items) ≡ some (stats, items)
  unfolding read_stats
  read_stats-map [] items = refl
  read_stats-map (x ∷ stats) items =
      ap (λ r. r >>= λ w. some (x ∷ w.0, w.1)) (read_stats-map stats items)

  -- A node of the shape is live.
  live_node :
      (g : ℕ → Node F) (up : ℕ) (s : Shape) (x : ℕ)
      → Represents g up s
      → Mem x (ids s)
      → (g x).sindex ≢ deleted_node_marker
  unfolding ids
  live_node g up (tip n) x h m e =
      Or.elim ⊥_prop (mem-cons.0 m)
        (λ same. h.0.live (subst (λ y. (g y).sindex ≡ deleted_node_marker) same e)) not-mem-nil
  live_node g up (fork n l r) x h m e =
      Or.elim ⊥_prop (mem-cons.0 m)
        (λ same. h.0.live (subst (λ y. (g y).sindex ≡ deleted_node_marker) same e))
        (λ m'.
          Or.elim ⊥_prop (mem-append.0 m') (λ ml. live_node g (set_high_bit n) l x h.3 ml e)
            (λ mr. live_node g n r x h.4 mr e))

  module _ (nodes : List (Node F)) where
    abbrev at : ℕ → Node F
    at i = get_or nodes i (default_node F)

    abbrev Gone : (i : ℕ) → Dec ((at i).sindex ≡ deleted_node_marker)
    Gone i = ℕ_discrete (at i).sindex deleted_node_marker

    -- The loop finds the deleted ones of the ids.
    find_deleted-filter :
        (n : ℕ)
        → (at 0).sindex ≢ deleted_node_marker
        → find_deleted nodes n ≡ filter Gone (below (suc n))
    unfolding find_deleted below
    find_deleted-filter zero h = sym (ite_no (Gone 0) (0 ∷ []) [] h)
    find_deleted-filter (suc n) h = elim (Gone (suc n)) [
      | yes e ↦
          let marked : is_deleted (at (suc n)) ≡ true = ground (arith, e) in
          rw (marked) (ap (λ xs. suc n ∷ xs) (find_deleted-filter n h))
          ∙ sym (
              ite_yes (Gone (suc n)) (suc n ∷ filter Gone (below (suc n)))
                (filter Gone (below (suc n))) e)
      | no ne ↦
          let unmarked : is_deleted (at (suc n)) ≡ false = ground (arith, ne) in
          rw (unmarked) (find_deleted-filter n h)
          ∙ sym (
              ite_no (Gone (suc n)) (suc n ∷ filter Gone (below (suc n)))
                (filter Gone (below (suc n))) ne)
    ]

  filter-none :
      (nodes : List (Node F)) (xs : List ℕ)
      → ((x : ℕ) → Mem x xs → (at nodes x).sindex ≢ deleted_node_marker)
      → filter (Gone nodes) xs ≡ []
  filter-none nodes [] h = refl
  filter-none nodes (x ∷ xs) h =
      ite_no (Gone nodes x) (x ∷ filter (Gone nodes) xs) (filter (Gone nodes) xs)
        (h x mem-cons_self)
      ∙ filter-none nodes xs (λ y m. h y (mem-cons_of_mem x m))

  module _ (t : RegTree F) (s : Shape) (o : IsTree t s) where
    root_live : (at t.nodes 0).sindex ≢ deleted_node_marker
    unfolding node
    root_live =
        subst (λ i. (at t.nodes i).sindex ≢ deleted_node_marker) o.rooted
          (live_node (node t) invalid_node_id s (root s) o.shaped (mem-root s))

    -- The loop finds the ids of the free list.
    found-perm :
        0 < t.param.num_nodes → Perm t.deleted_nodes (find_deleted t.nodes (t.param.num_nodes - 1))
    unfolding node
    found-perm h =
        let n : suc (t.param.num_nodes - 1) ≡ t.param.num_nodes = omega arith in
        let all : find_deleted t.nodes (t.param.num_nodes - 1)
            ≡ filter (Gone t.nodes) (below t.param.num_nodes) =
          find_deleted-filter t.nodes (t.param.num_nodes - 1) root_live
          ∙ ap (λ k. filter (Gone t.nodes) (below k)) n in
        let none_live : filter (Gone t.nodes) (ids s) ≡ [] =
          filter-none t.nodes (ids s) (λ x m. live_node (node t) invalid_node_id s x o.shaped m) in
        let all_marked : filter (Gone t.nodes) t.deleted_nodes ≡ t.deleted_nodes =
          (filter-eq_self (Gone t.nodes)).1 (λ x m. o.marked x m) in
        let parts : filter (Gone t.nodes) (ids s ++ t.deleted_nodes) ≡ t.deleted_nodes =
          filter-append (Gone t.nodes) (ids s) t.deleted_nodes
          ∙ (λ k. none_live k ++ all_marked k) in
        subst (λ xs. Perm t.deleted_nodes xs) (sym all)
          (subst (λ xs. Perm xs (filter (Gone t.nodes) (below t.param.num_nodes))) parts
            (Perm.filter (Gone t.nodes) o.cover))

    some_nodes : 0 < t.param.num_nodes
    some_nodes = omega (
      arith,
      below_lt t.param.num_nodes
          ((Perm.mem_iff o.cover).0 (mem-append_left ([] ++ t.deleted_nodes) (mem-root s))),
    )

    -- What Load makes of it, over the tree `t0`.
    abbrev pub loaded : RegTree F → RegTree F
    loaded t0 = record t0 {
      param = t.param;
      nodes = t.nodes;
      stats = t.stats;
      deleted_nodes = find_deleted t.nodes (t.param.num_nodes - 1);
      split_types = resize t.param.num_nodes FeatureType.numerical t0.split_types;
      split_categories_segments =
          resize t.param.num_nodes empty_segment t0.split_categories_segments;
    }

    abbrev pub saved : List (Item F)
    saved = Item.param_item t.param ∷ (map Item.node_item t.nodes ++ map Item.stat_item t.stats)

    save-run : t.param.deprecated_num_roots ≡ 1 → save t ≡ some saved
    unfolding save
    save-run e =
        let nodes_ok : (t.param.num_nodes == length t.nodes) ≡ true =
          ground (arith, o.nodes_size) in
        let stats_ok : (t.param.num_nodes == length t.stats) ≡ true =
          ground (arith, o.stats_size) in
        let roots_ok : (t.param.deprecated_num_roots == 1) ≡ true = ground (arith, e) in
        let more : (t.param.num_nodes == 0) ≡ false = ground (arith, some_nodes) in
        let same : length t.nodes ≡ length t.stats = omega (arith, o.nodes_size, o.stats_size) in
        rw (nodes_ok, stats_ok, roots_ok, more)
          (ap
            (λ xs.
              some
                (Item.param_item t.param ∷ (map Item.node_item t.nodes ++ map Item.stat_item xs)))
            (ap (λ n. take n t.stats) same ∙ take_agree t.stats t.stats (λ i h. refl)))

    load-run :
        (t0 : RegTree F) (rest : List (Item F)) → load t0 (saved ++ rest) ≡ some (loaded t0, rest)
    unfolding load read_param
    load-run t0 rest =
        let more : (t.param.num_nodes == 0) ≡ false = ground (arith, some_nodes) in
        let nodes_in : read_nodes t.param.num_nodes
              ((map Item.node_item t.nodes ++ map Item.stat_item t.stats) ++ rest)
            ≡ some (t.nodes, map Item.stat_item t.stats ++ rest) =
          (λ k.
            read_nodes (sym o.nodes_size k)
              (append_assoc (map Item.node_item t.nodes) (map Item.stat_item t.stats) rest k))
          ∙ read_nodes-map t.nodes (map Item.stat_item t.stats ++ rest) in
        let stats_in : read_stats t.param.num_nodes (map Item.stat_item t.stats ++ rest)
            ≡ some (t.stats, rest) =
          ap (λ n. read_stats n (map Item.stat_item t.stats ++ rest)) (sym o.stats_size)
          ∙ read_stats-map t.stats rest in
        let counted : (length (find_deleted t.nodes (t.param.num_nodes - 1)) == t.param.num_deleted)
            ≡ true =
          ground (arith, o.counted, Perm-length (found-perm some_nodes)) in
        rw (more, nodes_in, stats_in, counted) refl

    loaded-IsTree : (t0 : RegTree F) → IsTree (loaded t0) s
    unfolding node
    loaded-IsTree t0 = record {
      nodes_size = o.nodes_size;
      stats_size = o.stats_size;
      types_size = length-resize t.param.num_nodes FeatureType.numerical t0.split_types;
      segments_size = length-resize t.param.num_nodes empty_segment t0.split_categories_segments;
      counted = o.counted ∙ Perm-length (found-perm some_nodes);
      cover = Perm.trans (Perm.append_left (ids s) (Perm.symm (found-perm some_nodes))) o.cover;
      rooted = o.rooted;
      shaped = o.shaped;
      marked = λ d m. o.marked d ((Perm.mem_iff (found-perm some_nodes)).1 m);
      cleared = λ d m. absurd (not-mem-nil m);
      small = o.small;
    }

  -- If a tree of one root is well-formed, then Save passes its checks, and Load of what it has written, over any
  -- tree, passes its checks and leaves the rest of the stream; the loaded tree has the parameters, nodes and
  -- statistics of the saved one, and is well-formed with the same shape, its free list made anew.
  pub load-save :
      (t t0 : RegTree F) (s : Shape) (rest : List (Item F))
      → IsTree t s
      → t.param.deprecated_num_roots ≡ 1
      → (items : List (Item F)) × (t' : RegTree F) × (save t ≡ some items)
        × (load t0 (items ++ rest) ≡ some (t', rest))
        × (t'.param ≡ t.param)
        × (t'.nodes ≡ t.nodes)
        × (t'.stats ≡ t.stats)
        × IsTree t' s
  load-save t t0 s rest o e = (
    saved t s o,
    loaded t s o t0,
    save-run t s o e,
    load-run t s o t0 rest,
    refl,
    refl,
    refl,
    loaded-IsTree t s o t0,
  )
