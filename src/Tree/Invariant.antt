-- ===== src/Tree/Invariant.antt =====
-- When a `RegTree` (include/xgboost/tree_model.h) stands for a shape: parents and children agree,
-- every slot of the vectors is a node of the shape or on the free list, and never both.
use mathlib.Core.List.{
  Perm, mem-append_left, mem-append_right, mem-cons_self, mem-cons_of_mem, not-mem-nil,
}
use mathlib.Core.List.Perm
use xgboost.Prelude.{
  ℕ, ◌<◌, ◌≡◌, ◌≢◌, refl, List, [], ◌∷◌, ◌++◌, Mem, Nodup, arith, length, below, below_lt,
  below-Nodup, true, false,
}
use xgboost.Float.{Float}
use xgboost.Tree.Node.{Node, invalid_node_id, deleted_node_marker, set_high_bit, is_leaf}
use xgboost.Tree.RegTree.{RegTree, node, int_max, empty_tree}
use xgboost.Tree.Shape.{Shape, tip, fork, root, ids}

module _ {F : Float} where
  -- What a live node holds, given the pattern of its `parent_`.
  pub record IsLive (n : Node F) (id up : ℕ) : Type 0 where
    pub up_eq : n.parent ≡ up
    pub live : n.sindex ≢ deleted_node_marker
    pub in_range : id < int_max

  -- The nodes of a store form the shape. The bit 31 of `parent_` marks a left child.
  abbrev pub Represents : (ℕ → Node F) → ℕ → Shape → Type 0
  Represents g up (tip n) = IsLive (g n) n up × ((g n).cleft ≡ invalid_node_id)
  Represents g up (fork n l r) =
      IsLive (g n) n up
      × ((g n).cleft ≡ root l)
      × ((g n).cright ≡ root r)
      × Represents g (set_high_bit n) l
      × Represents g n r

  -- `ps` are ids that AllocNode has handed out and that no parent points to yet.
  pub record Owns (t : RegTree F) (s : Shape) (ps : List ℕ) : Type 0 where
    pub nodes_size : length t.nodes ≡ t.param.num_nodes
    pub stats_size : length t.stats ≡ t.param.num_nodes
    pub types_size : length t.split_types ≡ t.param.num_nodes
    pub segments_size : length t.split_categories_segments ≡ t.param.num_nodes
    pub counted : t.param.num_deleted ≡ length t.deleted_nodes
    pub cover : Perm (ids s ++ (ps ++ t.deleted_nodes)) (below t.param.num_nodes)
    pub rooted : root s ≡ 0
    pub shaped : Represents (node t) invalid_node_id s
    pub marked : (d : ℕ) → Mem d t.deleted_nodes → (node t d).sindex ≡ deleted_node_marker
    pub cleared : (d : ℕ) → Mem d ps → (node t d).sindex ≡ 0
    pub small : t.param.num_nodes < int_max

  -- The well-formedness of a tree between two calls.
  abbrev pub IsTree : RegTree F → Shape → Type 0
  IsTree t s = Owns t s []

  pub root-in_range : (g : ℕ → Node F) (up : ℕ) (s : Shape) → Represents g up s → root s < int_max
  root-in_range g up (tip n) h = h.0.in_range
  root-in_range g up (fork n l r) h = h.0.in_range

  pub Represents-frame :
      (g g' : ℕ → Node F) (up : ℕ) (s : Shape)
      → ((x : ℕ) → Mem x (ids s) → g' x ≡ g x)
      → Represents g up s
      → Represents g' up s
  unfolding ids
  Represents-frame g g' up (tip n) e h = rw (e n mem-cons_self) h
  Represents-frame g g' up (fork n l r) e h = rw (e n mem-cons_self) (
    h.0,
    h.1,
    h.2,
    Represents-frame g g' (set_high_bit n) l
        (λ x m. e x (mem-cons_of_mem n (mem-append_left (ids r) m))) h.3,
    Represents-frame g g' n r (λ x m. e x (mem-cons_of_mem n (mem-append_right (ids l) m))) h.4,
  )

  -- A node of the tree is a leaf exactly if it has no children in the shape.
  pub is_leaf-tip : (g : ℕ → Node F) (up n : ℕ) → Represents g up (tip n) → is_leaf (g n) ≡ true
  is_leaf-tip g up n h = ground arith

  pub is_leaf-fork :
      (g : ℕ → Node F) (up n : ℕ) (l r : Shape)
      → Represents g up (fork n l r)
      → is_leaf (g n) ≡ false
  is_leaf-fork g up n l r h = ground (arith, root-in_range g (set_high_bit n) l h.3)

  module _ {t : RegTree F} {s : Shape} {ps : List ℕ} (o : Owns t s ps) where
    pub all-Nodup : Nodup (ids s ++ (ps ++ t.deleted_nodes))
    all-Nodup = Perm.nodup (Perm.symm o.cover) (below-Nodup t.param.num_nodes)

    pub mem_lt : {x : ℕ} → Mem x (ids s ++ (ps ++ t.deleted_nodes)) → x < t.param.num_nodes
    mem_lt m = below_lt _ ((Perm.mem_iff o.cover).0 m)

-- The tree that the constructor builds is well-formed and stands for a single leaf, the root.
pub empty_tree-IsTree : (F : Float) → IsTree (empty_tree F) (tip 0)
unfolding ids node below
empty_tree-IsTree F = record {
  nodes_size = refl;
  stats_size = refl;
  types_size = refl;
  segments_size = refl;
  counted = refl;
  cover = Perm.refl (0 ∷ []);
  rooted = refl;
  shaped = (record { up_eq = refl; live = omega arith; in_range = omega arith }, refl);
  marked = λ d m. absurd (not-mem-nil m);
  cleared = λ d m. absurd (not-mem-nil m);
  small = omega arith;
}
