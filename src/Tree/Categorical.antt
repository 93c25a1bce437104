-- ===== src/Tree/Categorical.antt =====
-- ExpandCategorical (src/tree/tree_model.cc): a split by a set of categories, whose bits are 32-bit words.
use mathlib.Core.List.{mem-append_left, mem-cons_of_mem}
use mathlib.Core.List.Perm
use xgboost.Prelude.{
  ℕ, ◌+◌, ◌-◌, ◌^◌, ◌<◌, ◌≡◌, refl, ap, ◌∙◌, List, [], ◌∷◌, ◌++◌, Option, some, ltb, lt→ltb, arith,
  length, get_or, set, take, drop, length-set, get_or-set_self, below_lt, take_agree,
}
use xgboost.Prelude.Check.{◌>>=◌, ◌>>◌, check}
use xgboost.Float.{Float}
use xgboost.Tree.RegTree.{
  RegTree, SplitArgs, FeatureType, empty_segment, expand_node, node, int_max,
}
use xgboost.Tree.Shape.{Shape, LeafAt, ids-graft-perm, graft}
use xgboost.Tree.Invariant.{IsTree}
use xgboost.Tree.Graft.{LeafAt-mem}
use xgboost.Tree.Expand.{expand_node-Expanded}

drop-append_self : (xs ys : List ℕ) → drop (length xs) (xs ++ ys) ≡ ys
drop-append_self [] ys = refl
drop-append_self (x ∷ xs) ys = drop-append_self xs ys

module _ {F : Float} where
  -- The writes behind ExpandNode; `split_categories` grows by the words.
  unfoldable pub set_categories : RegTree F → ℕ → List ℕ → RegTree F
  set_categories t nid split_cat = record t {
    split_categories = t.split_categories ++ split_cat;
    split_types = set t.split_types nid FeatureType.categorical;
    split_categories_segments =
        set t.split_categories_segments nid
          (record { beg = length t.split_categories; size = length split_cat });
  }

  -- The value of `s` is not read: the source passes NaN.
  unfoldable pub expand_categorical : RegTree F → ℕ → SplitArgs F → List ℕ → Option (RegTree F)
  expand_categorical t nid s split_cat = do
    t1 ← expand_node t nid (record s { split_value = F.nan })
    check (ltb nid (length t1.split_types))
    check (ltb nid (length t1.split_categories_segments))
    some (set_categories t1 nid split_cat)

  -- The words of a node's split.
  abbrev pub categories : RegTree F → ℕ → List ℕ
  categories t nid =
      let segment = get_or t.split_categories_segments nid empty_segment in
      take segment.size (drop segment.beg t.split_categories)

  module _ {t : RegTree F} {s : Shape} {nid : ℕ} (o : IsTree t s) (p : LeafAt nid s)
      (args : SplitArgs F) (split_cat : List ℕ) where
    abbrev pub nan_args : SplitArgs F
    nan_args = record args { split_value = F.nan }

    -- The tree after the split: it is well-formed, the node is split by exactly the given words.
    pub record Categorized (t' : RegTree F) : Type 0 where
      pub pleft : ℕ
      pub pright : ℕ
      pub tree : IsTree t' (graft p pleft pright)
      pub words : categories t' nid ≡ split_cat
      pub kind : get_or t'.split_types nid FeatureType.numerical ≡ FeatureType.categorical

    set_categories-IsTree :
        (t1 : RegTree F) (s1 : Shape) → IsTree t1 s1 → IsTree (set_categories t1 nid split_cat) s1
    unfolding set_categories node
    set_categories-IsTree t1 s1 o1 = record {
      nodes_size = o1.nodes_size;
      stats_size = o1.stats_size;
      types_size = length-set t1.split_types nid FeatureType.categorical ∙ o1.types_size;
      segments_size =
          length-set t1.split_categories_segments nid
            (record { beg = length t1.split_categories; size = length split_cat })
          ∙ o1.segments_size;
      counted = o1.counted;
      cover = o1.cover;
      rooted = o1.rooted;
      shaped = o1.shaped;
      marked = o1.marked;
      cleared = o1.cleared;
      small = o1.small;
    }

    set_categories-categories :
        (t1 : RegTree F)
        → nid < length t1.split_categories_segments
        → categories (set_categories t1 nid split_cat) nid ≡ split_cat
    unfolding set_categories
    set_categories-categories t1 h =
        ap (λ g. take g.size (drop g.beg (t1.split_categories ++ split_cat)))
          (get_or-set_self t1.split_categories_segments nid
            (record { beg = length t1.split_categories; size = length split_cat }) empty_segment h)
        ∙ ap (take (length split_cat)) (drop-append_self t1.split_categories split_cat)
        ∙ take_agree split_cat split_cat (λ i l. refl)

    -- ExpandCategorical at a leaf of a well-formed tree with room for two nodes passes all its checks. The
    -- result is a well-formed tree for the shape with two new leaves under the node, and the node is split
    -- by exactly the given words.
    pub expand_categorical-Categorized :
        t.param.num_nodes + 2 < int_max
        → args.split_index < 2 ^ 31 - 1
        → (t' : RegTree F) × (expand_categorical t nid args split_cat ≡ some t') × Categorized t'
    unfolding expand_categorical set_categories
    expand_categorical-Categorized room index =
        let (t1, run, x) = expand_node-Expanded o p nan_args room index in
        let o1 = x.tree in
        let inside : nid < t1.param.num_nodes = below_lt t1.param.num_nodes (
          (Perm.mem_iff o1.cover).0 (
            mem-append_left ([] ++ t1.deleted_nodes) (
              (Perm.mem_iff (ids-graft-perm p x.pleft x.pright)).1
                (mem-cons_of_mem x.pleft (mem-cons_of_mem x.pright (LeafAt-mem p)))))) in
        let types_ok : nid < length t1.split_types = omega (arith, inside, o1.types_size) in
        let segments_ok : nid < length t1.split_categories_segments =
          omega (arith, inside, o1.segments_size) in
        (
          set_categories t1 nid split_cat,
          rw
              (
                run,
                lt→ltb nid (length t1.split_types) types_ok,
                lt→ltb nid (length t1.split_categories_segments) segments_ok,
              )
              refl,
          record {
            pleft = x.pleft;
            pright = x.pright;
            tree = set_categories-IsTree t1 (graft p x.pleft x.pright) o1;
            words = set_categories-categories t1 segments_ok;
            kind =
                get_or-set_self t1.split_types nid FeatureType.categorical FeatureType.numerical
                  types_ok;
          },
        )
