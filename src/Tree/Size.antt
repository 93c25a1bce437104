-- ===== src/Tree/Size.antt =====
-- How many nodes a tree of include/xgboost/tree_model.h has: `param.num_nodes` slots are the shape's
-- nodes and the free list.
use mathlib.Core.List.{Perm}
use mathlib.Core.List
use mathlib.Core.List.Perm
use native.Mathlib.Bridge.{from_ℕ}
use xgboost.Prelude.{
  ℕ, suc, ◌+◌, ◌*◌, ◌≤◌, ◌<◌, ◌≡◌, refl, sym, ◌∙◌, ap, List, [], ◌∷◌, arith, length, length-append,
  below, zero,
}
use xgboost.Float.{Float}
use xgboost.Tree.RegTree.{RegTree, num_extra_nodes}
use xgboost.Tree.Shape.{
  Shape, ids, splits, size, height, length-ids, leaves-eq-splits, height-le-splits,
}
use xgboost.Tree.Invariant.{IsTree}

length-from_ℕ {ℓ} : {A : Type ℓ} (xs : List A) → length xs ≡ from_ℕ (List.length xs)
length-from_ℕ [] = refl
length-from_ℕ (x ∷ xs) = ap suc (length-from_ℕ xs)

pub Perm-length {ℓ} : {A : Type ℓ} {xs ys : List A} → Perm xs ys → length xs ≡ length ys
Perm-length {xs = xs} {ys = ys} p =
    length-from_ℕ xs ∙ ap from_ℕ (Perm.length-eq p) ∙ sym (length-from_ℕ ys)

length-below : (n : ℕ) → length (below n) ≡ n
unfolding below
length-below zero = refl
length-below (suc n) = ap suc (length-below n)

module _ {F : Float} {t : RegTree F} {s : Shape} (o : IsTree t s) where
  pub size-add-free : size s + t.param.num_deleted ≡ t.param.num_nodes
  size-add-free = omega (
    arith,
    Perm-length o.cover,
    length-append (ids s) t.deleted_nodes,
    length-ids s,
    length-below t.param.num_nodes,
    o.counted,
  )

  pub height_lt : height s < t.param.num_nodes
  height_lt = omega (arith, size-add-free, height-le-splits s, leaves-eq-splits s)

  pub size_le : size s ≤ t.param.num_nodes
  size_le = omega (arith, size-add-free)

  -- NumExtraNodes of a well-formed tree is the number of its nodes besides the root, which is twice
  -- the number of its splits.
  pub num_extra_nodes-eq-splits : num_extra_nodes t ≡ 2 * splits s
  unfolding num_extra_nodes
  num_extra_nodes-eq-splits = omega (arith, size-add-free, leaves-eq-splits s)
