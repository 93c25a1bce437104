-- ===== src/Tree/Shape.antt =====
-- The tree that a `RegTree` stands for, with its node ids: the abstract view against which the
-- operations of include/xgboost/tree_model.h are specified.
use mathlib.Core.List.{Perm, perm_middle}
use mathlib.Core.List.Perm
use xgboost.Prelude.{
  ℕ, suc, ◌+◌, ◌≤◌, ◌≡◌, refl, List, [], ◌∷◌, ◌++◌, arith, max, length, length-append,
}

pub data Shape : Type 0 where
  tip : ℕ → Shape
  fork : ℕ → Shape → Shape → Shape

abbrev pub root : Shape → ℕ
root (tip n) = n
root (fork n l r) = n

unfoldable pub ids : Shape → List ℕ
ids (tip n) = n ∷ []
ids (fork n l r) = n ∷ (ids l ++ ids r)

unfoldable pub leaves : Shape → ℕ
leaves (tip n) = 1
leaves (fork n l r) = leaves l + leaves r

unfoldable pub splits : Shape → ℕ
splits (tip n) = 0
splits (fork n l r) = suc (splits l + splits r)

unfoldable pub height : Shape → ℕ
height (tip n) = 0
height (fork n l r) = max (height l + 1) (height r + 1)

abbrev pub size : Shape → ℕ
size s = leaves s + splits s

-- The way from the root to a leaf.
pub data LeafAt (k : ℕ) : Shape → Type 0 where
  here : LeafAt k (tip k)
  left : {n : ℕ} {l r : Shape} → LeafAt k l → LeafAt k (fork n l r)
  right : {n : ℕ} {l r : Shape} → LeafAt k r → LeafAt k (fork n l r)

-- The way from the root to any node.
pub data NodeAt (k : ℕ) : Shape → Type 0 where
  top : {s : Shape} → root s ≡ k → NodeAt k s
  left : {n : ℕ} {l r : Shape} → NodeAt k l → NodeAt k (fork n l r)
  right : {n : ℕ} {l r : Shape} → NodeAt k r → NodeAt k (fork n l r)

-- The way from the root to a node whose two children are leaves.
pub data TwigAt (k a b : ℕ) : Shape → Type 0 where
  here : TwigAt k a b (fork k (tip a) (tip b))
  left : {n : ℕ} {l r : Shape} → TwigAt k a b l → TwigAt k a b (fork n l r)
  right : {n : ℕ} {l r : Shape} → TwigAt k a b r → TwigAt k a b (fork n l r)

module _ {k : ℕ} where
  unfoldable pub depth_of : {s : Shape} → NodeAt k s → ℕ
  depth_of (NodeAt.top e) = 0
  depth_of (NodeAt.left p) = suc (depth_of p)
  depth_of (NodeAt.right p) = suc (depth_of p)

  pub depth_of-le-height : {s : Shape} (p : NodeAt k s) → depth_of p ≤ height s
  unfolding depth_of height
  depth_of-le-height (NodeAt.top e) = omega arith
  depth_of-le-height (NodeAt.left p) = omega (arith, depth_of-le-height p)
  depth_of-le-height (NodeAt.right p) = omega (arith, depth_of-le-height p)

  -- A leaf grows two children.
  unfoldable pub graft : {s : Shape} → LeafAt k s → ℕ → ℕ → Shape
  graft LeafAt.here a b = fork k (tip a) (tip b)
  graft (LeafAt.left {n} {r = r} p) a b = fork n (graft p a b) r
  graft (LeafAt.right {n} {l = l} p) a b = fork n l (graft p a b)

  pub root-graft : {s : Shape} (p : LeafAt k s) (a b : ℕ) → root (graft p a b) ≡ root s
  unfolding graft
  root-graft LeafAt.here a b = refl
  root-graft (LeafAt.left p) a b = refl
  root-graft (LeafAt.right p) a b = refl

  pub ids-graft-perm :
      {s : Shape} (p : LeafAt k s) (a b : ℕ) → Perm (ids (graft p a b)) (a ∷ b ∷ ids s)
  unfolding graft ids
  ids-graft-perm LeafAt.here a b =
      Perm.trans (Perm.swap a k (b ∷ [])) (Perm.cons a (Perm.swap b k []))
  ids-graft-perm (LeafAt.left {n} {l} {r} p) a b =
      Perm.trans (Perm.cons n (Perm.append_right (ids r) (ids-graft-perm p a b))) (
        Perm.trans (Perm.swap a n (b ∷ (ids l ++ ids r)))
          (Perm.cons a (Perm.swap b n (ids l ++ ids r))))
  ids-graft-perm (LeafAt.right {n} {l} {r} p) a b =
      Perm.trans (Perm.cons n (Perm.append_left (ids l) (ids-graft-perm p a b))) (
        Perm.trans
          (Perm.cons n (
            Perm.trans (perm_middle (ids l) (b ∷ ids r))
              (Perm.cons a (perm_middle (ids l) (ids r)))))
          (Perm.trans (Perm.swap a n (b ∷ (ids l ++ ids r)))
            (Perm.cons a (Perm.swap b n (ids l ++ ids r)))))

  pub leaves-graft : {s : Shape} (p : LeafAt k s) (a b : ℕ) → leaves (graft p a b) ≡ leaves s + 1
  unfolding graft leaves
  leaves-graft LeafAt.here a b = refl
  leaves-graft (LeafAt.left p) a b = omega (arith, leaves-graft p a b)
  leaves-graft (LeafAt.right p) a b = omega (arith, leaves-graft p a b)

  pub splits-graft : {s : Shape} (p : LeafAt k s) (a b : ℕ) → splits (graft p a b) ≡ splits s + 1
  unfolding graft splits
  splits-graft LeafAt.here a b = refl
  splits-graft (LeafAt.left p) a b = omega (arith, splits-graft p a b)
  splits-graft (LeafAt.right p) a b = omega (arith, splits-graft p a b)

module _ {k a b : ℕ} where
  -- A node loses its two leaves and becomes one.
  unfoldable pub prune : {s : Shape} → TwigAt k a b s → Shape
  prune TwigAt.here = tip k
  prune (TwigAt.left {n} {r = r} p) = fork n (prune p) r
  prune (TwigAt.right {n} {l = l} p) = fork n l (prune p)

  pub root-prune : {s : Shape} (p : TwigAt k a b s) → root (prune p) ≡ root s
  unfolding prune
  root-prune TwigAt.here = refl
  root-prune (TwigAt.left p) = refl
  root-prune (TwigAt.right p) = refl

  unfoldable pub pruned_leaf : {s : Shape} (p : TwigAt k a b s) → LeafAt k (prune p)
  unfolding prune
  pruned_leaf TwigAt.here = LeafAt.here
  pruned_leaf (TwigAt.left p) = LeafAt.left (pruned_leaf p)
  pruned_leaf (TwigAt.right p) = LeafAt.right (pruned_leaf p)

  -- Pruning is undone by growing the same children.
  pub graft-pruned_leaf : {s : Shape} (p : TwigAt k a b s) → graft (pruned_leaf p) a b ≡ s
  unfolding graft pruned_leaf prune
  graft-pruned_leaf TwigAt.here = refl
  graft-pruned_leaf (TwigAt.left {n} {r = r} p) = λ i. fork n (graft-pruned_leaf p i) r
  graft-pruned_leaf (TwigAt.right {n} {l = l} p) = λ i. fork n l (graft-pruned_leaf p i)

pub leaves-eq-splits : (s : Shape) → leaves s ≡ splits s + 1
unfolding leaves splits
leaves-eq-splits (tip n) = refl
leaves-eq-splits (fork n l r) = omega (arith, leaves-eq-splits l, leaves-eq-splits r)

pub length-ids : (s : Shape) → length (ids s) ≡ size s
unfolding ids leaves splits
length-ids (tip n) = refl
length-ids (fork n l r) = omega (arith, length-append (ids l) (ids r), length-ids l, length-ids r)

pub height-le-splits : (s : Shape) → height s ≤ splits s
unfolding height splits
height-le-splits (tip n) = omega arith
height-le-splits (fork n l r) = omega (arith, height-le-splits l, height-le-splits r)
