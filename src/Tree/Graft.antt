-- ===== src/Tree/Graft.antt =====
-- How a store of nodes must change for its shape to grow (ExpandNode) or to shrink (ChangeToLeaf)
-- at one place. Of include/xgboost/tree_model.h.
use mathlib.Core.List.{
  Nodup-append, Nodup-cons, mem-append_left, mem-append_right, mem-cons_self, mem-cons_of_mem,
}
use xgboost.Prelude.{true, ℕ, ◌≡◌, ◌≢◌, sym, ◌∙◌, subst, List, Mem, Nodup}
use xgboost.Float.{Float}
use xgboost.Tree.Node.{Node, set_high_bit, is_leaf}
use xgboost.Tree.Shape.{Shape, tip, fork, ids, LeafAt, TwigAt, graft, prune, root-graft, root-prune}
use xgboost.Tree.Invariant.{IsLive, Represents, Represents-frame, is_leaf-tip}

pub LeafAt-mem : {k : ℕ} {s : Shape} → LeafAt k s → Mem k (ids s)
unfolding ids
LeafAt-mem LeafAt.here = mem-cons_self
LeafAt-mem (LeafAt.left {n} {r = r} p) = mem-cons_of_mem n (mem-append_left (ids r) (LeafAt-mem p))
LeafAt-mem (LeafAt.right {n} {l = l} p) =
    mem-cons_of_mem n (mem-append_right (ids l) (LeafAt-mem p))

module _ {k a b : ℕ} where
  pub TwigAt-root : {s : Shape} → TwigAt k a b s → Mem k (ids s)
  unfolding ids
  TwigAt-root TwigAt.here = mem-cons_self
  TwigAt-root (TwigAt.left {n} {r = r} p) =
      mem-cons_of_mem n (mem-append_left (ids r) (TwigAt-root p))
  TwigAt-root (TwigAt.right {n} {l = l} p) =
      mem-cons_of_mem n (mem-append_right (ids l) (TwigAt-root p))

  pub TwigAt-left : {s : Shape} → TwigAt k a b s → Mem a (ids s)
  unfolding ids
  TwigAt-left TwigAt.here = mem-cons_of_mem k mem-cons_self
  TwigAt-left (TwigAt.left {n} {r = r} p) =
      mem-cons_of_mem n (mem-append_left (ids r) (TwigAt-left p))
  TwigAt-left (TwigAt.right {n} {l = l} p) =
      mem-cons_of_mem n (mem-append_right (ids l) (TwigAt-left p))

  pub TwigAt-right : {s : Shape} → TwigAt k a b s → Mem b (ids s)
  unfolding ids
  TwigAt-right TwigAt.here = mem-cons_of_mem k (mem-cons_of_mem a mem-cons_self)
  TwigAt-right (TwigAt.left {n} {r = r} p) =
      mem-cons_of_mem n (mem-append_left (ids r) (TwigAt-right p))
  TwigAt-right (TwigAt.right {n} {l = l} p) =
      mem-cons_of_mem n (mem-append_right (ids l) (TwigAt-right p))

-- An id outside a list differs from one inside.
ne_of : {x y : ℕ} {xs : List ℕ} → ¬ Mem x xs → Mem y xs → x ≢ y
ne_of {xs = xs} h m e = h (subst (λ z. Mem z xs) (sym e) m)

pub ne_of_mem : {x y : ℕ} {xs : List ℕ} → Mem x xs → ¬ Mem y xs → x ≢ y
ne_of_mem {xs = xs} m h e = h (subst (λ z. Mem z xs) e m)

module _ (n : ℕ) (l r : Shape) (d : Nodup (ids (fork n l r))) where
  pub fork-left_Nodup : Nodup (ids l)
  unfolding ids
  fork-left_Nodup = (Nodup-append.0 (Nodup-cons.0 d).1).0

  pub fork-right_Nodup : Nodup (ids r)
  unfolding ids
  fork-right_Nodup = (Nodup-append.0 (Nodup-cons.0 d).1).1

  pub fork-disjoint : {x : ℕ} → Mem x (ids l) → ¬ Mem x (ids r)
  unfolding ids
  fork-disjoint {x} m m' = (Nodup-append.0 (Nodup-cons.0 d).1).2 x m m'

  pub fork-not_left : ¬ Mem n (ids l)
  unfolding ids
  fork-not_left m = (Nodup-cons.0 d).0 (mem-append_left (ids r) m)

  pub fork-not_right : ¬ Mem n (ids r)
  unfolding ids
  fork-not_right m = (Nodup-cons.0 d).0 (mem-append_right (ids l) m)

pub mem-fork_root : (n : ℕ) (l r : Shape) → Mem n (ids (fork n l r))
unfolding ids
mem-fork_root n l r = mem-cons_self

pub mem-fork_left : {x : ℕ} (n : ℕ) (l r : Shape) → Mem x (ids l) → Mem x (ids (fork n l r))
unfolding ids
mem-fork_left n l r m = mem-cons_of_mem n (mem-append_left (ids r) m)

pub mem-fork_right : {x : ℕ} (n : ℕ) (l r : Shape) → Mem x (ids r) → Mem x (ids (fork n l r))
unfolding ids
mem-fork_right n l r m = mem-cons_of_mem n (mem-append_right (ids l) m)

module _ {F : Float} (g g' : ℕ → Node F) where
  -- The store `g'` agrees with `g` on the ids of a shape, but at one.
  abbrev pub AgreesBut : ℕ → Shape → Type 0
  AgreesBut k s = (x : ℕ) → Mem x (ids s) → x ≢ k → g' x ≡ g x

  pub Represents-graft :
      {k : ℕ} (a b up : ℕ) {s : Shape} (p : LeafAt k s)
      → Nodup (ids s)
      → AgreesBut k s
      → ((up' : ℕ)
          → (g k).parent ≡ up'
          → IsLive (g k) k up'
          → Represents g' up' (fork k (tip a) (tip b)))
      → Represents g up s
      → Represents g' up (graft p a b)
  unfolding graft
  Represents-graft a b up LeafAt.here d e new h = new up h.0.up_eq h.0
  Represents-graft {k} a b up (LeafAt.left {n} {l} {r} p) d e new h =
      rw
        (e n (mem-fork_root n l r)
          (λ q. fork-not_left n l r d (subst (λ z. Mem z (ids l)) (sym q) (LeafAt-mem p))))
        (
          h.0,
          h.1 ∙ sym (root-graft p a b),
          h.2,
          Represents-graft a b (set_high_bit n) p (fork-left_Nodup n l r d)
              (λ x m. e x (mem-fork_left n l r m)) new h.3,
          Represents-frame g g' n r
              (λ x m.
                e x (mem-fork_right n l r m) (ne_of_mem m (fork-disjoint n l r d (LeafAt-mem p))))
              h.4,
        )
  Represents-graft {k} a b up (LeafAt.right {n} {l} {r} p) d e new h =
      rw
        (e n (mem-fork_root n l r)
          (λ q. fork-not_right n l r d (subst (λ z. Mem z (ids r)) (sym q) (LeafAt-mem p))))
        (
          h.0,
          h.1,
          h.2 ∙ sym (root-graft p a b),
          Represents-frame g g' (set_high_bit n) l
              (λ x m.
                e x (mem-fork_left n l r m)
                  (ne_of_mem m (λ m'. fork-disjoint n l r d m' (LeafAt-mem p))))
              h.3,
          Represents-graft a b n p (fork-right_Nodup n l r d) (λ x m. e x (mem-fork_right n l r m))
              new h.4,
        )

  -- `g'` agrees with `g` on the ids of a shape, but at three.
  abbrev pub AgreesBut₃ : ℕ → ℕ → ℕ → Shape → Type 0
  AgreesBut₃ k a b s = (x : ℕ) → Mem x (ids s) → x ≢ k → x ≢ a → x ≢ b → g' x ≡ g x

  pub Represents-prune :
      {k a b : ℕ} (up : ℕ) {s : Shape} (p : TwigAt k a b s)
      → Nodup (ids s)
      → AgreesBut₃ k a b s
      → ((up' : ℕ) → IsLive (g k) k up' → Represents g' up' (tip k))
      → Represents g up s
      → Represents g' up (prune p)
  unfolding prune
  Represents-prune up TwigAt.here d e new h = new up h.0
  Represents-prune {k} {a} {b} up (TwigAt.left {n} {l} {r} p) d e new h =
      let away = λ (x : ℕ) (m : Mem x (ids r)) (y : ℕ) (m' : Mem y (ids l)).
        ne_of_mem m (fork-disjoint n l r d m') in
      rw
        (e n (mem-fork_root n l r) (ne_of n-out (TwigAt-root p)) (ne_of n-out (TwigAt-left p))
          (ne_of n-out (TwigAt-right p)))
        (
          h.0,
          h.1 ∙ sym (root-prune p),
          h.2,
          Represents-prune (set_high_bit n) p (fork-left_Nodup n l r d)
              (λ x m. e x (mem-fork_left n l r m)) new h.3,
          Represents-frame g g' n r
              (λ x m.
                e x (mem-fork_right n l r m) (away x m k (TwigAt-root p))
                  (away x m a (TwigAt-left p)) (away x m b (TwigAt-right p)))
              h.4,
        )
    where
      n-out : ¬ Mem n (ids l)
      n-out = fork-not_left n l r d
  Represents-prune {k} {a} {b} up (TwigAt.right {n} {l} {r} p) d e new h =
      let away = λ (x : ℕ) (m : Mem x (ids l)) (y : ℕ) (m' : Mem y (ids r)).
        ne_of_mem m (λ m''. fork-disjoint n l r d m'' m') in
      rw
        (e n (mem-fork_root n l r) (ne_of n-out (TwigAt-root p)) (ne_of n-out (TwigAt-left p))
          (ne_of n-out (TwigAt-right p)))
        (
          h.0,
          h.1,
          h.2 ∙ sym (root-prune p),
          Represents-frame g g' (set_high_bit n) l
              (λ x m.
                e x (mem-fork_left n l r m) (away x m k (TwigAt-root p))
                  (away x m a (TwigAt-left p)) (away x m b (TwigAt-right p)))
              h.3,
          Represents-prune n p (fork-right_Nodup n l r d) (λ x m. e x (mem-fork_right n l r m)) new
              h.4,
        )
    where
      n-out : ¬ Mem n (ids r)
      n-out = fork-not_right n l r d

module _ {F : Float} where
  pub LeafAt-is_leaf :
      {k : ℕ} (g : ℕ → Node F) (up : ℕ) {s : Shape}
      → LeafAt k s
      → Represents g up s
      → is_leaf (g k) ≡ true
  LeafAt-is_leaf {k} g up LeafAt.here h = is_leaf-tip g up k h
  LeafAt-is_leaf g up (LeafAt.left {n} p) h = LeafAt-is_leaf g (set_high_bit n) p h.3
  LeafAt-is_leaf g up (LeafAt.right {n} p) h = LeafAt-is_leaf g n p h.4
