-- ===== src/Prelude/Below.antt =====
-- The numbers below a bound as a list: what a vector's indices are. It stands for no code of its own.
use Prim.Native.Nat.{ℕ, zero, suc, ◌<◌}
use native.Mathlib.Bridge.{le_prop}
use native.Mathlib.Omega.{arith}
use mathlib.Core.Logic.Or
use mathlib.Core.Path.{◌≡◌, sym, subst}
use mathlib.Core.HLevel.{hedberg}
use native.Mathlib.Decide.{ℕ_discrete}
use mathlib.Core.List.{
  List, [], ◌∷◌, Mem, Nodup, mem-cons, mem-cons_self, mem-cons_of_mem, not-mem-nil, Nodup-cons,
  Nodup-nil,
}

pub ℕ-eq_prop : {a b : ℕ} → IsProp (a ≡ b)
ℕ-eq_prop = hedberg ℕ_discrete _ _

unfoldable pub below : ℕ → List ℕ
below zero = []
below (suc n) = n ∷ below n

pub below_lt : {x : ℕ} (n : ℕ) → Mem x (below n) → x < n
unfolding below
below_lt zero m = absurd (not-mem-nil m)
below_lt (suc n) m =
    Or.elim le_prop (mem-cons.0 m) (λ e. omega arith) (λ m'. omega (arith, below_lt n m'))

pub below-Nodup : (n : ℕ) → Nodup (below n)
unfolding below
below-Nodup zero = Nodup-nil
below-Nodup (suc n) = Nodup-cons.1 ((λ m. omega (arith, below_lt n m)), below-Nodup n)

pub mem-below : {x : ℕ} (n : ℕ) → x < n → Mem x (below n)
unfolding below
mem-below zero h = elim h [ ]
mem-below {x} (suc n) h = elim (ℕ_discrete x n) [
  | yes e ↦ subst (λ y. Mem y (n ∷ below n)) (sym e) mem-cons_self
  | no ne ↦ mem-cons_of_mem n (mem-below n (omega arith))
]
