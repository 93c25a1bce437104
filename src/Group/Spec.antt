-- ===== src/Group/Spec.antt =====
-- Calls of AddBudget and Push (src/common/group_data.h) and what they give a key and a thread.
use mathlib.Core.List.{append_assoc}
use xgboost.Prelude.{
  ℕ, ◌+◌, ◌≤◌, ◌<◌, ◌≡◌, ◌≢◌, refl, sym, ap, ◌∙◌, subst, Bool, ◌&&◌, List, [], ◌∷◌, ◌++◌, Option,
  some, ◌==◌, if◌then◌else◌, length, get_or, set, get_or-set_self, get_or-set_ne, ℕ_discrete,
}
use xgboost.Prelude.Check.{◌>>=◌}
use xgboost.Group.{ParallelGroupBuilder, add_budget, push}

pub record Call {ℓ} (A : Type ℓ) : Type ℓ where
  pub key : ℕ
  pub thread : ℕ
  pub item : A

-- A count or a place of a thread at an offset.
abbrev pub cell : List (List ℕ) → ℕ → ℕ → ℕ
cell threads t o = get_or (get_or threads t []) o 0

-- A vector `r` of the thread `t0`, which holds what was there, is written at `o0`.
module _ (threads : List (List ℕ)) (t0 o0 v : ℕ) (r : List ℕ) (inside : t0 < length threads)
    (long : o0 < length r) (same : (o : ℕ) → get_or r o 0 ≡ cell threads t0 o) where
  pub cell-write_self : cell (set threads t0 (set r o0 v)) t0 o0 ≡ v
  cell-write_self =
      ap (λ row. get_or row o0 0) (get_or-set_self threads t0 (set r o0 v) [] inside)
      ∙ get_or-set_self r o0 v 0 long

  pub cell-write_other :
      (t o : ℕ) → (t0 ≡ t → o0 ≢ o) → cell (set threads t0 (set r o0 v)) t o ≡ cell threads t o
  cell-write_other t o ne = elim (ℕ_discrete t0 t) [
    | yes e ↦
        subst (λ u. cell (set threads t0 (set r o0 v)) u o ≡ cell threads u o) e
          (ap (λ row. get_or row o 0) (get_or-set_self threads t0 (set r o0 v) [] inside)
            ∙ get_or-set_ne r o0 o v 0 (ne e)
            ∙ same o)
    | no different ↦
        ap (λ row. get_or row o 0) (get_or-set_ne threads t0 t (set r o0 v) [] different)
  ]

module _ {ℓ} {A : Type ℓ} (base : ℕ) where
  abbrev pub hits : Call A → ℕ → ℕ → Bool
  hits call o t = (call.key == base + o) && (call.thread == t)

  -- What the calls give the key `base + o` by the thread `t`, in order.
  unfoldable pub items : List (Call A) → ℕ → ℕ → List A
  items [] o t = []
  items (call ∷ calls) o t = (if hits call o t then (call.item ∷ []) else []) ++ items calls o t

  pub items-append :
      (calls calls' : List (Call A)) (o t : ℕ)
      → items (calls ++ calls') o t ≡ items calls o t ++ items calls' o t
  unfolding items
  items-append [] calls' o t = refl
  items-append (call ∷ calls) calls' o t =
      ap (λ xs. (if hits call o t then (call.item ∷ []) else []) ++ xs)
        (items-append calls calls' o t)
      ∙ sym (
          append_assoc (if hits call o t then (call.item ∷ []) else []) (items calls o t)
            (items calls' o t))

  -- The keys are not below the base, and the threads are those that there are.
  abbrev pub InRange : ℕ → List (Call A) → Type 0
  InRange threads [] = Unit
  InRange threads (call ∷ calls) =
      (base ≤ call.key) × (call.thread < threads) × InRange threads calls

unfoldable pub total : List ℕ → ℕ
total [] = 0
total (n ∷ ns) = n + total ns

module _ {ℓ} {V : Type ℓ} (is_row_major : Bool) where
  -- Calls of AddBudget and of Push, one after the other.
  unfoldable pub add_budgets :
      List (Call ℕ) → ParallelGroupBuilder V → Option (ParallelGroupBuilder V)
  add_budgets [] b = some b
  add_budgets (call ∷ calls) b =
      add_budget is_row_major call.key call.thread call.item b >>= add_budgets calls

  unfoldable pub push_all : List (Call V) → ParallelGroupBuilder V → Option (ParallelGroupBuilder V)
  push_all [] b = some b
  push_all (call ∷ calls) b = push is_row_major call.key call.item call.thread b >>= push_all calls
