-- ===== src/Page/Push.antt =====
-- Push of one SparsePage to another (src/data/data.cc): the rows of the batch come behind those of the page.
use xgboost.Prelude.{ℕ, zero, suc, ◌≡◌, refl, ap, List, [], ◌∷◌, ◌++◌, arith, length, set}
use xgboost.Float.{Float}
use xgboost.Page.{clear}
use xgboost.Page.Rows.{offsets, concat, Holds}

module _ {ℓ} {A : Type ℓ} where
  pub set-append :
      (xs : List A) (i : ℕ) (x y : A) (ys : List A)
      → length xs ≡ i
      → set (xs ++ (x ∷ ys)) i y ≡ (xs ++ (y ∷ [])) ++ ys
  set-append [] zero x y ys e = refl
  set-append [] (suc i) x y ys e = absurd (omega (arith, e))
  set-append (z ∷ xs) zero x y ys e = absurd (omega (arith, e))
  set-append (z ∷ xs) (suc i) x y ys e =
      ap (λ zs. z ∷ zs) (set-append xs i x y ys (omega (arith, e)))

-- A cleared page holds no rows.
pub clear-Holds : {F : Float} → Holds (clear {F = F}) []
unfolding offsets concat
clear-Holds = record { offset_eq = refl; data_eq = refl }
