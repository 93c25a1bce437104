-- ===== src/Group/Slices.antt =====
-- Lists that lie one behind the other in a vector.
use xgboost.Prelude.{
  ℕ, zero, suc, ◌+◌, ◌<◌, ◌≡◌, refl, sym, ap, ◌∙◌, List, [], ◌++◌, arith, length, get_elem?, take,
  drop, take_add, take_agree, get_elem?-drop,
}
use xgboost.Group.Sums.{sum, sum_last}

-- f 0 ++ … ++ f (n - 1)
unfoldable pub gather {ℓ} : {A : Type ℓ} → (ℕ → List A) → ℕ → List A
gather f zero = []
gather f (suc n) = gather f n ++ f n

module _ {ℓ} {A : Type ℓ} (f : ℕ → List A) (xs : List A) where
  abbrev pub lengths : ℕ → ℕ
  lengths t = length (f t)

  pub take-gather :
      (n : ℕ)
      → ((t j : ℕ)
          → t < n
          → j < length (f t)
          → get_elem? xs (sum lengths t + j) ≡ get_elem? (f t) j)
      → take (sum lengths n) xs ≡ gather f n
  unfolding gather sum
  take-gather zero e = refl
  take-gather (suc n) e =
      ap (λ k. take k xs) (sum_last lengths n)
      ∙ sym (take_add (sum lengths n) (length (f n)) xs)
      ∙ (λ k.
          take-gather n (λ t j h. e t j (omega arith)) k
          ++ take_agree (drop (sum lengths n) xs) (f n)
              (λ j h. get_elem?-drop (sum lengths n) xs j ∙ e n j (omega arith) h) k)
