-- ===== src/SplitEntry/Tests.antt =====
-- Runs and instances of the theorems about SplitEntryContainer (src/tree/param.h) on three candidates.
use mathlib.Core.List.{Memᴰ}
use mathlib.Core.List.Memᴰ
use xgboost.Prelude.{ℕ, ◌<◌, ◌≡◌, refl, sym, subst, Bool, false, List, [], ◌∷◌, ◌==◌, ltb, arith}
use xgboost.Tree.Sample.{toy}
use xgboost.SplitEntry.{SplitEntryContainer, split_index, update, need_replace, reduce_all}
use xgboost.SplitEntry.Best.{Beats, reduce_all-Beats, reduce_all_order}

abbrev candidate : ℕ → ℕ → SplitEntryContainer toy ℕ
candidate loss index = record {
  loss_chg = loss;
  sindex = index;
  split_value = 50;
  left_sum = 1;
  right_sum = 2;
}

abbrev start : SplitEntryContainer toy ℕ
start = candidate 0 0

abbrev some_order : List (SplitEntryContainer toy ℕ)
some_order = candidate 7 5 ∷ candidate 7 3 ∷ []

abbrev other_order : List (SplitEntryContainer toy ℕ)
other_order = candidate 7 3 ∷ candidate 7 5 ∷ []

abbrev infinite : ℕ → Bool
infinite x = x == 998

abbrev IsSmall : ℕ → Type 0
IsSmall x = x < 998

-- Of two equal loss changes the one at the earlier feature is kept.
tie_goes_to_earlier_feature : split_index (reduce_all infinite start some_order) ≡ 3
unfolding reduce_all update need_replace split_index
tie_goes_to_earlier_feature = refl

small-infinite : (x : ℕ) → IsSmall x → infinite x ≡ false
small-infinite x h = ground arith

all-IsSmall : (e : SplitEntryContainer toy ℕ) → Memᴰ e (start ∷ some_order) → IsSmall e.loss_chg
all-IsSmall e (Memᴰ.head same) = subst (λ x. IsSmall x.loss_chg) (sym same) (omega arith)
all-IsSmall e (Memᴰ.tail (Memᴰ.head same)) =
    subst (λ x. IsSmall x.loss_chg) (sym same) (omega arith)
all-IsSmall e (Memᴰ.tail (Memᴰ.tail (Memᴰ.head same))) =
    subst (λ x. IsSmall x.loss_chg) (sym same) (omega arith)
all-IsSmall e (Memᴰ.tail (Memᴰ.tail (Memᴰ.tail m))) = absurd (Memᴰ.not-nil m)

swapped : (d a b e : SplitEntryContainer toy ℕ) → Memᴰ e (d ∷ a ∷ b ∷ []) → Memᴰ e (d ∷ b ∷ a ∷ [])
swapped d a b e (Memᴰ.head same) = Memᴰ.head same
swapped d a b e (Memᴰ.tail (Memᴰ.head same)) = Memᴰ.tail (Memᴰ.tail (Memᴰ.head same))
swapped d a b e (Memᴰ.tail (Memᴰ.tail (Memᴰ.head same))) = Memᴰ.tail (Memᴰ.head same)
swapped d a b e (Memᴰ.tail (Memᴰ.tail (Memᴰ.tail m))) = absurd (Memᴰ.not-nil m)

reduce_all-Beats_example :
    Memᴰ (reduce_all infinite start some_order) (start ∷ some_order)
    × Beats (λ x. x) (reduce_all infinite start some_order) (candidate 7 5)
reduce_all-Beats_example =
    reduce_all-Beats infinite (λ x. x) IsSmall small-infinite (λ x y p q. refl) start some_order
      all-IsSmall (candidate 7 5) (Memᴰ.tail (Memᴰ.head refl))

reduce_all_order_example :
    (split_index (reduce_all infinite start some_order)
      ≡ split_index (reduce_all infinite start other_order))
    × (ltb
          (reduce_all infinite start some_order).loss_chg
          (reduce_all infinite start other_order).loss_chg
        ≡ false)
    × (ltb
          (reduce_all infinite start other_order).loss_chg
          (reduce_all infinite start some_order).loss_chg
        ≡ false)
reduce_all_order_example =
    reduce_all_order infinite (λ x. x) IsSmall small-infinite (λ x y p q. refl) start some_order
      other_order all-IsSmall (swapped start (candidate 7 5) (candidate 7 3))
      (swapped start (candidate 7 3) (candidate 7 5))
