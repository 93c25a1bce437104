-- ===== src/SplitEntry.antt =====
-- SplitEntryContainer of src/tree/param.h: the best split found so far, and its update by candidates.
pub mod Best
mod Tests
use xgboost.Prelude.{
  ℕ, ◌/◌, ◌%◌, ◌^◌, Bool, true, false, not, List, [], ◌∷◌, ◌==◌, leb, if◌then◌else◌,
}
use xgboost.Float.{Float}
use xgboost.Tree.Node.{set_high_bit}

-- `sindex` is a 32-bit pattern, whose bit 31 sends missing values to the left. `Stats` is GradientT.
pub record SplitEntryContainer (F : Float) (Stats : Type 0) : Type 0 where
  pub loss_chg : F.Carrier
  pub sindex : ℕ
  pub split_value : F.Carrier
  pub left_sum : Stats
  pub right_sum : Stats

module _ {F : Float} {Stats : Type 0} where
  unfoldable pub split_index : SplitEntryContainer F Stats → ℕ
  split_index e = e.sindex % 2 ^ 31

  unfoldable pub default_left : SplitEntryContainer F Stats → Bool
  default_left e = not (e.sindex / 2 ^ 31 == 0)

  -- `is_inf` is std::isinf.
  unfoldable pub need_replace :
      (F.Carrier → Bool) → SplitEntryContainer F Stats → F.Carrier → ℕ → Bool
  need_replace is_inf e new_loss_chg index =
      if is_inf new_loss_chg
      then false
      else if leb (split_index e) index
      then F.lt e.loss_chg new_loss_chg
      else not (F.lt new_loss_chg e.loss_chg)

  -- Update with another entry: the entry, and whether it was replaced.
  unfoldable pub update :
      (F.Carrier → Bool)
      → SplitEntryContainer F Stats
      → SplitEntryContainer F Stats
      → SplitEntryContainer F Stats × Bool
  update is_inf this e =
      if need_replace is_inf this e.loss_chg (split_index e)
      then (
        record {
          loss_chg = e.loss_chg;
          sindex = e.sindex;
          split_value = e.split_value;
          left_sum = e.left_sum;
          right_sum = e.right_sum;
        },
        true,
      )
      else (this, false)

  -- Update with the parts of a candidate.
  unfoldable pub update_with :
      (F.Carrier → Bool)
      → SplitEntryContainer F Stats
      → F.Carrier
      → ℕ
      → F.Carrier
      → Bool
      → Stats
      → Stats
      → SplitEntryContainer F Stats × Bool
  update_with is_inf this new_loss_chg index new_split_value to_left left_sum right_sum =
      if need_replace is_inf this new_loss_chg index
      then (
        record {
          loss_chg = new_loss_chg;
          sindex = if to_left then set_high_bit index else index;
          split_value = new_split_value;
          left_sum = left_sum;
          right_sum = right_sum;
        },
        true,
      )
      else (this, false)

  -- Reduce, over the entries of all workers in turn.
  unfoldable pub reduce_all :
      (F.Carrier → Bool)
      → SplitEntryContainer F Stats
      → List (SplitEntryContainer F Stats)
      → SplitEntryContainer F Stats
  reduce_all is_inf dst [] = dst
  reduce_all is_inf dst (e ∷ es) = reduce_all is_inf (update is_inf dst e).0 es
