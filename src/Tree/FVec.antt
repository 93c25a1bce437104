-- ===== src/Tree/FVec.antt =====
-- `RegTree::FVec` of include/xgboost/tree_model.h: the dense row that a tree is asked about, filled
-- from a sparse row and cleared again.
use xgboost.Prelude.{
  ℕ, ◌+◌, Bool, true, false, not, Option, none, some, List, [], ◌∷◌, ◌==◌, ltb, if◌then◌else◌,
  length, get_or, set, replicate,
}
use xgboost.Prelude.Check.{◌>>=◌}
use xgboost.Float.{Float}

-- `Entry` of include/xgboost/data.h: one present feature of a sparse row.
pub record Entry (F : Float) : Type 0 where
  pub index : ℕ
  pub fvalue : F.Carrier

pub record FVec (F : Float) : Type 0 where
  pub entries : List F.Carrier
  pub has_missing : Bool

-- `data_[i] = x`. A write out of range is undefined in the source: it is `none`.
unfoldable pub store : {A : Type 0} → List A → ℕ → A → Option (List A)
store v i x = if ltb i (length v) then some (set v i x) else none

module _ {F : Float} where
  -- Init of a vector that is empty.
  unfoldable pub init : ℕ → FVec F
  init size = record { entries = replicate size F.missing; has_missing = true }

  -- The loop of Fill: the entries and `feature_count`.
  unfoldable pub fill_from : List (Entry F) → List F.Carrier → ℕ → Option (List F.Carrier × ℕ)
  fill_from [] v count = some (v, count)
  fill_from (e ∷ es) v count = elim (ltb e.index (length v)) [
    | true ↦ store v e.index e.fvalue >>= λ w. fill_from es w (count + 1)
    | false ↦ fill_from es v count
  ]

  unfoldable pub fill : List (Entry F) → FVec F → Option (FVec F)
  fill inst v = fill_from inst v.entries 0 >>= λ (entries, feature_count).
      some (record { entries = entries; has_missing = not (length v.entries == feature_count) })

  unfoldable pub drop_from : List (Entry F) → List F.Carrier → Option (List F.Carrier)
  drop_from [] v = some v
  drop_from (e ∷ es) v = elim (ltb e.index (length v)) [
    | true ↦ store v e.index F.missing >>= λ w. drop_from es w
    | false ↦ drop_from es v
  ]

  -- Drop, which takes the row's entries out again.
  unfoldable pub drop_row : List (Entry F) → FVec F → Option (FVec F)
  drop_row inst v = drop_from inst v.entries >>= λ entries.
      some (record { entries = entries; has_missing = true })

  -- A read out of range is undefined in the source.
  unfoldable pub get_fvalue : FVec F → ℕ → F.Carrier
  get_fvalue v i = get_or v.entries i F.missing

  unfoldable pub is_missing : FVec F → ℕ → Bool
  unfolding get_fvalue
  is_missing v i = F.is_flag (get_fvalue v i)
