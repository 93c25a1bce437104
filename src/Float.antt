-- ===== src/Float.antt =====
-- `bst_float` and the operations on it that the models use. The hardware's floats are a parameter of
-- the development.
use xgboost.Prelude.{ℕ, ◌≡◌, Bool, true}

-- `missing` is the value whose bit pattern is the flag -1 of `RegTree::FVec::Entry`, and `is_flag`
-- reads the union by its flag.
pub record Float : Type 1 where
  pub Carrier : Type 0
  pub zero : Carrier
  pub nan : Carrier
  pub missing : Carrier
  pub lt : Carrier → Carrier → Bool
  pub mul : Carrier → Carrier → Carrier
  pub div_count : Carrier → ℕ → Carrier
  pub is_flag : Carrier → Bool
  pub is_flag-missing : is_flag missing ≡ true
