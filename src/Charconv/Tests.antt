-- ===== src/Charconv/Tests.antt =====
-- Runs and instances for the integer printing of src/common/charconv.h.
use xgboost.Prelude.{ℕ, ◌≡◌, ◌^◌, List, replicate, arith}
use xgboost.Charconv.{to_chars, to_chars_size, ok}
use xgboost.Charconv.Digits.{Integer}
use xgboost.Charconv.Itoa.{text, to_chars-Integer}

abbrev buffer : List ℕ
buffer = replicate to_chars_size 0

-- The least int64_t.
to_chars-Integer_example :
    ((to_chars buffer (2 ^ 63)).ec ≡ ok) × Integer (2 ^ 63) (text (to_chars buffer (2 ^ 63)))
to_chars-Integer_example = to_chars-Integer buffer (2 ^ 63) (omega arith) (omega arith)
