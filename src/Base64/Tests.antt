-- ===== src/Base64/Tests.antt =====
-- Runs and instances for the base64 streams (src/common/base64.h).
use xgboost.Prelude.{ℕ, List, ◌≡◌, refl, [], ◌∷◌, ◌++◌, some, take, arith}
use xgboost.Base64.{
  flush, flush_group, pad_group, put_char, write, finish, encode_char, is_space, is_end, read,
  set_stream, Progress, units,
}
use xgboost.Base64.Bounds.{OnSome, Bounded, read-Bounded}
use xgboost.Base64.Fuel.{units_terminate}
use xgboost.Base64.Alphabet.{base64, write-base64}
use xgboost.Base64.Reader.{concat}
use xgboost.Base64.Read.{stream}
use xgboost.Base64.Out.{empty, ending}
use xgboost.Base64.RoundTrip.{decode, decode-write, sum}

-- "Man" and a space is "TWFu ".
man : (finish 32 (write (77 ∷ 97 ∷ 110 ∷ []) empty)).written ≡ (84 ∷ 87 ∷ 70 ∷ 117 ∷ 32 ∷ [])
unfolding finish write flush put_char pad_group flush_group encode_char
man = refl

write-base64_example :
    (finish 255 (write (77 ∷ 97 ∷ []) empty)).written ≡ base64 (77 ∷ 97 ∷ []) ++ ending 255
write-base64_example = write-base64 255 (77 ∷ 97 ∷ []) (omega arith, (omega arith, tt))

decode-write_example :
    decode 3 ((32 ∷ 84 ∷ 87 ∷ []) ∷ (69 ∷ 61 ∷ 10 ∷ []) ∷ []) (1 ∷ 5 ∷ [])
    ≡ some (take 6 (77 ∷ 97 ∷ []))
unfolding is_space is_end finish write flush put_char pad_group flush_group encode_char concat sum
decode-write_example =
    decode-write 3 10 77 (32 ∷ []) (97 ∷ []) ((32 ∷ 84 ∷ 87 ∷ []) ∷ (69 ∷ 61 ∷ 10 ∷ []) ∷ [])
      (1 ∷ 5 ∷ []) (omega arith) (refl, tt) refl (omega arith, (omega arith, tt))
      (omega arith, (omega arith, tt)) refl

-- A stream that ends within a unit.
abbrev test_chunks : List (List ℕ)
test_chunks = (32 ∷ 84 ∷ []) ∷ (87 ∷ []) ∷ []

read-Bounded_example : OnSome (Bounded 2) (read (stream (set_stream test_chunks) 84 (77 ∷ [])) 2)
read-Bounded_example = read-Bounded (stream (set_stream test_chunks) 84 (77 ∷ [])) 2 (omega arith)

abbrev test_progress : Progress
test_progress = record { out = 77 ∷ []; tlen = 2; stream = stream (set_stream test_chunks) 84 [] }

units_terminate_example : units 2 test_progress ≡ units 7 test_progress
units_terminate_example = units_terminate test_progress 5 (omega arith) (λ h. refl)
