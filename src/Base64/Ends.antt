-- ===== src/Base64/Ends.antt =====
-- InitPosition of Base64InStream (src/common/base64.h) ends on any stream.
use xgboost.Prelude.{
  ℕ, zero, suc, ◌<◌, ◌≡◌, refl, ◌∙◌, false, List, [], ◌∷◌, some, length, arith, Bool-cases, inl,
  inr,
}
use xgboost.Base64.{StreamBufferReader, set_stream, Base64InStream, init_position, is_space, eof}
use xgboost.Base64.Reader.{concat, Full, Shows, set_stream-Shows, get_char-cons, get_char-nil}
use xgboost.Base64.Read.{stream}
use xgboost.Base64.RoundTrip.{init-space, init-first}

eof_no_space : is_space eof ≡ false
unfolding is_space
eof_no_space = refl

init_position_ends :
    (fuel : ℕ) (r : StreamBufferReader) (t : ℕ) (xs : List ℕ)
    → Shows r xs
    → length xs < fuel
    → (st : Base64InStream) × (init_position fuel (stream r t []) ≡ some st)
      × (is_space st.tmp_ch ≡ false)
init_position_ends zero r t xs s h = absurd (omega arith)
init_position_ends (suc fuel) r t [] s h =
    let (r', run, s') = get_char-nil r s in
    (stream r' eof [], init-first t eof r r' run fuel eof_no_space, eof_no_space)
init_position_ends (suc fuel) r t (x ∷ xs) s h =
    let (r', run, s') = get_char-cons r s in
    elim (Bool-cases (is_space x)) [
      | inl e ↦
          let (st, run', last) = init_position_ends fuel r' x xs s' (omega arith) in
          (st, init-space t x r r' run fuel e ∙ run', last)
      | inr e ↦ (stream r' x [], init-first t x r r' run fuel e, e)
    ]

-- If no read of the underlying stream but the last returns nothing, then InitPosition on a fresh stream ends
-- after at most one turn more than there are characters, whatever they are, at one that is no space.
pub init_position_terminates :
    (fuel t : ℕ) (chunks : List (List ℕ))
    → Full chunks
    → length (concat chunks) < fuel
    → (st : Base64InStream) × (init_position fuel (stream (set_stream chunks) t []) ≡ some st)
      × (is_space st.tmp_ch ≡ false)
init_position_terminates fuel t chunks full h =
    init_position_ends fuel (set_stream chunks) t (concat chunks) (set_stream-Shows chunks full) h
