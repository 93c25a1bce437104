-- ===== src/Base64/RoundTrip.antt =====
-- What Base64OutStream has written, Base64InStream reads back (src/common/base64.h).

use xgboost.Prelude.{
  take_add, ℕ, zero, suc, ◌+◌, ◌/◌, ◌<◌, ◌≡◌, refl, sym, ap, ◌∙◌, subst, true, false, List, [], ◌∷◌,
  ◌++◌, Option, some, take, drop, length, ◌==◌, arith, Bool-cases, inl, inr, if◌then◌else◌,
}
use xgboost.Prelude.Check.{◌>>=◌}
use xgboost.Base64.{
  StreamBufferReader, set_stream, get_char, Base64InStream, next, init_position, read, write,
  finish, encode_char, is_end, is_space, eof,
}
use xgboost.Base64.Spec.{encode, Bytes, is_end-encode_char}
use xgboost.Base64.Reader.{concat, Full, Shows, set_stream-Shows, get_char-cons}
use xgboost.Base64.In.{At}
use xgboost.Base64.Rounds.{Ends}
use xgboost.Base64.Read.{Pending, stream, read-Pending}
use xgboost.Base64.Out.{empty, ending, write-encode}

-- Reads of the given sizes, one after the other.
unfoldable pub read_all : List ℕ → Base64InStream → Option (List ℕ)
read_all [] st = some []
read_all (n ∷ sizes) st = do (now, st') ← read st n; later ← read_all sizes st'; some (now ++ later)

unfoldable pub sum : List ℕ → ℕ
sum [] = 0
sum (n ∷ ns) = n + sum ns

pub read_all-Pending :
    (tail : List ℕ) (sizes : List ℕ) (st : Base64InStream) (ys : List ℕ)
    → Ends tail
    → Pending tail st ys
    → read_all sizes st ≡ some (take (sum sizes) ys)
unfolding read_all sum
read_all-Pending tail [] st ys ends p = refl
read_all-Pending tail (n ∷ sizes) st ys ends p =
    let (st', run, p') = read-Pending tail st ys n ends p in
    let later = read_all-Pending tail sizes st' (drop n ys) ends p' in
    rw (run, later) (ap some (take_add n (sum sizes) ys))

-- The text of some bytes starts with a character of the table.
encode-first :
    (y : ℕ) (ys : List ℕ) → encode (y ∷ ys) ≡ (encode_char (y / 4) ∷ drop 1 (encode (y ∷ ys)))
unfolding encode
encode-first y [] = refl
encode-first y (a ∷ []) = refl
encode-first y (a ∷ b ∷ ys) = refl

encode_char-not_space : (v : ℕ) → v < 64 → is_space (encode_char v) ≡ false
unfolding is_end
encode_char-not_space v h = ground (arith, is_end-encode_char v h)

abbrev pub Spaces : List ℕ → Type 0
Spaces [] = Unit
Spaces (c ∷ cs) = (is_space c ≡ true) × Spaces cs

module _ (t c : ℕ) (r r' : StreamBufferReader) (run : get_char r ≡ (c, r')) where
  next-run : next (stream r t []) ≡ stream r' c []
  unfolding next
  next-run = λ k. stream (run k).1 (run k).0 []

  pub init-space :
      (fuel : ℕ)
      → is_space c ≡ true
      → init_position (suc fuel) (stream r t []) ≡ init_position fuel (stream r' c [])
  unfolding init_position
  init-space fuel e =
      ap (λ s. elim (is_space s.tmp_ch) [ true ↦ init_position fuel s | false ↦ some s ]) next-run
      ∙ rw (e) refl

  pub init-first :
      (fuel : ℕ)
      → is_space c ≡ false
      → init_position (suc fuel) (stream r t []) ≡ some (stream r' c [])
  unfolding init_position
  init-first fuel e =
      ap (λ s. elim (is_space s.tmp_ch) [ true ↦ init_position fuel s | false ↦ some s ]) next-run
      ∙ rw (e) refl

-- InitPosition skips the spaces and stops at the text.
init_position-Pending :
    (fuel : ℕ) (before tail : List ℕ) (r : StreamBufferReader) (t y : ℕ) (ys : List ℕ)
    → length before < fuel
    → Spaces before
    → Bytes (y ∷ ys)
    → Shows r (before ++ (encode (y ∷ ys) ++ tail))
    → (st : Base64InStream) × (init_position fuel (stream r t []) ≡ some st)
      × Pending tail st (y ∷ ys)
init_position-Pending zero before tail r t y ys h spaces bytes s = absurd (omega arith)
init_position-Pending (suc fuel) [] tail r t y ys h spaces bytes s =
    let first = ap (λ cs. cs ++ tail) (encode-first y ys) in
    let (r', run, s') = get_char-cons r (subst (Shows r) first s) in
    let no_space = encode_char-not_space (y / 4) (omega (arith, bytes.0)) in
    (
      stream r' (encode_char (y / 4)) [],
      init-first t (encode_char (y / 4)) r r' run fuel no_space,
      record {
        to_come = y ∷ ys;
        whole = refl;
        few = omega arith;
        at = subst (At (encode_char (y / 4)) r') (sym first) (refl, s');
        bytes = bytes;
      },
    )
init_position-Pending (suc fuel) (c ∷ before) tail r t y ys h spaces bytes s =
    let (r', run, s') = get_char-cons r s in
    let (st, run', p) =
      init_position-Pending fuel before tail r' c y ys (omega arith) spaces.1 bytes s' in
    (st, init-space t c r r' run fuel spaces.0 ∙ run', p)

ending-Ends : (endch : ℕ) → is_end endch ≡ true → Ends (ending endch)
ending-Ends endch e = elim (Bool-cases (endch == eof)) [
  | inl h ↦ subst (λ b. Ends (if b then [] else (endch ∷ []))) (sym h) tt
  | inr h ↦ subst (λ b. Ends (if b then [] else (endch ∷ []))) (sym h) e
]

-- What InitPosition with `fuel` turns and reads of the given sizes return on a fresh stream.
unfoldable pub decode : ℕ → List (List ℕ) → List ℕ → Option (List ℕ)
decode fuel chunks sizes = init_position fuel (stream (set_stream chunks) 0 []) >>= read_all sizes

-- If the chunks that the underlying stream hands out make up spaces and then what Write of the bytes
-- `y ∷ ys` and Finish with a space or EOF have written, and none of them is empty, then InitPosition
-- ends (with fuel for one turn more than there are spaces) and the reads of the given sizes return the
-- first `sum sizes` bytes, or all if they are fewer, however the chunks and the sizes divide the text.
pub decode-write :
    (fuel endch y : ℕ) (before ys : List ℕ) (chunks : List (List ℕ)) (sizes : List ℕ)
    → length before < fuel
    → Spaces before
    → is_end endch ≡ true
    → Bytes (y ∷ ys)
    → Full chunks
    → concat chunks ≡ before ++ (finish endch (write (y ∷ ys) empty)).written
    → decode fuel chunks sizes ≡ some (take (sum sizes) (y ∷ ys))
unfolding decode
decode-write fuel endch y before ys chunks sizes h spaces ends bytes full e =
    let text = e ∙ ap (λ cs. before ++ cs) (write-encode endch (y ∷ ys)) in
    let shows = subst (Shows (set_stream chunks)) text (set_stream-Shows chunks full) in
    let (st, run, p) =
      init_position-Pending fuel before (ending endch) (set_stream chunks) 0 y ys h spaces bytes
        shows in
    ap (λ o. o >>= read_all sizes) run
    ∙ read_all-Pending (ending endch) sizes st (y ∷ ys) (ending-Ends endch ends) p
