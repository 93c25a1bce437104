-- ===== src/Base64/Read.antt =====
-- Read of Base64InStream (src/common/base64.h) against the bytes that the stream still stands for.

use xgboost.Prelude.{
  ℕ, zero, suc, ◌-◌, ◌≤◌, ◌≡◌, refl, sym, ap, subst, true, false, List, [], ◌∷◌, ◌++◌, Option, some,
  take, drop, length, ◌==◌, leb, arith,
}
use xgboost.Prelude.Check.{◌>>=◌}
use xgboost.Base64.{StreamBufferReader, Base64InStream, Progress, units, take_prev, read}
use xgboost.Base64.Spec.{encode, Bytes}
use xgboost.Base64.In.{progress, At}
use xgboost.Base64.Rounds.{Ends, units-Decoded}

-- The stream still stands for the bytes `ys`, and its text is followed by `tail`.
pub record Pending (tail : List ℕ) (st : Base64InStream) (ys : List ℕ) : Type 0 where
  pub to_come : List ℕ
  pub whole : ys ≡ st.prev ++ to_come
  pub few : length st.prev ≤ 2
  pub at : At st.tmp_ch st.reader (encode to_come ++ tail)
  pub bytes : Bytes to_come

abbrev pub stream : StreamBufferReader → ℕ → List ℕ → Base64InStream
stream r t prev = record { reader = r; tmp_ch = t; prev = prev }

-- What Read makes of where the loop ends.
abbrev result : Progress → Option (List ℕ × Base64InStream)
result p = some (p.out, p.stream)

-- A Read that gives out `take n ys` and leaves the rest.
abbrev Reads : List ℕ → List ℕ → ℕ → Option (List ℕ × Base64InStream) → Type 0
Reads tail ys n result =
    (st' : Base64InStream) × (result ≡ some (take n ys, st')) × Pending tail st' (drop n ys)

module _ (tail : List ℕ) (ends : Ends tail) (r : StreamBufferReader) (t : ℕ) where
  -- Nothing of the text is needed.
  no_rounds :
      (prev zs : List ℕ)
      → length prev ≤ 2
      → At t r (encode zs ++ tail)
      → Bytes zs
      → Pending tail (stream r t prev) (prev ++ zs)
  no_rounds prev zs few at bytes = record {
    to_come = zs;
    whole = refl;
    few = few;
    at = at;
    bytes = bytes;
  }

  -- The loop, after the bytes `o`.
  rounds :
      (n : ℕ) (o zs : List ℕ)
      → Bytes zs
      → At t r (encode zs ++ tail)
      → (st' : Base64InStream) × ((units n (progress (o, n, []) r t) >>= result)
          ≡ some (o ++ take n zs, st'))
        × Pending tail st' (drop n zs)
  rounds n o zs bytes at =
      let d = units-Decoded tail ends n n o r t zs (omega arith) bytes at in
      (
        stream d.reader d.tmp_ch d.kept,
        ap (λ x. x >>= result) d.ran,
        record { to_come = d.to_come; whole = d.others; few = d.few; at = d.at; bytes = d.bytes },
      )

  read_parts :
      (n : ℕ) (prev zs : List ℕ)
      → length prev ≤ 2
      → Bytes zs
      → At t r (encode zs ++ tail)
      → Reads tail (prev ++ zs) n (read (stream r t prev) n)
  unfolding read take_prev
  read_parts zero prev zs few bytes at = (stream r t prev, refl, no_rounds prev zs few at bytes)
  read_parts (suc n) [] zs few bytes at =
      let more : (suc n == 0) ≡ false = ground arith in
      let (st', run, left) = rounds (suc n) [] zs bytes at in (st', rw (more, read) run, left)
  read_parts (suc zero) (x ∷ []) zs few bytes at =
      (stream r t [], refl, no_rounds [] zs (omega arith) at bytes)
  read_parts (suc (suc n)) (x ∷ []) zs few bytes at =
      let more : (suc (suc n) == 0) ≡ false = ground arith in
      let more' : (suc n == 0) ≡ false = ground arith in
      let less : suc (suc n) - 1 ≡ suc n = omega arith in
      let (st', run, left) = rounds (suc n) (x ∷ []) zs bytes at in
      (st', rw (more, less, more', read) run, left)
  read_parts (suc zero) (x ∷ y ∷ []) zs few bytes at =
      (stream r t (y ∷ []), refl, no_rounds (y ∷ []) zs (omega arith) at bytes)
  read_parts (suc (suc zero)) (x ∷ y ∷ []) zs few bytes at =
      (stream r t [], refl, no_rounds [] zs (omega arith) at bytes)
  read_parts (suc (suc (suc n))) (x ∷ y ∷ []) zs few bytes at =
      let more : (suc (suc (suc n)) == 0) ≡ false = ground arith in
      let more' : (suc n == 0) ≡ false = ground arith in
      let two : leb 2 (suc (suc (suc n))) ≡ true = ground arith in
      let less : suc (suc (suc n)) - 2 ≡ suc n = omega arith in
      let (st', run, left) = rounds (suc n) (x ∷ y ∷ []) zs bytes at in
      (st', rw (more, two, less, more', read) run, left)
  read_parts (suc n) (x ∷ y ∷ z ∷ prev) zs few bytes at = absurd (omega arith)

-- Read of `n` bytes from a stream that stands for the bytes `ys` gives out the first `n` of them, or
-- all if they are fewer, passes its checks and ends; afterwards the stream stands for the others.
pub read-Pending :
    (tail : List ℕ) (st : Base64InStream) (ys : List ℕ) (n : ℕ)
    → Ends tail
    → Pending tail st ys
    → (st' : Base64InStream) × (read st n ≡ some (take n ys, st')) × Pending tail st' (drop n ys)
read-Pending tail st ys n ends p =
    subst (λ xs. Reads tail xs n (read st n)) (sym p.whole)
      (read_parts tail ends st.reader st.tmp_ch n st.prev p.to_come p.few p.bytes p.at)
