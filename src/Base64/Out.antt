-- ===== src/Base64/Out.antt =====
-- Base64OutStream (src/common/base64.h) writes the text of the bytes that it is given.
use mathlib.Core.List.{append_assoc, append-nil}
use xgboost.Prelude.{
  ℕ, ◌+◌, ◌*◌, ◌/◌, ◌%◌, ◌≤◌, ◌≡◌, refl, sym, ap, ◌∙◌, subst, List, [], ◌∷◌, ◌++◌, length, leb,
  ◌==◌, if◌then◌else◌, Bool-cases, inl, inr, arith,
}
use xgboost.Base64.{
  Base64OutStream, flush, put_char, flush_group, write, pad_group, finish, encode_char, pad, eof,
}
use xgboost.Base64.Spec.{encode}

-- A fresh stream.
abbrev pub empty : Base64OutStream
empty = record { written = []; out_buf = []; group = [] }

-- What has been put out, in the underlying stream and the buffer.
abbrev text : Base64OutStream → List ℕ
text st = st.written ++ st.out_buf

text-put_char : (ch : ℕ) (st : Base64OutStream) → text (put_char ch st) ≡ text st ++ (ch ∷ [])
unfolding put_char flush
text-put_char ch st = elim (Bool-cases (leb 256 (length (st.out_buf ++ (ch ∷ []))))) [
  | inl e ↦ rw (e) (
      append-nil (st.written ++ (st.out_buf ++ (ch ∷ [])))
      ∙ sym (append_assoc st.written st.out_buf (ch ∷ [])))
  | inr e ↦ rw (e) (sym (append_assoc st.written st.out_buf (ch ∷ [])))
]

text-put_four :
    (a b c d : ℕ) (st : Base64OutStream)
    → text (put_char d (put_char c (put_char b (put_char a st)))) ≡ text st ++ (a ∷ b ∷ c ∷ d ∷ [])
text-put_four a b c d st =
    text-put_char d (put_char c (put_char b (put_char a st)))
    ∙ ap (λ x. x ++ (d ∷ [])) (text-put_char c (put_char b (put_char a st)))
    ∙ ap (λ x. (x ++ (c ∷ [])) ++ (d ∷ [])) (text-put_char b (put_char a st))
    ∙ ap (λ x. ((x ++ (b ∷ [])) ++ (c ∷ [])) ++ (d ∷ [])) (text-put_char a st)
    ∙ append_assoc ((text st ++ (a ∷ [])) ++ (b ∷ [])) (c ∷ []) (d ∷ [])
    ∙ append_assoc (text st ++ (a ∷ [])) (b ∷ []) (c ∷ d ∷ [])
    ∙ append_assoc (text st) (a ∷ []) (b ∷ c ∷ d ∷ [])

-- The stream has been given the bytes `ys`: whole groups `done` are out, the others are kept.
record Given (st : Base64OutStream) (ys : List ℕ) : Type 0 where
  done : List ℕ
  whole : ys ≡ done ++ st.group
  few : length st.group ≤ 2
  out : text st ≡ encode done
  joins : (zs : List ℕ) → encode (done ++ zs) ≡ encode done ++ encode zs

empty-Given : Given empty []
unfolding encode
empty-Given = record { done = []; whole = refl; few = omega arith; out = refl; joins = λ zs. refl }

module _ (st : Base64OutStream) (ys : List ℕ) (g : Given st ys) where
  -- The byte `x` is kept.
  keep :
      (x : ℕ)
      → length (st.group ++ (x ∷ [])) ≤ 2
      → Given (record st { group = st.group ++ (x ∷ []) }) (ys ++ (x ∷ []))
  keep x fits = record {
    done = g.done;
    whole = ap (λ zs. zs ++ (x ∷ [])) g.whole ∙ append_assoc g.done st.group (x ∷ []);
    few = fits;
    out = g.out;
    joins = g.joins;
  }

  -- The byte `c` makes the group full.
  full :
      (a b c : ℕ)
      → st.group ≡ (a ∷ b ∷ [])
      → Given (flush_group st (a ∷ b ∷ c ∷ [])) (ys ++ (c ∷ []))
  unfolding flush_group encode
  full a b c e = record {
    done = g.done ++ (a ∷ b ∷ c ∷ []);
    whole =
        ap (λ zs. zs ++ (c ∷ [])) (g.whole ∙ ap (λ zs. g.done ++ zs) e)
        ∙ append_assoc g.done (a ∷ b ∷ []) (c ∷ [])
        ∙ sym (append-nil (g.done ++ (a ∷ b ∷ c ∷ [])));
    few = omega arith;
    out =
        text-put_four (encode_char (a / 4)) (encode_char ((a * 16 + b / 16) % 64))
          (encode_char ((b * 4 + c / 64) % 64)) (encode_char (c % 64)) st
        ∙ ap (λ x. x ++ encode (a ∷ b ∷ c ∷ [])) g.out
        ∙ sym (g.joins (a ∷ b ∷ c ∷ []));
    joins = λ zs.
        ap encode (append_assoc g.done (a ∷ b ∷ c ∷ []) zs)
        ∙ g.joins (a ∷ b ∷ c ∷ zs)
        ∙ sym (append_assoc (encode g.done) (encode (a ∷ b ∷ c ∷ [])) (encode zs))
        ∙ ap (λ x. x ++ encode zs) (sym (g.joins (a ∷ b ∷ c ∷ [])));
  }

write_one :
    (st : Base64OutStream) (group : List ℕ) (ys : List ℕ) (x : ℕ)
    → st.group ≡ group
    → Given st ys
    → Given (flush_group st (group ++ (x ∷ []))) (ys ++ (x ∷ []))
unfolding flush_group
write_one st [] ys x e g =
    let few : length (x ∷ []) ≤ 2 = omega arith in
    subst
      (λ zs.
        length (zs ++ (x ∷ [])) ≤ 2 → Given (record st { group = zs ++ (x ∷ []) }) (ys ++ (x ∷ [])))
      e (keep st ys g x) few
write_one st (a ∷ []) ys x e g =
    let few : length (a ∷ x ∷ []) ≤ 2 = omega arith in
    subst
      (λ zs.
        length (zs ++ (x ∷ [])) ≤ 2 → Given (record st { group = zs ++ (x ∷ []) }) (ys ++ (x ∷ [])))
      e (keep st ys g x) few
write_one st (a ∷ b ∷ []) ys x e g = full st ys g a b x e
write_one st (a ∷ b ∷ c ∷ group) ys x e g = let n = ap length e in absurd (omega (arith, n, g.few))

write-Given :
    (xs : List ℕ) (st : Base64OutStream) (ys : List ℕ)
    → Given st ys
    → Given (write xs st) (ys ++ xs)
unfolding write
write-Given [] st ys g = subst (Given st) (sym (append-nil ys)) g
write-Given (x ∷ xs) st ys g = subst (Given (write (x ∷ xs) st)) (append_assoc ys (x ∷ []) xs) (
    write-Given xs (flush_group st (st.group ++ (x ∷ []))) (ys ++ (x ∷ []))
      (write_one st st.group ys x refl g))

-- The end character, where there is one.
abbrev pub ending : ℕ → List ℕ
ending endch = if endch == eof then [] else (endch ∷ [])

text-pad_group :
    (st : Base64OutStream) (group : List ℕ)
    → length group ≤ 2
    → text (pad_group st group) ≡ text st ++ encode group
unfolding pad_group encode
text-pad_group st [] few = sym (append-nil (text st))
text-pad_group st (a ∷ []) few =
    text-put_four (encode_char (a / 4)) (encode_char (a * 16 % 64)) pad pad st
text-pad_group st (a ∷ b ∷ []) few =
    text-put_four (encode_char (a / 4)) (encode_char ((a * 16 + b / 16) % 64))
      (encode_char (b * 4 % 64)) pad st
text-pad_group st (a ∷ b ∷ c ∷ group) few = absurd (omega (arith, few))

finish-text :
    (endch : ℕ) (st : Base64OutStream)
    → (finish endch st).written ≡ text (pad_group st st.group) ++ ending endch
unfolding finish flush
finish-text endch st = elim (Bool-cases (endch == eof)) [
  | inl e ↦ rw (e) (sym (append-nil (text (pad_group st st.group))))
  | inr e ↦ rw (e) (text-put_char endch (record (pad_group st st.group) { group = [] }))
]

-- Writes of the bytes `ys` to a fresh stream and Finish give the underlying stream the text of `ys`
-- and the end character, unless that is EOF.
pub write-encode :
    (endch : ℕ) (ys : List ℕ) → (finish endch (write ys empty)).written ≡ encode ys ++ ending endch
unfolding encode
write-encode endch ys =
    let g = write-Given ys empty [] empty-Given in
    finish-text endch (write ys empty)
    ∙ ap (λ x. x ++ ending endch)
        (text-pad_group (write ys empty) (write ys empty).group g.few
          ∙ ap (λ x. x ++ encode (write ys empty).group) g.out
          ∙ sym (g.joins (write ys empty).group)
          ∙ ap encode (sym g.whole))
