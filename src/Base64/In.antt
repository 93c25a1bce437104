-- ===== src/Base64/In.antt =====
-- Rounds of Base64InStream's Read (src/common/base64.h) on the text of a list of bytes.
use mathlib.Core.List.{append_assoc}
use xgboost.Prelude.{
  take_nil, drop_nil, ℕ, zero, suc, ◌+◌, ◌-◌, ◌*◌, ◌/◌, ◌%◌, ◌^◌, ◌<◌, ◌≡◌, refl, sym, ap, ◌∙◌,
  true, false, List, [], ◌∷◌, ◌++◌, some, take, drop, ◌==◌, if◌then◌else◌, arith, Bool-cases, inl,
  inr,
}
use xgboost.Prelude.Check.{◌>>=◌, ◌>>◌, check}
use xgboost.Base64.{
  StreamBufferReader, get_char, next, Progress, put, advance, advance_inside, advance_end, fourth,
  third, unit, encode_char, is_end, is_space, pad, eof,
}
use xgboost.Base64.Spec.{decode-encode_char, is_end-encode_char, encode_char-not_pad}
use xgboost.Base64.Reader.{Shows, get_char-cons, get_char-nil}

-- Read's progress in its parts: `w` is what has been given out, what is wanted, what is kept back.
abbrev pub progress : List ℕ × ℕ × List ℕ → StreamBufferReader → ℕ → Progress
progress w r t = record {
  out = w.0;
  tlen = w.1;
  stream = record { reader = r; tmp_ch = t; prev = w.2 };
}

unfoldable pub push : ℕ → List ℕ × ℕ × List ℕ → List ℕ × ℕ × List ℕ
push b w = if w.1 == 0 then (w.0, w.1, w.2 ++ (b ∷ [])) else (w.0 ++ (b ∷ []), w.1 - 1, w.2)

put-push :
    (b : ℕ) (w : List ℕ × ℕ × List ℕ) (r : StreamBufferReader) (t : ℕ)
    → put b (progress w r t) ≡ progress (push b w) r t
unfolding put push
put-push b w r t = elim (Bool-cases (w.1 == 0)) [ inl e ↦ rw (e) refl | inr e ↦ rw (e) refl ]

-- The character `t` is at hand, and the reader shows the others of `cs`.
abbrev pub At : ℕ → StreamBufferReader → List ℕ → Type 0
At t r [] = (t ≡ eof) × Shows r []
At t r (c ∷ cs) = (t ≡ c) × Shows r cs

pub get_char-At :
    (r : StreamBufferReader) (cs : List ℕ)
    → Shows r cs
    → (t : ℕ) × (r' : StreamBufferReader) × (get_char r ≡ (t, r')) × At t r' cs
get_char-At r [] s = let (r', run, s') = get_char-nil r s in (eof, r', run, (refl, s'))
get_char-At r (c ∷ cs) s = let (r', run, s') = get_char-cons r s in (c, r', run, (refl, s'))

module _ (w : List ℕ × ℕ × List ℕ) (r r' : StreamBufferReader) (t c : ℕ)
    (run : get_char r ≡ (c, r')) where
  advance-run : advance (progress w r t) ≡ progress w r' c
  unfolding next
  advance-run = λ k. progress w (run k).1 (run k).0

  advance_inside-run : is_end c ≡ false → advance_inside (progress w r t) ≡ some (progress w r' c)
  unfolding advance_inside next
  advance_inside-run inside = rw (run, inside) refl

  advance_end-run : is_end c ≡ true → advance_end (progress w r t) ≡ some (progress w r' c)
  unfolding advance_end next
  advance_end-run ends = rw (run, ends) refl

pad_inside : is_end pad ≡ false
unfolding is_end is_space
pad_inside = refl

-- The three bytes that four characters stand for.
abbrev pub byte1 : ℕ → ℕ → ℕ
byte1 u v = (u * 2 ^ 18 + v * 2 ^ 12) / 2 ^ 16 % 256

abbrev pub byte2 : ℕ → ℕ → ℕ → ℕ
byte2 u v x = (u * 2 ^ 18 + v * 2 ^ 12 + x * 2 ^ 6) / 2 ^ 8 % 256

abbrev pub byte3 : ℕ → ℕ → ℕ → ℕ → ℕ
byte3 u v x y = (u * 2 ^ 18 + v * 2 ^ 12 + x * 2 ^ 6 + y) % 256

module _ (w : List ℕ × ℕ × List ℕ) (r : StreamBufferReader) (u v : ℕ) (u_ok : u < 64)
    (v_ok : v < 64) where
  -- After the second character.
  pub unit-second :
      (cs : List ℕ)
      → Shows r (encode_char v ∷ cs)
      → (r' : StreamBufferReader) × Shows r' cs
        × (unit (progress w r (encode_char u))
            ≡ third (u * 2 ^ 18 + v * 2 ^ 12) (progress (push (byte1 u v) w) r' (encode_char v)))
  unfolding unit
  unit-second cs s =
      let (r', run, s') = get_char-cons r s in
      (
        r',
        s',
        rw
            (
              advance_inside-run w r r' (encode_char u) (encode_char v) run
                  (is_end-encode_char v v_ok),
              decode-encode_char u u_ok,
              decode-encode_char v v_ok,
            )
            (ap (third (u * 2 ^ 18 + v * 2 ^ 12)) (put-push (byte1 u v) w r' (encode_char v))),
      )

module _ (w : List ℕ × ℕ × List ℕ) (r : StreamBufferReader) (n t : ℕ) where
  pub third-inside :
      (x : ℕ) (cs : List ℕ)
      → x < 64
      → Shows r (encode_char x ∷ cs)
      → (r' : StreamBufferReader) × Shows r' cs
        × (third n (progress w r t)
            ≡ fourth
                (n + x * 2 ^ 6)
                (progress (push ((n + x * 2 ^ 6) / 2 ^ 8 % 256) w) r' (encode_char x)))
  unfolding third
  third-inside x cs x_ok s =
      let (r', run, s') = get_char-cons r s in
      (
        r',
        s',
        rw
            (
              advance_inside-run w r r' t (encode_char x) run (is_end-encode_char x x_ok),
              encode_char-not_pad x x_ok,
              decode-encode_char x x_ok,
            )
            (ap (fourth (n + x * 2 ^ 6))
              (put-push ((n + x * 2 ^ 6) / 2 ^ 8 % 256) w r' (encode_char x))),
      )

  pub fourth-inside :
      (y : ℕ) (cs : List ℕ)
      → y < 64
      → Shows r (encode_char y ∷ cs)
      → (t' : ℕ) × (r' : StreamBufferReader) × At t' r' cs
        × (fourth n (progress w r t) ≡ some (progress (push ((n + y) % 256) w) r' t', true))
  unfolding fourth
  fourth-inside y cs y_ok s =
      let (r1, run1, s1) = get_char-cons r s in
      let (t', r2, run2, at) = get_char-At r1 cs s1 in
      (
        t',
        r2,
        at,
        rw
            (
              advance_inside-run w r r1 t (encode_char y) run1 (is_end-encode_char y y_ok),
              encode_char-not_pad y y_ok,
              decode-encode_char y y_ok,
            )
            (ap (λ p. some (advance p, true)) (put-push ((n + y) % 256) w r1 (encode_char y))
              ∙ ap (λ p. some (p, true))
                  (advance-run (push ((n + y) % 256) w) r1 r2 (encode_char y) t' run2)),
      )

  -- At the padding, with an end behind it.
  pub fourth-pad :
      (cs : List ℕ)
      → Shows r (pad ∷ cs)
      → ((t' : ℕ) (r' : StreamBufferReader) → At t' r' cs → is_end t' ≡ true)
      → (t' : ℕ) × (r' : StreamBufferReader) × At t' r' cs
        × (fourth n (progress w r t) ≡ some (progress w r' t', false))
  unfolding fourth
  fourth-pad cs s ends =
      let (r1, run1, s1) = get_char-cons r s in
      let (t', r2, run2, at) = get_char-At r1 cs s1 in
      (
        t',
        r2,
        at,
        rw (advance_inside-run w r r1 t pad run1 pad_inside)
            (rw (advance_end-run w r1 r2 pad t' run2 (ends t' r2 at)) refl),
      )

  pub third-pad :
      (cs : List ℕ)
      → Shows r (pad ∷ pad ∷ cs)
      → ((t' : ℕ) (r' : StreamBufferReader) → At t' r' cs → is_end t' ≡ true)
      → (t' : ℕ) × (r' : StreamBufferReader) × At t' r' cs
        × (third n (progress w r t) ≡ some (progress w r' t', false))
  unfolding third
  third-pad cs s ends =
      let (r1, run1, s1) = get_char-cons r s in
      let (r2, run2, s2) = get_char-cons r1 s1 in
      let (t', r3, run3, at) = get_char-At r2 cs s2 in
      (
        t',
        r3,
        at,
        rw (advance_inside-run w r r1 t pad run1 pad_inside) (
            ap (λ q. check (q.stream.tmp_ch == pad) >> (advance_end q >>= λ p2. some (p2, false)))
              (advance-run w r1 r2 pad pad run2)
            ∙ rw (advance_end-run w r2 r3 pad t' run3 (ends t' r3 at)) refl),
      )

pub push_wanted : (b n : ℕ) (o kept : List ℕ) → push b (o, suc n, kept) ≡ (o ++ (b ∷ []), n, kept)
unfolding push
push_wanted b n o kept =
    let more : (suc n == 0) ≡ false = ground arith in
    let less : suc n - 1 ≡ n = omega arith in rw (more, less) refl

push_kept : (b : ℕ) (o kept : List ℕ) → push b (o, 0, kept) ≡ (o, 0, kept ++ (b ∷ []))
unfolding push
push_kept b o kept = refl

-- What three bytes leave.
pub push-three :
    (a b c n : ℕ) (o : List ℕ)
    → push c (push b (push a (o, suc n, [])))
      ≡ (o ++ take (suc n) (a ∷ b ∷ c ∷ []), suc n - 3, drop (suc n) (a ∷ b ∷ c ∷ []))
push-three a b c zero o =
    ap (λ w. push c (push b w)) (push_wanted a 0 o [])
    ∙ ap (push c) (push_kept b (o ++ (a ∷ [])) [])
    ∙ push_kept c (o ++ (a ∷ [])) (b ∷ [])
push-three a b c (suc zero) o =
    ap (λ w. push c (push b w)) (push_wanted a 1 o [])
    ∙ ap (push c) (push_wanted b 0 (o ++ (a ∷ [])) [])
    ∙ push_kept c ((o ++ (a ∷ [])) ++ (b ∷ [])) []
    ∙ ap (λ x. (x, 0, c ∷ [])) (append_assoc o (a ∷ []) (b ∷ []))
push-three a b c (suc (suc n)) o =
    let rest : n ≡ suc (suc (suc n)) - 3 = omega arith in
    ap (λ w. push c (push b w)) (push_wanted a (suc (suc n)) o [])
    ∙ ap (push c) (push_wanted b (suc n) (o ++ (a ∷ [])) [])
    ∙ push_wanted c n ((o ++ (a ∷ [])) ++ (b ∷ [])) []
    ∙ (λ k. (
      (append_assoc (o ++ (a ∷ [])) (b ∷ []) (c ∷ []) ∙ append_assoc o (a ∷ []) (b ∷ c ∷ [])) k,
      rest k,
      sym (drop_nil n) k,
    ))
    ∙ (λ k. (o ++ (a ∷ b ∷ c ∷ sym (take_nil n) k), suc (suc (suc n)) - 3, drop {A = ℕ} n []))

pub push-two :
    (a b n : ℕ) (o : List ℕ)
    → push b (push a (o, suc n, []))
      ≡ (o ++ take (suc n) (a ∷ b ∷ []), suc n - 2, drop (suc n) (a ∷ b ∷ []))
push-two a b zero o = ap (push b) (push_wanted a 0 o []) ∙ push_kept b (o ++ (a ∷ [])) []
push-two a b (suc n) o =
    let rest : n ≡ suc (suc n) - 2 = omega arith in
    ap (push b) (push_wanted a (suc n) o [])
    ∙ push_wanted b n (o ++ (a ∷ [])) []
    ∙ (λ k. (append_assoc o (a ∷ []) (b ∷ []) k, rest k, sym (drop_nil n) k))
    ∙ (λ k. (o ++ (a ∷ b ∷ sym (take_nil n) k), suc (suc n) - 2, drop {A = ℕ} n []))

pub push-one :
    (a n : ℕ) (o : List ℕ)
    → push a (o, suc n, []) ≡ (o ++ take (suc n) (a ∷ []), suc n - 1, drop (suc n) (a ∷ []))
push-one a n o =
    let rest : n ≡ suc n - 1 = omega arith in
    push_wanted a n o [] ∙ (λ k. (o ++ (a ∷ sym (take_nil n) k), rest k, sym (drop_nil n) k))
