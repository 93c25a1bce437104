-- ===== src/Base64/Rounds.antt =====
-- The loop of Base64InStream's Read (src/common/base64.h) against the bytes whose text the stream holds.
use mathlib.Core.List.{append_assoc, append-nil}
use xgboost.Prelude.{
  take_nil, drop_nil, ℕ, zero, suc, ◌+◌, ◌-◌, ◌*◌, ◌/◌, ◌%◌, ◌^◌, ◌≤◌, ◌<◌, ◌≡◌, refl, sym, ap, ◌∙◌,
  Bool, true, false, not, List, [], ◌∷◌, ◌++◌, Option, some, take, drop, length, ◌==◌, arith,
  Bool-cases, length-drop, inl, inr,
}
use xgboost.Prelude.Check.{◌>>=◌}
use xgboost.Base64.{StreamBufferReader, Progress, unit, units, encode_char, is_end, pad}
use xgboost.Base64.Spec.{encode, Bytes, is_end-encode_char}
use xgboost.Base64.In.{
  progress, push, At, byte1, byte2, byte3, unit-second, third-inside, fourth-inside, fourth-pad,
  third-pad, push-one, push-two, push-three,
}

-- A base64 text is followed by the end of the stream or by an end character.
abbrev pub Ends : List ℕ → Type 0
Ends [] = Unit
Ends (c ∷ cs) = is_end c ≡ true

At-end :
    (t : ℕ) (r : StreamBufferReader) (tail : List ℕ) → Ends tail → At t r tail → is_end t ≡ true
unfolding is_end
At-end t r [] e at = rw (at.0) refl
At-end t r (c ∷ cs) e at = rw (at.0) e

-- What a round leads to.
abbrev go_on : ℕ → Progress × Bool → Option Progress
go_on fuel (p', more) = elim more [ true ↦ units fuel p' | false ↦ some p' ]

units-end : (fuel : ℕ) (p : Progress) → is_end p.stream.tmp_ch ≡ true → units fuel p ≡ some p
unfolding units
units-end zero p e = refl
units-end (suc fuel) p e = elim (Bool-cases (not (p.tlen == 0))) [
  | inl m ↦ rw (m, e, units) refl
  | inr m ↦ rw (m, units) refl
]

units-done : (fuel : ℕ) (p : Progress) → p.tlen ≡ 0 → units fuel p ≡ some p
unfolding units
units-done zero p e = refl
units-done (suc fuel) p e = rw (e) refl

units_step :
    (fuel n t : ℕ) (o kept : List ℕ) (r : StreamBufferReader) (u : ℕ)
    → u < 64
    → t ≡ encode_char u
    → units (suc fuel) (progress (o, suc n, kept) r t)
      ≡ (unit (progress (o, suc n, kept) r (encode_char u)) >>= go_on fuel)
unfolding units
units_step fuel n t o kept r u u_ok e =
    let more : (suc n == 0) ≡ false = ground arith in
    ap (λ x. units (suc fuel) (progress (o, suc n, kept) r x)) e
    ∙ rw (more, is_end-encode_char u u_ok, units) refl

module _ {a b c : ℕ} (a_ok : a < 256) (b_ok : b < 256) (c_ok : c < 256) where
  byte1_eq : byte1 (a / 4) ((a * 16 + b / 16) % 64) ≡ a
  byte1_eq = omega arith

  byte1_last : byte1 (a / 4) (a * 16 % 64) ≡ a
  byte1_last = omega arith

  byte2_eq : byte2 (a / 4) ((a * 16 + b / 16) % 64) ((b * 4 + c / 64) % 64) ≡ b
  byte2_eq = omega arith

  byte2_last : byte2 (a / 4) ((a * 16 + b / 16) % 64) (b * 4 % 64) ≡ b
  byte2_last = omega arith

  byte3_eq : byte3 (a / 4) ((a * 16 + b / 16) % 64) ((b * 4 + c / 64) % 64) (c % 64) ≡ c
  byte3_eq = omega arith

-- Where the rounds end: `n` of the bytes `zs` have been given out, after `o`.
pub record Decoded (tail o : List ℕ) (n : ℕ) (zs : List ℕ) (result : Option Progress) : Type 0 where
  pub kept : List ℕ
  pub left : ℕ
  pub to_come : List ℕ
  pub reader : StreamBufferReader
  pub tmp_ch : ℕ
  pub ran : result ≡ some (progress (o ++ take n zs, left, kept) reader tmp_ch)
  pub few : length kept ≤ 2
  pub others : drop n zs ≡ kept ++ to_come
  pub at : At tmp_ch reader (encode to_come ++ tail)
  pub bytes : Bytes to_come

module _ (tail : List ℕ) (ends : Ends tail) where
  -- A text that is used up.
  text_used_up :
      (fuel n : ℕ) (o : List ℕ) (r : StreamBufferReader) (t : ℕ)
      → At t r tail
      → Decoded tail o (suc n) [] (units fuel (progress (o, suc n, []) r t))
  unfolding encode
  text_used_up fuel n o r t at = record {
    kept = [];
    few = omega arith;
    left = suc n;
    to_come = [];
    reader = r;
    tmp_ch = t;
    ran =
        units-end fuel (progress (o, suc n, []) r t) (At-end t r tail ends at)
        ∙ ap (λ x. some (progress (x, suc n, []) r t)) (sym (append-nil o));
    others = refl;
    at = at;
    bytes = tt;
  }

  module _ (fuel n : ℕ) (o : List ℕ) (r : StreamBufferReader) (t a : ℕ) (a_ok : a < 256) where
    one_left :
        At t r (encode (a ∷ []) ++ tail)
        → Decoded tail o (suc n) (a ∷ []) (units (suc fuel) (progress (o, suc n, []) r t))
    unfolding encode
    one_left (t_eq, s) =
        let w : List ℕ × ℕ × List ℕ = (o, suc n, []) in
        let (r1, s1, run1) =
          unit-second w r (a / 4) (a * 16 % 64) (omega arith) (omega arith) (pad ∷ pad ∷ tail) s in
        let nv = a / 4 * 2 ^ 18 + a * 16 % 64 * 2 ^ 12 in
        let (t', r', at, run2) =
          third-pad (push (byte1 (a / 4) (a * 16 % 64)) w) r1 nv (encode_char (a * 16 % 64)) tail s1
            (λ x y. At-end x y tail ends) in
        record {
          kept = drop (suc n) (a ∷ []);
          few = omega (arith, length-drop (suc n) (a ∷ []));
          left = suc n - 1;
          to_come = [];
          reader = r';
          tmp_ch = t';
          ran =
              units_step fuel n t o [] r (a / 4) (omega arith) t_eq
              ∙ ap (λ x. x >>= go_on fuel) (run1 ∙ run2)
              ∙ ap (λ x. some (progress (push x w) r' t')) (byte1_last a_ok a_ok a_ok)
              ∙ ap (λ x. some (progress x r' t')) (push-one a n o);
          others = sym (append-nil (drop (suc n) (a ∷ [])));
          at = at;
          bytes = tt;
        }

    two_left :
        (b : ℕ)
        → b < 256
        → At t r (encode (a ∷ b ∷ []) ++ tail)
        → Decoded tail o (suc n) (a ∷ b ∷ []) (units (suc fuel) (progress (o, suc n, []) r t))
    unfolding encode
    two_left b b_ok (t_eq, s) =
        let w : List ℕ × ℕ × List ℕ = (o, suc n, []) in
        let u = a / 4 in
        let v = (a * 16 + b / 16) % 64 in
        let x = b * 4 % 64 in
        let nv = u * 2 ^ 18 + v * 2 ^ 12 in
        let (r1, s1, run1) =
          unit-second w r u v (omega arith) (omega arith) (encode_char x ∷ pad ∷ tail) s in
        let w1 = push (byte1 u v) w in
        let (r2, s2, run2) =
          third-inside w1 r1 nv (encode_char v) x (pad ∷ tail) (omega arith) s1 in
        let w2 = push (byte2 u v x) w1 in
        let (t', r', at, run3) =
          fourth-pad w2 r2 (nv + x * 2 ^ 6) (encode_char x) tail s2 (λ y z. At-end y z tail ends) in
        record {
          kept = drop (suc n) (a ∷ b ∷ []);
          few = omega (arith, length-drop (suc n) (a ∷ b ∷ []));
          left = suc n - 2;
          to_come = [];
          reader = r';
          tmp_ch = t';
          ran =
              units_step fuel n t o [] r u (omega arith) t_eq
              ∙ ap (λ y. y >>= go_on fuel) (run1 ∙ run2 ∙ run3)
              ∙ (λ k. some (
                  progress (push (byte2_last a_ok b_ok b_ok k) (push (byte1_eq a_ok b_ok b_ok k) w))
                    r' t'))
              ∙ ap (λ y. some (progress y r' t')) (push-two a b n o);
          others = sym (append-nil (drop (suc n) (a ∷ b ∷ [])));
          at = at;
          bytes = tt;
        }

  -- A round on three bytes.
  three_left :
      (fuel n : ℕ) (o : List ℕ) (r : StreamBufferReader) (t a b c : ℕ) (zs : List ℕ)
      → a < 256
      → b < 256
      → c < 256
      → At t r (encode (a ∷ b ∷ c ∷ zs) ++ tail)
      → (t' : ℕ) × (r' : StreamBufferReader) × At t' r' (encode zs ++ tail)
        × (units (suc fuel) (progress (o, suc n, []) r t)
            ≡ units fuel (
                progress
                  (o ++ take (suc n) (a ∷ b ∷ c ∷ []), suc n - 3, drop (suc n) (a ∷ b ∷ c ∷ []))
                  r'
                  t'))
  unfolding encode
  three_left fuel n o r t a b c zs a_ok b_ok c_ok (t_eq, s) =
      let w : List ℕ × ℕ × List ℕ = (o, suc n, []) in
      let u = a / 4 in
      let v = (a * 16 + b / 16) % 64 in
      let x = (b * 4 + c / 64) % 64 in
      let y = c % 64 in
      let nv = u * 2 ^ 18 + v * 2 ^ 12 in
      let (r1, s1, run1) =
        unit-second w r u v (omega arith) (omega arith)
          (encode_char x ∷ encode_char y ∷ (encode zs ++ tail)) s in
      let w1 = push (byte1 u v) w in
      let (r2, s2, run2) =
        third-inside w1 r1 nv (encode_char v) x (encode_char y ∷ (encode zs ++ tail)) (omega arith)
          s1 in
      let w2 = push (byte2 u v x) w1 in
      let (t', r', at, run3) =
        fourth-inside w2 r2 (nv + x * 2 ^ 6) (encode_char x) y (encode zs ++ tail) (omega arith)
          s2 in
      (
        t',
        r',
        at,
        units_step fuel n t o [] r u (omega arith) t_eq
            ∙ ap (λ q. q >>= go_on fuel) (run1 ∙ run2 ∙ run3)
            ∙ (λ k. units fuel (
                progress
                  (push (byte3_eq a_ok b_ok c_ok k)
                    (push (byte2_eq a_ok b_ok c_ok k) (push (byte1_eq a_ok b_ok b_ok k) w)))
                  r' t'))
            ∙ ap (λ q. units fuel (progress q r' t')) (push-three a b c n o),
      )

  -- The rounds, with fuel for the bytes that are wanted.
  pub units-Decoded :
      (fuel n : ℕ) (o : List ℕ) (r : StreamBufferReader) (t : ℕ) (zs : List ℕ)
      → n ≤ fuel
      → Bytes zs
      → At t r (encode zs ++ tail)
      → Decoded tail o n zs (units fuel (progress (o, n, []) r t))
  units-Decoded fuel zero o r t zs le bytes at = record {
    kept = [];
    few = omega arith;
    left = 0;
    to_come = zs;
    reader = r;
    tmp_ch = t;
    ran =
        units-done fuel (progress (o, 0, []) r t) refl
        ∙ ap (λ x. some (progress (x, 0, []) r t)) (sym (append-nil o));
    others = refl;
    at = at;
    bytes = bytes;
  }
  units-Decoded zero (suc n) o r t zs le bytes at = absurd (omega arith)
  units-Decoded (suc fuel) (suc n) o r t [] le bytes at =
      text_used_up (suc fuel) n o r t (unfold encode in at)
  units-Decoded (suc fuel) (suc n) o r t (a ∷ []) le bytes at = one_left fuel n o r t a bytes.0 at
  units-Decoded (suc fuel) (suc n) o r t (a ∷ b ∷ []) le bytes at =
      two_left fuel n o r t a bytes.0 b bytes.1.0 at
  units-Decoded (suc fuel) (suc zero) o r t (a ∷ b ∷ c ∷ zs) le bytes at =
      let (t', r', at', run) = three_left fuel 0 o r t a b c zs bytes.0 bytes.1.0 bytes.1.1.0 at in
      record {
        kept = b ∷ c ∷ [];
        few = omega arith;
        left = 0;
        to_come = zs;
        reader = r';
        tmp_ch = t';
        ran = run ∙ units-done fuel (progress (o ++ (a ∷ []), 0, b ∷ c ∷ []) r' t') refl;
        others = refl;
        at = at';
        bytes = bytes.1.1.1;
      }
  units-Decoded (suc fuel) (suc (suc zero)) o r t (a ∷ b ∷ c ∷ zs) le bytes at =
      let (t', r', at', run) = three_left fuel 1 o r t a b c zs bytes.0 bytes.1.0 bytes.1.1.0 at in
      record {
        kept = c ∷ [];
        few = omega arith;
        left = 0;
        to_come = zs;
        reader = r';
        tmp_ch = t';
        ran = run ∙ units-done fuel (progress (o ++ (a ∷ b ∷ []), 0, c ∷ []) r' t') refl;
        others = refl;
        at = at';
        bytes = bytes.1.1.1;
      }
  units-Decoded (suc fuel) (suc (suc (suc n))) o r t (a ∷ b ∷ c ∷ zs) le bytes at =
      let (t', r', at', run) =
        three_left fuel (suc (suc n)) o r t a b c zs bytes.0 bytes.1.0 bytes.1.1.0 at in
      let d = units-Decoded fuel n (o ++ (a ∷ b ∷ c ∷ [])) r' t' zs (omega arith) bytes.1.1.1 at' in
      let three : suc (suc (suc n)) - 3 ≡ n = omega arith in
      record {
        kept = d.kept;
        few = d.few;
        left = d.left;
        to_come = d.to_come;
        reader = d.reader;
        tmp_ch = d.tmp_ch;
        ran =
            run
            ∙ (λ k.
                units fuel
                  (progress (o ++ (a ∷ b ∷ c ∷ take_nil n k), three k, drop_nil n k) r' t'))
            ∙ d.ran
            ∙ ap (λ x. some (progress (x, d.left, d.kept) d.reader d.tmp_ch))
                (append_assoc o (a ∷ b ∷ c ∷ []) (take n zs));
        others = d.others;
        at = d.at;
        bytes = d.bytes;
      }
