-- ===== src/Base64/Reader.antt =====
-- StreamBufferReader (src/common/base64.h) shows the bytes of its stream one by one.

use xgboost.Prelude.{
  ℕ, zero, suc, ◌+◌, ◌≤◌, ◌<◌, ◌≡◌, refl, sym, ap, ◌∙◌, subst, true, false, List, [], ◌∷◌, ◌++◌,
  drop, length, get_or, ltb, if◌then◌else◌, arith, Bool-cases, inl, inr, ltb→lt, length-append,
  length-drop,
}
use xgboost.Base64.{StreamBufferReader, set_stream, refill, get_char, eof}

unfoldable pub concat : List (List ℕ) → List ℕ
concat [] = []
concat (c ∷ cs) = c ++ concat cs

-- No read but the last returns nothing.
abbrev pub Full : List (List ℕ) → Type 0
Full [] = Unit
Full (c ∷ cs) = (0 < length c) × Full cs

-- What is left of the buffer.
unfoldable pub remaining : StreamBufferReader → List ℕ
remaining r = if ltb r.read_ptr r.read_len then drop r.read_ptr r.buffer else []

-- The reader still shows `xs`.
pub record Shows (r : StreamBufferReader) (xs : List ℕ) : Type 0 where
  pub to_come : remaining r ++ concat r.chunks ≡ xs
  pub full : Full r.chunks
  pub fits : ltb r.read_ptr r.read_len ≡ true → r.read_len ≡ length r.buffer

pub head_eq : {x y : ℕ} {xs ys : List ℕ} → (x ∷ xs) ≡ (y ∷ ys) → x ≡ y
head_eq {x} e = ap (head_or x) e
  where
    head_or : ℕ → List ℕ → ℕ
    head_or d [] = d
    head_or d (z ∷ zs) = z

pub tail_eq : {x y : ℕ} {xs ys : List ℕ} → (x ∷ xs) ≡ (y ∷ ys) → xs ≡ ys
tail_eq e = ap (drop 1) e

nil-ne-cons : {x : ℕ} {xs : List ℕ} → [] ≡ (x ∷ xs) → ⊥
nil-ne-cons e = let n = ap length e in omega (arith, n)

drop-get_or : (xs : List ℕ) (i : ℕ) → i < length xs → drop i xs ≡ get_or xs i 0 ∷ drop (i + 1) xs
drop-get_or [] i h = absurd (omega arith)
drop-get_or (x ∷ xs) zero h = refl
drop-get_or (x ∷ xs) (suc i) h =
    drop-get_or xs i (omega arith)
    ∙ (let e : suc (i + 1) ≡ suc i + 1 = omega arith in ap (λ k. get_or xs i 0 ∷ drop k (x ∷ xs)) e)

drop_past : (xs : List ℕ) (i : ℕ) → length xs ≤ i → drop i xs ≡ []
drop_past [] zero h = refl
drop_past [] (suc i) h = refl
drop_past (x ∷ xs) zero h = absurd (omega arith)
drop_past (x ∷ xs) (suc i) h = drop_past xs i (omega arith)

-- If the reader's place is within the buffer or at its end, the rest of the buffer remains.
remaining-drop :
    (r : StreamBufferReader) → r.read_len ≡ length r.buffer → remaining r ≡ drop r.read_ptr r.buffer
unfolding remaining
remaining-drop r e = elim (Bool-cases (ltb r.read_ptr r.read_len)) [
  | inl lt ↦ rw (lt) refl
  | inr ge ↦ rw (ge) (sym (drop_past r.buffer r.read_ptr (ground arith)))
]

module _ {x : ℕ} {xs : List ℕ} where
  refill-cons :
      (r : StreamBufferReader) (chunks : List (List ℕ))
      → Full chunks
      → concat chunks ≡ (x ∷ xs)
      → (r' : StreamBufferReader) × (refill r chunks ≡ (x, r')) × Shows r' xs
  unfolding refill concat
  refill-cons r [] f e = absurd (nil-ne-cons e)
  refill-cons r ([] ∷ chunks) f e = absurd (omega arith)
  refill-cons r ((c ∷ cs) ∷ chunks) f e =
      let r' : StreamBufferReader = record {
        chunks = chunks;
        buffer = c ∷ cs;
        read_len = length (c ∷ cs);
        read_ptr = 1;
      } in
      (
        r',
        (λ k. (head_eq e k, r')),
        record {
          to_come = ap (λ ys. ys ++ concat chunks) (remaining-drop r' refl) ∙ tail_eq e;
          full = f.1;
          fits = λ h. refl;
        },
      )

  -- A reader that shows a byte returns it.
  pub get_char-cons :
      (r : StreamBufferReader)
      → Shows r (x ∷ xs)
      → (r' : StreamBufferReader) × (get_char r ≡ (x, r')) × Shows r' xs
  unfolding get_char remaining
  get_char-cons r s = elim (Bool-cases (ltb r.read_ptr r.read_len)) [
    | inl lt ↦
        let r' : StreamBufferReader = record r { read_ptr = r.read_ptr + 1 } in
        let here =
          drop-get_or r.buffer r.read_ptr
            (omega (arith, s.fits lt, ltb→lt r.read_ptr r.read_len lt)) in
        let e : get_or r.buffer r.read_ptr 0 ∷ (drop (r.read_ptr + 1) r.buffer ++ concat r.chunks)
            ≡ (x ∷ xs) =
          ap (λ ys. ys ++ concat r.chunks) (sym here)
          ∙ ap (λ b. (if b then drop r.read_ptr r.buffer else []) ++ concat r.chunks) (sym lt)
          ∙ s.to_come in
        (
          r',
          rw (lt) (λ k. (head_eq e k, r')),
          record {
            to_come = ap (λ ys. ys ++ concat r.chunks) (remaining-drop r' (s.fits lt)) ∙ tail_eq e;
            full = s.full;
            fits = λ h. s.fits lt;
          },
        )
    | inr ge ↦
        let e : concat r.chunks ≡ (x ∷ xs) =
          ap (λ b. (if b then drop r.read_ptr r.buffer else []) ++ concat r.chunks) (sym ge)
          ∙ s.to_come in
        let (r', run, s') = refill-cons r r.chunks s.full e in (r', rw (ge) run, s')
  ]

refill-nil :
    (r : StreamBufferReader) (chunks : List (List ℕ))
    → chunks ≡ r.chunks
    → Full chunks
    → concat chunks ≡ []
    → (r' : StreamBufferReader) × (refill r chunks ≡ (eof, r')) × Shows r' []
unfolding refill remaining concat
refill-nil r [] same f e = (
  record r { read_len = 0 },
  refl,
  record {
    to_come =
        let none_left : ltb r.read_ptr 0 ≡ false = ground arith in
        ap (λ b. (if b then drop r.read_ptr r.buffer else []) ++ concat r.chunks) none_left
        ∙ ap concat (sym same);
    full = subst Full same f;
    fits = λ h. ground arith;
  },
)
refill-nil r (c ∷ chunks) same f e =
    let n = ap length e in absurd (omega (arith, n, length-append c (concat chunks), f.0))

-- A reader with nothing to come returns EOF.
pub get_char-nil :
    (r : StreamBufferReader)
    → Shows r []
    → (r' : StreamBufferReader) × (get_char r ≡ (eof, r')) × Shows r' []
unfolding get_char remaining
get_char-nil r s = elim (Bool-cases (ltb r.read_ptr r.read_len)) [
  | inl lt ↦
      let e : drop r.read_ptr r.buffer ++ concat r.chunks ≡ [] =
        ap (λ b. (if b then drop r.read_ptr r.buffer else []) ++ concat r.chunks) (sym lt)
        ∙ s.to_come in
      let n = ap length e in
      absurd (
        omega (
          arith,
          n,
          length-append (drop r.read_ptr r.buffer) (concat r.chunks),
          length-drop r.read_ptr r.buffer,
          s.fits lt,
          ltb→lt r.read_ptr r.read_len lt,
        ))
  | inr ge ↦
      let e : concat r.chunks ≡ [] =
        ap (λ b. (if b then drop r.read_ptr r.buffer else []) ++ concat r.chunks) (sym ge)
        ∙ s.to_come in
      let (r', run, s') = refill-nil r r.chunks refl s.full e in (r', rw (ge) run, s')
]

-- A reader that is set to a stream shows its bytes.
pub set_stream-Shows :
    (chunks : List (List ℕ)) → Full chunks → Shows (set_stream chunks) (concat chunks)
unfolding remaining
set_stream-Shows chunks f = record { to_come = refl; full = f; fits = λ h. ground arith }
