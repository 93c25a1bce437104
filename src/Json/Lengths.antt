-- ===== src/Json/Lengths.antt =====
-- The parsers of src/common/json.cc leave no more of the input than there was.
use xgboost.Prelude.{
  ℕ, ◌≡◌, ◌≤◌, ◌<◌, inl, inr, Bool, true, false, ◌||◌, List, [], ◌∷◌, ◌++◌, Option, none, some,
  ◌==◌, Bool-cases, length, arith,
}
use xgboost.Prelude.Check.{◌>>=◌, Holds, Holds->>=, Holds-elim, weaken-Holds}
use xgboost.Json.Cursor.{
  eof, is_space, skip_spaces, get_next_char, get_next_non_space_char, get_consecutive_char,
  get_consecutive_chars, unescape, string_loop, parse_string, parse_null, parse_boolean,
}

pub length-skip_spaces : (s : List ℕ) → length (skip_spaces s) ≤ length s
unfolding skip_spaces
length-skip_spaces [] = omega arith
length-skip_spaces (c ∷ s) = elim (Bool-cases (is_space c)) [
  | inl space ↦ rw (space, skip_spaces) omega (arith, length-skip_spaces s)
  | inr solid ↦ rw (solid, skip_spaces) omega arith
]

length-get_next_char : (s : List ℕ) → length (get_next_char s).1 ≤ length s
unfolding get_next_char
length-get_next_char [] = omega arith
length-get_next_char (c ∷ s) = omega arith

shorter-get_next_char :
    (s : List ℕ) → ((get_next_char s).0 == eof) ≡ false → length (get_next_char s).1 < length s
unfolding get_next_char
shorter-get_next_char [] h = absurd (ground arith)
shorter-get_next_char (c ∷ s) h = omega arith

pub length-get_next_non_space_char : (s : List ℕ) → length (get_next_non_space_char s).1 ≤ length s
unfolding get_next_non_space_char
length-get_next_non_space_char s =
    omega (arith, length-skip_spaces s, length-get_next_char (skip_spaces s))

-- A char that is no end of the input was one of its chars.
pub shorter-get_next_non_space_char :
    (s : List ℕ)
    → ((get_next_non_space_char s).0 == eof) ≡ false
    → length (get_next_non_space_char s).1 < length s
unfolding get_next_non_space_char
shorter-get_next_non_space_char s h =
    omega (arith, length-skip_spaces s, shorter-get_next_char (skip_spaces s) h)

pub shorter-get_consecutive_char :
    (c : ℕ) (s : List ℕ)
    → (c == eof) ≡ false
    → Holds (λ r. length r < length s) (get_consecutive_char c s)
unfolding get_consecutive_char get_next_char
shorter-get_consecutive_char c [] h = let no_ : (eof == c) ≡ false = ground arith in rw no_ tt
shorter-get_consecutive_char c (d ∷ s) h = elim (Bool-cases (d == c)) [
  | inl same ↦ rw same omega arith
  | inr other ↦ rw other tt
]

length-get_consecutive_char :
    (c : ℕ) (s : List ℕ) → Holds (λ r. length r ≤ length s) (get_consecutive_char c s)
unfolding get_consecutive_char
length-get_consecutive_char c s = elim (Bool-cases ((get_next_char s).0 == c)) [
  | inl same ↦ rw same (length-get_next_char s)
  | inr other ↦ rw other tt
]

-- The input a parser leaves is not longer than `s`.
abbrev pub Rest : List ℕ → List ℕ → Type 0
Rest s r = length r ≤ length s

abbrev pub RestOf {ℓ} : {A : Type ℓ} → List ℕ → A × List ℕ → Type 0
RestOf s w = length w.1 ≤ length s

pub length-get_consecutive_chars : (cs s : List ℕ) → Holds (Rest s) (get_consecutive_chars cs s)
unfolding get_consecutive_chars
length-get_consecutive_chars [] s = omega arith
length-get_consecutive_chars (c ∷ cs) s =
    Holds->>= (Rest s) (Rest s) (get_consecutive_char c s) _ (length-get_consecutive_char c s)
      (λ r h.
        weaken-Holds (Rest r) (Rest s) _ (λ t less. omega arith)
          (length-get_consecutive_chars cs r))

length-string_loop : (str s : List ℕ) → Holds (RestOf s) (string_loop str s)
unfolding string_loop
length-string_loop str [] = tt
length-string_loop str (c ∷ []) =
    Holds-elim (RestOf (c ∷ [])) (c == 34) _ _ (λ e. omega arith) (λ e. tt)
length-string_loop str (c ∷ d ∷ s) =
    let whole = c ∷ d ∷ s in
    Holds-elim (RestOf whole) (c == 92) _ _
      (λ e.
        Holds->>= (λ t. Unit) (RestOf whole) (unescape d) _ (always (unescape d))
          (λ t h.
            weaken-Holds (RestOf s) (RestOf whole) _ (λ w less. omega arith)
              (length-string_loop (str ++ t) s)))
      (λ e.
        Holds-elim (RestOf whole) (c == 34) _ _ (λ q. omega arith)
          (λ q.
            Holds-elim (RestOf whole) ((c == eof) || (c == 13) || (c == 10)) _ _ (λ stop. tt)
              (λ go.
                weaken-Holds (RestOf (d ∷ s)) (RestOf whole) _ (λ w less. omega arith)
                  (length-string_loop (str ++ c ∷ []) (d ∷ s)))))
  where
    always : (o : Option (List ℕ)) → Holds (λ t. Unit) o
    always none = tt
    always (some t) = tt

pub length-parse_string : (s : List ℕ) → Holds (RestOf s) (parse_string s)
unfolding parse_string
length-parse_string s =
    Holds->>= (Rest s) (RestOf s) (get_consecutive_char 34 s) _ (length-get_consecutive_char 34 s)
      (λ r h.
        weaken-Holds (RestOf r) (RestOf s) _ (λ w less. omega arith) (length-string_loop [] r))

pub length-parse_null : (s : List ℕ) → Holds (Rest s) (parse_null s)
unfolding parse_null
length-parse_null s =
    weaken-Holds (Rest (skip_spaces s)) (Rest s) _ (λ r less. omega (arith, length-skip_spaces s))
      (length-get_consecutive_chars _ (skip_spaces s))

pub length-parse_boolean : (s : List ℕ) → Holds (RestOf s) (parse_boolean s)
unfolding parse_boolean
length-parse_boolean s = elim (Bool-cases ((get_next_non_space_char s).0 == 116)) [
  | inl t ↦ rw t (word true _)
  | inr f ↦ rw f (word false _)
]
  where
    word :
        (b : Bool) (cs : List ℕ)
        → Holds
            (RestOf s)
            (get_consecutive_chars cs (get_next_non_space_char s).1 >>= λ r. some (b, r))
    word b cs =
        let next = (get_next_non_space_char s).1 in
        Holds->>= (Rest next) (RestOf s) (get_consecutive_chars cs next) _
          (length-get_consecutive_chars cs next)
          (λ r h. omega (arith, length-get_next_non_space_char s))
