-- ===== src/Json/Strings.antt =====
-- What ParseString reads of a string that JsonWriter wrote (src/common/json.cc).
use mathlib.Core.List.{append_assoc, append-nil}
use xgboost.Prelude.{
  ℕ, ◌≡◌, refl, sym, ap, ◌∙◌, subst, inl, inr, false, List, [], ◌∷◌, ◌++◌, Option, none, some, ◌==◌,
  if◌then◌else◌, Bool-cases, ==→eq,
}
use xgboost.Prelude.Check.{◌>>=◌}
use xgboost.Json.Writer.{escape, escape_all, visit_string}
use xgboost.Json.Cursor.{string_loop, parse_string, unescape, get_consecutive_char, get_next_char}
use xgboost.Json.Escapes.{is_lost, is_control, kept, string_loop-escape, string_loop-backslash}

-- What is read back of a string.
unfoldable pub reread : List ℕ → Option (List ℕ)
reread [] = some []
reread (c ∷ cs) = if is_lost c then none else (reread cs >>= λ t. some (kept c ++ t))

abbrev pub behind : List ℕ → List ℕ → List ℕ → Option (List ℕ × List ℕ)
behind str rest t = some (str ++ t, rest)

glue :
    (o : Option (List ℕ)) (str k rest : List ℕ)
    → (o >>= behind (str ++ k) rest) ≡ ((o >>= λ t. some (k ++ t)) >>= behind str rest)
glue none str k rest = refl
glue (some t) str k rest = ap (λ z. some (z, rest)) (append_assoc str k t)

step :
    (c next : ℕ) (s str rest : List ℕ) (o : Option (List ℕ))
    → let tail = escape_all s ++ 34 ∷ rest in
      string_loop str (escape c next ++ tail)
        ≡ (if is_lost c then none else string_loop (str ++ kept c) tail)
      → string_loop (str ++ kept c) (escape_all s ++ 34 ∷ rest)
        ≡ (o >>= behind (str ++ kept c) rest)
      → string_loop str ((escape c next ++ escape_all s) ++ 34 ∷ rest)
        ≡ ((if is_lost c then none else (o >>= λ t. some (kept c ++ t))) >>= behind str rest)
step c next s str rest o first ih =
    ap (string_loop str) (append_assoc (escape c next) (escape_all s) (34 ∷ rest))
    ∙ first
    ∙ elim (Bool-cases (is_lost c)) [
      | inl lost ↦ rw lost refl
      | inr fine ↦ rw fine (ih ∙ glue o str (kept c) rest)
    ]

glue_two :
    (o : Option (List ℕ)) (str rest : List ℕ)
    → (o >>= behind (str ++ 92 ∷ 117 ∷ []) rest)
      ≡ (((o >>= λ t. some (117 ∷ t)) >>= λ t. some (92 ∷ t)) >>= behind str rest)
glue_two none str rest = refl
glue_two (some t) str rest = ap (λ z. some (z, rest)) (append_assoc str (92 ∷ 117 ∷ []) t)

string_loop-end : (str rest : List ℕ) → string_loop str (34 ∷ rest) ≡ some (str, rest)
unfolding string_loop
string_loop-end str [] = refl
string_loop-end str (c ∷ rest) = refl

string_loop-reread :
    (s str rest : List ℕ)
    → string_loop str (escape_all s ++ 34 ∷ rest) ≡ (reread s >>= behind str rest)
unfolding escape_all reread escape
string_loop-reread [] str rest =
    string_loop-end str rest ∙ ap (λ z. some (z, rest)) (sym (append-nil str))
string_loop-reread (c ∷ []) str rest = elim (Bool-cases (c == 92)) [
  | inl back ↦
      subst
        (λ e.
          string_loop str (escape_all (e ∷ []) ++ 34 ∷ rest)
          ≡ (reread (e ∷ []) >>= behind str rest))
        (sym (==→eq c 92 back))
        (step 92 0 [] str rest (some []) (string_loop-backslash str _ 0 refl)
          (string_loop-reread [] (str ++ kept 92) rest))
  | inr other ↦
      step c 0 [] str rest (some []) (string_loop-escape str _ c 0 other)
        (string_loop-reread [] (str ++ kept c) rest)
]
string_loop-reread (c ∷ d ∷ s) str rest = elim (Bool-cases (c == 92)) [
  | inl back ↦ elim (Bool-cases (d == 117)) [
    | inl u ↦
        subst (λ e. Says e d) (sym (==→eq c 92 back))
          (subst (λ e. Says 92 e) (sym (==→eq d 117 u))
            (unicode
              ∙ string_loop-reread s (str ++ 92 ∷ 117 ∷ []) rest
              ∙ glue_two (reread s) str rest))
    | inr no_u ↦
        subst (λ e. Says e d) (sym (==→eq c 92 back))
          (step 92 d (d ∷ s) str rest (reread (d ∷ s)) (string_loop-backslash str _ d no_u)
            (string_loop-reread (d ∷ s) (str ++ kept 92) rest))
  ]
  | inr other ↦
      step c d (d ∷ s) str rest (reread (d ∷ s)) (string_loop-escape str _ c d other)
        (string_loop-reread (d ∷ s) (str ++ kept c) rest)
]
  where
    Says : ℕ → ℕ → Type 0
    Says x y =
        string_loop str (escape_all (x ∷ y ∷ s) ++ 34 ∷ rest)
        ≡ (reread (x ∷ y ∷ s) >>= behind str rest)

    unicode :
        string_loop str (92 ∷ 117 ∷ (escape_all s ++ 34 ∷ rest))
        ≡ string_loop (str ++ 92 ∷ 117 ∷ []) (escape_all s ++ 34 ∷ rest)
    unicode = unfold string_loop unescape in refl

-- The reader takes a string that the writer wrote back to its bytes, but for the control characters below
-- 0x20 other than \n, \r and \t, each of which comes back as the six chars of its escape; it refuses the text of
-- a string with a backspace, a form feed or the byte 255.
pub parse_string-visit_string :
    (s rest : List ℕ) → parse_string (visit_string s [] ++ rest) ≡ (reread s >>= behind [] rest)
unfolding parse_string visit_string get_consecutive_char get_next_char
parse_string-visit_string s rest =
    ap (string_loop []) (append_assoc (escape_all s) (34 ∷ []) rest) ∙ string_loop-reread s [] rest

-- The bytes that come back.
abbrev pub IsKept : ℕ → Type 0
IsKept c = (is_lost c ≡ false) × (is_control c ≡ false)

abbrev pub AreKept : List ℕ → Type 0
AreKept [] = Unit
AreKept (c ∷ cs) = IsKept c × AreKept cs

reread-AreKept : (s : List ℕ) → AreKept s → reread s ≡ some s
unfolding reread
reread-AreKept [] h = refl
reread-AreKept (c ∷ cs) ((lost, control), h) = rw (lost, control, reread-AreKept cs h) refl

pub parse_string-AreKept :
    (s rest : List ℕ)
    → AreKept s
    → parse_string (34 ∷ ((escape_all s ++ 34 ∷ []) ++ rest)) ≡ some (s, rest)
unfolding visit_string
parse_string-AreKept s rest h =
    parse_string-visit_string s rest ∙ ap (λ o. o >>= behind [] rest) (reread-AreKept s h)
