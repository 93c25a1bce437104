-- ===== src/Json/Sound.antt =====
-- What Parse (src/common/json.cc) returns for any input: the arrays, the objects and the whole.
use xgboost.Prelude.{
  ℕ, zero, suc, ◌≤◌, ◌<◌, refl, not, ◌||◌, List, Option, none, some, ◌==◌, length, arith,
}
use xgboost.Prelude.Check.{◌>>◌, check, Holds, Holds->>=, Holds-elim, Holds-if, weaken-Holds}
use xgboost.Json.Value.{
  FloatFormat, Json, Elements, Members, no_element, element, no_member, insert, push_back,
}
use xgboost.Json.Cursor.{
  eof, skip_spaces, peek_next_char, get_next_non_space_char, get_consecutive_char, parse_string,
  parse_null, parse_boolean,
}
use xgboost.Json.Number.{is_digit}
use xgboost.Json.Reader.{
  refused, array_loop, parse_array, parse_key, object_loop, parse_object, parse_at, parse,
}
use xgboost.Json.Valid.{Sorted, IsValid, AreValid, AreValidMembers}
use xgboost.Json.Lengths.{
  Rest, RestOf, length-skip_spaces, length-get_next_non_space_char, shorter-get_consecutive_char,
  length-parse_string, length-parse_null, length-parse_boolean,
}
use xgboost.Json.Keys.{insert-Sorted, AreValidMembers-insert}
use xgboost.Json.Invariant.{Good, parse_number-Good}

pub length-parse_key : (s : List ℕ) → Holds (RestOf s) (parse_key s)
unfolding parse_key
length-parse_key s =
    let key = skip_spaces s in
    let tests = check (not (peek_next_char key == eof)) >> check (peek_next_char key == 34) in
    Holds->>= (RestOf key) (RestOf s) (tests >> parse_string key) _
      (Holds->>= (λ u. Unit) (RestOf key) tests _ (always tests) (λ u t. length-parse_string key))
      (λ w less.
        Holds->>= (λ u. Unit) (RestOf s) (check ((get_next_non_space_char w.1).0 == 58)) _
          (always _)
          (λ u c. omega (arith, length-skip_spaces s, length-get_next_non_space_char w.1)))
  where
    always : (o : Option (Unit {0})) → Holds (λ u. Unit) o
    always none = tt
    always (some u) = tt

module _ {F : FloatFormat} where
  AreValid-push_back :
      (xs : Elements F) (v : Json F) → AreValid xs → IsValid v → AreValid (push_back xs v)
  unfolding push_back IsValid
  AreValid-push_back no_element v rest valid = (valid, tt)
  AreValid-push_back (element w xs) v (first, rest) valid =
      (first, AreValid-push_back xs v rest valid)

  abbrev GoodElements : List ℕ → Elements F × List ℕ → Type 0
  GoodElements s w = AreValid w.0 × (length w.1 ≤ length s)

  abbrev GoodMembers : List ℕ → Members F × List ℕ → Type 0
  GoodMembers s w = (Sorted w.0 × AreValidMembers w.0) × (length w.1 ≤ length s)

  -- What Parse returns is good for every input.
  abbrev pub GoodReader : (List ℕ → Option (Json F × List ℕ)) → Type 0
  GoodReader p = (s : List ℕ) → Holds (Good s) (p s)

  array_loop-Good :
      (p : List ℕ → Option (Json F × List ℕ)) (k : ℕ) (data_ : Elements F) (s : List ℕ)
      → GoodReader p
      → AreValid data_
      → Holds (GoodElements s) (array_loop refused p k data_ s)
  unfolding array_loop
  array_loop-Good p zero data_ s good valid = tt
  array_loop-Good p (suc k) data_ s good valid =
      Holds-elim (GoodElements s) (peek_next_char s == 93) _ _
        (λ end.
          Holds->>= (Rest s) (GoodElements s) (get_consecutive_char 93 s) _
            (weaken-Holds (λ r. length r < length s) (Rest s) _ (λ r less. omega arith)
              (shorter-get_consecutive_char 93 s refl))
            (λ r less. (valid, less)))
        (λ more. Holds->>= (Good s) (GoodElements s) (p s) _ (good s) (λ w found.
          let next = get_next_non_space_char w.1 in
          let less = length-get_next_non_space_char w.1 in
          let grown = AreValid-push_back data_ w.0 valid found.0 in
          let behind : length next.1 ≤ length s = omega (arith, found.1) in
          Holds-elim (GoodElements s) (next.0 == 93) _ _ (λ end. (grown, behind))
            (λ other.
              Holds-elim (GoodElements s) (next.0 == 44) _ _
                (λ comma.
                  weaken-Holds (GoodElements next.1) (GoodElements s) _
                    (λ x y. (y.0, omega (arith, y.1)))
                    (array_loop-Good p k (push_back data_ w.0) next.1 good grown))
                (λ wrong. tt))))

  object_loop-Good :
      (p : List ℕ → Option (Json F × List ℕ)) (k : ℕ) (data_ : Members F) (s : List ℕ)
      → GoodReader p
      → Sorted data_ × AreValidMembers data_
      → Holds (GoodMembers s) (object_loop refused p k data_ s)
  unfolding object_loop
  object_loop-Good p zero data_ s good valid = tt
  object_loop-Good p (suc k) data_ s good valid =
      Holds->>= (RestOf s) (GoodMembers s) (parse_key s) _ (length-parse_key s) (λ key named.
        Holds->>= (Good key.1) (GoodMembers s) (p key.1) _ (good key.1) (λ w found.
          let next = get_next_non_space_char w.1 in
          let less = length-get_next_non_space_char w.1 in
          let grown : Sorted (insert key.0 w.0 data_) × AreValidMembers (insert key.0 w.0 data_) = (
            insert-Sorted key.0 w.0 data_ valid.0,
            AreValidMembers-insert key.0 w.0 data_ found.0 valid.1,
          ) in
          let behind : length next.1 ≤ length s = omega (arith, found.1) in
          Holds-elim (GoodMembers s) (next.0 == 125) _ _ (λ end. (grown, behind))
            (λ other.
              Holds-elim (GoodMembers s) (next.0 == 44) _ _
                (λ comma.
                  weaken-Holds (GoodMembers next.1) (GoodMembers s) _
                    (λ x y. (y.0, omega (arith, y.1)))
                    (object_loop-Good p k (insert key.0 w.0 data_) next.1 good grown))
                (λ wrong. tt))))

  parse_array-Good :
      (p : List ℕ → Option (Json F × List ℕ)) (k : ℕ) (s : List ℕ)
      → GoodReader p
      → Holds (Good s) (parse_array refused p k s)
  unfolding parse_array IsValid
  parse_array-Good p k s good =
      Holds->>= (λ r. length r < length s) (Good s) (get_consecutive_char 91 s) _
        (shorter-get_consecutive_char 91 s refl)
        (λ r less.
          Holds->>= (GoodElements r) (Good s) (array_loop refused p k no_element r) _
            (array_loop-Good p k no_element r good tt) (λ w h. (h.0, omega (arith, h.1))))

  parse_object-Good :
      (p : List ℕ → Option (Json F × List ℕ)) (k : ℕ) (s : List ℕ)
      → GoodReader p
      → Holds (Good s) (parse_object refused p k s)
  unfolding parse_object IsValid
  parse_object-Good p k s good =
      Holds->>= (λ r. length r < length s) (Good s) (get_consecutive_char 123 s) _
        (shorter-get_consecutive_char 123 s refl)
        (λ r less.
          let key = skip_spaces r in
          let space = length-skip_spaces r in
          Holds-elim (Good s) (peek_next_char key == 125) _ _
            (λ end.
              Holds->>= (λ t. length t < length key) (Good s) (get_consecutive_char 125 key) _
                (shorter-get_consecutive_char 125 key refl) (λ t shorter. ((tt, tt), omega arith)))
            (λ more.
              Holds->>= (GoodMembers key) (Good s) (object_loop refused p k no_member key) _
                (object_loop-Good p k no_member key good (tt, tt))
                (λ w found. (found.0, omega (arith, found.1)))))

  parse_at-Good :
      (p : List ℕ → Option (Json F × List ℕ)) (k c : ℕ) (s : List ℕ)
      → GoodReader p
      → Holds (Good {F = F} s) (parse_at refused p k c s)
  unfolding parse_at IsValid
  parse_at-Good p k c s good =
      Holds-if (Good {F = F} s) (c == eof) _ _ (λ e. (tt, omega arith))
        (λ e1.
          Holds-if (Good {F = F} s) (c == 123) _ _ (λ e. parse_object-Good p k s good)
            (λ e2.
              Holds-if (Good {F = F} s) (c == 91) _ _ (λ e. parse_array-Good p k s good)
                (λ e3.
                  Holds-if (Good {F = F} s) ((c == 45) || is_digit c || (c == 78) || (c == 73)) _ _
                    (λ e. parse_number-Good F s)
                    (λ e4.
                      Holds-if (Good {F = F} s) (c == 34) _ _
                        (λ e.
                          Holds->>= (RestOf s) (Good {F = F} s) (parse_string s) _
                            (length-parse_string s) (λ w h. (tt, h)))
                        (λ e5.
                          Holds-if (Good {F = F} s) ((c == 116) || (c == 102)) _ _
                            (λ e.
                              Holds->>= (RestOf s) (Good {F = F} s) (parse_boolean s) _
                                (length-parse_boolean s) (λ w h. (tt, h)))
                            (λ e6.
                              Holds-if (Good {F = F} s) (c == 110) _ _
                                (λ e.
                                  Holds->>= (Rest s) (Good {F = F} s) (parse_null s) _
                                    (length-parse_null s) (λ w h. (tt, h)))
                                (λ e7. tt)))))))

module _ (F : FloatFormat) where
  -- Whatever the input, a value that Parse returns has integers of 64 bits and objects whose keys are in order,
  -- each once, and what is left of the input is not longer than the input was.
  pub parse-Good : (n : ℕ) (s : List ℕ) → Holds (Good {F = F} s) (parse refused n s)
  unfolding parse
  parse-Good zero s = tt
  parse-Good (suc n) s =
      let start = skip_spaces s in
      weaken-Holds (Good {F = F} start) (Good {F = F} s) _
        (λ w h. (h.0, omega (arith, h.1, length-skip_spaces s)))
        (parse_at-Good (parse refused n) n (peek_next_char start) start (parse-Good n))
