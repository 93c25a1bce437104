-- ===== src/Json/Fuel.antt =====
-- The fuel of Parse (src/common/json.cc).
use xgboost.Prelude.{
  ℕ, zero, suc, ◌≡◌, ◌≤◌, ◌<◌, refl, ap, true, false, List, [], ◌∷◌, Option, some, ◌==◌, length,
  arith,
}
use xgboost.Prelude.Check.{◌>>=◌, bind_congr, elim_congr, if_congr}
use xgboost.Json.Value.{
  FloatFormat, Json, Elements, Members, object, array, no_element, no_member, insert, push_back,
}
use xgboost.Json.Cursor.{eof, skip_spaces, peek_next_char, get_next_non_space_char}
use xgboost.Json.Reader.{
  FuelOut, refused, array_loop, parse_array, parse_key, object_loop, parse_object, parse_at, parse,
}
use xgboost.Json.Lengths.{
  RestOf, length-skip_spaces, shorter-get_next_non_space_char, shorter-get_consecutive_char,
}
use xgboost.Json.Invariant.{Good}
use xgboost.Json.Sound.{length-parse_key, GoodReader, parse-Good}

-- A char that is read is no end.
shorter :
    (r : List ℕ) (c : ℕ)
    → (c == eof) ≡ false
    → ((get_next_non_space_char r).0 == c) ≡ true
    → length (get_next_non_space_char r).1 < length r
shorter r c there found =
    let no_end : ((get_next_non_space_char r).0 == eof) ≡ false = ground arith in
    shorter-get_next_non_space_char r no_end

module _ {F : FloatFormat} where
  -- The readers agree on the inputs up to a length.
  abbrev Agree :
      (List ℕ → Option (Json F × List ℕ)) → (List ℕ → Option (Json F × List ℕ)) → ℕ → Type 0
  Agree p q bound = (s : List ℕ) → length s ≤ bound → p s ≡ q s

  abbrev closed : Members F × List ℕ → Option (Json F × List ℕ)
  closed (members, end) = some (object members, end)

  abbrev filled : Elements F × List ℕ → Option (Json F × List ℕ)
  filled (elements, end) = some (array elements, end)

  array_loop-agrees :
      (out : FuelOut F) (p q : List ℕ → Option (Json F × List ℕ)) (bound k k' : ℕ)
      (data_ : Elements F) (s : List ℕ)
      → Agree p q bound
      → GoodReader p
      → length s ≤ bound
      → length s < k
      → length s < k'
      → array_loop refused p k data_ s ≡ array_loop out q k' data_ s
  unfolding array_loop
  array_loop-agrees out p q bound zero k' data_ s same good fits h h' = absurd (omega arith)
  array_loop-agrees out p q bound (suc k) zero data_ s same good fits h h' = absurd (omega arith)
  array_loop-agrees out p q bound (suc k) (suc k') data_ s same good fits h h' =
      elim_congr (peek_next_char s == 93) _ _ _ _ (λ end. refl)
        (λ more. bind_congr (Good s) (p s) (q s) _ _ (same s fits) (good s) (λ w found.
          let next = get_next_non_space_char w.1 in
          elim_congr (next.0 == 93) _ _ _ _ (λ end. refl)
            (λ other.
              elim_congr (next.0 == 44) _ _ _ _
                (λ comma.
                  let less = shorter w.1 44 refl comma in
                  array_loop-agrees out p q bound k k' (push_back data_ w.0) next.1 same good
                    (omega (arith, found.1)) (omega (arith, found.1)) (omega (arith, found.1)))
                (λ wrong. refl))))

  object_loop-agrees :
      (out : FuelOut F) (p q : List ℕ → Option (Json F × List ℕ)) (bound k k' : ℕ)
      (data_ : Members F) (s : List ℕ)
      → Agree p q bound
      → GoodReader p
      → length s ≤ bound
      → length s < k
      → length s < k'
      → object_loop refused p k data_ s ≡ object_loop out q k' data_ s
  unfolding object_loop
  object_loop-agrees out p q bound zero k' data_ s same good fits h h' = absurd (omega arith)
  object_loop-agrees out p q bound (suc k) zero data_ s same good fits h h' = absurd (omega arith)
  object_loop-agrees out p q bound (suc k) (suc k') data_ s same good fits h h' =
      bind_congr (RestOf s) (parse_key s) (parse_key s) _ _ refl (length-parse_key s) (λ key named.
        bind_congr (Good key.1) (p key.1) (q key.1) _ _ (same key.1 (omega arith)) (good key.1)
          (λ w found.
            let next = get_next_non_space_char w.1 in
            elim_congr (next.0 == 125) _ _ _ _ (λ end. refl)
              (λ other.
                elim_congr (next.0 == 44) _ _ _ _
                  (λ comma.
                    let less = shorter w.1 44 refl comma in
                    object_loop-agrees out p q bound k k' (insert key.0 w.0 data_) next.1 same good
                      (omega (arith, found.1)) (omega (arith, found.1)) (omega (arith, found.1)))
                  (λ wrong. refl))))

  parse_at-agrees :
      (out : FuelOut F) (p q : List ℕ → Option (Json F × List ℕ)) (bound k k' c : ℕ) (s : List ℕ)
      → Agree p q bound
      → GoodReader p
      → length s ≤ suc bound
      → length s ≤ k
      → length s ≤ k'
      → parse_at refused p k c s ≡ parse_at out q k' c s
  unfolding parse_at parse_object parse_array
  parse_at-agrees out p q bound k k' c s same good fits h h' =
      if_congr (c == eof) _ _ _ _ (λ e. refl)
        (λ e1.
          if_congr (c == 123) _ _ _ _
            (λ e.
              bind_congr (λ r. length r < length s) _ _ _ _ refl
                (shorter-get_consecutive_char 123 s refl)
                (λ r less.
                  let key = skip_spaces r in
                  let space = length-skip_spaces r in
                  elim_congr (peek_next_char key == 125) _ _ _ _ (λ end. refl)
                    (λ more.
                      ap (λ o. o >>= closed)
                        (object_loop-agrees out p q bound k k' no_member key same good (omega arith)
                          (omega arith) (omega arith)))))
            (λ e2.
              if_congr (c == 91) _ _ _ _
                (λ e.
                  bind_congr (λ r. length r < length s) _ _ _ _ refl
                    (shorter-get_consecutive_char 91 s refl)
                    (λ r less.
                      ap (λ o. o >>= filled)
                        (array_loop-agrees out p q bound k k' no_element r same good (omega arith)
                          (omega arith) (omega arith))))
                (λ e3. refl)))

  -- With fuel above the length of the input the answer of Parse depends neither on the fuel nor on the answers that
  -- stand for its end.
  pub parse-fuel :
      (out : FuelOut F) (n m : ℕ) (s : List ℕ)
      → length s < n
      → length s < m
      → parse refused n s ≡ parse out m s
  unfolding parse parse_at skip_spaces peek_next_char
  parse-fuel out zero m s h h' = absurd (omega arith)
  parse-fuel out (suc n) zero s h h' = absurd (omega arith)
  parse-fuel out (suc n) (suc m) [] h h' = refl
  parse-fuel out (suc n) (suc m) (c ∷ s) h h' =
      let start = skip_spaces (c ∷ s) in
      let space = length-skip_spaces (c ∷ s) in
      parse_at-agrees out (parse refused n) (parse out m) (length s) n m (peek_next_char start)
        start (λ t less. parse-fuel out n m t (omega arith) (omega arith)) (parse-Good F n)
        (omega arith) (omega arith) (omega arith)
