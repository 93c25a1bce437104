-- ===== src/Page/Rows.antt =====
-- Pages that hold given rows (include/xgboost/data.h): their offsets and data, and what a row is read as.
use mathlib.Core.List.{append_assoc}
use xgboost.Prelude.{
  ℕ, zero, suc, ◌+◌, ◌-◌, ◌≤◌, ◌<◌, ◌≡◌, refl, sym, ap, ◌∙◌, List, [], ◌∷◌, ◌++◌, arith, length,
  get_or, take, drop, length-append,
}
use xgboost.Float.{Float}
use xgboost.Tree.FVec.{Entry}
use xgboost.Group.{back}
use xgboost.Page.{SparsePage, inst}

-- The offsets of the rows, from the place `s` on.
unfoldable pub offsets {ℓ} : {A : Type ℓ} → ℕ → List (List A) → List ℕ
offsets s [] = s ∷ []
offsets s (row ∷ rows) = s ∷ offsets (s + length row) rows

unfoldable pub concat {ℓ} : {A : Type ℓ} → List (List A) → List A
concat [] = []
concat (row ∷ rows) = row ++ concat rows

-- The page holds the rows.
pub record Holds {F : Float} (page : SparsePage F) (rows : List (List (Entry F))) : Type 0 where
  pub offset_eq : page.offset ≡ offsets 0 rows
  pub data_eq : page.data_vec ≡ concat rows

module _ {ℓ} {A : Type ℓ} where
  pub length-offsets : (s : ℕ) (rows : List (List A)) → length (offsets s rows) ≡ suc (length rows)
  unfolding offsets
  length-offsets s [] = refl
  length-offsets s (row ∷ rows) = ap suc (length-offsets (s + length row) rows)

  pub concat-append : (xs ys : List (List A)) → concat (xs ++ ys) ≡ concat xs ++ concat ys
  unfolding concat
  concat-append [] ys = refl
  concat-append (x ∷ xs) ys =
      ap (λ zs. x ++ zs) (concat-append xs ys) ∙ sym (append_assoc x (concat xs) (concat ys))

  -- The last of the offsets is the size of the data.
  pub back-offsets :
      (s : ℕ) (rows : List (List A)) → back (offsets s rows) ≡ s + length (concat rows)
  unfolding offsets concat
  back-offsets s [] = omega arith
  back-offsets s (row ∷ rows) =
      let n : suc (length (offsets (s + length row) rows)) - 1
          ≡ suc (length (offsets (s + length row) rows) - 1) =
        omega (arith, length-offsets (s + length row) rows) in
      ap (λ i. get_or (s ∷ offsets (s + length row) rows) i 0) n
      ∙ back-offsets (s + length row) rows
      ∙ omega (arith, length-append row (concat rows))

  -- The offsets of a row's end.
  pub get_or-offsets :
      (s i : ℕ) (rows : List (List A))
      → i ≤ length rows
      → get_or (offsets s rows) i 0 ≡ s + length (concat (take i rows))
  unfolding offsets concat
  get_or-offsets s zero [] h = omega arith
  get_or-offsets s zero (row ∷ rows) h = omega arith
  get_or-offsets s (suc i) [] h = absurd (omega arith)
  get_or-offsets s (suc i) (row ∷ rows) h =
      get_or-offsets (s + length row) i rows (omega arith)
      ∙ omega (arith, length-append row (concat (take i rows)))

  -- The offsets of one page behind those of another, whose last one is not repeated.
  pub offsets-append :
      (s : ℕ) (xs ys : List (List A))
      → offsets s (xs ++ ys) ≡ offsets s xs ++ drop 1 (offsets (s + length (concat xs)) ys)
  unfolding offsets concat
  offsets-append s [] [] = let z : s ≡ s + 0 = omega arith in refl
  offsets-append s [] (y ∷ ys) =
      let z : s ≡ s + 0 = omega arith in ap (λ n. s ∷ offsets (n + length y) ys) z
  offsets-append s (x ∷ xs) ys =
      let n : s + length x + length (concat xs) ≡ s + length (x ++ concat xs) =
        omega (arith, length-append x (concat xs)) in
      ap (λ zs. s ∷ zs) (offsets-append (s + length x) xs ys)
      ∙ ap (λ k. s ∷ (offsets (s + length x) xs ++ drop 1 (offsets k ys))) n

  pub offsets-head : (s : ℕ) (rows : List (List A)) → s ∷ drop 1 (offsets s rows) ≡ offsets s rows
  unfolding offsets
  offsets-head s [] = refl
  offsets-head s (row ∷ rows) = refl

  pub take-append_self : (xs ys : List A) → take (length xs) (xs ++ ys) ≡ xs
  take-append_self [] ys = refl
  take-append_self (x ∷ xs) ys = ap (λ zs. x ∷ zs) (take-append_self xs ys)

  pub drop-append_self : (xs ys : List A) → drop (length xs) (xs ++ ys) ≡ ys
  drop-append_self [] ys = refl
  drop-append_self (x ∷ xs) ys = drop-append_self xs ys

  -- The rows of a list of rows, by the offsets.
  pub slice-concat :
      (s i : ℕ) (rows : List (List A)) (before : List A)
      → length before ≡ s
      → i < length rows
      → take
          (get_or (offsets s rows) (i + 1) 0 - get_or (offsets s rows) i 0)
          (drop (get_or (offsets s rows) i 0) (before ++ concat rows))
        ≡ get_or rows i []
  unfolding offsets concat
  slice-concat s i [] before e h = absurd (omega arith)
  slice-concat s zero (row ∷ rows) before e h =
      let one : zero + 1 ≡ 1 = omega arith in
      let first = get_or-offsets (s + length row) 0 rows (omega arith) in
      let n : get_or (offsets (s + length row) rows) 0 0 - s ≡ length row = omega (arith, first) in
      ap
        (λ k.
          take (get_or (s ∷ offsets (s + length row) rows) k 0 - s)
            (drop s (before ++ (row ++ concat rows))))
        one
      ∙ (λ k. take (n k) (drop (sym e k) (before ++ (row ++ concat rows))))
      ∙ ap (take (length row)) (drop-append_self before (row ++ concat rows))
      ∙ take-append_self row (concat rows)
  slice-concat s (suc i) (row ∷ rows) before e h =
      let next : suc i + 1 ≡ suc (i + 1) = omega arith in
      ap
        (λ k.
          take
            (get_or (s ∷ offsets (s + length row) rows) k 0
              - get_or (offsets (s + length row) rows) i 0)
            (drop (get_or (offsets (s + length row) rows) i 0) (before ++ (row ++ concat rows))))
        next
      ∙ ap
          (λ xs.
            take
              (get_or (offsets (s + length row) rows) (i + 1) 0
                - get_or (offsets (s + length row) rows) i 0)
              (drop (get_or (offsets (s + length row) rows) i 0) xs))
          (sym (append_assoc before row (concat rows)))
      ∙ slice-concat (s + length row) i rows (before ++ row)
          (omega (arith, length-append before row, e)) (omega arith)

-- A row of the page is read as the row that it holds.
pub inst-Holds :
    {F : Float} (page : SparsePage F) (rows : List (List (Entry F))) (i : ℕ)
    → Holds page rows
    → i < length rows
    → inst page i ≡ get_or rows i []
unfolding inst
inst-Holds page rows i h l =
    (λ k.
      take (get_or (h.offset_eq k) (i + 1) 0 - get_or (h.offset_eq k) i 0)
        (drop (get_or (h.offset_eq k) i 0) (h.data_eq k)))
    ∙ slice-concat 0 i rows [] refl l
