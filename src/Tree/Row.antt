-- ===== src/Tree/Row.antt =====
-- Fill and Drop of `RegTree::FVec` (include/xgboost/tree_model.h), one after the other.
use xgboost.Prelude.{
  ℕ, zero, suc, ◌+◌, ◌≡◌, ◌≢◌, refl, sym, ap, ◌∙◌, Bool, true, false, some, ◌||◌, List, [], ◌∷◌,
  ◌==◌, ltb, if◌then◌else◌, length, get_or, set, replicate, Bool-cases, inl, inr, ==→eq, arith,
  length-set, length-replicate, get_or-set_self, get_or-set_ne, get_or_past, ℕ_discrete,
}
use xgboost.Prelude.Check.{◌>>=◌}
use xgboost.Float.{Float}
use xgboost.Tree.FVec.{Entry, init, store, fill_from, fill, drop_from, drop_row}

module _ {A : Type 0} where
  abbrev put : List A → ℕ → A → List A
  put v i x = if ltb i (length v) then set v i x else v

  length-put : (v : List A) (i : ℕ) (x : A) → length (put v i x) ≡ length v
  length-put v i x = elim (Bool-cases (ltb i (length v))) [
    | inl e ↦ rw (e) (length-set v i x)
    | inr e ↦ rw (e) refl
  ]

  put_self : (v : List A) (i : ℕ) (m : A) → get_or (put v i m) i m ≡ m
  put_self v i m = elim (Bool-cases (ltb i (length v))) [
    | inl e ↦ rw (e) (get_or-set_self v i m m (ground arith))
    | inr e ↦ rw (e) (get_or_past v i m (ground arith))
  ]

  put_others : (v : List A) (i j : ℕ) (x m : A) → i ≢ j → get_or (put v i x) j m ≡ get_or v j m
  put_others v i j x m ne = elim (Bool-cases (ltb i (length v))) [
    | inl e ↦ rw (e) (get_or-set_ne v i j x m ne)
    | inr e ↦ rw (e) refl
  ]

  replicate_of :
      (m : A) (xs : List A) → ((j : ℕ) → get_or xs j m ≡ m) → xs ≡ replicate (length xs) m
  replicate_of m [] h = refl
  replicate_of m (x ∷ xs) h = λ i. h 0 i ∷ replicate_of m xs (λ j. h (suc j)) i

  get_or-replicate : (n : ℕ) (m : A) (j : ℕ) → get_or (replicate n m) j m ≡ m
  get_or-replicate zero m j = refl
  get_or-replicate (suc n) m zero = refl
  get_or-replicate (suc n) m (suc j) = get_or-replicate n m j

store-inside :
    {A : Type 0} (v : List A) (i : ℕ) (x : A)
    → ltb i (length v) ≡ true
    → store v i x ≡ some (set v i x)
unfolding store
store-inside v i x inside = rw inside refl

module _ {F : Float} where
  -- The row has an entry for the feature.
  unfoldable has : ℕ → List (Entry F) → Bool
  has j [] = false
  has j (e ∷ es) = (e.index == j) || has j es

  -- What Fill and Drop leave, with entries beyond the end passed over.
  unfoldable filled_by : List (Entry F) → List F.Carrier → ℕ → List F.Carrier × ℕ
  filled_by [] v count = (v, count)
  filled_by (e ∷ es) v count =
      filled_by es (put v e.index e.fvalue) (if ltb e.index (length v) then count + 1 else count)

  unfoldable dropped_by : List (Entry F) → List F.Carrier → List F.Carrier
  dropped_by [] v = v
  dropped_by (e ∷ es) v = dropped_by es (put v e.index F.missing)

  -- No write is out of range.
  fill_from-filled_by :
      (es : List (Entry F)) (v : List F.Carrier) (n : ℕ)
      → fill_from es v n ≡ some (filled_by es v n)
  unfolding fill_from filled_by
  fill_from-filled_by [] v n = refl
  fill_from-filled_by (e ∷ es) v n = elim (Bool-cases (ltb e.index (length v))) [
    | inl inside ↦
        rw (inside, store-inside v e.index e.fvalue inside, fill_from)
          (fill_from-filled_by es (set v e.index e.fvalue) (n + 1))
    | inr outside ↦ rw (outside, fill_from) (fill_from-filled_by es v n)
  ]

  drop_from-dropped_by :
      (es : List (Entry F)) (v : List F.Carrier) → drop_from es v ≡ some (dropped_by es v)
  unfolding drop_from dropped_by
  drop_from-dropped_by [] v = refl
  drop_from-dropped_by (e ∷ es) v = elim (Bool-cases (ltb e.index (length v))) [
    | inl inside ↦
        rw (inside, store-inside v e.index F.missing inside, drop_from)
          (drop_from-dropped_by es (set v e.index F.missing))
    | inr outside ↦ rw (outside, drop_from) (drop_from-dropped_by es v)
  ]

  length-filled_by :
      (es : List (Entry F)) (v : List F.Carrier) (n : ℕ) → length (filled_by es v n).0 ≡ length v
  unfolding filled_by
  length-filled_by [] v n = refl
  length-filled_by (e ∷ es) v n =
      length-filled_by es (put v e.index e.fvalue) (if ltb e.index (length v) then n + 1 else n)
      ∙ length-put v e.index e.fvalue

  length-dropped_by :
      (es : List (Entry F)) (v : List F.Carrier) → length (dropped_by es v) ≡ length v
  unfolding dropped_by
  length-dropped_by [] v = refl
  length-dropped_by (e ∷ es) v =
      length-dropped_by es (put v e.index F.missing) ∙ length-put v e.index F.missing

  filled_by-others :
      (es : List (Entry F)) (v : List F.Carrier) (n j : ℕ)
      → has j es ≡ false
      → get_or (filled_by es v n).0 j F.missing ≡ get_or v j F.missing
  unfolding filled_by has
  filled_by-others [] v n j absent = refl
  filled_by-others (e ∷ es) v n j absent =
      filled_by-others es (put v e.index e.fvalue) (if ltb e.index (length v) then n + 1 else n) j
        (ground arith)
      ∙ put_others v e.index j e.fvalue F.missing (λ same. ground arith)

  dropped_by-missing :
      (es : List (Entry F)) (v : List F.Carrier) (j : ℕ)
      → get_or v j F.missing ≡ F.missing
      → get_or (dropped_by es v) j F.missing ≡ F.missing
  unfolding dropped_by
  dropped_by-missing [] v j m = m
  dropped_by-missing (e ∷ es) v j m = elim (ℕ_discrete e.index j) [
    | yes same ↦ dropped_by-missing es (put v e.index F.missing) j (
        ap (λ k. get_or (put v e.index F.missing) k F.missing) (sym same)
        ∙ put_self v e.index F.missing)
    | no ne ↦
        dropped_by-missing es (put v e.index F.missing) j
          (put_others v e.index j F.missing F.missing ne ∙ m)
  ]

  dropped_by-has :
      (es : List (Entry F)) (v : List F.Carrier) (j : ℕ)
      → has j es ≡ true
      → get_or (dropped_by es v) j F.missing ≡ F.missing
  unfolding dropped_by has
  dropped_by-has [] v j h = ground arith
  dropped_by-has (e ∷ es) v j h = elim (Bool-cases (e.index == j)) [
    | inl same ↦ dropped_by-missing es (put v e.index F.missing) j (
        ap (λ k. get_or (put v e.index F.missing) k F.missing) (sym (==→eq e.index j same))
        ∙ put_self v e.index F.missing)
    | inr differ ↦
        dropped_by-has es (put v e.index F.missing) j (sym (ap (λ b. b || has j es) differ) ∙ h)
  ]

  -- Fill of a vector that Init made and Drop with the same row write nothing out of range, whatever features
  -- the row has, beyond the vector's end and repeated ones included, and bring back the vector that Init made.
  pub drop_row-fill :
      (size : ℕ) (inst : List (Entry F))
      → (fill inst (init size) >>= drop_row inst) ≡ some (init size)
  unfolding drop_row fill init
  drop_row-fill size inst =
      rw (fill_from-filled_by inst (replicate size F.missing) 0, drop_from-dropped_by inst filled)
        (ap (λ v. some (record { entries = v; has_missing = true }))
          (replicate_of F.missing dropped cleared_slots
            ∙ ap (λ n. replicate n F.missing) dropped_length))
    where
      filled : List F.Carrier
      filled = (filled_by inst (replicate size F.missing) 0).0

      dropped : List F.Carrier
      dropped = dropped_by inst filled

      dropped_length : length dropped ≡ size
      dropped_length =
          length-dropped_by inst filled
          ∙ length-filled_by inst (replicate size F.missing) 0
          ∙ length-replicate size F.missing

      cleared_slots : (j : ℕ) → get_or dropped j F.missing ≡ F.missing
      cleared_slots j = elim (Bool-cases (has j inst)) [
        | inl h ↦ dropped_by-has inst filled j h
        | inr absent ↦ dropped_by-missing inst filled j (
            filled_by-others inst (replicate size F.missing) 0 j absent
            ∙ get_or-replicate size F.missing j)
      ]
