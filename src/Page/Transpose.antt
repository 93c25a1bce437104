-- ===== src/Page/Transpose.antt =====
-- GetTranspose of SparsePage (src/data/data.cc): the columns of the page, each in the order of its rows.

use xgboost.Prelude.{
  ℕ, zero, suc, ◌+◌, ◌≤◌, ◌<◌, ◌≡◌, refl, sym, ap, ◌∙◌, List, [], ◌∷◌, ◌++◌, some, ◌==◌,
  if◌then◌else◌, Bool-cases, inl, inr, arith, length, length-append, dec_lt,
}
use xgboost.Prelude.Check.{◌>>=◌}
use xgboost.Float.{Float}
use xgboost.Tree.FVec.{Entry}
use xgboost.Group.Spec.{Call, hits, items, items-append, InRange, total}
use xgboost.Group.Slices.{gather}
use xgboost.Group.Grouped.{build-Grouped}
use xgboost.Page.{
  SparsePage, size, inst, insts, row_calls, calls, no_entry, transposed_entry, get_transpose,
}
use xgboost.Page.Threads.{Rising, keyed, keyed-append, gather-items}

total-append : (xs ys : List ℕ) → total (xs ++ ys) ≡ total xs + total ys
unfolding total
total-append [] ys = omega arith
total-append (x ∷ xs) ys = omega (arith, total-append xs ys)

module _ {F : Float} where
  -- The entries of a row, which is the row `i`, that are in the column `c`, made by `f`.
  unfoldable pub in_column : (ℕ → Entry F → Entry F) → ℕ → ℕ → List (Entry F) → List (Entry F)
  in_column f c i [] = []
  in_column f c i (e ∷ row) = (if e.index == c then (f i e ∷ []) else []) ++ in_column f c i row

  -- The column `c` of the rows, the first of which is the row `i`.
  unfoldable pub column : (ℕ → Entry F → Entry F) → ℕ → ℕ → List (List (Entry F)) → List (Entry F)
  column f c i [] = []
  column f c i (row ∷ rows) = in_column f c i row ++ column f c (suc i) rows

  module _ (tid : ℕ → ℕ) where
    keyed-row_calls :
        (f : ℕ → Entry F → Entry F) (c i : ℕ) (row : List (Entry F))
        → keyed (row_calls tid f i row) c ≡ in_column f c i row
    unfolding keyed row_calls in_column
    keyed-row_calls f c i [] = refl
    keyed-row_calls f c i (e ∷ row) =
        ap (λ xs. (if e.index == c then (f i e ∷ []) else []) ++ xs) (keyed-row_calls f c i row)

    keyed-calls :
        (f : ℕ → Entry F → Entry F) (c i : ℕ) (rows : List (List (Entry F)))
        → keyed (calls tid f i rows) c ≡ column f c i rows
    unfolding keyed calls column
    keyed-calls f c i [] = refl
    keyed-calls f c i (row ∷ rows) =
        keyed-append (row_calls tid f i row) (calls tid f (suc i) rows) c
        ∙ (λ k. keyed-row_calls f c i row k ++ keyed-calls f c (suc i) rows k)

    -- A budget of 1 for each push.
    total-row_calls :
        (f : ℕ → Entry F → Entry F) (i : ℕ) (row : List (Entry F)) (o t : ℕ)
        → total (items 0 (row_calls tid (λ i e. 1) i row) o t)
          ≡ length (items 0 (row_calls tid f i row) o t)
    unfolding row_calls items total
    total-row_calls f i [] o t = refl
    total-row_calls f i (e ∷ row) o t =
        let here : Call ℕ = record { key = e.index; thread = tid i; item = 1 } in
        let rest = total-row_calls f i row o t in
        elim (Bool-cases (hits 0 here o t)) [
          | inl h ↦ rw (h) (omega (arith, rest))
          | inr h ↦ rw (h) rest
        ]

    total-calls :
        (f : ℕ → Entry F → Entry F) (i : ℕ) (rows : List (List (Entry F))) (o t : ℕ)
        → total (items 0 (calls tid (λ i e. 1) i rows) o t)
          ≡ length (items 0 (calls tid f i rows) o t)
    unfolding calls items total
    total-calls f i [] o t = refl
    total-calls f i (row ∷ rows) o t =
        let ones = row_calls {F = F} tid (λ i e. 1) i row in
        let more = calls {F = F} tid (λ i e. 1) (suc i) rows in
        let a = ap total (items-append 0 ones more o t) in
        let b = total-append (items 0 ones o t) (items 0 more o t) in
        let c = ap length (items-append 0 (row_calls tid f i row) (calls tid f (suc i) rows) o t) in
        let d =
          length-append (items 0 (row_calls tid f i row) o t)
            (items 0 (calls tid f (suc i) rows) o t) in
        omega (arith, a, b, c, d, total-row_calls f i row o t, total-calls f (suc i) rows o t)

    module _ {A : Type 0} (f : ℕ → Entry F → A) (nthread : ℕ)
        (tid_ok : (i : ℕ) → tid i < nthread) where
      row_calls-InRange :
          (i : ℕ) (row : List (Entry F)) (more : List (Call A))
          → InRange 0 nthread more
          → InRange 0 nthread (row_calls tid f i row ++ more)
      unfolding row_calls
      row_calls-InRange i [] more h = h
      row_calls-InRange i (e ∷ row) more h = (omega arith, tid_ok i, row_calls-InRange i row more h)

      calls-InRange :
          (i : ℕ) (rows : List (List (Entry F))) → InRange 0 nthread (calls tid f i rows)
      unfolding calls
      calls-InRange i [] = tt
      calls-InRange i (row ∷ rows) =
          row_calls-InRange i row (calls tid f (suc i) rows) (calls-InRange (suc i) rows)

      row_calls-Rising :
          (lo i : ℕ) (row : List (Entry F)) (more : List (Call A))
          → lo ≤ tid i
          → ((lo' : ℕ) → lo' ≤ tid i → Rising lo' more)
          → Rising lo (row_calls tid f i row ++ more)
      unfolding row_calls
      row_calls-Rising lo i [] more h r = r lo h
      row_calls-Rising lo i (e ∷ row) more h r =
          (h, row_calls-Rising (tid i) i row more (omega arith) r)

      calls-Rising :
          (lo i : ℕ) (rows : List (List (Entry F)))
          → ((j k : ℕ) → j ≤ k → tid j ≤ tid k)
          → lo ≤ tid i
          → Rising lo (calls tid f i rows)
      unfolding calls
      calls-Rising lo i [] mono h = tt
      calls-Rising lo i (row ∷ rows) mono h =
          row_calls-Rising lo i row (calls tid f (suc i) rows) h (λ lo' h'.
            calls-Rising lo' (suc i) rows mono (omega (arith, h', mono i (suc i) (omega arith))))

  -- The page of the columns `c` of the rows.
  pub record Transposed (page : SparsePage F) (result : SparsePage F) : Type 0 where
    pub columns :
        (c : ℕ)
        → c + 1 < length result.offset
        → inst result c ≡ column (transposed_entry page) c 0 (insts page (size page) 0)
    pub has_column :
        (c : ℕ)
        → 0 < length (column (transposed_entry page) c 0 (insts page (size page) 0))
        → c + 1 < length result.offset

  some_thread :
      (f : ℕ → List (Entry F)) (n : ℕ)
      → 0 < length (gather f n)
      → (t : ℕ) × (t < n) × (0 < length (f t))
  unfolding gather
  some_thread f zero h = absurd (omega arith)
  some_thread f (suc n) h = elim (dec_lt 0 (length (f n))) [
    | yes l ↦ (n, omega arith, l)
    | no z ↦
        let (t, l, m) = some_thread f n (omega (arith, h, length-append (gather f n) (f n))) in
        (t, omega (arith, l), m)
  ]

  -- If the threads have one stretch of the rows each, in order, then GetTranspose succeeds; each row of the
  -- page that it gives holds the entries of that column, with the numbers of their rows, in the order of
  -- the rows; and a column with an entry has a row there.
  pub get_transpose-Transposed :
      (num_columns nthread : ℕ) (tid : ℕ → ℕ) (page : SparsePage F)
      → ((i : ℕ) → tid i < nthread)
      → ((i j : ℕ) → i ≤ j → tid i ≤ tid j)
      → (result : SparsePage F) × (get_transpose num_columns nthread tid page ≡ some result)
        × Transposed page result
  unfolding get_transpose inst
  get_transpose-Transposed num_columns nthread tid page tid_ok mono =
      let rows = insts page (size page) 0 in
      let f = transposed_entry page in
      let pushes = calls tid f 0 rows in
      let (b, ran, g) =
        build-Grouped no_entry (0 ∷ []) [] 0 num_columns nthread (calls tid (λ i e. 1) 0 rows)
          pushes refl refl (calls-InRange tid (λ i e. 1) nthread tid_ok 0 rows)
          (calls-InRange tid f nthread tid_ok 0 rows) (total-calls tid f 0 rows) in
      let in_order : (c : ℕ) → gather (items 0 pushes c) nthread ≡ column f c 0 rows = λ c.
        gather-items pushes 0 c nthread
          (calls-Rising tid f nthread tid_ok 0 0 rows mono (omega arith))
          (calls-InRange tid f nthread tid_ok 0 rows)
        ∙ keyed-calls tid f c 0 rows in
      (
        record { offset = b.rptr; data_vec = b.data_vec; base_rowid = 0 },
        ap
            (λ r.
              r >>= λ b. some (record { offset = b.rptr; data_vec = b.data_vec; base_rowid = 0 }))
            ran,
        record {
          columns = λ c h.
              let z : 0 + c ≡ c = omega arith in
              ap (λ i. inst (record { offset = b.rptr; data_vec = b.data_vec; base_rowid = 0 }) i)
                (sym z)
              ∙ g.groups c (omega arith)
              ∙ in_order c;
          has_column = λ c h.
              let (t, l, m) =
                some_thread (items 0 pushes c) nthread (omega (arith, h, ap length (in_order c))) in
              omega (arith, g.has_key c t l m);
        },
      )
