-- ===== src/Group/Budget.antt =====
-- InitBudget and AddBudget of ParallelGroupBuilder (src/common/group_data.h), column-major: each thread has the
-- sum of its budgets for each key.
use xgboost.Prelude.{
  ℕ, zero, suc, ◌+◌, ◌-◌, ◌≤◌, ◌<◌, ◌≡◌, ◌≢◌, refl, sym, ap, ◌∙◌, subst, false, List, [], ◌∷◌, ◌++◌,
  Option, some, ltb, le→leb, min, if◌then◌else◌, Bool-cases, inl, inr, arith, length, get_or, set,
  resize, length-set, length-resize, get_or-resize, get_elem?-get_or,
}
use xgboost.Prelude.Check.{◌>>=◌}
use xgboost.Group.{
  ParallelGroupBuilder, offset_key, grow_trptr, add_budget, init_budget, resize_threads,
}
use xgboost.Group.Spec.{
  Call, cell, cell-write_self, cell-write_other, hits, items, InRange, total, add_budgets,
}

length-grow_trptr : (n : ℕ) (r : List ℕ) → n ≤ length (grow_trptr n r)
unfolding grow_trptr
length-grow_trptr n r = elim (Bool-cases (ltb (length r) n)) [
  | inl e ↦ rw (e) (omega (arith, length-resize n 0 r))
  | inr e ↦ rw (e) (ground arith)
]

get_or-grow_trptr : (n : ℕ) (r : List ℕ) (o : ℕ) → get_or (grow_trptr n r) o 0 ≡ get_or r o 0
unfolding grow_trptr
get_or-grow_trptr n r o = elim (Bool-cases (ltb (length r) n)) [
  | inl e ↦ rw (e) (get_or-resize n 0 r o (ground arith))
  | inr e ↦ rw (e) refl
]

module _ {ℓ} {V : Type ℓ} (b : ParallelGroupBuilder V) where
  pub offset_key-run :
      (key thread : ℕ)
      → b.base_row_offset ≤ key
      → offset_key false b key thread ≡ some (key - b.base_row_offset)
  unfolding offset_key
  offset_key-run key thread h = rw (le→leb b.base_row_offset key h) refl

  abbrev pub with_threads : List (List ℕ) → ParallelGroupBuilder V
  with_threads threads = record b { thread_rptr = threads }

-- The row that a budget is added to.
abbrev grown : List (List ℕ) → ℕ → ℕ → List ℕ
grown threads t o = grow_trptr (o + 1) (get_or threads t [])

abbrev added : List (List ℕ) → ℕ → ℕ → ℕ → List (List ℕ)
added threads t o nelem =
    set threads t (set (grown threads t o) o (get_or (grown threads t o) o 0 + nelem))

module _ {ℓ} {V : Type ℓ} (b : ParallelGroupBuilder V) (base : ℕ)
    (base_eq : b.base_row_offset ≡ base) where
  add_budget-run :
      (threads : List (List ℕ)) (call : Call ℕ)
      → base ≤ call.key
      → call.thread < length threads
      → add_budget false call.key call.thread call.item (with_threads b threads)
        ≡ some (with_threads b (added threads call.thread (call.key - base) call.item))
  unfolding add_budget
  add_budget-run threads call h h' =
      rw
        (
          offset_key-run (with_threads b threads) call.key call.thread (omega (arith, base_eq)),
          get_elem?-get_or threads call.thread [] h',
          base_eq,
        )
        refl

added-cell :
    (base : ℕ) (threads : List (List ℕ)) (call : Call ℕ) (t o : ℕ)
    → base ≤ call.key
    → call.thread < length threads
    → cell (added threads call.thread (call.key - base) call.item) t o
      ≡ cell threads t o + total (if hits base call o t then (call.item ∷ []) else [])
unfolding total
added-cell base threads call t o h h' =
    let o0 = call.key - base in
    let r = grown threads call.thread o0 in
    let v = get_or r o0 0 + call.item in
    let long : o0 < length r =
      omega (arith, length-grow_trptr (o0 + 1) (get_or threads call.thread [])) in
    let same = get_or-grow_trptr (o0 + 1) (get_or threads call.thread []) in
    elim (Bool-cases (hits base call o t)) [
      | inl e ↦
          let t_eq : call.thread ≡ t = ground arith in
          let o_eq : o0 ≡ o = ground arith in
          rw (e) (
            subst
              (λ u.
                cell (set threads call.thread (set r o0 v)) u o
                ≡ cell threads u o + (call.item + 0))
              t_eq
              (subst
                (λ p.
                  cell (set threads call.thread (set r o0 v)) call.thread p
                  ≡ cell threads call.thread p + (call.item + 0))
                o_eq
                (cell-write_self threads call.thread o0 v r h' long same ∙ omega (arith, same o0))))
      | inr e ↦
          let apart : call.thread ≡ t → o0 ≢ o = λ a c. ground arith in
          rw (e) (cell-write_other threads call.thread o0 v r h' long same t o apart ∙ omega arith)
    ]

total-append : (xs ys : List ℕ) → total (xs ++ ys) ≡ total xs + total ys
unfolding total
total-append [] ys = omega arith
total-append (x ∷ xs) ys = omega (arith, total-append xs ys)

-- Where calls of AddBudget lead to: each cell grows by the budgets for it.
pub record Budgeted {ℓ} {V : Type ℓ} (base : ℕ) (b : ParallelGroupBuilder V)
    (threads : List (List ℕ)) (calls : List (Call ℕ)) (result : Option (ParallelGroupBuilder V))
    : Type ℓ where
  pub threads' : List (List ℕ)
  pub ran : result ≡ some (with_threads b threads')
  pub size : length threads' ≡ length threads
  pub counted : (t o : ℕ) → cell threads' t o ≡ cell threads t o + total (items base calls o t)

pub add_budgets-Budgeted {ℓ} :
    {V : Type ℓ} (b : ParallelGroupBuilder V) (base : ℕ) (threads : List (List ℕ))
    (calls : List (Call ℕ))
    → b.base_row_offset ≡ base
    → InRange base (length threads) calls
    → Budgeted base b threads calls (add_budgets false calls (with_threads b threads))
unfolding add_budgets items total
add_budgets-Budgeted b base threads [] e h = record {
  threads' = threads;
  ran = refl;
  size = refl;
  counted = λ t o. omega arith;
}
add_budgets-Budgeted b base threads (call ∷ calls) e h =
    let next = added threads call.thread (call.key - base) call.item in
    let size_eq : length next ≡ length threads = length-set threads call.thread (
      set (grown threads call.thread (call.key - base)) (call.key - base)
        (get_or (grown threads call.thread (call.key - base)) (call.key - base) 0 + call.item)) in
    let rest =
      add_budgets-Budgeted b base next calls e
        (subst (λ n. InRange base n calls) (sym size_eq) h.2) in
    record {
      threads' = rest.threads';
      ran =
          ap (λ r. r >>= add_budgets false calls) (add_budget-run b base e threads call h.0 h.1)
          ∙ rest.ran;
      size = rest.size ∙ size_eq;
      counted = λ t o.
          let here = added-cell base threads call t o h.0 h.1 in
          let both =
            total-append (if hits base call o t then (call.item ∷ []) else [])
              (items base calls o t) in
          omega (arith, rest.counted t o, here, both);
    }

-- A new builder.
abbrev pub new_builder {ℓ} : {V : Type ℓ} → List ℕ → List V → ℕ → ParallelGroupBuilder V
new_builder rptr data_vec base = record {
  rptr = rptr;
  data_vec = data_vec;
  thread_rptr = [];
  base_row_offset = base;
  thread_displacement = 0;
}

abbrev Zero : List ℕ → Type 0
Zero r = (o : ℕ) → get_or r o 0 ≡ 0

resize-Zero : (n : ℕ) (r : List ℕ) → Zero r → Zero (resize n 0 r)
resize-Zero zero r z o = refl
resize-Zero (suc n) [] z zero = refl
resize-Zero (suc n) [] z (suc o) = resize-Zero n [] z o
resize-Zero (suc n) (x ∷ r) z zero = z 0
resize-Zero (suc n) (x ∷ r) z (suc o) = resize-Zero n r (λ p. z (suc p)) o

set-Zero :
    (threads : List (List ℕ)) (i : ℕ) (r : List ℕ)
    → ((t : ℕ) → Zero (get_or threads t []))
    → Zero r
    → (t : ℕ) → Zero (get_or (set threads i r) t [])
set-Zero [] i r z zr t = z t
set-Zero (x ∷ threads) zero r z zr zero = zr
set-Zero (x ∷ threads) zero r z zr (suc t) = z (suc t)
set-Zero (x ∷ threads) (suc i) r z zr zero = z 0
set-Zero (x ∷ threads) (suc i) r z zr (suc t) = set-Zero threads i r (λ u. z (suc u)) zr t

resize_threads-Zero :
    (n count i : ℕ) (threads : List (List ℕ))
    → ((t : ℕ) → Zero (get_or threads t []))
    → (t : ℕ) → Zero (get_or (resize_threads n count i threads) t [])
unfolding resize_threads
resize_threads-Zero n zero i threads z = z
resize_threads-Zero n (suc count) i threads z =
    let r = resize n 0 (get_or threads i []) in
    resize_threads-Zero n count (suc i) (set threads i r)
      (set-Zero threads i r z (resize-Zero n (get_or threads i []) (z i)))

length-resize_threads :
    (n count i : ℕ) (threads : List (List ℕ))
    → length (resize_threads n count i threads) ≡ length threads
unfolding resize_threads
length-resize_threads n zero i threads = refl
length-resize_threads n (suc count) i threads =
    let r = resize n 0 (get_or threads i []) in
    length-resize_threads n count (suc i) (set threads i r) ∙ length-set threads i r

module _ {ℓ} {V : Type ℓ} (rptr : List ℕ) (data_vec : List V) (base max_key nthread : ℕ) where
  -- The threads' vectors after InitBudget.
  abbrev pub fresh_threads : List (List ℕ)
  fresh_threads =
      resize_threads (max_key - min base max_key) 1 (nthread - 1)
        (resize_threads (max_key - min base max_key) (nthread - 1) 0 (resize nthread [] []))

  pub init_budget-run :
      init_budget false max_key nthread (new_builder rptr data_vec base)
      ≡ with_threads (new_builder rptr data_vec base) fresh_threads
  unfolding init_budget
  init_budget-run = refl

  pub length-fresh_threads : length fresh_threads ≡ nthread
  length-fresh_threads =
      length-resize_threads (max_key - min base max_key) 1 (nthread - 1)
        (resize_threads (max_key - min base max_key) (nthread - 1) 0 (resize nthread [] []))
      ∙ length-resize_threads (max_key - min base max_key) (nthread - 1) 0 (resize nthread [] [])
      ∙ length-resize nthread [] []

  pub cell-fresh_threads : (t o : ℕ) → cell fresh_threads t o ≡ 0
  cell-fresh_threads t o =
      let n = max_key - min base max_key in
      resize_threads-Zero n 1 (nthread - 1)
        (resize_threads n (nthread - 1) 0 (resize nthread [] []))
        (resize_threads-Zero n (nthread - 1) 0 (resize nthread [] [])
          (λ u p. ap (λ r. get_or r p 0) (get_or-resize nthread [] [] u (omega arith))))
        t o
