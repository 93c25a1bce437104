-- ===== src/Group/Grouped.antt =====
-- What ParallelGroupBuilder (src/common/group_data.h) builds, column-major.
use xgboost.Prelude.{
  ℕ, suc, ◌+◌, ◌-◌, ◌≤◌, ◌<◌, ◌≡◌, sym, ap, ◌∙◌, Bool, false, List, [], Option, some, arith, length,
  get_or, get_elem?, take, drop, get_elem?-drop, take_agree,
}
use xgboost.Prelude.Check.{◌>>=◌}
use xgboost.Group.{ParallelGroupBuilder, back, init_budget, init_storage}
use xgboost.Group.Sums.{sum, sum_ext, sum_last, start, slot}
use xgboost.Group.Spec.{Call, items, InRange, total, add_budgets, push_all}
use xgboost.Group.Budget.{new_builder, init_budget-run}
use xgboost.Group.Push.{with_state}
use xgboost.Group.Build.{push_all-Filled}
use xgboost.Group.Slices.{gather, take-gather, lengths}
use xgboost.Group.Stored.{
  count, budgeted, threads, keys, storage, placed, bound_at, bound_before, counted_key, row-keys,
  stored, init_storage-run, stored-Filled, keys_eq,
}

-- The four steps: InitBudget, calls of AddBudget, InitStorage, calls of Push.
unfoldable pub build {ℓ} :
    {V : Type ℓ}
    → Bool
    → V
    → List ℕ
    → List V
    → ℕ
    → ℕ
    → ℕ
    → List (Call ℕ)
    → List (Call V)
    → Option (ParallelGroupBuilder V)
build is_row_major default rptr data_vec base max_key nthread budgets calls =
    add_budgets is_row_major budgets
      (init_budget is_row_major max_key nthread (new_builder rptr data_vec base))
    >>= λ b. push_all is_row_major calls (init_storage default is_row_major b)

-- data[ptr[k]:ptr[k+1]]
abbrev pub group {ℓ} : {V : Type ℓ} → ParallelGroupBuilder V → ℕ → List V
group b key =
    take (get_or b.rptr (key + 1) 0 - get_or b.rptr key 0) (drop (get_or b.rptr key 0) b.data_vec)

-- The built matrix: its old part is as before, and each new key has the values of its calls, by threads and
-- in the order of the calls of a thread. A key with a call is one of the keys.
pub record Grouped {ℓ} {V : Type ℓ} (rptr : List ℕ) (old : List V) (base nthread : ℕ)
    (calls : List (Call V)) (b : ParallelGroupBuilder V) : Type ℓ where
  pub bounds : (j : ℕ) → j ≤ base → get_or b.rptr j 0 ≡ get_or rptr j 0
  pub kept : take (length old) b.data_vec ≡ old
  pub groups :
      (o : ℕ)
      → base + o + 1 < length b.rptr
      → group b (base + o) ≡ gather (items base calls o) nthread
  pub has_key :
      (o t : ℕ) → t < nthread → 0 < length (items base calls o t) → base + o + 1 < length b.rptr

-- If `rptr` has an entry for each of the `base` old rows and one more, its last entry is the size of the
-- old data, no key is below `base`, no thread at or above `nthread`, and each key and thread gets as many
-- pushes as its budgets add up to, then every step succeeds and the built matrix is Grouped: the
-- slice between the bounds of a new key holds the values pushed for it, thread by thread and each
-- thread's in the order of its pushes, however the pushes of the threads interleave.
pub build-Grouped {ℓ} :
    {V : Type ℓ} (default : V) (rptr : List ℕ) (old : List V) (base max_key nthread : ℕ)
    (budgets : List (Call ℕ)) (calls : List (Call V))
    → length rptr ≡ base + 1
    → length old ≡ back rptr
    → InRange base nthread budgets
    → InRange base nthread calls
    → ((o t : ℕ) → total (items base budgets o t) ≡ length (items base calls o t))
    → (b : ParallelGroupBuilder V) × (build false default rptr old base max_key nthread budgets
          calls
        ≡ some b)
      × Grouped rptr old base nthread calls b
unfolding build
build-Grouped default rptr old base max_key nthread budgets calls rptr_ok old_ok budgets_ok calls_ok
      match =
    let c = count default rptr old base max_key nthread budgets in
    let bd = budgeted default rptr old base max_key nthread budgets rptr_ok old_ok budgets_ok in
    let ts = threads default rptr old base max_key nthread budgets rptr_ok old_ok budgets_ok in
    let st = storage default rptr old base max_key nthread budgets rptr_ok old_ok budgets_ok in
    let ks = keys default rptr old base max_key nthread budgets rptr_ok old_ok budgets_ok in
    let pl = placed default rptr old base max_key nthread budgets rptr_ok old_ok budgets_ok in
    let nb = stored default rptr old base max_key nthread budgets rptr_ok old_ok budgets_ok in
    let at = bound_at default rptr old base max_key nthread budgets rptr_ok old_ok budgets_ok in
    let size = keys_eq default rptr old base max_key nthread budgets rptr_ok old_ok budgets_ok in
    let (data', threads', ran, f) =
      push_all-Filled nb (back rptr) c nthread old calls [] nb.data_vec nb.thread_rptr
        (stored-Filled default rptr old base max_key nthread budgets rptr_ok old_ok budgets_ok)
        calls_ok (λ o t h. omega (arith, match o t)) in
    (
      with_state nb data' threads',
      ap (λ r. r >>= λ b. push_all false calls (init_storage default false b))
            (ap (add_budgets false budgets) (init_budget-run rptr old base max_key nthread)
              ∙ bd.ran)
          ∙ ap (push_all false calls) (
              init_storage-run default rptr old base max_key nthread budgets rptr_ok old_ok
                budgets_ok)
          ∙ ran,
      record {
        bounds =
            bound_before default rptr old base max_key nthread budgets rptr_ok old_ok budgets_ok;
        kept = take_agree data' old (λ j h. f.kept j (omega (arith, old_ok)));
        groups = λ o h.
            let inside : o < ks = omega (arith, pl.long, size) in
            let e : base + suc o ≡ base + o + 1 = omega arith in
            let first = at o (omega arith) in
            let next = ap (λ j. get_or st.0 j 0) (sym e) ∙ at (suc o) (omega arith) in
            let last = sum_last (λ k. sum (c k) nthread) o in
            let same = sum_ext (c o) (lengths (items base calls o) []) nthread (λ t l. match o t) in
            let wide : get_or st.0 (base + o + 1) 0 - get_or st.0 (base + o) 0
                ≡ sum (lengths (items base calls o) []) nthread =
              omega (arith, first, next, last, same) in
            (λ k. take (wide k) (drop (first k) data'))
            ∙ take-gather (items base calls o) (drop (back rptr + start c nthread o) data') nthread
                (λ t j l l'.
                  let shift =
                    sum_ext (c o) (lengths (items base calls o) []) t (λ u l''. match o u) in
                  get_elem?-drop (back rptr + start c nthread o) data'
                    (sum (lengths (items base calls o) []) t + j)
                  ∙ (let i : back rptr
                            + start c nthread o
                            + (sum (lengths (items base calls o) []) t + j)
                          ≡ back rptr + slot c nthread o t + j =
                        omega (arith, shift) in
                      ap (get_elem? data') i)
                  ∙ f.there t o j l l');
        has_key = λ o t h h'.
            let r =
              row-keys default rptr old base max_key nthread budgets rptr_ok old_ok budgets_ok t o (
                counted_key default rptr old base max_key nthread budgets rptr_ok old_ok budgets_ok
                  t o (omega (arith, h', match o t))) in
            omega (arith, r, pl.long, size);
      },
    )
