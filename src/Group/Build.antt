-- ===== src/Group/Build.antt =====
-- The four steps of ParallelGroupBuilder (src/common/group_data.h), column-major, one after the other.
use mathlib.Core.List.{append_assoc, append-nil}
use xgboost.Prelude.{
  ℕ, suc, ◌-◌, ◌≤◌, ◌<◌, ◌≡◌, refl, sym, ap, ◌∙◌, subst, true, false, List, [], ◌∷◌, ◌++◌, some,
  arith, length, length-append,
}
use xgboost.Prelude.Check.{◌>>=◌}
use xgboost.Group.{ParallelGroupBuilder}
use xgboost.Group.Spec.{Call, hits, items, items-append, InRange, push_all}
use xgboost.Group.Push.{Filled, push-Filled, push-run, with_state, place_inside, filled, moved}

length-items-cons {ℓ} :
    {A : Type ℓ} (base : ℕ) (call : Call A) (calls : List (Call A)) (o t : ℕ)
    → hits base call o t ≡ true
    → length (items base (call ∷ calls) o t) ≡ suc (length (items base calls o t))
unfolding items
length-items-cons base call calls o t e = rw (e) refl

module _ {ℓ} {V : Type ℓ} (b : ParallelGroupBuilder V) (fill : ℕ) (c : ℕ → ℕ → ℕ) (nthread : ℕ)
    (old : List V) where
  abbrev pub base : ℕ
  base = b.base_row_offset

  -- Pushes within the counts succeed and go where they belong.
  pub push_all-Filled :
      (calls done : List (Call V)) (data_vec : List V) (threads : List (List ℕ))
      → Filled base fill c nthread old done data_vec threads
      → InRange base nthread calls
      → ((o t : ℕ) → t < nthread → length (items base (done ++ calls) o t) ≤ c o t)
      → (data_vec' : List V) × (threads' : List (List ℕ)) × (push_all false calls
            (with_state b data_vec threads)
          ≡ some (with_state b data_vec' threads'))
        × Filled base fill c nthread old (done ++ calls) data_vec' threads'
  unfolding push_all
  push_all-Filled [] done data_vec threads f h fits = (
    data_vec,
    threads,
    refl,
    subst (λ d. Filled base fill c nthread old d data_vec threads) (sym (append-nil done)) f,
  )
  push_all-Filled (call ∷ calls) done data_vec threads f h fits =
      let o0 = call.key - base in
      let t0 = call.thread in
      let whole = ap length (items-append base done (call ∷ calls) o0 t0) in
      let parts = length-append (items base done o0 t0) (items base (call ∷ calls) o0 t0) in
      let hit : hits base call o0 t0 ≡ true = ground (arith, h.0) in
      let one = length-items-cons base call calls o0 t0 hit in
      let more : length (items base done o0 t0) < c o0 t0 =
        omega (arith, whole, parts, one, fits o0 t0 h.1) in
      let again = append_assoc done (call ∷ []) calls in
      let fits' : (o t : ℕ)
          → t < nthread
          → length (items base ((done ++ (call ∷ [])) ++ calls) o t) ≤ c o t =
        λ o t l. subst (λ d. length (items base d o t) ≤ c o t) (sym again) (fits o t l) in
      let f' =
        push-Filled base fill c nthread old done data_vec threads call f h.0 h.1 more (λ o t l.
          let w = ap length (items-append base (done ++ (call ∷ [])) calls o t) in
          let p = length-append (items base (done ++ (call ∷ [])) o t) (items base calls o t) in
          omega (arith, w, p, fits' o t l)) in
      let run =
        push-run b data_vec threads call h.0 (omega (arith, f.size, h.1))
          (f.wide t0 o0 h.1 (omega (arith, more)))
          (place_inside base fill c nthread old done data_vec threads call f h.0 h.1 more) in
      let (data_vec', threads', ran, filled') =
        push_all-Filled calls (done ++ (call ∷ []))
          (filled base fill c nthread old done data_vec threads call f h.0 h.1 more)
          (moved base fill c nthread old done data_vec threads call f h.0 h.1 more) f' h.2 fits' in
      (
        data_vec',
        threads',
        ap (λ r. r >>= push_all false calls) run ∙ ran,
        subst (λ d. Filled base fill c nthread old d data_vec' threads') again filled',
      )
