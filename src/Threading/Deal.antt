-- ===== src/Threading/Deal.antt =====
-- ParallelFor2d of src/common/threading_utils.h against a run over the blocks in order.

use native.Mathlib.Nat
use mathlib.Core.Path.{fun_ext}
use xgboost.Prelude.{
  ℕ, zero, suc, ◌+◌, ◌-◌, ◌*◌, ◌≤◌, ◌<◌, ◌≡◌, refl, sym, ap, ◌∙◌, List, [], ◌∷◌, ◌++◌, Option, none,
  some, min, max, length, arith, Bool-cases, inl, inr, leb, leb→le,
}
use xgboost.Prelude.Check.{◌>>=◌}
use xgboost.Threading.{
  Range1d, BlockedSpace2d, size, get_first_dimension, get_range, run_blocks, chunk_size,
  run_threads, parallel_for_2d, blocked_space,
}
use xgboost.Threading.Blocks.{cells, covered, all_cells, div_up-bounds, blocked_space-covered}

module _ {S : Type 0} (func : ℕ → Range1d → S → S) where
  -- The blocks in their order.
  unfoldable fold_blocks : List ℕ → List Range1d → S → S
  fold_blocks [] rs s = s
  fold_blocks (f ∷ fs) [] s = s
  fold_blocks (f ∷ fs) (r ∷ rs) s = fold_blocks fs rs (func f r s)

  module _ (space : BlockedSpace2d) where
    run_blocks-append :
        (n m i : ℕ) (s : S)
        → (run_blocks space func n i s >>= run_blocks space func m (i + n))
          ≡ run_blocks space func (n + m) i s
    unfolding run_blocks
    run_blocks-append zero m i s =
        let e : i + 0 ≡ i = omega arith in
        let e' : 0 + m ≡ m = omega arith in λ k. run_blocks space func (sym e' k) (e k) s
    run_blocks-append (suc n) m i s =
        let e : i + suc n ≡ suc i + n = omega arith in
        let e' : suc n + m ≡ suc (n + m) = omega arith in
        ap (λ j. run_blocks space func (suc n) i s >>= run_blocks space func m j) e
        ∙ join (get_first_dimension space i) (get_range space i)
            (λ f r. run_blocks-append n m (suc i) (func f r s))
        ∙ ap (λ j. run_blocks space func j i s) (sym e')
      where
        join :
            (f : Option ℕ) (r : Option Range1d)
            → ((first : ℕ) (range : Range1d)
                → (run_blocks space func n (suc i) (func first range s)
                    >>= run_blocks space func m (suc i + n))
                  ≡ run_blocks space func (n + m) (suc i) (func first range s))
            → ((f >>= λ first. r >>= λ range. run_blocks space func n (suc i) (func first range s))
                >>= run_blocks space func m (suc i + n))
              ≡ (f >>= λ first.
                  r >>= λ range. run_blocks space func (n + m) (suc i) (func first range s))
        join none r ih = refl
        join (some f) none ih = refl
        join (some f) (some r) ih = ih f r

    -- What is left after the thread `tid` starts where the thread ends, unless nothing is left.
    after_thread :
        (c tid : ℕ)
        → run_blocks space func (size space - c * suc tid) (c * suc tid)
          ≡ run_blocks space func
              (size space - (c * tid + c))
              (c * tid + (min (c * tid + c) (size space) - c * tid))
    after_thread c tid = elim (Bool-cases (leb (c * tid + c) (size space))) [
      | inl e ↦
          let le = leb→le (c * tid + c) (size space) e in
          let from : c * suc tid ≡ c * tid + (min (c * tid + c) (size space) - c * tid) =
            omega (arith, le, Nat.mul-suc c tid) in
          λ k. run_blocks space func (size space - Nat.mul-suc c tid k) (from k)
      | inr e ↦
          let gt : size space < c * tid + c = ground arith in
          let nothing : size space - c * suc tid ≡ 0 = omega (arith, gt, Nat.mul-suc c tid) in
          let nothing' : size space - (c * tid + c) ≡ 0 = omega (arith, gt) in
          unfold run_blocks in
          ap (λ k. run_blocks space func k (c * suc tid)) nothing
          ∙ ap (λ k. run_blocks space func k (c * tid + (min (c * tid + c) (size space) - c * tid)))
              (sym nothing')
    ]

    -- The threads from `tid` on run the blocks from the first of `tid` on, if they can take them all.
    run_threads-blocks :
        (nthreads count tid : ℕ) (s : S)
        → size space - chunk_size (size space) nthreads * tid
          ≤ chunk_size (size space) nthreads * count
        → run_threads space func nthreads count tid s
          ≡ run_blocks space func
              (size space - chunk_size (size space) nthreads * tid)
              (chunk_size (size space) nthreads * tid)
              s
    unfolding run_threads
    run_threads-blocks nthreads zero tid s room =
        let e : size space - chunk_size (size space) nthreads * tid ≡ 0 =
          omega (arith, Nat.mul-zero (chunk_size (size space) nthreads)) in
        unfold run_blocks in
        ap (λ k. run_blocks space func k (chunk_size (size space) nthreads * tid) s) (sym e)
    run_threads-blocks nthreads (suc count) tid s room =
        let c = chunk_size (size space) nthreads in
        let b = c * tid in
        let n = min (b + c) (size space) - b in
        let next = Nat.mul-suc c tid in
        let more = Nat.mul-suc c count in
        ap (λ k. run_blocks space func n b s >>= k)
          (fun_ext
            (λ s'. run_threads-blocks nthreads count (suc tid) s' (omega (arith, next, more))))
        ∙ ap (λ k. run_blocks space func n b s >>= k) (after_thread c tid)
        ∙ run_blocks-append n (size space - (b + c)) b s
        ∙ (let e : n + (size space - (b + c)) ≡ size space - b = omega arith in
            ap (λ k. run_blocks space func k b s) e)

  module _ (f : ℕ) (r : Range1d) (fs : List ℕ) (rs : List Range1d) where
    abbrev more_blocks : BlockedSpace2d
    more_blocks = record { ranges = r ∷ rs; first_dimension = f ∷ fs }

    abbrev blocks : BlockedSpace2d
    blocks = record { ranges = rs; first_dimension = fs }

    run_blocks-cons :
        (n i : ℕ) (s : S) → run_blocks more_blocks func n (suc i) s ≡ run_blocks blocks func n i s
    unfolding run_blocks get_first_dimension get_range
    run_blocks-cons zero i s = refl
    run_blocks-cons (suc n) i s =
        let first_eq : get_first_dimension more_blocks (suc i) ≡ get_first_dimension blocks i =
          ground arith in
        let range_eq : get_range more_blocks (suc i) ≡ get_range blocks i = ground arith in
        λ k. first_eq k >>= λ first.
        range_eq k >>= λ range. run_blocks-cons n (suc i) (func first range s) k

    run_blocks-head :
        (n : ℕ) (s : S)
        → run_blocks more_blocks func (suc n) 0 s ≡ run_blocks blocks func n 0 (func f r s)
    unfolding run_blocks get_first_dimension get_range
    run_blocks-head n s =
        let first_eq : get_first_dimension more_blocks 0 ≡ some f = ground arith in
        let range_eq : get_range more_blocks 0 ≡ some r = ground arith in
        (λ k. first_eq k >>= λ first.
        range_eq k >>= λ range. run_blocks more_blocks func n 1 (func first range s))
        ∙ run_blocks-cons n 0 (func f r s)

  run_blocks-fold :
      (fs : List ℕ) (rs : List Range1d) (s : S)
      → length fs ≡ length rs
      → run_blocks (record { ranges = rs; first_dimension = fs }) func (length rs) 0 s
        ≡ some (fold_blocks fs rs s)
  unfolding fold_blocks
  run_blocks-fold [] [] s e = unfold run_blocks in refl
  run_blocks-fold [] (r ∷ rs) s e = absurd (omega arith)
  run_blocks-fold (f ∷ fs) [] s e = absurd (omega arith)
  run_blocks-fold (f ∷ fs) (r ∷ rs) s e =
      run_blocks-head f r fs rs (length rs) s ∙ run_blocks-fold fs rs (func f r s) (omega arith)

  -- ParallelFor2d deals every block to one thread, whatever the numbers of threads: with the threads
  -- in turn, it is the run over all blocks in their order, and passes its checks.
  parallel_for_2d-fold :
      (max_threads nthreads : ℕ) (space : BlockedSpace2d) (s : S)
      → length space.first_dimension ≡ length space.ranges
      → parallel_for_2d max_threads space nthreads func s
        ≡ some (fold_blocks space.first_dimension space.ranges s)
  unfolding parallel_for_2d
  parallel_for_2d-fold max_threads nthreads space s same =
      let n = max (min nthreads max_threads) 1 in
      let c = chunk_size (size space) n in
      let (enough, few) = div_up-bounds (size space) n (omega arith) in
      let z = Nat.mul-zero c in
      run_threads-blocks space n n 0 s (omega (arith, z, enough))
      ∙ (let e : size space - c * 0 ≡ size space = omega (arith, z) in
          λ k. run_blocks space func (e k) (z k) s)
      ∙ run_blocks-fold space.first_dimension space.ranges s same

module _ {S : Type 0} (step : ℕ → ℕ → S → S) where
  unfoldable pub fold_cells : List (ℕ × ℕ) → S → S
  fold_cells [] s = s
  fold_cells ((i, j) ∷ cs) s = fold_cells cs (step i j s)

  -- A task that goes over the cells of its block.
  abbrev pub visit : ℕ → Range1d → S → S
  visit first r s = fold_cells (cells first r.begin (r.stop - r.begin)) s

  fold_cells-append :
      (cs ds : List (ℕ × ℕ)) (s : S) → fold_cells (cs ++ ds) s ≡ fold_cells ds (fold_cells cs s)
  unfolding fold_cells
  fold_cells-append [] ds s = refl
  fold_cells-append ((i, j) ∷ cs) ds s = fold_cells-append cs ds (step i j s)

  fold_blocks-cells :
      (fs : List ℕ) (rs : List Range1d) (s : S)
      → fold_blocks visit fs rs s ≡ fold_cells (covered fs rs) s
  unfolding fold_blocks covered
  fold_blocks-cells [] rs s = unfold fold_cells in refl
  fold_blocks-cells (f ∷ fs) [] s = unfold fold_cells in refl
  fold_blocks-cells (f ∷ fs) (r ∷ rs) s =
      fold_blocks-cells fs rs (visit f r s)
      ∙ sym (fold_cells-append (cells f r.begin (r.stop - r.begin)) (covered fs rs) s)

  -- ParallelFor2d over the blocks of a space, with a task that goes over the cells of its block, is
  -- the loop over the rows and the cells of each row, for a positive grain size and any number of
  -- threads; the threads run in turn.
  pub parallel_for_2d-loop :
      (max_threads nthreads dim1 : ℕ) (getter : ℕ → ℕ) (grain_size : ℕ) (s : S)
      → 0 < grain_size
      → (blocked_space dim1 getter grain_size >>= λ space.
          parallel_for_2d max_threads space nthreads visit s)
        ≡ some (fold_cells (all_cells getter dim1 0) s)
  parallel_for_2d-loop max_threads nthreads dim1 getter grain_size s pos =
      let (space, run, covers, same, grained) = blocked_space-covered dim1 getter grain_size pos in
      ap (λ o. o >>= λ sp. parallel_for_2d max_threads sp nthreads visit s) run
      ∙ parallel_for_2d-fold visit max_threads nthreads space s same
      ∙ ap some (
          fold_blocks-cells space.first_dimension space.ranges s
          ∙ ap (λ cs. fold_cells cs s) covers)
