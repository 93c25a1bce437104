-- ===== src/Group.antt =====
-- ParallelGroupBuilder (src/common/group_data.h): groups the values of (key, value) pairs by key, with the
-- counts and then the places kept for each thread. Sizes stay below 2^64. An index out of range of a
-- vector is `none`.
pub mod Sums
pub mod Spec
pub mod Budget
pub mod Storage
pub mod Push
pub mod Slices
pub mod Stored
pub mod Grouped
pub mod Build
mod Tests
use xgboost.Prelude.{
  ℕ, zero, suc, ◌+◌, ◌-◌, ◌*◌, ◌/◌, Bool, true, false, List, [], ◌∷◌, Option, none, some, ltb, leb,
  if◌then◌else◌, min, length, get_or, get_elem?, set, resize,
}
use xgboost.Prelude.Check.{◌>>=◌, ◌>>◌, check}

pub record ParallelGroupBuilder {ℓ} (V : Type ℓ) : Type ℓ where
  pub rptr : List ℕ
  pub data_vec : List V
  pub thread_rptr : List (List ℕ)
  pub base_row_offset : ℕ
  pub thread_displacement : ℕ

-- v.back(), or 0 where v is empty.
abbrev pub back : List ℕ → ℕ
back xs = get_or xs (length xs - 1) 0

-- The threads' vectors from `i` on, `count` of them, get the size `n`.
unfoldable pub resize_threads : ℕ → ℕ → ℕ → List (List ℕ) → List (List ℕ)
resize_threads n zero i threads = threads
resize_threads n (suc count) i threads =
    resize_threads n count (suc i) (set threads i (resize n 0 (get_or threads i [])))

-- A thread's vector gets `n` places at least.
unfoldable pub grow_trptr : ℕ → List ℕ → List ℕ
grow_trptr n trptr = if ltb (length trptr) n then resize n 0 trptr else trptr

module _ {ℓ} {V : Type ℓ} (is_row_major : Bool) where
  -- InitBudget, with one thread at least.
  unfoldable pub init_budget : ℕ → ℕ → ParallelGroupBuilder V → ParallelGroupBuilder V
  init_budget max_key nthread b =
      let full_size = if is_row_major then max_key else max_key - min b.base_row_offset max_key in
      let displacement = if is_row_major then full_size / nthread else 0 in
      let thread_size = if is_row_major then displacement else full_size in
      let last_size =
        if is_row_major then full_size - (nthread - 1) * displacement else full_size in
      let threads = resize_threads thread_size (nthread - 1) 0 (resize nthread [] b.thread_rptr) in
      record b {
        thread_displacement = displacement;
        thread_rptr = resize_threads last_size 1 (nthread - 1) threads;
      }

  -- The offset of a key in the vector of a thread. For a smaller key the difference wraps around, to an
  -- index behind every vector.
  unfoldable pub offset_key : ParallelGroupBuilder V → ℕ → ℕ → Option ℕ
  offset_key b key thread =
      let first =
        if is_row_major
        then b.base_row_offset + thread * b.thread_displacement
        else b.base_row_offset in
      check (leb first key) >> some (key - first)

  unfoldable pub add_budget : ℕ → ℕ → ℕ → ParallelGroupBuilder V → Option (ParallelGroupBuilder V)
  add_budget key thread nelem b = do
    offset ← offset_key b key thread
    trptr ← get_elem? b.thread_rptr thread
    let grown = grow_trptr (offset + 1) trptr
    some (record b {
      thread_rptr = set b.thread_rptr thread (set grown offset (get_or grown offset 0 + nelem));
    })

  unfoldable pub push : ℕ → V → ℕ → ParallelGroupBuilder V → Option (ParallelGroupBuilder V)
  push key value thread b = do
    offset ← offset_key b key thread
    trptr ← get_elem? b.thread_rptr thread
    rp ← get_elem? trptr offset
    _ ← check (ltb rp (length b.data_vec))
    some (record b {
      data_vec = set b.data_vec rp value;
      thread_rptr = set b.thread_rptr thread (set trptr offset (rp + 1));
    })

-- The loop over the threads for the key `i`: the counts there become places, from `count` past `behind`
-- on, and are added to `count`.
unfoldable pub assign : ℕ → ℕ → ℕ → ℕ → List (List ℕ) → List (List ℕ) × ℕ
assign base i behind count [] = ([], count)
assign base i behind count (trptr ∷ threads) =
    let here = ltb i (length trptr + base) in
    let thread_count = if here then get_or trptr (i - base) 0 else 0 in
    let (threads', total) = assign base i behind (count + thread_count) threads in
    ((if here then set trptr (i - base) (count + behind) else trptr) ∷ threads', total)

-- The loop over the keys, `n` of them from `i` on.
unfoldable pub place_keys : ℕ → ℕ → ℕ → ℕ → List ℕ → List (List ℕ) → List ℕ × List (List ℕ)
place_keys base zero i count rptr threads = (rptr, threads)
place_keys base (suc n) i count rptr threads =
    let (threads', total) = assign base i (back rptr) count threads in
    place_keys base n (suc i) total (set rptr (i + 1) (get_or rptr (i + 1) 0 + total)) threads'

-- The loop that gives `rptr` room for the keys of each thread.
unfoldable pub grow_rptr : ℕ → ℕ → List (List ℕ) → List ℕ → List ℕ
grow_rptr base fill [] rptr = rptr
grow_rptr base fill (trptr ∷ threads) rptr = grow_rptr base fill threads (
    if leb (length rptr) (length trptr + base)
    then resize (length trptr + base + 1) fill rptr
    else rptr)

unfoldable pub expected_rows : List (List ℕ) → ℕ
expected_rows [] = 0
expected_rows (trptr ∷ threads) = length trptr + expected_rows threads

-- The row-major loops: `fill` and the rows of a thread, then the threads. What is kept is `count`,
-- `offset_idx` and `rptr`.
unfoldable pub place_row : ℕ → List ℕ → ℕ × ℕ × List ℕ → List ℕ × ℕ × ℕ × List ℕ
place_row fill [] (count, offset_idx, rptr) = ([], count, offset_idx, rptr)
place_row fill (thread_count ∷ trptr) (count, offset_idx, rptr) =
    let total = count + thread_count in
    let more = ltb offset_idx (length rptr) in
    let moved = if more then set rptr offset_idx (get_or rptr offset_idx 0 + total) else rptr in
    let (trptr', count', idx', rptr') =
      place_row fill trptr (total, if more then offset_idx + 1 else offset_idx, moved) in
    ((count + fill) ∷ trptr', count', idx', rptr')

unfoldable pub place_rows : ℕ → List (List ℕ) → ℕ × ℕ × List ℕ → List ℕ × List (List ℕ)
place_rows fill [] (count, offset_idx, rptr) = (rptr, [])
place_rows fill (trptr ∷ threads) kept =
    let (trptr', count, offset_idx, rptr) = place_row fill trptr kept in
    let (rptr', threads') = place_rows fill threads (count, offset_idx, rptr) in
    (rptr', trptr' ∷ threads')

module _ {ℓ} {V : Type ℓ} (default : V) where
  -- The end of InitStorage: the data gets its size.
  abbrev with_places : ParallelGroupBuilder V → List ℕ × List (List ℕ) → ParallelGroupBuilder V
  with_places b (rptr, threads) = record b {
    rptr = rptr;
    thread_rptr = threads;
    data_vec = resize (back rptr) default b.data_vec;
  }

  -- InitStorage, of which `default` is a value's initial state.
  unfoldable pub init_storage : Bool → ParallelGroupBuilder V → ParallelGroupBuilder V
  init_storage true b =
      let base = b.base_row_offset in
      let fill = back b.rptr in
      let rptr = resize (expected_rows b.thread_rptr + base + 1) fill b.rptr in
      with_places b (place_rows fill b.thread_rptr (0, base + 1, rptr))
  init_storage false b =
      let base = b.base_row_offset in
      let rptr = grow_rptr base (back b.rptr) b.thread_rptr b.rptr in
      with_places b (place_keys base (length rptr - 1 - base) base 0 rptr b.thread_rptr)
