-- ===== src/Threading.antt =====
-- src/common/threading_utils.h: a two-dimensional space of work cut into blocks, and its blocks dealt
-- out to threads. `none` is a failed CHECK.
pub mod Blocks
pub mod Deal
mod Tests
use xgboost.Prelude.{
  ℕ, zero, suc, ◌+◌, ◌-◌, ◌*◌, ◌/◌, ◌%◌, Bool, true, false, not, List, [], ◌∷◌, ◌++◌, Option, none,
  some, ◌==◌, ltb, if◌then◌else◌, min, max, length, get_elem?,
}
use xgboost.Prelude.Check.{◌>>=◌, ◌>>◌, check}

pub record Range1d : Type 0 where
  pub begin : ℕ
  pub stop : ℕ

-- The constructor of Range1d.
unfoldable pub make_range : ℕ → ℕ → Option Range1d
make_range begin stop = check (ltb begin stop) >> some (record { begin = begin; stop = stop })

pub record BlockedSpace2d : Type 0 where
  pub ranges : List Range1d
  pub first_dimension : List ℕ

unfoldable pub add_block : ℕ → ℕ → ℕ → BlockedSpace2d → Option BlockedSpace2d
add_block first_dimension begin stop space = do
  range ← make_range begin stop
  some (record {
    ranges = space.ranges ++ (range ∷ []);
    first_dimension = space.first_dimension ++ (first_dimension ∷ []);
  })

-- n / d + !!(n % d)
unfoldable pub div_up : ℕ → ℕ → ℕ
div_up n d = n / d + (if n % d == 0 then 0 else 1)

-- The loop over the blocks of the row `i`, `count` of them from `iblock` on.
unfoldable pub add_row : ℕ → ℕ → ℕ → ℕ → ℕ → BlockedSpace2d → Option BlockedSpace2d
add_row grain_size i size zero iblock space = some space
add_row grain_size i size (suc count) iblock space = do
  let begin = iblock * grain_size
  space' ← add_block i begin (min (begin + grain_size) size) space
  add_row grain_size i size count (suc iblock) space'

unfoldable pub add_rows : ℕ → (ℕ → ℕ) → ℕ → ℕ → BlockedSpace2d → Option BlockedSpace2d
add_rows grain_size getter zero i space = some space
add_rows grain_size getter (suc count) i space = do
  space' ← add_row grain_size i (getter i) (div_up (getter i) grain_size) 0 space
  add_rows grain_size getter count (suc i) space'

-- The constructor. A grain size of 0 divides by 0 in the source.
unfoldable pub blocked_space : ℕ → (ℕ → ℕ) → ℕ → Option BlockedSpace2d
blocked_space dim1 getter_size_dim2 grain_size =
    add_rows grain_size getter_size_dim2 dim1 0 (record { ranges = []; first_dimension = [] })

abbrev pub size : BlockedSpace2d → ℕ
size space = length space.ranges

unfoldable pub get_first_dimension : BlockedSpace2d → ℕ → Option ℕ
get_first_dimension space i =
    check (ltb i (length space.first_dimension)) >> get_elem? space.first_dimension i

unfoldable pub get_range : BlockedSpace2d → ℕ → Option Range1d
get_range space i = check (ltb i (length space.ranges)) >> get_elem? space.ranges i

-- A thread's loop, over the `count` blocks from `i` on. `func` acts on a state.
unfoldable pub run_blocks {ℓ} :
    {S : Type ℓ} → BlockedSpace2d → (ℕ → Range1d → S → S) → ℕ → ℕ → S → Option S
run_blocks space func zero i s = some s
run_blocks space func (suc count) i s = do
  first ← get_first_dimension space i
  range ← get_range space i
  run_blocks space func count (suc i) (func first range s)

abbrev pub chunk_size : ℕ → ℕ → ℕ
chunk_size num_blocks nthreads = div_up num_blocks nthreads

-- The threads from `tid` on, `count` of them, one after the other.
unfoldable pub run_threads {ℓ} :
    {S : Type ℓ} → BlockedSpace2d → (ℕ → Range1d → S → S) → ℕ → ℕ → ℕ → S → Option S
run_threads space func nthreads zero tid s = some s
run_threads space func nthreads (suc count) tid s = do
  let begin = chunk_size (size space) nthreads * tid
  let stop = min (begin + chunk_size (size space) nthreads) (size space)
  s' ← run_blocks space func (stop - begin) begin s
  run_threads space func nthreads count (suc tid) s'

-- ParallelFor2d. `max_threads` is what OpenMP's omp_get_max_threads returns; a negative `nthreads` acts
-- as 0 does.
unfoldable pub parallel_for_2d {ℓ} :
    {S : Type ℓ} → ℕ → BlockedSpace2d → ℕ → (ℕ → Range1d → S → S) → S → Option S
parallel_for_2d max_threads space nthreads func s =
    let n = max (min nthreads max_threads) 1 in run_threads space func n n 0 s
