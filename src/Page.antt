-- ===== src/Page.antt =====
-- SparsePage, the rows of a data set in CSR form (include/xgboost/data.h, src/data/data.cc). An entry
-- beyond the offsets is read as 0, which a well-formed page never does. `none` is a failed CHECK.
pub mod Threads
pub mod Transpose
pub mod Rows
pub mod Push
pub mod Merge
mod Tests
use xgboost.Prelude.{
  ℕ, zero, suc, ◌+◌, ◌-◌, ◌%◌, ◌^◌, ◌==◌, Bool, true, false, List, [], ◌∷◌, ◌++◌, map, Option, none,
  some, ltb, leb, if◌then◌else◌, length, get_or, set, resize, replicate, take, drop,
}
use xgboost.Prelude.Check.{◌>>=◌, ◌>>◌, check}
use xgboost.Float.{Float}
use xgboost.Tree.FVec.{Entry}
use xgboost.Group.{back}
use xgboost.Group.Spec.{Call}
use xgboost.Group.Grouped.{build}

pub record SparsePage (F : Float) : Type 0 where
  pub offset : List ℕ
  pub data_vec : List (Entry F)
  pub base_rowid : ℕ

-- The loop of Push, from the row `i` of the batch on, `count` of them.
unfoldable pub push_offsets : ℕ → ℕ → List ℕ → ℕ → ℕ → List ℕ → List ℕ
push_offsets top begin batch_offset zero i offset = offset
push_offsets top begin batch_offset (suc count) i offset =
    push_offsets top begin batch_offset count (suc i)
      (set offset (i + begin) (top + get_or batch_offset (i + 1) 0))

module _ {F : Float} where
  -- Clear.
  abbrev pub clear : SparsePage F
  clear = record { offset = 0 ∷ []; data_vec = []; base_rowid = 0 }

  -- Size
  abbrev pub size : SparsePage F → ℕ
  size page = length page.offset - 1

  -- The view's operator[].
  unfoldable pub inst : SparsePage F → ℕ → List (Entry F)
  inst page i =
      take (get_or page.offset (i + 1) 0 - get_or page.offset i 0)
        (drop (get_or page.offset i 0) page.data_vec)

  -- The rows from `i` on, `count` of them.
  unfoldable pub insts : SparsePage F → ℕ → ℕ → List (List (Entry F))
  insts page zero i = []
  insts page (suc count) i = inst page i ∷ insts page count (suc i)

  module _ {A : Type 0} (tid : ℕ → ℕ) (f : ℕ → Entry F → A) where
    -- The calls for the entries of the row `i`, by the thread that has the row.
    unfoldable pub row_calls : ℕ → List (Entry F) → List (Call A)
    row_calls i [] = []
    row_calls i (e ∷ row) = record { key = e.index; thread = tid i; item = f i e } ∷ row_calls i row

    unfoldable pub calls : ℕ → List (List (Entry F)) → List (Call A)
    calls i [] = []
    calls i (row ∷ rows) = row_calls i row ++ calls (suc i) rows

  abbrev pub no_entry : Entry F
  no_entry = record { index = 0; fvalue = F.zero }

  -- Entry(base_rowid + i, entry.fvalue)
  abbrev pub transposed_entry : SparsePage F → ℕ → Entry F → Entry F
  transposed_entry page i e = record { index = (page.base_rowid + i) % 2 ^ 32; fvalue = e.fvalue }

  -- GetTranspose, with `nthread` threads, of which `tid i` has the row `i` in both loops.
  unfoldable pub get_transpose : ℕ → ℕ → (ℕ → ℕ) → SparsePage F → Option (SparsePage F)
  get_transpose num_columns nthread tid page = do
    let rows = insts page (size page) 0
    b ←
        build false no_entry (0 ∷ []) [] 0 num_columns nthread (calls tid (λ i e. 1) 0 rows)
          (calls tid (transposed_entry page) 0 rows)
    some (record { offset = b.rptr; data_vec = b.data_vec; base_rowid = 0 })

  -- memcpy of `xs` to the place `at`.
  unfoldable pub copy_at : ℕ → List (Entry F) → List (Entry F) → List (Entry F)
  copy_at at xs to = take at to ++ xs ++ drop (at + length xs) to

  -- Push of a page.
  unfoldable pub push : SparsePage F → SparsePage F → SparsePage F
  push batch page =
      let top = back page.offset in
      let room = resize (top + length batch.data_vec) no_entry page.data_vec in
      let begin = length page.offset in
      record page {
        data_vec = copy_at top batch.data_vec room;
        offset =
            push_offsets top begin batch.offset (size batch) 0
              (resize (begin + size batch) 0 page.offset);
      }

  -- The loop of PushCSC, from the column `i` on, `count` of them: the vectors `data`, `offset`, and `beg`.
  unfoldable pub push_columns :
      SparsePage F
      → SparsePage F
      → ℕ
      → ℕ
      → ℕ
      → List (Entry F)
      → List ℕ
      → Option (List (Entry F) × List ℕ)
  push_columns batch page zero i beg entries offset = some (entries, offset)
  push_columns batch page (suc count) i beg entries offset = do
    _ ← check (leb beg (length entries))
    let self_row = inst page i
    let entries1 = copy_at beg self_row entries
    let beg1 = beg + length self_row
    _ ← check (leb beg1 (length entries1))
    let other_row = inst batch i
    let entries2 = copy_at beg1 other_row entries1
    let beg2 = beg1 + length other_row
    _ ← check (ltb (i + 1) (length offset))
    push_columns batch page count (suc i) beg2 entries2 (set offset (i + 1) beg2)

  -- PushCSC.
  unfoldable pub push_csc : SparsePage F → SparsePage F → Option (SparsePage F)
  push_csc batch page =
      let n = length batch.offset in
      if length batch.data_vec == 0
      then some page
      else if length page.data_vec == 0
      then some (record page { data_vec = batch.data_vec; offset = batch.offset })
      else (check (length page.offset == n)
          >> (push_columns batch page (n - 1) 0 0
                (replicate (length page.data_vec + length batch.data_vec) no_entry)
                (set (replicate n 0) 0 0)
              >>= λ w. some (record page { data_vec = w.0; offset = w.1 })))
