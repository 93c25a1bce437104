-- ===== src/RowSet.antt =====
-- The rows of each tree node: RowSetCollection of src/common/row_set.h. `none` is a failed CHECK.
pub mod Cover
pub mod Split
mod Tests
use xgboost.Prelude.{
  ℕ, zero, suc, ◌+◌, ◌-◌, Bool, true, false, List, [], ◌∷◌, Option, none, some, ◌&&◌, ◌==◌, leb,
  ltb, if◌then◌else◌, length, get_or, set, resize, take, drop, not,
}
use xgboost.Prelude.Check.{◌>>=◌, ◌>>◌, check}

-- A pointer is the place in `row_indices_` that it points to; `begin` is `none` for a null pointer,
-- and the arbitrary address of an empty collection is the place 0. The node id -1 is `none`.
pub record Elem : Type 0 where
  pub begin : Option ℕ
  pub stop : ℕ
  pub node_id : Option ℕ

pub record RowSetCollection : Type 0 where
  pub row_indices : List ℕ
  pub elem_of_each_node : List Elem

abbrev pub no_elem : Elem
no_elem = record { begin = none; stop = 0; node_id = none }

abbrev place : Option ℕ → ℕ
place none = 0
place (some b) = b

-- Size
unfoldable pub size : Elem → ℕ
size e = e.stop - place e.begin

-- operator[], which is undefined out of range.
unfoldable pub elem_at : RowSetCollection → ℕ → Elem
elem_at c node_id = get_or c.elem_of_each_node node_id no_elem

-- The constant operator[].
unfoldable pub get : RowSetCollection → ℕ → Option Elem
get c node_id = (elem_at c node_id).begin >>= λ b. some (elem_at c node_id)

abbrev pub clear : RowSetCollection → RowSetCollection
clear c = record c { elem_of_each_node = [] }

abbrev pub elem_of : ℕ → ℕ → ℕ → Elem
elem_of begin stop node_id = record { begin = some begin; stop = stop; node_id = some node_id }

unfoldable pub init : RowSetCollection → Option RowSetCollection
init c =
    check (length c.elem_of_each_node == 0)
    >> some (record c { elem_of_each_node = elem_of 0 (length c.row_indices) 0 ∷ [] })

-- `if (id >= v.size()) v.resize(id + 1, ...)`
abbrev pub grow_to : ℕ → List Elem → List Elem
grow_to id v = if leb (length v) id then resize (id + 1) no_elem v else v

-- The writes of AddSplit.
unfoldable pub write_split : RowSetCollection → ℕ → ℕ → ℕ → ℕ → ℕ → ℕ → RowSetCollection
write_split c node_id left_node_id right_node_id begin n_left stop =
    let v0 = grow_to right_node_id (grow_to left_node_id c.elem_of_each_node) in
    let v1 = set v0 left_node_id (elem_of begin (begin + n_left) left_node_id) in
    let v2 = set v1 right_node_id (elem_of (begin + n_left) stop right_node_id) in
    record c { elem_of_each_node = set v2 node_id no_elem }

unfoldable pub add_split : RowSetCollection → ℕ → ℕ → ℕ → ℕ → ℕ → Option RowSetCollection
add_split c node_id left_node_id right_node_id n_left n_right = do
  let e = elem_at c node_id
  begin ← e.begin
  check (n_left + n_right == size e)
  check (leb (begin + n_left) e.stop)
  check (begin + n_left + n_right == e.stop)
  some (write_split c node_id left_node_id right_node_id begin n_left e.stop)
