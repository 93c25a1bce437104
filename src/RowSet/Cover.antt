-- ===== src/RowSet/Cover.antt =====
-- The invariant of RowSetCollection (src/common/row_set.h) on the live nodes' segments.
use mathlib.Core.List.{Nodup, Nodup-cons, Nodup-nil, not-mem-nil}
use xgboost.Prelude.{
  ℕ, zero, suc, ◌+◌, ◌-◌, ◌≤◌, ◌<◌, ◌≡◌, refl, sym, ap, ◌∙◌, List, [], ◌∷◌, ◌++◌, Option, none,
  some, length, take, drop, arith, take-append-drop,
}
use xgboost.RowSet.{Elem, RowSetCollection, elem_at, elem_of, init}

-- The rows of a segment.
abbrev pub segment : List ℕ → Elem → List ℕ
segment rows e = from e.begin
  where
    from : Option ℕ → List ℕ
    from none = []
    from (some b) = take (e.stop - b) (drop b rows)

-- The rows of the nodes, in their order.
unfoldable pub rows_of : RowSetCollection → List ℕ → List ℕ
rows_of c [] = []
rows_of c (n ∷ ns) = segment c.row_indices (elem_at c n) ++ rows_of c ns

-- The nodes' segments lead from the place `b` to the end of the rows.
abbrev pub Chain : RowSetCollection → ℕ → List ℕ → Type 0
Chain c b [] = b ≡ length c.row_indices
Chain c b (n ∷ ns) =
    (e : ℕ) × (elem_at c n ≡ elem_of b e n)
    × (n < length c.elem_of_each_node)
    × (b ≤ e)
    × Chain c e ns

pub record Covers (c : RowSetCollection) (live : List ℕ) : Type 0 where
  pub chain : Chain c 0 live
  pub distinct : Nodup live

drop_nil : (n : ℕ) → drop {A = ℕ} n [] ≡ []
drop_nil zero = refl
drop_nil (suc n) = refl

pub drop-drop : (b n : ℕ) (xs : List ℕ) → drop (b + n) xs ≡ drop n (drop b xs)
drop-drop zero n xs = let e : zero + n ≡ n = omega arith in ap (λ k. drop k xs) e
drop-drop (suc b) n [] = drop_nil (suc b + n) ∙ sym (drop_nil n)
drop-drop (suc b) n (x ∷ xs) =
    let e : suc b + n ≡ suc (b + n) = omega arith in ap (λ k. drop k (x ∷ xs)) e ∙ drop-drop b n xs

take-append-drop_at :
    (b e : ℕ) (xs : List ℕ) → b ≤ e → take (e - b) (drop b xs) ++ drop e xs ≡ drop b xs
take-append-drop_at b e xs le =
    let there : e ≡ b + (e - b) = omega arith in
    ap (λ k. take (e - b) (drop b xs) ++ drop k xs) there
    ∙ ap (λ ys. take (e - b) (drop b xs) ++ ys) (drop-drop b (e - b) xs)
    ∙ take-append-drop (e - b) (drop b xs)

drop-length : (xs : List ℕ) → drop (length xs) xs ≡ []
drop-length [] = refl
drop-length (x ∷ xs) = drop-length xs

Chain-rows :
    (c : RowSetCollection) (b : ℕ) (ns : List ℕ)
    → Chain c b ns
    → rows_of c ns ≡ drop b c.row_indices
unfolding rows_of
Chain-rows c b [] e = sym (drop-length c.row_indices) ∙ ap (λ k. drop k c.row_indices) (sym e)
Chain-rows c b (n ∷ ns) (e, at, inside, le, rest) =
    rw (at, Chain-rows c e ns rest) (take-append-drop_at b e c.row_indices le)

-- If the live nodes cover the rows, then their rows, in turn, are the vector of rows.
pub Covers-rows :
    {c : RowSetCollection} {live : List ℕ} → Covers c live → rows_of c live ≡ c.row_indices
Covers-rows {c} {live} x = Chain-rows c 0 live x.chain

-- Init of a collection without nodes succeeds, and gives the root all rows.
pub init-Covers :
    (c : RowSetCollection)
    → length c.elem_of_each_node ≡ 0
    → (c' : RowSetCollection) × (init c ≡ some c')
      × (c'.row_indices ≡ c.row_indices)
      × Covers c' (0 ∷ [])
unfolding init elem_at
init-Covers c empty = (
  record c { elem_of_each_node = elem_of 0 (length c.row_indices) 0 ∷ [] },
  rw (empty) refl,
  refl,
  record {
    chain = (length c.row_indices, refl, omega arith, omega arith, refl);
    distinct = Nodup-cons.1 (not-mem-nil, Nodup-nil);
  },
)
