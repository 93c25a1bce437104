-- ===== src/Partition/Init.antt =====
-- Init of PartitionBuilder (src/common/row_set.h): the offsets that CalculateRowOffsets reads.
use xgboost.Prelude.{
  ℕ, zero, suc, ◌+◌, ◌≡◌, refl, ap, subst, List, [], ◌∷◌, length, resize, arith, length-resize,
  Bool-cases, inl, inr, ltb,
}
use xgboost.Partition.{BlockInfo, PartitionBuilder, offsets_from, init}
use xgboost.Partition.Offsets.{Offsets}

-- `func` counts the blocks of each group, from the `i`-th group on.
abbrev pub Counts : (ℕ → ℕ) → ℕ → List (List BlockInfo) → Type 0
Counts func i [] = Unit
Counts func i (g ∷ gs) = (func i ≡ length g) × Counts func (suc i) gs

Offsets-cons :
    (x : ℕ) (offsets : List ℕ) (i b : ℕ) (gs : List (List BlockInfo))
    → Offsets offsets i b gs
    → Offsets (x ∷ offsets) (suc i) b gs
Offsets-cons x offsets i b [] h = h
Offsets-cons x offsets i b (g ∷ gs) h = (h.0, Offsets-cons x offsets (suc i) (b + length g) gs h.1)

offsets_from-Offsets :
    (func : ℕ → ℕ) (i prev : ℕ) (gs : List (List BlockInfo))
    → Counts func i gs
    → Offsets (prev ∷ offsets_from func (length gs) i prev) 0 prev gs
unfolding offsets_from
offsets_from-Offsets func i prev [] h = refl
offsets_from-Offsets func i prev (g ∷ gs) (here, rest) = (
  refl,
  Offsets-cons prev ((prev + func i) ∷ offsets_from func (length gs) (suc i) (prev + func i)) 0
      (prev + length g) gs
      (subst
        (λ n.
          Offsets ((prev + func i) ∷ offsets_from func (length gs) (suc i) (prev + func i)) 0
            (prev + n) gs)
        here (offsets_from-Offsets func (suc i) (prev + func i) gs rest)),
)

length-offsets_from : (func : ℕ → ℕ) (n i prev : ℕ) → length (offsets_from func n i prev) ≡ n
unfolding offsets_from
length-offsets_from func zero i prev = refl
length-offsets_from func (suc n) i prev =
    ap suc (length-offsets_from func n (suc i) (prev + func i))

-- Init for as many nodes as there are groups of blocks, with the number of each group's blocks, makes
-- the offsets those of the groups' first blocks, one more for the end, and one pair of totals for each
-- node.
pub init-Offsets :
    (p : PartitionBuilder) (n_tasks : ℕ) (func : ℕ → ℕ) (gs : List (List BlockInfo))
    → Counts func 0 gs
    → Offsets (init p n_tasks (length gs) func).blocks_offsets 0 0 gs
      × (length (init p n_tasks (length gs) func).blocks_offsets ≡ length gs + 1)
      × (length (init p n_tasks (length gs) func).left_right_nodes_sizes ≡ length gs)
unfolding init
init-Offsets p n_tasks func gs counts = elim (Bool-cases (ltb p.max_n_tasks n_tasks)) [
  | inl e ↦ rw (e) (offsets, count, sizes)
  | inr e ↦ rw (e) (offsets, count, sizes)
]
  where
    offsets : Offsets (0 ∷ offsets_from func (length gs) 0 0) 0 0 gs
    offsets = offsets_from-Offsets func 0 0 gs counts

    count : length (0 ∷ offsets_from func (length gs) 0 0) ≡ length gs + 1
    count = omega (arith, length-offsets_from func (length gs) 0 0)

    sizes : length (resize (length gs) (0, 0) p.left_right_nodes_sizes) ≡ length gs
    sizes = length-resize (length gs) (0, 0) p.left_right_nodes_sizes
