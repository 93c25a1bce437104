-- ===== src/Partition/Offsets.antt =====
-- What CalculateRowOffsets of PartitionBuilder (src/common/row_set.h) writes into the blocks.

use xgboost.Prelude.{
  ℕ, zero, suc, ◌+◌, ◌≡◌, refl, ap, ◌∙◌, List, [], ◌∷◌, ◌++◌, map, Option, some, length, get_or,
  arith, length-map,
}
use xgboost.Partition.{BlockInfo, block, left_offsets, right_offsets}

unfoldable pub total_left : List BlockInfo → ℕ
total_left [] = 0
total_left (b ∷ bs) = b.n_left + total_left bs

unfoldable pub total_right : List BlockInfo → ℕ
total_right [] = 0
total_right (b ∷ bs) = b.n_right + total_right bs

-- The left parts lie one after the other from the place `n` on.
unfoldable pub left_placed : ℕ → List BlockInfo → List BlockInfo
left_placed n [] = []
left_placed n (b ∷ bs) = record b { n_offset_left = n } ∷ left_placed (n + b.n_left) bs

-- The right parts do, `n_left` places further.
unfoldable pub right_placed : ℕ → ℕ → List BlockInfo → List BlockInfo
right_placed n_left n [] = []
right_placed n_left n (b ∷ bs) =
    record b { n_offset_right = n_left + n } ∷ right_placed n_left (n + b.n_right) bs

-- The blocks of a node, first all left parts and then all right parts.
abbrev pub placed : List BlockInfo → List BlockInfo
placed bs = right_placed (total_left bs) 0 (left_placed 0 bs)

-- The memory blocks of all nodes, one after the other.
unfoldable pub all_blocks : List (List BlockInfo) → List (Option BlockInfo)
all_blocks [] = []
all_blocks (g ∷ gs) = map some g ++ all_blocks gs

-- The offsets from the `i`-th on are those of the groups' first blocks.
abbrev pub Offsets : List ℕ → ℕ → ℕ → List (List BlockInfo) → Type 0
Offsets offsets i b [] = get_or offsets i 0 ≡ b
Offsets offsets i b (g ∷ gs) = (get_or offsets i 0 ≡ b) × Offsets offsets (suc i) (b + length g) gs

left_offsets-cons :
    (x : Option BlockInfo) (count j : ℕ) (bs : List (Option BlockInfo)) (n : ℕ)
    → left_offsets count (suc j) (x ∷ bs) n
      ≡ (x ∷ (left_offsets count j bs n).0, (left_offsets count j bs n).1)
unfolding left_offsets block
left_offsets-cons x zero j bs n = refl
left_offsets-cons x (suc count) j bs n = left_offsets-cons x count (suc j) _ _

right_offsets-cons :
    (n_left : ℕ) (x : Option BlockInfo) (count j : ℕ) (bs : List (Option BlockInfo)) (n : ℕ)
    → right_offsets n_left count (suc j) (x ∷ bs) n
      ≡ (x ∷ (right_offsets n_left count j bs n).0, (right_offsets n_left count j bs n).1)
unfolding right_offsets block
right_offsets-cons n_left x zero j bs n = refl
right_offsets-cons n_left x (suc count) j bs n = right_offsets-cons n_left x count (suc j) _ _

pub left_offsets-placed :
    (done : List (Option BlockInfo)) (bs : List BlockInfo) (rest : List (Option BlockInfo)) (n : ℕ)
    → left_offsets (length bs) (length done) (done ++ (map some bs ++ rest)) n
      ≡ (done ++ (map some (left_placed n bs) ++ rest), n + total_left bs)
unfolding left_offsets left_placed total_left block
left_offsets-placed [] [] rest n = ap (λ k. (rest, k)) (omega arith)
left_offsets-placed [] (b ∷ bs) rest n =
    left_offsets-cons (some (record b { n_offset_left = n })) (length bs) 0 (map some bs ++ rest)
      (n + b.n_left)
    ∙ ap (λ p. (some (record b { n_offset_left = n }) ∷ p.0, p.1))
        (left_offsets-placed [] bs rest (n + b.n_left))
    ∙ ap
        (λ k. (
          some (record b { n_offset_left = n })
              ∷ (map some (left_placed (n + b.n_left) bs) ++ rest),
          k,
        ))
        (omega arith)
left_offsets-placed (x ∷ done) bs rest n =
    left_offsets-cons x (length bs) (length done) (done ++ (map some bs ++ rest)) n
    ∙ ap (λ p. (x ∷ p.0, p.1)) (left_offsets-placed done bs rest n)

pub right_offsets-placed :
    (n_left : ℕ) (done : List (Option BlockInfo)) (bs : List BlockInfo)
    (rest : List (Option BlockInfo)) (n : ℕ)
    → right_offsets n_left (length bs) (length done) (done ++ (map some bs ++ rest)) n
      ≡ (done ++ (map some (right_placed n_left n bs) ++ rest), n + total_right bs)
unfolding right_offsets right_placed total_right block
right_offsets-placed n_left [] [] rest n = ap (λ k. (rest, k)) (omega arith)
right_offsets-placed n_left [] (b ∷ bs) rest n =
    right_offsets-cons n_left (some (record b { n_offset_right = n_left + n })) (length bs) 0
      (map some bs ++ rest) (n + b.n_right)
    ∙ ap (λ p. (some (record b { n_offset_right = n_left + n }) ∷ p.0, p.1))
        (right_offsets-placed n_left [] bs rest (n + b.n_right))
    ∙ ap
        (λ k. (
          some (record b { n_offset_right = n_left + n })
              ∷ (map some (right_placed n_left (n + b.n_right) bs) ++ rest),
          k,
        ))
        (omega arith)
right_offsets-placed n_left (x ∷ done) bs rest n =
    right_offsets-cons n_left x (length bs) (length done) (done ++ (map some bs ++ rest)) n
    ∙ ap (λ p. (x ∷ p.0, p.1)) (right_offsets-placed n_left done bs rest n)

pub length-left_placed : (n : ℕ) (bs : List BlockInfo) → length (left_placed n bs) ≡ length bs
unfolding left_placed
length-left_placed n [] = refl
length-left_placed n (b ∷ bs) = ap suc (length-left_placed (n + b.n_left) bs)

pub length-right_placed :
    (n_left n : ℕ) (bs : List BlockInfo) → length (right_placed n_left n bs) ≡ length bs
unfolding right_placed
length-right_placed n_left n [] = refl
length-right_placed n_left n (b ∷ bs) = ap suc (length-right_placed n_left (n + b.n_right) bs)

pub total_right-left_placed :
    (n : ℕ) (bs : List BlockInfo) → total_right (left_placed n bs) ≡ total_right bs
unfolding left_placed total_right
total_right-left_placed n [] = refl
total_right-left_placed n (b ∷ bs) =
    ap (λ k. b.n_right + k) (total_right-left_placed (n + b.n_left) bs)

pub length-placed : (g : List BlockInfo) → length (placed g) ≡ length g
length-placed g = length-right_placed (total_left g) 0 (left_placed 0 g) ∙ length-left_placed 0 g

pub length-blocks :
    (g : List BlockInfo) → length (map {B = Option BlockInfo} some (placed g)) ≡ length g
length-blocks g = length-map (placed g) some ∙ length-placed g
