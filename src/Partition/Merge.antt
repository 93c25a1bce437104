-- ===== src/Partition/Merge.antt =====
-- MergeToArray of PartitionBuilder (src/common/row_set.h) over the blocks of a node.
use mathlib.Core.List.{append_assoc, append-nil}
use xgboost.Prelude.{
  ℕ, zero, suc, ◌+◌, ◌≤◌, ◌≡◌, refl, sym, ap, ◌∙◌, List, [], ◌∷◌, ◌++◌, length, set, take, drop,
  arith, length-append, length-take, length-drop, take-append-drop,
}
use xgboost.Partition.{BlockInfo, copy_to, merge_block}
use xgboost.Partition.Offsets.{total_left, total_right, left_placed, right_placed, placed}

abbrev left_part : BlockInfo → List ℕ
left_part b = take b.n_left b.left_data

abbrev right_part : BlockInfo → List ℕ
right_part b = take b.n_right b.right_data

unfoldable pub lefts : List BlockInfo → List ℕ
lefts [] = []
lefts (b ∷ bs) = left_part b ++ lefts bs

unfoldable pub rights : List BlockInfo → List ℕ
rights [] = []
rights (b ∷ bs) = right_part b ++ rights bs

-- Each block holds as many elements as its counts say.
abbrev pub Filled : List BlockInfo → Type 0
Filled [] = Unit
Filled (b ∷ bs) = (b.n_left ≤ length b.left_data) × (b.n_right ≤ length b.right_data) × Filled bs

unfoldable pub merge_all : List BlockInfo → List ℕ → List ℕ
merge_all [] rows = rows
merge_all (b ∷ bs) rows = merge_all bs (merge_block b rows)

copy_to-cons :
    (x : ℕ) (ys : List ℕ) (dst : ℕ) (xs : List ℕ)
    → copy_to ys (suc dst) (x ∷ xs) ≡ x ∷ copy_to ys dst xs
unfolding copy_to
copy_to-cons x [] dst xs = refl
copy_to-cons x (y ∷ ys) dst xs = copy_to-cons x ys (suc dst) (set xs dst y)

copy_to-past :
    (pre ys : List ℕ) (dst : ℕ) (xs : List ℕ)
    → copy_to ys (length pre + dst) (pre ++ xs) ≡ pre ++ copy_to ys dst xs
copy_to-past [] ys dst xs = let e : 0 + dst ≡ dst = omega arith in ap (λ d. copy_to ys d xs) e
copy_to-past (x ∷ pre) ys dst xs =
    let e : suc (length pre) + dst ≡ suc (length pre + dst) = omega arith in
    ap (λ d. copy_to ys d (x ∷ (pre ++ xs))) e
    ∙ copy_to-cons x ys (length pre + dst) (pre ++ xs)
    ∙ ap (λ zs. x ∷ zs) (copy_to-past pre ys dst xs)

copy_to-front :
    (ys xs : List ℕ) → length ys ≤ length xs → copy_to ys 0 xs ≡ ys ++ drop (length ys) xs
unfolding copy_to
copy_to-front [] xs room = refl
copy_to-front (y ∷ ys) [] room = absurd (omega arith)
copy_to-front (y ∷ ys) (x ∷ xs) room =
    copy_to-cons y ys 0 xs ∙ ap (λ zs. y ∷ zs) (copy_to-front ys xs (omega arith))

drop-append : (n : ℕ) (xs ys : List ℕ) → n ≤ length xs → drop n (xs ++ ys) ≡ drop n xs ++ ys
drop-append zero xs ys le = refl
drop-append (suc n) [] ys le = absurd (omega arith)
drop-append (suc n) (x ∷ xs) ys le = drop-append n xs ys (omega arith)

-- A copy to the start of `mid`, behind `pre`.
copy_to-take :
    (pre ys mid post : List ℕ) (dst : ℕ)
    → dst ≡ length pre
    → length ys ≤ length mid
    → copy_to ys dst (pre ++ (mid ++ post)) ≡ pre ++ (ys ++ (drop (length ys) mid ++ post))
copy_to-take pre ys mid post dst at room =
    let e : dst ≡ length pre + 0 = omega arith in
    ap (λ d. copy_to ys d (pre ++ (mid ++ post))) e
    ∙ copy_to-past pre ys 0 (mid ++ post)
    ∙ ap (λ zs. pre ++ zs)
        (copy_to-front ys (mid ++ post) (omega (arith, length-append mid post))
          ∙ ap (λ zs. ys ++ zs) (drop-append (length ys) mid post room))

-- One block's merge into the rows `l ++ m ++ r ++ q`, of which `l` and `r` are there already.
merge_block-over :
    (b : BlockInfo) (l m r q : List ℕ)
    → b.n_offset_left ≡ length l
    → b.n_offset_right ≡ length l + length m + length r
    → length (left_part b) ≤ length m
    → length (right_part b) ≤ length q
    → merge_block b (l ++ (m ++ (r ++ q)))
      ≡ (l ++ left_part b)
        ++ (drop (length (left_part b)) m
            ++ ((r ++ right_part b) ++ drop (length (right_part b)) q))
unfolding merge_block
merge_block-over b l m r q at_left at_right left_room right_room =
    let lp = left_part b in
    let rp = right_part b in
    let m' = drop (length lp) m in
    let dst : b.n_offset_right ≡ length (l ++ lp) + (length m' + (length r + 0)) =
      omega (arith, length-append l lp, length-drop (length lp) m) in
    ap (copy_to rp b.n_offset_right) (
      copy_to-take l lp m (r ++ q) b.n_offset_left at_left left_room
      ∙ sym (append_assoc l lp (m' ++ (r ++ q))))
    ∙ ap (λ d. copy_to rp d ((l ++ lp) ++ (m' ++ (r ++ q)))) dst
    ∙ copy_to-past (l ++ lp) rp (length m' + (length r + 0)) (m' ++ (r ++ q))
    ∙ ap (λ zs. (l ++ lp) ++ zs) (copy_to-past m' rp (length r + 0) (r ++ q))
    ∙ ap (λ zs. (l ++ lp) ++ (m' ++ zs))
        (copy_to-past r rp 0 q
          ∙ ap (λ zs. r ++ zs) (copy_to-front rp q right_room)
          ∙ sym (append_assoc r rp (drop (length rp) q)))

-- The merges of the blocks `bs`, of which the first goes behind `l` and behind `r`.
pub merge_all-over :
    (bs : List BlockInfo) (n_left nl nr : ℕ) (l m r q : List ℕ)
    → Filled bs
    → nl ≡ length l
    → nr ≡ length r
    → n_left ≡ length l + length m
    → length m ≡ total_left bs
    → length q ≡ total_right bs
    → merge_all (right_placed n_left nr (left_placed nl bs)) (l ++ (m ++ (r ++ q)))
      ≡ (l ++ lefts bs) ++ (r ++ rights bs)
unfolding merge_all right_placed left_placed lefts rights total_left total_right
merge_all-over [] n_left nl nr l [] r [] filled at_l at_r total lm lq =
    ap (λ xs. xs ++ (r ++ [])) (sym (append-nil l))
merge_all-over [] n_left nl nr l (x ∷ m) r q filled at_l at_r total lm lq = absurd (omega arith)
merge_all-over [] n_left nl nr l [] r (x ∷ q) filled at_l at_r total lm lq = absurd (omega arith)
merge_all-over (b ∷ bs) n_left nl nr l m r q (left_ok, right_ok, filled) at_l at_r total lm lq =
    let lp = left_part b in
    let rp = right_part b in
    let len_l : length lp ≡ b.n_left = omega (arith, length-take b.n_left b.left_data) in
    let len_r : length rp ≡ b.n_right = omega (arith, length-take b.n_right b.right_data) in
    let b' = record b { n_offset_left = nl; n_offset_right = n_left + nr } in
    ap (merge_all (right_placed n_left (nr + b.n_right) (left_placed (nl + b.n_left) bs)))
      (merge_block-over b' l m r q at_l (omega arith) (omega arith) (omega arith))
    ∙ merge_all-over bs n_left (nl + b.n_left) (nr + b.n_right) (l ++ lp) (drop (length lp) m)
        (r ++ rp) (drop (length rp) q) filled (omega (arith, length-append l lp))
        (omega (arith, length-append r rp))
        (omega (arith, length-append l lp, length-drop (length lp) m))
        (omega (arith, length-drop (length lp) m)) (omega (arith, length-drop (length rp) q))
    ∙ ap (λ xs. xs ++ ((r ++ rp) ++ rights bs)) (append_assoc l lp (lefts bs))
    ∙ ap (λ xs. (l ++ (lp ++ lefts bs)) ++ xs) (append_assoc r rp (rights bs))

-- The merges of a node's blocks, placed, into any rows that are as many as the blocks' elements.
pub merge_all-placed :
    (g : List BlockInfo) (rows : List ℕ)
    → Filled g
    → length rows ≡ total_left g + total_right g
    → merge_all (placed g) rows ≡ lefts g ++ rights g
merge_all-placed g rows filled len =
    let n = total_left g in
    ap (merge_all (placed g)) (sym (take-append-drop n rows))
    ∙ merge_all-over g n 0 0 [] (take n rows) [] (drop n rows) filled refl refl
        (omega (arith, length-take n rows)) (omega (arith, length-take n rows))
        (omega (arith, length-drop n rows))
