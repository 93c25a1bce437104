-- ===== src/Threading/Blocks.antt =====
-- The blocks of BlockedSpace2d (src/common/threading_utils.h) against the space that they cut.
use mathlib.Core.List.{append_assoc, append-nil}
use native.Mathlib.Nat
use xgboost.Prelude.{
  ℕ, zero, suc, ◌+◌, ◌-◌, ◌*◌, ◌/◌, ◌%◌, ◌≤◌, ◌<◌, ◌≡◌, refl, sym, ap, ◌∙◌, List, [], ◌∷◌, ◌++◌,
  some, ◌==◌, lt→ltb, min, length, length-append, arith, Bool-cases, ==→eq, leb, leb→le, ne_of_==,
  inl, inr,
}
use xgboost.Threading.{
  Range1d, make_range, BlockedSpace2d, add_block, div_up, add_row, add_rows, blocked_space,
}

-- The cells `n` of a row `i` from `b` on.
unfoldable pub cells : ℕ → ℕ → ℕ → List (ℕ × ℕ)
cells i b zero = []
cells i b (suc n) = (i, b) ∷ cells i (suc b) n

-- The cells that a list of blocks covers, in their order.
unfoldable pub covered : List ℕ → List Range1d → List (ℕ × ℕ)
covered [] rs = []
covered (f ∷ fs) [] = []
covered (f ∷ fs) (r ∷ rs) = cells f r.begin (r.stop - r.begin) ++ covered fs rs

-- The cells of the rows from `i` on, `count` of them.
unfoldable pub all_cells : (ℕ → ℕ) → ℕ → ℕ → List (ℕ × ℕ)
all_cells getter zero i = []
all_cells getter (suc count) i = cells i 0 (getter i) ++ all_cells getter count (suc i)

-- Every block has one cell at least, and `grain` at most.
abbrev pub Grained : ℕ → List Range1d → Type 0
Grained grain [] = Unit
Grained grain (r ∷ rs) = (r.begin < r.stop) × (r.stop ≤ r.begin + grain) × Grained grain rs

cells_at : (i : ℕ) {b b' n n' : ℕ} → b ≡ b' → n ≡ n' → cells i b n ≡ cells i b' n'
cells_at i e h = λ k. cells i (e k) (h k)

cells_none : (i b b' : ℕ) → cells i b 0 ≡ cells i b' 0
unfolding cells
cells_none i b b' = refl

cells-append : (i b n m : ℕ) → cells i b n ++ cells i (b + n) m ≡ cells i b (n + m)
unfolding cells
cells-append i b zero m = cells_at i (omega arith) (omega arith)
cells-append i b (suc n) m =
    ap (λ cs. (i, b) ∷ (cells i (suc b) n ++ cs)) (cells_at i (omega arith) refl)
    ∙ ap (λ cs. (i, b) ∷ cs) (cells-append i (suc b) n m)
    ∙ cells_at i {n = suc (n + m)} refl (omega arith)

pub covered-append :
    (fs : List ℕ) (rs : List Range1d) (f : ℕ) (r : Range1d)
    → length fs ≡ length rs
    → covered (fs ++ (f ∷ [])) (rs ++ (r ∷ []))
      ≡ covered fs rs ++ cells f r.begin (r.stop - r.begin)
unfolding covered
covered-append [] [] f r e = append-nil (cells f r.begin (r.stop - r.begin))
covered-append [] (q ∷ rs) f r e = absurd (omega arith)
covered-append (g ∷ fs) [] f r e = absurd (omega arith)
covered-append (g ∷ fs) (q ∷ rs) f r e =
    ap (λ cs. cells g q.begin (q.stop - q.begin) ++ cs) (covered-append fs rs f r (omega arith))
    ∙ sym (
        append_assoc (cells g q.begin (q.stop - q.begin)) (covered fs rs)
          (cells f r.begin (r.stop - r.begin)))

Grained-append :
    (grain : ℕ) (rs : List Range1d) (r : Range1d)
    → Grained grain rs
    → r.begin < r.stop
    → r.stop ≤ r.begin + grain
    → Grained grain (rs ++ (r ∷ []))
Grained-append grain [] r g lt le = (lt, le, tt)
Grained-append grain (q ∷ rs) r (ql, qe, g) lt le = (ql, qe, Grained-append grain rs r g lt le)

-- The number of blocks of a row is right: they reach its end, and one fewer would not.
pub div_up-bounds : (n d : ℕ) → 0 < d → (n ≤ div_up n d * d) × (div_up n d * d < n + d)
unfolding div_up
div_up-bounds n d h = elim (Bool-cases (n % d == 0)) [
  | inl e ↦ rw (e) (
    omega (arith, same, none_more, ==→eq (n % d) 0 e),
    omega (arith, same, none_more, ==→eq (n % d) 0 e),
  )
  | inr e ↦ rw (e) (
    omega (arith, same, more, Nat.mod-lt n h),
    omega (arith, same, more, Nat.mod-lt n h, ne_of_== (n % d) 0 e),
  )
]
  where
    same : n / d * d + n % d ≡ n
    same = Nat.div-add-mod' n d

    none_more : (n / d + 0) * d ≡ n / d * d
    none_more = let e : n / d + 0 ≡ n / d = omega arith in ap (λ q. q * d) e

    more : (n / d + 1) * d ≡ n / d * d + d
    more =
        let e : n / d + 1 ≡ suc (n / d) = omega arith in ap (λ q. q * d) e ∙ Nat.suc-mul (n / d) d

-- What has been added to a space: it covers `cs` more cells, in order.
pub record Extends (grain : ℕ) (space : BlockedSpace2d) (cs : List (ℕ × ℕ))
    (space' : BlockedSpace2d) : Type 0 where
  pub same_length : length space'.first_dimension ≡ length space'.ranges
  pub covers :
      covered space'.first_dimension space'.ranges
      ≡ covered space.first_dimension space.ranges ++ cs
  pub grained : Grained grain space'.ranges

add_block-Extends :
    (grain i b e : ℕ) (space : BlockedSpace2d)
    → b < e
    → e ≤ b + grain
    → length space.first_dimension ≡ length space.ranges
    → Grained grain space.ranges
    → (space' : BlockedSpace2d) × (add_block i b e space ≡ some space')
      × Extends grain space (cells i b (e - b)) space'
unfolding add_block make_range
add_block-Extends grain i b e space lt le same g = (
  record {
    ranges = space.ranges ++ (record { begin = b; stop = e } ∷ []);
    first_dimension = space.first_dimension ++ (i ∷ []);
  },
  rw (lt→ltb b e lt) refl,
  record {
    same_length = omega (
      arith,
      length-append space.first_dimension (i ∷ []),
      length-append space.ranges (record { begin = b; stop = e } ∷ []),
    );
    covers =
        covered-append space.first_dimension space.ranges i (record { begin = b; stop = e }) same;
    grained = Grained-append grain space.ranges (record { begin = b; stop = e }) g lt le;
  },
)

cells_join :
    (grain i size iblock : ℕ)
    → cells i (iblock * grain) (min (iblock * grain + grain) size - iblock * grain)
        ++ cells i (suc iblock * grain) (size - suc iblock * grain)
      ≡ cells i (iblock * grain) (size - iblock * grain)
cells_join grain i size iblock = elim (Bool-cases (leb (b + grain) size)) [
  | inl e ↦
      let le = leb→le (b + grain) size e in
      ap (λ cs. cs ++ cells i (suc iblock * grain) (size - suc iblock * grain))
        (cells_at i {n' = grain} refl (omega (arith, le)))
      ∙ ap (λ cs. cells i b grain ++ cs) (cells_at i next refl)
      ∙ cells-append i b grain (size - suc iblock * grain)
      ∙ cells_at i refl (omega (arith, le, next))
  | inr e ↦
      let gt : size < b + grain = ground arith in
      ap (λ cs. cells i b (min (b + grain) size - b) ++ cs)
        (cells_at i {n' = 0} refl (omega (arith, gt, next))
          ∙ cells_none i (suc iblock * grain) (b + (size - b)))
      ∙ ap (λ cs. cs ++ cells i (b + (size - b)) 0)
          (cells_at i {n' = size - b} refl (omega (arith, gt)))
      ∙ cells-append i b (size - b) 0
      ∙ cells_at i refl (omega arith)
]
  where
    b : ℕ
    b = iblock * grain

    next : suc iblock * grain ≡ iblock * grain + grain
    next = Nat.suc-mul iblock grain

-- The blocks of a row from the cell `iblock * grain` on.
add_row-Extends :
    (grain i size count iblock : ℕ) (space : BlockedSpace2d)
    → 0 < grain
    → iblock * grain ≤ size + grain
    → size - iblock * grain ≤ count * grain
    → count * grain < size - iblock * grain + grain
    → length space.first_dimension ≡ length space.ranges
    → Grained grain space.ranges
    → (space' : BlockedSpace2d) × (add_row grain i size count iblock space ≡ some space')
      × Extends grain space (cells i (iblock * grain) (size - iblock * grain)) space'
unfolding add_row
add_row-Extends grain i size zero iblock space pos start enough few same g = (
  space,
  refl,
  record {
    same_length = same;
    covers =
        sym (append-nil (covered space.first_dimension space.ranges))
        ∙ ap (λ cs. covered space.first_dimension space.ranges ++ cs)
            (unfold cells in cells_at i {n = 0} {n' = size - iblock * grain} refl (omega arith));
    grained = g;
  },
)
add_row-Extends grain i size (suc count) iblock space pos start enough few same g =
    let b = iblock * grain in
    let more = Nat.suc-mul count grain in
    let next = Nat.suc-mul iblock grain in
    let e = min (b + grain) size in
    let (s1, run1, x1) =
      add_block-Extends grain i b e space (omega (arith, more)) (omega arith) same g in
    let (s2, run2, x2) =
      add_row-Extends grain i size count (suc iblock) s1 pos (omega (arith, more, next))
        (omega (arith, more, next)) (omega (arith, more, next)) x1.same_length x1.grained in
    (
      s2,
      rw (run1) run2,
      record {
        same_length = x2.same_length;
        covers =
            x2.covers
            ∙ ap (λ cs. cs ++ cells i (suc iblock * grain) (size - suc iblock * grain)) x1.covers
            ∙ append_assoc (covered space.first_dimension space.ranges) (cells i b (e - b))
                (cells i (suc iblock * grain) (size - suc iblock * grain))
            ∙ ap (λ cs. covered space.first_dimension space.ranges ++ cs)
                (cells_join grain i size iblock);
        grained = x2.grained;
      },
    )

add_rows-Extends :
    (grain : ℕ) (getter : ℕ → ℕ) (count i : ℕ) (space : BlockedSpace2d)
    → 0 < grain
    → length space.first_dimension ≡ length space.ranges
    → Grained grain space.ranges
    → (space' : BlockedSpace2d) × (add_rows grain getter count i space ≡ some space')
      × Extends grain space (all_cells getter count i) space'
unfolding add_rows all_cells
add_rows-Extends grain getter zero i space pos same g = (
  space,
  refl,
  record {
    same_length = same;
    covers = sym (append-nil (covered space.first_dimension space.ranges));
    grained = g;
  },
)
add_rows-Extends grain getter (suc count) i space pos same g =
    let n = getter i in
    let (enough, few) = div_up-bounds n grain pos in
    let none_yet = Nat.zero-mul grain in
    let (s1, run1, x1) =
      add_row-Extends grain i n (div_up n grain) 0 space pos (omega (arith, none_yet))
        (omega (arith, none_yet, enough)) (omega (arith, none_yet, few)) same g in
    let (s2, run2, x2) =
      add_rows-Extends grain getter count (suc i) s1 pos x1.same_length x1.grained in
    (
      s2,
      rw (run1) run2,
      record {
        same_length = x2.same_length;
        covers =
            x2.covers
            ∙ ap (λ cs. cs ++ all_cells getter count (suc i)) x1.covers
            ∙ append_assoc (covered space.first_dimension space.ranges)
                (cells i (0 * grain) (n - 0 * grain)) (all_cells getter count (suc i))
            ∙ ap
                (λ cs.
                  covered space.first_dimension space.ranges
                  ++ (cs ++ all_cells getter count (suc i)))
                (cells_at i none_yet (omega (arith, none_yet)));
        grained = x2.grained;
      },
    )

-- For a positive grain size the constructor makes its blocks without a failed check. They cover the
-- space row by row, each cell once, and each has one cell at least and `grain_size` at most.
pub blocked_space-covered :
    (dim1 : ℕ) (getter : ℕ → ℕ) (grain_size : ℕ)
    → 0 < grain_size
    → (space : BlockedSpace2d) × (blocked_space dim1 getter grain_size ≡ some space)
      × (covered space.first_dimension space.ranges ≡ all_cells getter dim1 0)
      × (length space.first_dimension ≡ length space.ranges)
      × Grained grain_size space.ranges
unfolding blocked_space covered
blocked_space-covered dim1 getter grain_size pos =
    let empty : BlockedSpace2d = record { ranges = []; first_dimension = [] } in
    let (space, run, x) = add_rows-Extends grain_size getter dim1 0 empty pos refl tt in
    (space, run, x.covers, x.same_length, x.grained)
