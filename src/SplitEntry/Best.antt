-- ===== src/SplitEntry/Best.antt =====
-- Updates of SplitEntryContainer (src/tree/param.h) by many candidates, against an order on entries.
use mathlib.Core.List.{Memᴰ}
use mathlib.Core.List.Memᴰ
use xgboost.Prelude.{
  ℕ, ◌≤◌, ◌<◌, ◌≡◌, refl, sym, ◌∙◌, subst, ◌⊎◌, inl, inr, Bool, false, List, [], ◌∷◌, leb, ltb,
  arith, Bool-cases, ltb→lt,
}
use xgboost.Float.{Float}
use xgboost.SplitEntry.{SplitEntryContainer, split_index, need_replace, update, reduce_all}

module _ {F : Float} {Stats : Type 0} (rank : F.Carrier → ℕ) where
  -- No worse: a larger loss change, or the same one at a feature that is not later.
  abbrev pub Beats : SplitEntryContainer F Stats → SplitEntryContainer F Stats → Type 0
  Beats a b =
      (rank b.loss_chg < rank a.loss_chg)
      ⊎ ((rank b.loss_chg ≡ rank a.loss_chg) × (split_index a ≤ split_index b))

  Beats-refl : (a : SplitEntryContainer F Stats) → Beats a a
  Beats-refl a = inr (refl, omega arith)

  Beats-trans : (a b c : SplitEntryContainer F Stats) → Beats a b → Beats b c → Beats a c
  Beats-trans a b c (inl x) (inl y) = inl (omega arith)
  Beats-trans a b c (inl x) (inr y) = inl (omega (arith, y.0))
  Beats-trans a b c (inr x) (inl y) = inl (omega (arith, x.0))
  Beats-trans a b c (inr x) (inr y) = inr (omega (arith, x.0, y.0), omega (arith, x.1, y.1))

  Beats-of_le :
      (a b : SplitEntryContainer F Stats)
      → rank b.loss_chg ≤ rank a.loss_chg
      → split_index a ≤ split_index b
      → Beats a b
  Beats-of_le a b more before = elim (Bool-cases (ltb (rank b.loss_chg) (rank a.loss_chg))) [
    | inl e ↦ inl (ltb→lt (rank b.loss_chg) (rank a.loss_chg) e)
    | inr e ↦ inr (ground arith, before)
  ]

  -- `r` is among the entries, and none of them is better.
  abbrev Best :
      SplitEntryContainer F Stats
      → List (SplitEntryContainer F Stats)
      → SplitEntryContainer F Stats
      → Type 0
  Best dst es r =
      Memᴰ r (dst ∷ es) × ((e : SplitEntryContainer F Stats) → Memᴰ e (dst ∷ es) → Beats r e)

  -- A best entry of the better of two and the rest is one of all.
  Best-cons :
      (dst e0 : SplitEntryContainer F Stats) (es : List (SplitEntryContainer F Stats))
      (r : SplitEntryContainer F Stats)
      → Beats e0 dst
      → Best e0 es r
      → Best dst (e0 ∷ es) r
  Best-cons dst e0 es r better best = (Memᴰ.tail best.0, beats)
    where
      beats : (e : SplitEntryContainer F Stats) → Memᴰ e (dst ∷ e0 ∷ es) → Beats r e
      beats e (Memᴰ.head same) =
          subst (λ x. Beats r x) (sym same)
            (Beats-trans r e0 dst (best.1 e0 (Memᴰ.head refl)) better)
      beats e (Memᴰ.tail m) = best.1 e m

  Best-skip :
      (dst e0 : SplitEntryContainer F Stats) (es : List (SplitEntryContainer F Stats))
      (r : SplitEntryContainer F Stats)
      → Beats dst e0
      → Best dst es r
      → Best dst (e0 ∷ es) r
  Best-skip dst e0 es r better best = (among best.0, beats)
    where
      among : Memᴰ r (dst ∷ es) → Memᴰ r (dst ∷ e0 ∷ es)
      among (Memᴰ.head same) = Memᴰ.head same
      among (Memᴰ.tail m) = Memᴰ.tail (Memᴰ.tail m)

      beats : (e : SplitEntryContainer F Stats) → Memᴰ e (dst ∷ e0 ∷ es) → Beats r e
      beats e (Memᴰ.head same) = best.1 e (Memᴰ.head same)
      beats e (Memᴰ.tail (Memᴰ.head same)) =
          subst (λ x. Beats r x) (sym same)
            (Beats-trans r dst e0 (best.1 dst (Memᴰ.head refl)) better)
      beats e (Memᴰ.tail (Memᴰ.tail m)) = best.1 e (Memᴰ.tail m)

  Beats-antisym :
      (a b : SplitEntryContainer F Stats)
      → Beats a b
      → Beats b a
      → (split_index a ≡ split_index b) × (rank a.loss_chg ≡ rank b.loss_chg)
  Beats-antisym a b (inl x) (inl y) = (omega arith, omega arith)
  Beats-antisym a b (inl x) (inr y) = (omega (arith, y.0), omega (arith, y.0))
  Beats-antisym a b (inr x) (inl y) = (omega (arith, x.0), omega (arith, x.0))
  Beats-antisym a b (inr x) (inr y) = (omega (arith, x.1, y.1), omega (arith, x.0))

-- `IsNumber` holds of the floats that are neither infinite nor a NaN; `rank` is their order.
module _ {F : Float} {Stats : Type 0} (is_inf : F.Carrier → Bool) (rank : F.Carrier → ℕ)
    (IsNumber : F.Carrier → Type 0)
    (number_finite : (x : F.Carrier) → IsNumber x → is_inf x ≡ false)
    (lt-rank : (x y : F.Carrier) → IsNumber x → IsNumber y → F.lt x y ≡ ltb (rank x) (rank y)) where
  -- One update keeps the better of the two.
  update-Beats :
      (a b : SplitEntryContainer F Stats)
      → IsNumber a.loss_chg
      → IsNumber b.loss_chg
      → (((update is_inf a b).0 ≡ b) × Beats rank b a)
        ⊎ (((update is_inf a b).0 ≡ a) × Beats rank a b)
  unfolding update need_replace
  update-Beats a b na nb =
      let finite = number_finite b.loss_chg nb in
      let up = lt-rank a.loss_chg b.loss_chg na nb in
      let down = lt-rank b.loss_chg a.loss_chg nb na in
      elim (Bool-cases (leb (split_index a) (split_index b))) [
        | inl before ↦ elim (Bool-cases (ltb (rank a.loss_chg) (rank b.loss_chg))) [
          | inl more ↦ inl (rw (finite, before, up, more) refl, inl (ground arith))
          | inr less ↦ inr (
            rw (finite, before, up, less) refl,
            Beats-of_le rank a b (ground arith) (ground arith),
          )
        ]
        | inr after ↦ elim (Bool-cases (ltb (rank b.loss_chg) (rank a.loss_chg))) [
          | inl less ↦ inr (rw (finite, after, down, less) refl, inl (ground arith))
          | inr more ↦ inl (
            rw (finite, after, down, more) refl,
            Beats-of_le rank b a (ground arith) (ground arith),
          )
        ]
      ]

  reduce_all-Best :
      (dst : SplitEntryContainer F Stats) (es : List (SplitEntryContainer F Stats))
      → ((e : SplitEntryContainer F Stats) → Memᴰ e (dst ∷ es) → IsNumber e.loss_chg)
      → Best rank dst es (reduce_all is_inf dst es)
  unfolding reduce_all
  reduce_all-Best dst [] ns = (
    Memᴰ.head refl,
    λ e m. subst (λ x. Beats rank dst x) (sym (Memᴰ.eq_of_singleton m)) (Beats-refl rank dst),
  )
  reduce_all-Best dst (e0 ∷ es) ns =
      elim (update-Beats dst e0 (ns dst (Memᴰ.head refl)) (ns e0 (Memᴰ.tail (Memᴰ.head refl)))) [
        | inl (e, better) ↦
            subst (λ d. Best rank dst (e0 ∷ es) (reduce_all is_inf d es)) (sym e)
              (Best-cons rank dst e0 es (reduce_all is_inf e0 es) better
                (reduce_all-Best e0 es (λ x m. ns x (Memᴰ.tail m))))
        | inr (e, better) ↦
            subst (λ d. Best rank dst (e0 ∷ es) (reduce_all is_inf d es)) (sym e)
              (Best-skip rank dst e0 es (reduce_all is_inf dst es) better
                (reduce_all-Best dst es (λ x m. ns x (skip e0 dst es x m))))
      ]
    where
      skip :
          (e1 d : SplitEntryContainer F Stats) (xs : List (SplitEntryContainer F Stats))
          (x : SplitEntryContainer F Stats)
          → Memᴰ x (d ∷ xs)
          → Memᴰ x (d ∷ e1 ∷ xs)
      skip e1 d xs x (Memᴰ.head same) = Memᴰ.head same
      skip e1 d xs x (Memᴰ.tail m) = Memᴰ.tail (Memᴰ.tail m)

  -- Updates by entries whose loss changes are numbers end with one of them or the first entry, and
  -- none of these has a larger loss change, or the same one at an earlier feature.
  pub reduce_all-Beats :
      (dst : SplitEntryContainer F Stats) (es : List (SplitEntryContainer F Stats))
      → ((e : SplitEntryContainer F Stats) → Memᴰ e (dst ∷ es) → IsNumber e.loss_chg)
      → (e : SplitEntryContainer F Stats) → Memᴰ e (dst ∷ es)
      → Memᴰ (reduce_all is_inf dst es) (dst ∷ es) × Beats rank (reduce_all is_inf dst es) e
  reduce_all-Beats dst es ns e m = let best = reduce_all-Best dst es ns in (best.0, best.1 e m)

  -- Workers that see the same entries, in any order and any number of times each, all of whose loss changes are
  -- numbers (neither infinite nor a NaN), end with the same feature, and neither of the two loss changes that they
  -- end with is below the other.
  pub reduce_all_order :
      (dst : SplitEntryContainer F Stats) (es fs : List (SplitEntryContainer F Stats))
      → ((e : SplitEntryContainer F Stats) → Memᴰ e (dst ∷ es) → IsNumber e.loss_chg)
      → ((e : SplitEntryContainer F Stats) → Memᴰ e (dst ∷ es) → Memᴰ e (dst ∷ fs))
      → ((e : SplitEntryContainer F Stats) → Memᴰ e (dst ∷ fs) → Memᴰ e (dst ∷ es))
      → (split_index (reduce_all is_inf dst es) ≡ split_index (reduce_all is_inf dst fs))
        × (F.lt (reduce_all is_inf dst es).loss_chg (reduce_all is_inf dst fs).loss_chg ≡ false)
        × (F.lt (reduce_all is_inf dst fs).loss_chg (reduce_all is_inf dst es).loss_chg ≡ false)
  reduce_all_order dst es fs ns to from =
      let r = reduce_all is_inf dst es in
      let q = reduce_all is_inf dst fs in
      let x = reduce_all-Best dst es ns in
      let y = reduce_all-Best dst fs (λ e m. ns e (from e m)) in
      let same = Beats-antisym rank r q (x.1 q (from q y.0)) (y.1 r (to r x.0)) in
      let nr = ns r x.0 in
      let nq = ns q (from q y.0) in
      (
        same.0,
        lt-rank r.loss_chg q.loss_chg nr nq ∙ ground (arith, same.1),
        lt-rank q.loss_chg r.loss_chg nq nr ∙ ground (arith, same.1),
      )
