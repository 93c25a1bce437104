-- ===== src/Group/Storage.antt =====
-- InitStorage of ParallelGroupBuilder (src/common/group_data.h), column-major: the counts become places, and
-- `rptr` the bounds of the keys.
pub mod Assign
use xgboost.Prelude.{
  ℕ, zero, suc, ◌+◌, ◌-◌, ◌≤◌, ◌<◌, ◌≡◌, ◌≢◌, refl, sym, ap, ◌∙◌, subst, Bool, true, false, List,
  [], ◌∷◌, leb, if◌then◌else◌, Bool-cases, inl, inr, arith, length, get_or, set, resize, length-set,
  length-resize, get_or-resize, get_or-set_self, get_or-set_ne, ℕ_discrete, dec_lt,
}
use xgboost.Group.{back, assign, place_keys, grow_rptr}
use xgboost.Group.Sums.{sum, sum_last, sum_ext, start, slot}
use xgboost.Group.Spec.{cell}
use xgboost.Group.Storage.Assign.{each, row, Assigned, assign-Assigned}

pub get_or_default : (xs : List ℕ) (j d e : ℕ) → j < length xs → get_or xs j d ≡ get_or xs j e
get_or_default [] j d e h = absurd (omega arith)
get_or_default (x ∷ xs) zero d e h = refl
get_or_default (x ∷ xs) (suc j) d e h = get_or_default xs j d e (omega arith)

-- `rptr` has room for the keys of all threads, and its new entries are `fill`.
pub record Grown (base fill : ℕ) (threads : List (List ℕ)) (rptr rptr' : List ℕ) : Type 0 where
  pub longer : length rptr ≤ length rptr'
  pub room : (t o : ℕ) → o < row threads t → base + o + 1 < length rptr'
  pub same : (j : ℕ) → get_or rptr' j fill ≡ get_or rptr j fill

pub grow_rptr-Grown :
    (base fill : ℕ) (threads : List (List ℕ)) (rptr : List ℕ)
    → Grown base fill threads rptr (grow_rptr base fill threads rptr)
unfolding grow_rptr
grow_rptr-Grown base fill [] rptr = record {
  longer = omega arith;
  room = λ t o h. absurd (omega arith);
  same = λ j. refl;
}
grow_rptr-Grown base fill (trptr ∷ threads) rptr =
    elim (Bool-cases (leb (length rptr) (length trptr + base))) [
      | inl e ↦
          let next = resize (length trptr + base + 1) fill rptr in
          let size = length-resize (length trptr + base + 1) fill rptr in
          let g = grow_rptr-Grown base fill threads next in
          subst
            (λ b.
              Grown base fill (trptr ∷ threads) rptr
                (grow_rptr base fill threads (if b then next else rptr)))
            (sym e)
            (record {
              longer = let l = g.longer in ground (arith, e, l, size);
              room = each _ (λ o h. let l = g.longer in ground (arith, h, l, size)) g.room;
              same = λ j.
                  g.same j
                  ∙ get_or-resize (length trptr + base + 1) fill rptr j (ground (arith, e));
            })
      | inr e ↦
          let g = grow_rptr-Grown base fill threads rptr in
          subst
            (λ b. Grown base fill (trptr ∷ threads) rptr (
              grow_rptr base fill threads
                (if b then resize (length trptr + base + 1) fill rptr else rptr)))
            (sym e)
            (record {
              longer = g.longer;
              room = each _ (λ o h. let l = g.longer in ground (arith, e, l, h)) g.room;
              same = g.same;
            })
    ]

-- Where the loop over the keys leads to, from the offset `o` on: `n` keys have their places.
pub record Placed (base fill : ℕ) (c : ℕ → ℕ → ℕ) (nthread o n : ℕ) (rptr : List ℕ)
    (threads : List (List ℕ)) (result : List ℕ × List (List ℕ)) : Type 0 where
  pub long : length result.0 ≡ length rptr
  pub kept : (j : ℕ) → j ≤ base + o → get_or result.0 j fill ≡ get_or rptr j fill
  pub bounds :
      (o' : ℕ)
      → o ≤ o'
      → o' < o + n
      → get_or result.0 (base + o' + 1) fill ≡ fill + start c nthread (suc o')
  pub size : length result.1 ≡ length threads
  pub rows : (t : ℕ) → row result.1 t ≡ row threads t
  pub before : (t o' : ℕ) → o' < o → cell result.1 t o' ≡ cell threads t o'
  pub placed :
      (t o' : ℕ)
      → o ≤ o'
      → o' < o + n
      → o' < row threads t
      → cell result.1 t o' ≡ fill + slot c nthread o' t

-- The loop at the offset `o`: the counts from there on are not used yet.
pub record Waiting (base fill : ℕ) (c : ℕ → ℕ → ℕ) (nthread o n count : ℕ) (rptr : List ℕ)
    (threads : List (List ℕ)) : Type 0 where
  pub size : length threads ≡ nthread
  pub long : length rptr ≡ base + o + n + 1
  pub counts : (t o' : ℕ) → t < nthread → o ≤ o' → cell threads t o' ≡ c o' t
  pub counted : count ≡ start c nthread o
  pub fills : (j : ℕ) → base + o < j → get_or rptr j fill ≡ fill

module _ (base fill : ℕ) (c : ℕ → ℕ → ℕ) (nthread : ℕ) where
  pub place_keys-Placed :
      (n o count : ℕ) (rptr : List ℕ) (threads : List (List ℕ))
      → Waiting base fill c nthread o n count rptr threads
      → Placed base fill c nthread o n rptr threads
          (place_keys base n (base + o) count rptr threads)
  unfolding place_keys
  place_keys-Placed zero o count rptr threads w = record {
    long = refl;
    kept = λ j h. refl;
    bounds = λ o' h h'. absurd (omega arith);
    size = refl;
    rows = λ t. refl;
    before = λ t o' h. refl;
    placed = λ t o' h h' h''. absurd (omega arith);
  }
  place_keys-Placed (suc n) o count rptr threads w =
      let back_eq : back rptr ≡ fill =
        get_or_default rptr (length rptr - 1) 0 fill (omega (arith, w.long))
        ∙ w.fills (length rptr - 1) (omega (arith, w.long)) in
      let r = assign base (base + o) (back rptr) count threads in
      let a =
        assign-Assigned base o (back rptr) count (c o) threads
          (λ t h. w.counts t o (omega (arith, w.size)) (omega arith)) in
      let total_eq : r.1 ≡ start c nthread (suc o) =
        a.counted
        ∙ (λ k. w.counted k + sum (c o) (w.size k))
        ∙ sym (sum_last (λ k. sum (c k) nthread) o) in
      let entry_eq : get_or rptr (base + o + 1) 0 ≡ fill =
        get_or_default rptr (base + o + 1) 0 fill (omega (arith, w.long))
        ∙ w.fills (base + o + 1) (omega arith) in
      let rptr' = set rptr (base + o + 1) (get_or rptr (base + o + 1) 0 + r.1) in
      let next : base + suc o ≡ suc (base + o) = omega arith in
      let p = place_keys-Placed n (suc o) r.1 rptr' r.0 (record {
        size = a.size ∙ w.size;
        long =
            length-set rptr (base + o + 1) (get_or rptr (base + o + 1) 0 + r.1)
            ∙ omega (arith, w.long);
        counts = λ t o' h h'. a.others t o' (omega arith) ∙ w.counts t o' h (omega arith);
        counted = total_eq;
        fills = λ j h.
            get_or-set_ne rptr (base + o + 1) j (get_or rptr (base + o + 1) 0 + r.1) fill
              (omega arith)
            ∙ w.fills j (omega arith);
      }) in
      subst
        (λ i. Placed base fill c nthread o (suc n) rptr threads (place_keys base n i r.1 rptr' r.0))
        next
        (record {
          long = p.long ∙ length-set rptr (base + o + 1) (get_or rptr (base + o + 1) 0 + r.1);
          kept = λ j h.
              p.kept j (omega arith)
              ∙ get_or-set_ne rptr (base + o + 1) j (get_or rptr (base + o + 1) 0 + r.1) fill
                  (omega arith);
          bounds = λ o' h h'. elim (ℕ_discrete o o') [
            | yes e ↦
                subst
                  (λ u.
                    get_or (place_keys base n (base + suc o) r.1 rptr' r.0).0 (base + u + 1) fill
                    ≡ fill + start c nthread (suc u))
                  e
                  (p.kept (base + o + 1) (omega arith)
                    ∙ get_or-set_self rptr (base + o + 1) (get_or rptr (base + o + 1) 0 + r.1) fill
                        (omega (arith, w.long))
                    ∙ (λ k. entry_eq k + total_eq k))
            | no ne ↦ p.bounds o' (omega arith) (omega arith)
          ];
          size = p.size ∙ a.size;
          rows = λ t. p.rows t ∙ a.rows t;
          before = λ t o' h. p.before t o' (omega arith) ∙ a.others t o' (omega arith);
          placed = λ t o' h h' h''. elim (ℕ_discrete o o') [
            | yes e ↦
                subst
                  (λ u.
                    cell (place_keys base n (base + suc o) r.1 rptr' r.0).1 t u
                    ≡ fill + slot c nthread u t)
                  e
                  (p.before t o (omega arith)
                    ∙ a.placed t (omega arith)
                    ∙ omega (arith, w.counted, back_eq))
            | no ne ↦ p.placed t o' (omega arith) (omega arith) (omega (arith, h'', a.rows t))
          ];
        })
