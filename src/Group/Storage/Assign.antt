-- ===== src/Group/Storage/Assign.antt =====
-- One key of InitStorage (src/common/group_data.h): the threads' counts of it become places.
use xgboost.Prelude.{
  ℕ, zero, suc, ◌+◌, ◌-◌, ◌<◌, ◌≡◌, ◌≢◌, refl, sym, ap, ◌∙◌, Bool, true, List, [], ◌∷◌, ltb,
  if◌then◌else◌, Bool-cases, inl, inr, arith, length, get_or, set, length-set, get_or-set_self,
  get_or-set_ne, get_or_past,
}
use xgboost.Group.{assign}
use xgboost.Group.Sums.{sum}
use xgboost.Group.Spec.{cell}

abbrev pub row : List (List ℕ) → ℕ → ℕ
row threads t = length (get_or threads t [])

-- A property of the first thread and of the others.
pub each : (P : ℕ → Type 0) → P 0 → ((t : ℕ) → P (suc t)) → (t : ℕ) → P t
each P first rest zero = first
each P first rest (suc t) = rest t

-- The threads' vectors and the count after `assign` at the offset `o`, where the threads' counts are `f`.
pub record Assigned (o behind count : ℕ) (f : ℕ → ℕ) (threads : List (List ℕ))
    (result : List (List ℕ) × ℕ) : Type 0 where
  pub counted : result.1 ≡ count + sum f (length threads)
  pub size : length result.0 ≡ length threads
  pub rows : (t : ℕ) → row result.0 t ≡ row threads t
  pub placed : (t : ℕ) → o < row threads t → cell result.0 t o ≡ count + sum f t + behind
  pub others : (t o' : ℕ) → o ≢ o' → cell result.0 t o' ≡ cell threads t o'

module _ (base o behind : ℕ) where
  abbrev here : List ℕ → Bool
  here trptr = ltb (base + o) (length trptr + base)

  thread_count_eq :
      (trptr : List ℕ)
      → (if here trptr then get_or trptr (base + o - base) 0 else 0) ≡ get_or trptr o 0
  thread_count_eq trptr =
      let idx : base + o - base ≡ o = omega arith in
      elim (Bool-cases (here trptr)) [
        | inl e ↦ rw (e) (ap (λ k. get_or trptr k 0) idx)
        | inr e ↦ rw (e) (sym (get_or_past trptr o 0 (ground arith)))
      ]

  -- What a thread's vector becomes.
  abbrev assigned : ℕ → List ℕ → List ℕ
  assigned count trptr = if here trptr then set trptr (base + o - base) (count + behind) else trptr

  length-assigned : (count : ℕ) (trptr : List ℕ) → length (assigned count trptr) ≡ length trptr
  length-assigned count trptr = elim (Bool-cases (here trptr)) [
    | inl e ↦ rw (e) (length-set trptr (base + o - base) (count + behind))
    | inr e ↦ rw (e) refl
  ]

  assigned_placed :
      (count : ℕ) (trptr : List ℕ)
      → o < length trptr
      → get_or (assigned count trptr) o 0 ≡ count + behind
  assigned_placed count trptr h =
      let e : here trptr ≡ true = ground arith in
      let idx : base + o - base ≡ o = omega arith in
      rw (e) (
        ap (λ k. get_or (set trptr k (count + behind)) o 0) idx
        ∙ get_or-set_self trptr o (count + behind) 0 h)

  assigned_others :
      (count : ℕ) (trptr : List ℕ) (o' : ℕ)
      → o ≢ o'
      → get_or (assigned count trptr) o' 0 ≡ get_or trptr o' 0
  assigned_others count trptr o' ne =
      let idx : base + o - base ≡ o = omega arith in
      elim (Bool-cases (here trptr)) [
        | inl e ↦ rw (e) (
            ap (λ k. get_or (set trptr k (count + behind)) o' 0) idx
            ∙ get_or-set_ne trptr o o' (count + behind) 0 ne)
        | inr e ↦ rw (e) refl
      ]

  pub assign-Assigned :
      (count : ℕ) (f : ℕ → ℕ) (threads : List (List ℕ))
      → ((t : ℕ) → t < length threads → cell threads t o ≡ f t)
      → Assigned o behind count f threads (assign base (base + o) behind count threads)
  unfolding assign sum
  assign-Assigned count f [] e = record {
    counted = omega arith;
    size = refl;
    rows = λ t. refl;
    placed = λ t h. absurd (omega arith);
    others = λ t o' h. refl;
  }
  assign-Assigned count f (trptr ∷ threads) e =
      let n = if here trptr then get_or trptr (base + o - base) 0 else 0 in
      let n_eq : n ≡ f 0 = thread_count_eq trptr ∙ e 0 (omega arith) in
      let a =
        assign-Assigned (count + n) (λ t. f (suc t)) threads (λ t h. e (suc t) (omega arith)) in
      record {
        counted = omega (arith, a.counted, n_eq);
        size = ap suc a.size;
        rows = each _ (length-assigned count trptr) a.rows;
        placed =
            each _ (λ h. assigned_placed count trptr h ∙ omega arith)
              (λ u h. let p = a.placed u h in omega (arith, p, n_eq));
        others = each _ (assigned_others count trptr) a.others;
      }
