-- ===== src/Group/Push.antt =====
-- Push of ParallelGroupBuilder (src/common/group_data.h), column-major: the values of a key from a thread go, in
-- order, to the places kept for them.
use mathlib.Core.List.{append-nil}
use xgboost.Prelude.{
  ℕ, zero, suc, ◌+◌, ◌-◌, ◌≤◌, ◌<◌, ◌≡◌, ◌≢◌, refl, sym, ap, ◌∙◌, subst, true, false, List, [], ◌∷◌,
  ◌++◌, some, lt→ltb, if◌then◌else◌, Bool-cases, inl, inr, arith, length, get_or, get_elem?, set,
  length-set, length-append, get_or-set_self, get_or-set_ne, get_elem?-get_or, get_elem?-set_self,
  get_elem?-set_ne, ℕ_discrete,
}
use xgboost.Group.{ParallelGroupBuilder, push}
use xgboost.Group.Sums.{slot, slot_apart}
use xgboost.Group.Spec.{Call, cell, cell-write_self, cell-write_other, hits, items, items-append}
use xgboost.Group.Budget.{offset_key-run}
use xgboost.Group.Storage.Assign.{row}

module _ {ℓ} {A : Type ℓ} where
  get_elem?-snoc_before :
      (xs : List A) (x : A) (j : ℕ) → j < length xs → get_elem? (xs ++ (x ∷ [])) j ≡ get_elem? xs j
  get_elem?-snoc_before [] x j h = absurd (omega arith)
  get_elem?-snoc_before (y ∷ xs) x zero h = refl
  get_elem?-snoc_before (y ∷ xs) x (suc j) h = get_elem?-snoc_before xs x j (omega arith)

  get_elem?-snoc_at : (xs : List A) (x : A) → get_elem? (xs ++ (x ∷ [])) (length xs) ≡ some x
  get_elem?-snoc_at [] x = refl
  get_elem?-snoc_at (y ∷ xs) x = get_elem?-snoc_at xs x

module _ {ℓ} {V : Type ℓ} (b : ParallelGroupBuilder V) where
  abbrev pub with_state : List V → List (List ℕ) → ParallelGroupBuilder V
  with_state data_vec threads = record b { data_vec = data_vec; thread_rptr = threads }

  pub push-run :
      (data_vec : List V) (threads : List (List ℕ)) (call : Call V)
      → b.base_row_offset ≤ call.key
      → call.thread < length threads
      → call.key - b.base_row_offset < row threads call.thread
      → cell threads call.thread (call.key - b.base_row_offset) < length data_vec
      → push false call.key call.item call.thread (with_state data_vec threads)
        ≡ some (
            with_state
              (set data_vec (cell threads call.thread (call.key - b.base_row_offset)) call.item)
              (set threads call.thread (
                set
                  (get_or threads call.thread [])
                  (call.key - b.base_row_offset)
                  (cell threads call.thread (call.key - b.base_row_offset) + 1))))
  unfolding push
  push-run data_vec threads call h h' h'' h''' =
      let o = call.key - b.base_row_offset in
      rw
        (
          offset_key-run (with_state data_vec threads) call.key call.thread h,
          get_elem?-get_or threads call.thread [] h',
          get_elem?-get_or (get_or threads call.thread []) o 0 h'',
          lt→ltb (cell threads call.thread o) (length data_vec) h''',
        )
        refl

module _ {ℓ} {V : Type ℓ} (base fill : ℕ) (c : ℕ → ℕ → ℕ) (nthread : ℕ) (old : List V) where
  -- The pushes `done` are where they belong, before those to come.
  pub record Filled (done : List (Call V)) (data_vec : List V) (threads : List (List ℕ))
      : Type ℓ where
    pub size : length threads ≡ nthread
    pub cursor :
        (t o : ℕ)
        → t < nthread
        → o < row threads t
        → cell threads t o ≡ fill + slot c nthread o t + length (items base done o t)
    pub there :
        (t o j : ℕ)
        → t < nthread
        → j < length (items base done o t)
        → get_elem? data_vec (fill + slot c nthread o t + j) ≡ get_elem? (items base done o t) j
    pub kept : (j : ℕ) → j < fill → get_elem? data_vec j ≡ get_elem? old j
    pub wide : (t o : ℕ) → t < nthread → 0 < c o t → o < row threads t
    pub long :
        (t o : ℕ) → t < nthread → 0 < c o t → fill + slot c nthread o t + c o t ≤ length data_vec
    pub within : (t o : ℕ) → t < nthread → length (items base done o t) ≤ c o t

  module _ (done : List (Call V)) (data_vec : List V) (threads : List (List ℕ)) (call : Call V)
      (f : Filled done data_vec threads) (key_ok : base ≤ call.key)
      (thread_ok : call.thread < nthread)
      (more : length (items base done (call.key - base) call.thread)
        < c (call.key - base) call.thread) where
    abbrev pub offset : ℕ
    offset = call.key - base

    abbrev pub place : ℕ
    place = cell threads call.thread offset

    place_eq :
        place
        ≡ fill + slot c nthread offset call.thread + length (items base done offset call.thread)
    place_eq =
        f.cursor call.thread offset thread_ok
          (f.wide call.thread offset thread_ok (omega (arith, more)))

    pub place_inside : place < length data_vec
    place_inside =
        omega (arith, place_eq, more, f.long call.thread offset thread_ok (omega (arith, more)))

    abbrev pub filled : List V
    filled = set data_vec place call.item

    abbrev pub moved : List (List ℕ)
    moved = set threads call.thread (set (get_or threads call.thread []) offset (place + 1))

    items_here :
        (o t : ℕ)
        → hits base call o t ≡ true
        → items base (done ++ (call ∷ [])) o t ≡ items base done o t ++ (call.item ∷ [])
    unfolding items
    items_here o t e =
        items-append base done (call ∷ []) o t
        ∙ ap (λ b. items base done o t ++ ((if b then (call.item ∷ []) else []) ++ [])) e

    items_other :
        (o t : ℕ)
        → hits base call o t ≡ false
        → items base (done ++ (call ∷ [])) o t ≡ items base done o t
    unfolding items
    items_other o t e =
        items-append base done (call ∷ []) o t
        ∙ ap (λ b. items base done o t ++ ((if b then (call.item ∷ []) else []) ++ [])) e
        ∙ append-nil (items base done o t)

    pub hits_self : hits base call offset call.thread ≡ true
    hits_self = ground arith

    -- A statement on all keys and threads, from the one at hand and the others.
    at_each {κ} :
        (P : ℕ → ℕ → Type κ)
        → P offset call.thread
        → ((o t : ℕ) → hits base call o t ≡ false → P o t)
        → (o t : ℕ) → P o t
    at_each P here other o t = elim (Bool-cases (hits base call o t)) [
      | inl e ↦
          let t_eq : call.thread ≡ t = ground arith in
          let o_eq : offset ≡ o = ground arith in
          subst (λ u. P o u) t_eq (subst (λ p. P p call.thread) o_eq here)
      | inr e ↦ other o t e
    ]

    rows_eq : (t : ℕ) → row moved t ≡ row threads t
    rows_eq t = elim (ℕ_discrete call.thread t) [
      | yes e ↦
          subst (λ u. row moved u ≡ row threads u) e
            (ap length (
                get_or-set_self threads call.thread
                  (set (get_or threads call.thread []) offset (place + 1)) []
                  (omega (arith, f.size)))
              ∙ length-set (get_or threads call.thread []) offset (place + 1))
      | no ne ↦ ap length (
          get_or-set_ne threads call.thread t
            (set (get_or threads call.thread []) offset (place + 1)) [] ne)
    ]

    cursor_step :
        (o t : ℕ)
        → t < nthread
        → o < row threads t
        → cell moved t o ≡ fill + slot c nthread o t + length (items base (done ++ (call ∷ [])) o t)
    cursor_step =
        let inside : call.thread < length threads = omega (arith, f.size) in
        at_each
          (λ o t.
            t < nthread
            → o < row threads t
            → cell moved t o
              ≡ fill + slot c nthread o t + length (items base (done ++ (call ∷ [])) o t))
          (λ h h'.
            cell-write_self threads call.thread offset (place + 1) (get_or threads call.thread [])
              inside h' (λ p. refl)
            ∙ (let n = ap length (items_here offset call.thread hits_self) in
                let m = length-append (items base done offset call.thread) (call.item ∷ []) in
                omega (arith, n, m, place_eq)))
          (λ o t e h h'.
            cell-write_other threads call.thread offset (place + 1) (get_or threads call.thread [])
              inside (f.wide call.thread offset thread_ok (omega (arith, more))) (λ p. refl) t o
              (λ a d. ground (arith, e, a, d))
            ∙ f.cursor t o h h'
            ∙ ap (λ xs. fill + slot c nthread o t + length xs) (sym (items_other o t e)))

    -- A place that is not the one written.
    elsewhere :
        (o t j : ℕ)
        → t < nthread
        → j < length (items base done o t)
        → place ≢ fill + slot c nthread o t + j
    elsewhere o t j h h' e =
        let n = length (items base done offset call.thread) in
        let same : slot c nthread offset call.thread + n ≡ slot c nthread o t + j =
          omega (arith, place_eq) in
        let (o_eq, t_eq) =
          slot_apart c nthread offset o call.thread t n j thread_ok h more
            (omega (arith, f.within t o h)) same in
        let n_eq : n ≡ length (items base done o t) =
          (λ k. length (items base done (o_eq k) (t_eq k))) in
        let s_eq : slot c nthread offset call.thread ≡ slot c nthread o t =
          (λ k. slot c nthread (o_eq k) (t_eq k)) in
        absurd (omega (arith, n_eq, s_eq, same, h'))

    kept_elsewhere :
        (o t j : ℕ)
        → t < nthread
        → j < length (items base done o t)
        → get_elem? filled (fill + slot c nthread o t + j) ≡ get_elem? (items base done o t) j
    kept_elsewhere o t j h h' =
        get_elem?-set_ne data_vec call.item (elsewhere o t j h h') ∙ f.there t o j h h'

    there_step :
        (o t j : ℕ)
        → t < nthread
        → j < length (items base (done ++ (call ∷ [])) o t)
        → get_elem? filled (fill + slot c nthread o t + j)
          ≡ get_elem? (items base (done ++ (call ∷ [])) o t) j
    there_step o t j =
        at_each
          (λ o t.
            t < nthread
            → j < length (items base (done ++ (call ∷ [])) o t)
            → get_elem? filled (fill + slot c nthread o t + j)
              ≡ get_elem? (items base (done ++ (call ∷ [])) o t) j)
          (λ h h'.
            let xs = items base done offset call.thread in
            let here = items_here offset call.thread hits_self in
            let n = ap length here in
            let m = length-append xs (call.item ∷ []) in
            elim (ℕ_discrete j (length xs)) [
              | yes e ↦
                  (λ k. get_elem? filled (
                    sym (place_eq ∙ ap (λ i. fill + slot c nthread offset call.thread + i) (sym e))
                      k))
                  ∙ get_elem?-set_self data_vec place call.item place_inside
                  ∙ sym (get_elem?-snoc_at xs call.item)
                  ∙ (λ k. get_elem? (sym here k) (sym e k))
              | no ne ↦
                  kept_elsewhere offset call.thread j h (omega (arith, n, m, h'))
                  ∙ sym (get_elem?-snoc_before xs call.item j (omega (arith, n, m, h')))
                  ∙ ap (λ ys. get_elem? ys j) (sym here)
            ])
          (λ o t e h h'.
            let other = items_other o t e in
            kept_elsewhere o t j h (subst (λ xs. j < length xs) other h')
            ∙ ap (λ ys. get_elem? ys j) (sym other))
          o t

    pub push-Filled :
        ((o t : ℕ) → t < nthread → length (items base (done ++ (call ∷ [])) o t) ≤ c o t)
        → Filled (done ++ (call ∷ [])) filled moved
    push-Filled fits = record {
      size =
          length-set threads call.thread (set (get_or threads call.thread []) offset (place + 1))
          ∙ f.size;
      cursor = λ t o h h'. cursor_step o t h (omega (arith, h', rows_eq t));
      there = λ t o j h h'. there_step o t j h h';
      kept = λ j h. get_elem?-set_ne data_vec call.item (omega (arith, place_eq)) ∙ f.kept j h;
      wide = λ t o h h'. omega (arith, f.wide t o h h', rows_eq t);
      long = λ t o h h'. omega (arith, f.long t o h h', length-set data_vec place call.item);
      within = λ t o h. fits o t h;
    }
