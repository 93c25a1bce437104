-- ===== src/Group/Stored.antt =====
-- InitStorage of ParallelGroupBuilder (src/common/group_data.h), column-major, after calls of AddBudget.
use xgboost.Prelude.{
  ℕ, zero, suc, ◌+◌, ◌-◌, ◌≤◌, ◌<◌, ◌≡◌, refl, sym, ap, ◌∙◌, subst, false, List, [], arith, length,
  get_or, resize, length-resize, get_or_past, get_elem?-resize, dec_lt,
}
use xgboost.Group.{ParallelGroupBuilder, back, init_storage, grow_rptr, place_keys}
use xgboost.Group.Sums.{sum, start, slot_end}
use xgboost.Group.Spec.{Call, cell, items, InRange, total, add_budgets}
use xgboost.Group.Budget.{
  new_builder, with_threads, fresh_threads, length-fresh_threads, cell-fresh_threads, Budgeted,
  add_budgets-Budgeted,
}
use xgboost.Group.Storage.{Grown, grow_rptr-Grown, Placed, place_keys-Placed, get_or_default}
use xgboost.Group.Storage.Assign.{row}
use xgboost.Group.Push.{Filled}

module _ {ℓ} {V : Type ℓ} (default : V) (rptr : List ℕ) (old : List V) (base max_key nthread : ℕ)
    (budgets : List (Call ℕ)) where
  -- The counts by key and thread.
  abbrev pub count : ℕ → ℕ → ℕ
  count o t = total (items base budgets o t)

  abbrev pub old_size : ℕ
  old_size = back rptr

  module _ (rptr_ok : length rptr ≡ base + 1) (old_ok : length old ≡ old_size)
      (budgets_ok : InRange base nthread budgets) where
    pub budgeted :
        Budgeted base
          (new_builder rptr old base)
          (fresh_threads rptr old base max_key nthread)
          budgets
          (add_budgets false budgets (
            with_threads (new_builder rptr old base) (fresh_threads rptr old base max_key nthread)))
    budgeted =
        add_budgets-Budgeted (new_builder rptr old base) base
          (fresh_threads rptr old base max_key nthread) budgets refl
          (subst (λ n. InRange base n budgets)
            (sym (length-fresh_threads rptr old base max_key nthread)) budgets_ok)

    abbrev pub threads : List (List ℕ)
    threads = budgeted.threads'

    pub threads_size : length threads ≡ nthread
    threads_size = budgeted.size ∙ length-fresh_threads rptr old base max_key nthread

    cell-count : (t o : ℕ) → cell threads t o ≡ count o t
    cell-count t o =
        omega (arith, budgeted.counted t o, cell-fresh_threads rptr old base max_key nthread t o)

    abbrev pub wider : List ℕ
    wider = grow_rptr base old_size threads rptr

    grown : Grown base old_size threads rptr wider
    grown = grow_rptr-Grown base old_size threads rptr

    -- The number of keys.
    abbrev pub keys : ℕ
    keys = length wider - 1 - base

    pub keys_eq : length wider ≡ base + keys + 1
    keys_eq = omega (arith, grown.longer, rptr_ok)

    abbrev pub storage : List ℕ × List (List ℕ)
    storage = place_keys base keys base 0 wider threads

    pub placed : Placed base old_size count nthread 0 keys wider threads storage
    unfolding sum
    placed =
        let b0 : base + 0 ≡ base = omega arith in
        subst
          (λ i.
            Placed base old_size count nthread 0 keys wider threads
              (place_keys base keys i 0 wider threads))
          b0
          (place_keys-Placed base old_size count nthread keys 0 0 wider threads (record {
            size = threads_size;
            long = omega (arith, keys_eq);
            counts = λ t o h h'. cell-count t o;
            counted = refl;
            fills = λ j h. grown.same j ∙ get_or_past rptr j old_size (omega (arith, h, rptr_ok));
          }))

    -- Where a key starts.
    pub bound_at :
        (o : ℕ) → o ≤ keys → get_or storage.0 (base + o) 0 ≡ old_size + start count nthread o
    unfolding sum
    bound_at zero h =
        get_or_default storage.0 (base + 0) 0 old_size (omega (arith, placed.long, keys_eq))
        ∙ placed.kept (base + 0) (omega arith)
        ∙ grown.same (base + 0)
        ∙ (let last : length rptr - 1 ≡ base + 0 = omega (arith, rptr_ok) in
            ap (λ j. get_or rptr j old_size) (sym last)
            ∙ get_or_default rptr (length rptr - 1) old_size 0 (omega (arith, rptr_ok)))
        ∙ omega arith
    bound_at (suc o) h =
        let e : base + suc o ≡ base + o + 1 = omega arith in
        ap (λ j. get_or storage.0 j 0) e
        ∙ get_or_default storage.0 (base + o + 1) 0 old_size (omega (arith, placed.long, keys_eq))
        ∙ placed.bounds o (omega arith) (omega arith)

    -- The bounds of the keys that were there before.
    pub bound_before : (j : ℕ) → j ≤ base → get_or storage.0 j 0 ≡ get_or rptr j 0
    bound_before j h =
        get_or_default storage.0 j 0 old_size (omega (arith, placed.long, keys_eq))
        ∙ placed.kept j (omega arith)
        ∙ grown.same j
        ∙ get_or_default rptr j old_size 0 (omega (arith, rptr_ok))

    pub back_eq : back storage.0 ≡ old_size + start count nthread keys
    back_eq =
        let last : length storage.0 - 1 ≡ base + keys = omega (arith, placed.long, keys_eq) in
        ap (λ j. get_or storage.0 j 0) last ∙ bound_at keys (omega arith)

    -- A key with a budget is one of the keys.
    pub counted_key : (t o : ℕ) → 0 < count o t → o < row threads t
    counted_key t o h = elim (dec_lt o (row threads t)) [
      | yes lt ↦ lt
      | no ge ↦
          let z = get_or_past (get_or threads t []) o 0 (omega arith) in
          absurd (omega (arith, z, cell-count t o))
    ]

    pub row-keys : (t o : ℕ) → o < row threads t → o < keys
    row-keys t o h = omega (arith, grown.room t o h)

    abbrev pub room : List V
    room = resize (back storage.0) default old

    abbrev pub stored : ParallelGroupBuilder V
    stored = record {
      rptr = storage.0;
      data_vec = room;
      thread_rptr = storage.1;
      base_row_offset = base;
      thread_displacement = 0;
    }

    pub init_storage-run :
        init_storage default false (with_threads (new_builder rptr old base) threads) ≡ stored
    unfolding init_storage
    init_storage-run = refl

    length-room : length room ≡ old_size + start count nthread keys
    length-room = length-resize (back storage.0) default old ∙ back_eq

    pub stored-Filled : Filled base old_size count nthread old [] room storage.1
    unfolding items
    stored-Filled = record {
      size = placed.size ∙ threads_size;
      cursor = λ t o h h'.
          let r = placed.rows t in
          let k = row-keys t o (omega (arith, h', r)) in
          placed.placed t o (omega arith) (omega (arith, k)) (omega (arith, h', r)) ∙ omega arith;
      there = λ t o j h h'. absurd (omega arith);
      kept = λ j h.
          get_elem?-resize (back storage.0) default old j (omega (arith, back_eq, old_ok))
            (omega (arith, old_ok));
      wide = λ t o h h'. omega (arith, counted_key t o h', placed.rows t);
      long = λ t o h h'.
          let k = row-keys t o (counted_key t o h') in
          omega (arith, slot_end count nthread o t keys k h, length-room);
      within = λ t o h. omega arith;
    }
