-- ===== src/Group/Sums.antt =====
-- The places that InitStorage gives to keys and threads (src/common/group_data.h): sums of counts, with the
-- counts `c` by key and thread.
use xgboost.Prelude.{ℕ, zero, suc, ◌+◌, ◌≤◌, ◌<◌, ◌≡◌, refl, sym, ap, ◌∙◌, subst, arith, dec_lt}

-- f 0 + … + f (n - 1)
unfoldable pub sum : (ℕ → ℕ) → ℕ → ℕ
sum f zero = 0
sum f (suc n) = f 0 + sum (λ t. f (suc t)) n

pub sum_last : (f : ℕ → ℕ) (n : ℕ) → sum f (suc n) ≡ sum f n + f n
unfolding sum
sum_last f zero = omega arith
sum_last f (suc n) = omega (arith, sum_last (λ t. f (suc t)) n)

pub sum_ext : (f g : ℕ → ℕ) (n : ℕ) → ((t : ℕ) → t < n → f t ≡ g t) → sum f n ≡ sum g n
unfolding sum
sum_ext f g zero e = refl
sum_ext f g (suc n) e =
    let first = e 0 (omega arith) in
    let rest = sum_ext (λ t. f (suc t)) (λ t. g (suc t)) n (λ t h. e (suc t) (omega arith)) in
    omega (arith, first, rest)

-- The sum up to `t` and what is at `t` are within the whole.
pub sum_part : (f : ℕ → ℕ) (t n : ℕ) → t < n → sum f t + f t ≤ sum f n
unfolding sum
sum_part f t zero h = absurd (omega arith)
sum_part f zero (suc n) h = omega arith
sum_part f (suc t) (suc n) h = omega (arith, sum_part (λ u. f (suc u)) t n (omega arith))

module _ (c : ℕ → ℕ → ℕ) (threads : ℕ) where
  -- Where the values of a key start.
  abbrev pub start : ℕ → ℕ
  start key = sum (λ k. sum (c k) threads) key

  -- Where the values of a key that come from a thread start.
  abbrev pub slot : ℕ → ℕ → ℕ
  slot key t = start key + sum (c key) t

  pub slot_end : (key t keys : ℕ) → key < keys → t < threads → slot key t + c key t ≤ start keys
  slot_end key t keys h h' =
      omega (arith, sum_part (λ k. sum (c k) threads) key keys h, sum_part (c key) t threads h')

  -- Two places are at different keys and threads, or the same.
  pub slot_apart :
      (key key' t t' j j' : ℕ)
      → t < threads
      → t' < threads
      → j < c key t
      → j' < c key' t'
      → slot key t + j ≡ slot key' t' + j'
      → (key ≡ key') × (t ≡ t')
  slot_apart key key' t t' j j' h h' hj hj' e = elim (dec_lt key key') [
    | yes lt ↦ absurd (omega (arith, slot_end key t key' lt h))
    | no ge ↦ elim (dec_lt key' key) [
      | yes gt ↦ absurd (omega (arith, slot_end key' t' key gt h'))
      | no le ↦
          let same : key ≡ key' = omega arith in
          let e' = e ∙ ap (λ k. start k + sum (c k) t' + j') (sym same) in
          let hj'' = subst (λ k. j' < c k t') (sym same) hj' in
          (same, within key t t' j j' hj hj'' e')
    ]
  ]
    where
      within :
          (key t t' j j' : ℕ)
          → j < c key t
          → j' < c key t'
          → slot key t + j ≡ slot key t' + j'
          → t ≡ t'
      within key t t' j j' hj hj' e = elim (dec_lt t t') [
        | yes lt ↦ absurd (omega (arith, sum_part (c key) t t' lt))
        | no ge ↦ elim (dec_lt t' t) [
          | yes gt ↦ absurd (omega (arith, sum_part (c key) t' t gt))
          | no le ↦ omega arith
        ]
      ]
