-- ===== src/Page/Threads.antt =====
-- Calls by threads that have one stretch of the rows each: what each key gets, thread by thread, is what it
-- gets row by row. For GetTranspose (src/data/data.cc).
use mathlib.Core.List.{append_assoc}
use xgboost.Prelude.{
  ℕ, zero, suc, ◌≤◌, ◌<◌, ◌≡◌, ◌≢◌, refl, sym, ap, ◌∙◌, subst, true, false, List, [], ◌∷◌, ◌++◌,
  ◌==◌, if◌then◌else◌, Bool-cases, inl, inr, arith, ℕ_discrete,
}
use xgboost.Group.Spec.{Call, hits, items, InRange}
use xgboost.Group.Slices.{gather}

module _ {ℓ} {A : Type ℓ} where
  gather-nil : (f : ℕ → List A) (n : ℕ) → ((t : ℕ) → t < n → f t ≡ []) → gather f n ≡ []
  unfolding gather
  gather-nil f zero e = refl
  gather-nil f (suc n) e = (λ k. gather-nil f n (λ t h. e t (omega arith)) k ++ e n (omega arith) k)

  gather_ext : (f g : ℕ → List A) (n : ℕ) → ((t : ℕ) → t < n → f t ≡ g t) → gather f n ≡ gather g n
  unfolding gather
  gather_ext f g zero e = refl
  gather_ext f g (suc n) e =
      (λ k. gather_ext f g n (λ t h. e t (omega arith)) k ++ e n (omega arith) k)

  -- The first list that is not empty gets one more at its front.
  gather-cons :
      (f g : ℕ → List A) (x : A) (n t0 : ℕ)
      → t0 < n
      → ((t : ℕ) → t < t0 → g t ≡ [])
      → ((t : ℕ) → t0 ≢ t → f t ≡ g t)
      → f t0 ≡ (x ∷ g t0)
      → gather f n ≡ (x ∷ gather g n)
  unfolding gather
  gather-cons f g x zero t0 h below other here = absurd (omega arith)
  gather-cons f g x (suc n) t0 h below other here = elim (ℕ_discrete t0 n) [
    | yes e ↦
        let none_g = gather-nil g n (λ t l. below t (omega arith)) in
        let none_f = gather-nil f n (λ t l. other t (omega arith) ∙ below t (omega arith)) in
        let last : f n ≡ (x ∷ g n) = subst (λ t. f t ≡ (x ∷ g t)) e here in
        (λ k. none_f k ++ last k) ∙ (λ k. x ∷ (sym none_g k ++ g n))
    | no ne ↦ (λ k. gather-cons f g x n t0 (omega arith) below other here k ++ other n ne k)
  ]

  -- The threads of the calls do not fall, from `lo` on.
  abbrev pub Rising : ℕ → List (Call A) → Type 0
  Rising lo [] = Unit
  Rising lo (call ∷ calls) = (lo ≤ call.thread) × Rising call.thread calls

  items-Rising :
      (base lo : ℕ) (calls : List (Call A)) (o t : ℕ)
      → Rising lo calls
      → t < lo
      → items base calls o t ≡ []
  unfolding items
  items-Rising base lo [] o t r h = refl
  items-Rising base lo (call ∷ calls) o t r h =
      let miss : hits base call o t ≡ false = ground (arith, r.0) in
      rw (miss) (items-Rising base call.thread calls o t r.1 (omega (arith, r.0)))

  -- All items of the key, in order.
  unfoldable pub keyed : List (Call A) → ℕ → List A
  keyed [] o = []
  keyed (call ∷ calls) o = (if call.key == o then (call.item ∷ []) else []) ++ keyed calls o

  pub keyed-append : (xs ys : List (Call A)) (o : ℕ) → keyed (xs ++ ys) o ≡ keyed xs o ++ keyed ys o
  unfolding keyed
  keyed-append [] ys o = refl
  keyed-append (call ∷ xs) ys o =
      ap (λ zs. (if call.key == o then (call.item ∷ []) else []) ++ zs) (keyed-append xs ys o)
      ∙ sym
          (append_assoc (if call.key == o then (call.item ∷ []) else []) (keyed xs o) (keyed ys o))

  hits-key : (call : Call A) (o : ℕ) → (call.key == o) ≡ false → (t : ℕ) → hits 0 call o t ≡ false
  hits-key call o e t = ground (arith, e)

  -- If the threads do not fall, the items by threads are the items in order.
  pub gather-items :
      (calls : List (Call A)) (lo o n : ℕ)
      → Rising lo calls
      → InRange 0 n calls
      → gather (items 0 calls o) n ≡ keyed calls o
  unfolding items keyed
  gather-items [] lo o n r h = gather-nil (λ t. []) n (λ t l. refl)
  gather-items (call ∷ calls) lo o n r h = elim (Bool-cases (call.key == o)) [
    | inl e ↦
        let rest = gather-items calls call.thread o n r.1 h.2 in
        gather-cons (items 0 (call ∷ calls) o) (items 0 calls o) call.item n call.thread h.1
          (λ t l. items-Rising 0 call.thread calls o t r.1 l)
          (λ t ne. let miss : hits 0 call o t ≡ false = ground (arith, ne) in rw (miss, items) refl)
          (let hit : hits 0 call o call.thread ≡ true = ground (arith, e) in rw (hit, items) refl)
        ∙ rw (e) (ap (λ xs. call.item ∷ xs) rest)
    | inr e ↦
        gather_ext (items 0 (call ∷ calls) o) (items 0 calls o) n
          (λ t l. rw (hits-key call o e t, items) refl)
        ∙ rw (e) (gather-items calls call.thread o n r.1 h.2)
  ]
