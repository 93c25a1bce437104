-- ===== src/Base64/Bounds.antt =====
-- Read of Base64InStream (src/common/base64.h) on any stream: what it writes stays within its buffers.
use xgboost.Prelude.{
  ℕ, zero, suc, ◌+◌, ◌-◌, ◌*◌, ◌/◌, ◌%◌, ◌^◌, ◌≤◌, ◌<◌, ◌≡◌, refl, sym, subst, Bool, true, false,
  not, ◌&&◌, List, [], ◌∷◌, ◌++◌, Option, none, some, ◌==◌, leb, if◌then◌else◌, Bool-cases, inl,
  inr, arith, length, length-append,
}
use xgboost.Prelude.Check.{◌>>=◌, ◌>>◌, check}
use xgboost.Base64.{
  Base64InStream, Progress, next, put, advance, advance_inside, advance_end, fourth, third, unit,
  units, take_prev, read, is_end, decode_char, pad,
}

-- What is returned, if anything is, has the property.
abbrev pub OnSome : {A : Type 0} → (A → Type 0) → Option A → Type 0
OnSome P none = Unit
OnSome P (some a) = P a

module _ {A B : Type 0} (P : A → Type 0) where
  pub bind-OnSome :
      (Q : B → Type 0) (m : Option A) (f : A → Option B)
      → OnSome P m
      → ((a : A) → P a → OnSome Q (f a))
      → OnSome Q (m >>= f)
  bind-OnSome Q none f h k = tt
  bind-OnSome Q (some a) f h k = k a h

  pub bind_agree :
      (m : Option A) (f g : A → Option B)
      → OnSome P m
      → ((a : A) → P a → f a ≡ g a)
      → (m >>= f) ≡ (m >>= g)
  bind_agree none f g h k = refl
  bind_agree (some a) f g h k = k a h

check-OnSome :
    {A : Type 0} (P : A → Type 0) (b : Bool) (m : Option A) → OnSome P m → OnSome P (check b >> m)
check-OnSome P true m h = h
check-OnSome P false m h = tt

-- Of `size` bytes wanted, those given out and those still wanted; up to `k` bytes are kept back, and none as
-- long as more are wanted. Less than `most` are still wanted.
pub record Within (size most k : ℕ) (p : Progress) : Type 0 where
  pub sizes : length p.out + p.tlen ≡ size
  pub wanted : p.tlen < most
  pub few : length p.stream.prev ≤ k
  pub idle : 0 < p.tlen → length p.stream.prev ≡ 0

module _ (size most : ℕ) where
  put-Within : (k b : ℕ) (p : Progress) → Within size most k p → Within size most (suc k) (put b p)
  unfolding put
  put-Within k b p w = elim (Bool-cases (p.tlen == 0)) [
    | inl e ↦
        subst
          (λ c. Within size most (suc k) (
            if c
            then record p { stream = record (p.stream) { prev = p.stream.prev ++ (b ∷ []) } }
            else record p { out = p.out ++ (b ∷ []); tlen = p.tlen - 1 }))
          (sym e)
          (record {
            sizes = w.sizes;
            wanted = w.wanted;
            few = omega (arith, w.few, length-append p.stream.prev (b ∷ []));
            idle = λ h. ground (arith, e, h);
          })
    | inr e ↦
        let more : 0 < p.tlen = ground (arith, e) in
        subst
          (λ c. Within size most (suc k) (
            if c
            then record p { stream = record (p.stream) { prev = p.stream.prev ++ (b ∷ []) } }
            else record p { out = p.out ++ (b ∷ []); tlen = p.tlen - 1 }))
          (sym e)
          (record {
            sizes = omega (arith, more, w.sizes, length-append p.out (b ∷ []));
            wanted = omega (arith, w.wanted);
            few = omega (arith, w.few);
            idle = λ h. w.idle more;
          })
  ]

  advance-Within : (k : ℕ) (p : Progress) → Within size most k p → Within size most k (advance p)
  unfolding next
  advance-Within k p w = record { sizes = w.sizes; wanted = w.wanted; few = w.few; idle = w.idle }

  advance_inside-Within :
      (k : ℕ) (p : Progress) → Within size most k p → OnSome (Within size most k) (advance_inside p)
  unfolding advance_inside
  advance_inside-Within k p w =
      check-OnSome (Within size most k) (not (is_end (advance p).stream.tmp_ch)) (some (advance p))
        (advance-Within k p w)

  advance_end-Within :
      (k : ℕ) (p : Progress) → Within size most k p → OnSome (Within size most k) (advance_end p)
  unfolding advance_end
  advance_end-Within k p w =
      check-OnSome (Within size most k) (is_end (advance p).stream.tmp_ch) (some (advance p))
        (advance-Within k p w)

  more_kept : (k : ℕ) (p : Progress) → Within size most k p → Within size most (suc k) p
  more_kept k p w = record {
    sizes = w.sizes;
    wanted = w.wanted;
    few = omega (arith, w.few);
    idle = w.idle;
  }

  -- What a round returns.
  abbrev pub Round : ℕ → Progress × Bool → Type 0
  Round k w = Within size most k w.0

  fourth-Round :
      (nvalue k : ℕ) (p : Progress)
      → Within size most k p
      → OnSome (Round (suc k)) (fourth nvalue p)
  unfolding fourth
  fourth-Round nvalue k p w =
      bind-OnSome (Within size most k) (Round (suc k)) (advance_inside p) _
        (advance_inside-Within k p w)
        (λ p1 w1. elim (Bool-cases (p1.stream.tmp_ch == pad)) [
          | inl e ↦ rw (e) (
              bind-OnSome (Within size most k) (Round (suc k)) (advance_end p1)
                (λ p2. some (p2, false)) (advance_end-Within k p1 w1) (λ p2 w2. more_kept k p2 w2))
          | inr e ↦ rw (e) (
              advance-Within (suc k) (put ((nvalue + decode_char p1.stream.tmp_ch) % 256) p1)
                (put-Within k ((nvalue + decode_char p1.stream.tmp_ch) % 256) p1 w1))
        ])

  third-Round :
      (nvalue : ℕ) (p : Progress) → Within size most 0 p → OnSome (Round 2) (third nvalue p)
  unfolding third
  third-Round nvalue p w =
      bind-OnSome (Within size most 0) (Round 2) (advance_inside p) _ (advance_inside-Within 0 p w)
        (λ p1 w1. elim (Bool-cases (p1.stream.tmp_ch == pad)) [
          | inl e ↦ rw (e) (
              check-OnSome (Round 2) ((advance p1).stream.tmp_ch == pad)
                (advance_end (advance p1) >>= λ p2. some (p2, false))
                (bind-OnSome (Within size most 0) (Round 2) (advance_end (advance p1))
                  (λ p2. some (p2, false))
                  (advance_end-Within 0 (advance p1) (advance-Within 0 p1 w1))
                  (λ p2 w2. more_kept 1 p2 (more_kept 0 p2 w2))))
          | inr e ↦
              let n = nvalue + decode_char p1.stream.tmp_ch * 2 ^ 6 in
              rw (e)
                (fourth-Round n 1 (put (n / 2 ^ 8 % 256) p1) (put-Within 0 (n / 2 ^ 8 % 256) p1 w1))
        ])

-- The second character leaves what is wanted as it is.
abbrev Second : ℕ → Progress → Progress → Type 0
Second size p p1 = Within size (suc p.tlen) 0 p1 × (p1.tlen ≡ p.tlen)

-- The first byte of a round is given out.
put_first :
    (size b most : ℕ) (p : Progress)
    → Within size (suc most) 0 p
    → p.tlen ≡ most
    → 0 < most
    → Within size most 0 (put b p)
unfolding put
put_first size b most p w e h =
    let more : (p.tlen == 0) ≡ false = ground (arith, e, h) in
    subst
      (λ c. Within size most 0 (
        if c
        then record p { stream = record (p.stream) { prev = p.stream.prev ++ (b ∷ []) } }
        else record p { out = p.out ++ (b ∷ []); tlen = p.tlen - 1 }))
      (sym more)
      (record {
        sizes = omega (arith, e, h, w.sizes, length-append p.out (b ∷ []));
        wanted = omega (arith, e, h);
        few = w.few;
        idle = λ l. w.idle (omega (arith, e, h));
      })

-- A round gives out a byte at least.
pub unit-Round :
    (size : ℕ) (p : Progress)
    → Within size (suc p.tlen) 2 p
    → 0 < p.tlen
    → OnSome (Round size p.tlen 2) (unit p)
unfolding unit advance_inside next
unit-Round size p w h =
    let idle : Within size (suc p.tlen) 0 p = record {
      sizes = w.sizes;
      wanted = w.wanted;
      few = omega (arith, w.idle h);
      idle = w.idle;
    } in
    let start : OnSome (Second size p) (advance_inside p) =
      check-OnSome (Second size p) (not (is_end (advance p).stream.tmp_ch)) (some (advance p))
        (advance-Within size (suc p.tlen) 0 p idle, refl) in
    bind-OnSome (Second size p) (Round size p.tlen 2) (advance_inside p) _ start (λ p1 w1.
      let n = decode_char p.stream.tmp_ch * 2 ^ 18 + decode_char p1.stream.tmp_ch * 2 ^ 12 in
      third-Round size p.tlen n (put (n / 2 ^ 16 % 256) p1)
        (put_first size (n / 2 ^ 16 % 256) p.tlen p1 w1.0 w1.1 h))

go_on-OnSome :
    (P : Progress → Type 0) (fuel : ℕ) (p : Progress) (more : Bool)
    → OnSome P (units fuel p)
    → P p
    → OnSome P (elim more [ true ↦ units fuel p | false ↦ some p ])
go_on-OnSome P fuel p true h k = h
go_on-OnSome P fuel p false h k = k

pub settled : (size most : ℕ) (p : Progress) → Within size most 2 p → Within size (suc p.tlen) 2 p
settled size most p w = record { sizes = w.sizes; wanted = omega arith; few = w.few; idle = w.idle }

-- The loop keeps to the sizes.
pub units-Within :
    (size fuel : ℕ) (p : Progress)
    → Within size (suc p.tlen) 2 p
    → OnSome (λ q. Within size (suc q.tlen) 2 q) (units fuel p)
unfolding units
units-Within size zero p w = w
units-Within size (suc fuel) p w =
    elim (Bool-cases (not (p.tlen == 0) && not (is_end p.stream.tmp_ch))) [
      | inl e ↦
          let more : 0 < p.tlen = ground (arith, e) in
          rw (e, units)
            (bind-OnSome (Round size p.tlen 2) (λ q. Within size (suc q.tlen) 2 q) (unit p) _
              (unit-Round size p w more)
              (λ u v.
                go_on-OnSome (λ q. Within size (suc q.tlen) 2 q) fuel u.0 u.1
                  (units-Within size fuel u.0 (settled size p.tlen u.0 v))
                  (settled size p.tlen u.0 v)))
      | inr e ↦ rw (e, units) w
    ]

-- What is taken from the bytes kept back, what is still wanted, what is left.
abbrev Taken : ℕ → List ℕ × ℕ × List ℕ → Type 0
Taken size w = (length w.0 + w.1 ≡ size) × (length w.2 ≤ 2) × (0 < w.1 → length w.2 ≡ 0)

take_prev-Taken :
    (size : ℕ) (prev : List ℕ) → 0 < size → length prev ≤ 2 → Taken size (take_prev size prev)
unfolding take_prev
take_prev-Taken size [] h few = (omega arith, omega arith, λ l. refl)
take_prev-Taken size (x ∷ []) h few = (omega arith, omega arith, λ l. refl)
take_prev-Taken size (x ∷ y ∷ []) h few = elim (Bool-cases (leb 2 size)) [
  | inl e ↦ rw (e) (ground (arith, e), omega arith, λ l. refl)
  | inr e ↦
      let one : size ≡ 1 = ground (arith, e, h) in
      rw (e) (omega (arith, one), omega arith, λ l. absurd (omega (arith, one)))
]
take_prev-Taken size (x ∷ y ∷ z ∷ prev) h few = absurd (omega arith)

-- A Read of `size` bytes that returns gives out `size` at most, and keeps 2 back at most.
abbrev pub Bounded : ℕ → List ℕ × Base64InStream → Type 0
Bounded size w = (length w.0 ≤ size) × (length w.1.prev ≤ 2)

-- Whatever the stream holds, well-formed or not: if two bytes at most are kept back, then a Read of `size`
-- bytes fails a check or gives out `size` bytes at most, which is the size of the caller's memory, and
-- again keeps two back at most, which is the size of buf_prev.
pub read-Bounded :
    (st : Base64InStream) (size : ℕ) → length st.prev ≤ 2 → OnSome (Bounded size) (read st size)
unfolding read
read-Bounded st size few = elim (Bool-cases (size == 0)) [
  | inl z ↦ rw (z) (omega arith, few)
  | inr more ↦
      let w = take_prev size st.prev in
      let (sizes, left, idle) = take_prev-Taken size st.prev (ground (arith, more)) few in
      elim (Bool-cases (w.1 == 0)) [
        | inl z ↦ rw (more, z) (omega (arith, sizes), left)
        | inr go_on ↦
            let p : Progress = record {
              out = w.0;
              tlen = w.1;
              stream = record st { prev = w.2 };
            } in
            rw (more, go_on)
              (bind-OnSome (λ q. Within size (suc q.tlen) 2 q) (Bounded size) (units w.1 p)
                (λ q. some (q.out, q.stream))
                (units-Within size w.1 p
                  (record { sizes = sizes; wanted = omega arith; few = left; idle = idle }))
                (λ q v. (omega (arith, v.sizes), v.few)))
      ]
]
