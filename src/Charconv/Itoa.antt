-- ===== src/Charconv/Itoa.antt =====
-- to_chars of an int64_t (src/common/charconv.h, src/common/charconv.cc) against the decimal text.
use xgboost.Prelude.{
  ℕ, zero, suc, true, false, ◌+◌, ◌-◌, ◌*◌, ◌/◌, ◌%◌, ◌^◌, ◌≤◌, ◌<◌, ◌≡◌, refl, sym, ap, ◌∙◌, subst,
  inl, inr, ◌==◌, List, [], ◌∷◌, ◌++◌, take, drop, set, get_or, length, length-append,
  take-append-drop, ne→==, Bool-cases, leb, leb→le, arith,
}
use xgboost.Charconv.Buffer.{set_behind, length-take_exact, put_two, set_at, take-head}
use xgboost.Charconv.{
  itoa_lut, tens, put_last, itoa_loop, itoa_unsigned_impl, shortest_digit10, shortest_digit10_impl,
  to_chars_unsigned_impl, to_chars, to_chars_size, ToCharsResult, ok,
}
use xgboost.Charconv.Digits.{
  spell, spell_last, width, width_last, limit, length-spell, width_le, width_pos, spell-append,
  printed, Integer, printed-Integer,
}
use xgboost.Charconv.Lut.{tens_char, ones_char, shortest_digit10_impl-width}

put_last-spell_last :
    (v : ℕ) (head pre ys : List ℕ)
    → v < 100
    → length pre ≡ width_last v
    → put_last (length head) (head ++ (pre ++ ys)) v ≡ head ++ spell_last v ys
unfolding put_last spell_last width_last
put_last-spell_last v head pre ys h size = elim (Bool-cases (leb 10 v)) [
  | inl big ↦ two pre big (size ∙ rw big refl)
  | inr small ↦ one pre small (size ∙ rw small refl)
]
  where
    two :
        (p : List ℕ)
        → leb 10 v ≡ true
        → length p ≡ 2
        → put_last (length head) (head ++ (p ++ ys)) v ≡ head ++ spell_last v ys
    two (x ∷ y ∷ []) big e =
        rw
          (
            big,
            set_at head (y ∷ ys) x (get_or itoa_lut (v * 2) 0),
            set_behind head (get_or itoa_lut (v * 2) 0 ∷ y ∷ ys) 1 (get_or itoa_lut (v * 2 + 1) 0),
            tens_char v h,
            ones_char v h,
          )
          refl
    two [] big e = absurd (omega arith)
    two (x ∷ []) big e = absurd (omega arith)
    two (x ∷ y ∷ z ∷ p) big e = absurd (omega arith)

    one :
        (p : List ℕ)
        → leb 10 v ≡ false
        → length p ≡ 1
        → put_last (length head) (head ++ (p ++ ys)) v ≡ head ++ spell_last v ys
    one (x ∷ []) small e = rw (small, set_at head ys x (48 + v)) refl
    one [] small e = absurd (omega arith)
    one (x ∷ y ∷ p) small e = absurd (omega arith)

round_buffer :
    (n p : ℕ) (head r ys : List ℕ) (a b : ℕ)
    → p ≡ suc n
    → length r ≡ suc (suc n)
    → set (set (head ++ (r ++ ys)) (length head + p) b) (length head + (p - 1)) a
      ≡ head ++ (take n r ++ a ∷ b ∷ ys)
round_buffer n p head r ys a b e size =
    let less : p - 1 ≡ n = omega arith in
    let inside : set (set (r ++ ys) p b) (p - 1) a ≡ take n r ++ a ∷ b ∷ ys =
      rw (less, e) (put_two n r ys a b size) in
    ap (λ zs. set zs (length head + (p - 1)) a) (set_behind head (r ++ ys) p b)
    ∙ set_behind head (set (r ++ ys) p b) (p - 1) a
    ∙ ap (λ zs. head ++ zs) inside

-- The loop overwrites the `p` + 1 chars of `pre` by the digits of `v`.
itoa_loop-spell :
    (f v p : ℕ) (head pre ys : List ℕ)
    → v < limit f
    → length pre ≡ width f v
    → length pre ≡ suc p
    → p < 2 ^ 32
    → itoa_loop f (length head) (head ++ (pre ++ ys)) p v ≡ head ++ spell f v ys
unfolding itoa_loop spell width limit tens
itoa_loop-spell zero v p head pre ys h size last small = put_last-spell_last v head pre ys h size
itoa_loop-spell (suc f) v p head pre ys h size last small = elim (Bool-cases (leb 100 v)) [
  | inl big ↦
      let more : length pre ≡ 2 + width f (v / 100) = size ∙ rw big refl in
      let q = p - 2 in
      let two_more : p ≡ suc (suc q) = omega (arith, width_pos f (v / 100)) in
      let back : (p + (2 ^ 32 - 2)) % 2 ^ 32 ≡ q = omega arith in
      let shorter : length (take (suc q) pre) ≡ suc q =
        length-take_exact (suc q) pre (omega arith) in
      let buffer =
        round_buffer (suc q) p head pre ys (48 + v % 100 / 10) (48 + v % 100 % 10) two_more
          (last ∙ ap suc two_more) in
      let ih =
        itoa_loop-spell f (v / 100) q head (take (suc q) pre)
          ((48 + v % 100 / 10) ∷ (48 + v % 100 % 10) ∷ ys) (omega arith) (omega arith) shorter
          (omega arith) in
      rw
        (
          big,
          tens_char (v % 100) (omega arith),
          ones_char (v % 100) (omega arith),
          back,
          buffer,
          ih,
        )
        refl
  | inr less ↦ rw less (put_last-spell_last v head pre ys (ground arith) (size ∙ rw less refl))
]

-- The chars before the pointer of a result.
abbrev pub text : ToCharsResult → List ℕ
text r = take r.ptr r.out

to_chars_unsigned_impl-spell :
    (head tail : List ℕ) (value : ℕ)
    → value < 2 ^ 64
    → 20 ≤ length tail
    → (to_chars_unsigned_impl (head ++ tail) (length head) value).ec ≡ ok
      × (text (to_chars_unsigned_impl (head ++ tail) (length head) value)
          ≡ head ++ spell 9 value [])
unfolding to_chars_unsigned_impl shortest_digit10 itoa_unsigned_impl
to_chars_unsigned_impl-spell head tail value h room =
    let w = width 9 value in
    let count : shortest_digit10_impl 5 value 1 ≡ w =
      shortest_digit10_impl-width 4 value 0 below_limit ∙ omega arith in
    let few : w ≤ 20 = omega (arith, width_le 9 value) in
    let some_digit : 1 ≤ w = width_pos 9 value in
    let apart : (length head == length (head ++ tail)) ≡ false =
      ne→== _ _ (λ e. omega (arith, length-append head tail)) in
    let fits : length (take w tail) ≡ w = length-take_exact w tail (omega arith) in
    let loop =
      itoa_loop-spell 9 value (w - 1) head (take w tail) (drop w tail) below_limit fits
        (omega arith) (omega arith) in
    let split : spell 9 value (drop w tail) ≡ spell 9 value [] ++ drop w tail =
      spell-append 9 value [] (drop w tail) in
    let whole : itoa_loop 9 (length head) (head ++ tail) (w - 1) value
        ≡ head ++ (spell 9 value [] ++ drop w tail) =
      ap (λ zs. itoa_loop 9 (length head) (head ++ zs) (w - 1) value)
        (sym (take-append-drop w tail))
      ∙ loop
      ∙ ap (λ zs. head ++ zs) split in
    let size : length (spell 9 value []) ≡ w = omega (arith, length-spell 9 value []) in
    rw (apart, count)
      (
        refl,
        rw whole (
            ap (λ n. take n (head ++ (spell 9 value [] ++ drop w tail)))
              (ap (λ n. length head + n) (sym size))
            ∙ take-head head (spell 9 value []) (drop w tail)),
      )
  where
    below_limit : value < limit 9
    below_limit = unfold limit in omega arith

-- What to_chars leaves before its pointer, with room for 21 chars.
pub to_chars-printed :
    (out : List ℕ) (value : ℕ)
    → to_chars_size ≤ length out
    → value < 2 ^ 64
    → ((to_chars out value).ec ≡ ok) × (text (to_chars out value) ≡ printed value)
unfolding to_chars printed
to_chars-printed [] value room h = absurd (omega arith)
to_chars-printed (x ∷ out) value room h =
    let full : (suc (length out) == 0) ≡ false = ground arith in
    elim (Bool-cases (value == 0)) [
      | inl empty ↦ rw (empty, full) (refl, refl)
      | inr other ↦ elim (Bool-cases (leb (2 ^ 63) value)) [
        | inl minus ↦
            let opposite : ((2 ^ 64 - 1 - value) + 1) % 2 ^ 64 ≡ 2 ^ 64 - value =
              omega (arith, leb→le (2 ^ 63) value minus) in
            rw (full, other, minus, opposite)
              (to_chars_unsigned_impl-spell (45 ∷ []) out (2 ^ 64 - value)
                (omega (arith, leb→le (2 ^ 63) value minus)) (omega arith))
        | inr plus ↦
            rw (full, other, plus) (to_chars_unsigned_impl-spell [] (x ∷ out) value h (omega arith))
      ]
    ]

-- The integer printer, given an array of 21 chars at least (kToCharsSize), reports no error and leaves the
-- shortest decimal text of the int64_t, a minus sign before the digits of a negative one, the least
-- int64_t included.
pub to_chars-Integer :
    (out : List ℕ) (value : ℕ)
    → to_chars_size ≤ length out
    → value < 2 ^ 64
    → ((to_chars out value).ec ≡ ok) × Integer value (text (to_chars out value))
to_chars-Integer out value room h =
    let done = to_chars-printed out value room h in
    (done.0, subst (Integer value) (sym done.1) (printed-Integer value h))
