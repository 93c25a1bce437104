-- ===== src/Base64/Fuel.antt =====
-- The loop of Base64InStream's Read (src/common/base64.h) ends by itself.
use xgboost.Prelude.{
  ℕ, zero, suc, ◌+◌, ◌≤◌, ◌<◌, ◌≡◌, refl, ap, ◌∙◌, Bool, true, false, not, ◌&&◌, length, ◌==◌, some,
  arith, Bool-cases, inl, inr,
}
use xgboost.Base64.{Progress, unit, units, is_end}
use xgboost.Base64.Bounds.{Within, Round, unit-Round, settled, bind_agree}

units_fuel :
    (size fuel : ℕ) (p : Progress)
    → Within size (suc p.tlen) 2 p
    → p.tlen ≤ fuel
    → units fuel p ≡ units (suc fuel) p
unfolding units
units_fuel size zero p w h =
    let none_wanted : (p.tlen == 0) ≡ true = ground arith in rw (none_wanted, units) refl
units_fuel size (suc fuel) p w h =
    elim (Bool-cases (not (p.tlen == 0) && not (is_end p.stream.tmp_ch))) [
      | inl e ↦
          let more : 0 < p.tlen = ground (arith, e) in
          rw (e, units)
            (bind_agree (Round size p.tlen 2) (unit p) _ _ (unit-Round size p w more) (λ u v.
              go_on u.0 u.1 fuel
                (units_fuel size fuel u.0 (settled size p.tlen u.0 v) (omega (arith, v.wanted)))))
      | inr e ↦ rw (e, units) refl
    ]
  where
    go_on :
        (p : Progress) (more : Bool) (fuel : ℕ)
        → units fuel p ≡ units (suc fuel) p
        → elim more [ true ↦ units fuel p | false ↦ some p ]
          ≡ elim more [ true ↦ units (suc fuel) p | false ↦ some p ]
    go_on p true fuel e = e
    go_on p false fuel e = refl

-- Whatever the stream holds: if no byte is kept back while bytes are wanted, and two at most otherwise, then
-- the loop ends within as many rounds as bytes are wanted. With more fuel it returns the same.
pub units_terminate :
    (p : Progress) (more : ℕ)
    → length p.stream.prev ≤ 2
    → (0 < p.tlen → length p.stream.prev ≡ 0)
    → units p.tlen p ≡ units (p.tlen + more) p
units_terminate p zero few idle = let z : p.tlen ≡ p.tlen + 0 = omega arith in ap (λ n. units n p) z
units_terminate p (suc more) few idle =
    let next : suc (p.tlen + more) ≡ p.tlen + suc more = omega arith in
    units_terminate p more few idle
    ∙ units_fuel (length p.out + p.tlen) (p.tlen + more) p
        (record { sizes = refl; wanted = omega arith; few = few; idle = idle }) (omega arith)
    ∙ ap (λ n. units n p) next
