-- ===== src/Operators/Rut/Laws.antt =====
-- What the check digit of a RUT detects.
use smi_backend.Prelude.{
  ℕ, zero, suc, ◌+◌, ◌-◌, ◌*◌, ◌%◌, ◌≤◌, ◌<◌, ◌≡◌, ◌≢◌, refl, ap, true, List, [], ◌∷◌, ◌++◌, arith,
}
use smi_backend.Operators.Rut.{
  weigh, digit, compute_check_digit, digit_of, next_multiplier, is_digit,
}

-- The multipliers of the loop.
weigh_bounds : (cs : List ℕ) → (2 ≤ (weigh cs).1) × ((weigh cs).1 ≤ 7)
unfolding weigh
weigh_bounds [] = omega arith
weigh_bounds (c ∷ cs) = ground (arith, weigh_bounds cs)

-- What one character adds at its place.
weigh-replace :
    (xs ys : List ℕ) (d e : ℕ)
    → ((weigh (xs ++ d ∷ ys)).0 + digit e * (weigh ys).1
        ≡ (weigh (xs ++ e ∷ ys)).0 + digit d * (weigh ys).1)
      × ((weigh (xs ++ d ∷ ys)).1 ≡ (weigh (xs ++ e ∷ ys)).1)
unfolding weigh
weigh-replace [] ys d e = (omega arith, refl)
weigh-replace (x ∷ xs) ys d e =
    let (sums, same) = weigh-replace xs ys d e in
    (rw same (omega (arith, sums)), ap next_multiplier same)

-- Eleven is a prime: two products by one multiplier differ where the digits do.
differ_mod :
    (m d e s t : ℕ)
    → 2 ≤ m
    → m ≤ 7
    → d < 10
    → e < 10
    → d ≢ e
    → s + e * m ≡ t + d * m
    → s % 11 ≢ t % 11
differ_mod zero d e s t lo hi dd ee ne sums h = absurd (omega (arith, lo))
differ_mod (suc zero) d e s t lo hi dd ee ne sums h = absurd (omega (arith, lo))
differ_mod (suc (suc zero)) d e s t lo hi dd ee ne sums h = omega (arith, dd, ee, ne, sums, h)
differ_mod (suc (suc (suc zero))) d e s t lo hi dd ee ne sums h = omega (arith, dd, ee, ne, sums, h)
differ_mod (suc (suc (suc (suc zero)))) d e s t lo hi dd ee ne sums h =
    omega (arith, dd, ee, ne, sums, h)
differ_mod (suc (suc (suc (suc (suc zero))))) d e s t lo hi dd ee ne sums h =
    omega (arith, dd, ee, ne, sums, h)
differ_mod (suc (suc (suc (suc (suc (suc zero)))))) d e s t lo hi dd ee ne sums h =
    omega (arith, dd, ee, ne, sums, h)
differ_mod (suc (suc (suc (suc (suc (suc (suc zero))))))) d e s t lo hi dd ee ne sums h =
    omega (arith, dd, ee, ne, sums, h)
differ_mod (suc (suc (suc (suc (suc (suc (suc (suc m)))))))) d e s t lo hi dd ee ne sums h =
    absurd (omega (arith, hi))

digit_of-ne : (s t : ℕ) → s % 11 ≢ t % 11 → digit_of (11 - s % 11) ≢ digit_of (11 - t % 11)
digit_of-ne s t h e = ground arith

-- A RUT with one digit of its body mistaken, at any place, has another check digit.
pub compute_check_digit-replace :
    (xs ys : List ℕ) (d e : ℕ)
    → is_digit d ≡ true
    → is_digit e ≡ true
    → d ≢ e
    → compute_check_digit (xs ++ d ∷ ys) ≢ compute_check_digit (xs ++ e ∷ ys)
unfolding compute_check_digit
compute_check_digit-replace xs ys d e dd ee ne =
    let (sums, _) = weigh-replace xs ys d e in
    let (lo, hi) = weigh_bounds ys in
    digit_of-ne (weigh (xs ++ d ∷ ys)).0 (weigh (xs ++ e ∷ ys)).0 (
      differ_mod (weigh ys).1 (digit d) (digit e) (weigh (xs ++ d ∷ ys)).0 (weigh (xs ++ e ∷ ys)).0
        lo hi (ground (arith, dd)) (ground (arith, ee)) (λ same. ground (arith, dd, ee, ne, same))
        sums)
