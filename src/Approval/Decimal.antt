-- ===== src/Approval/Decimal.antt =====
-- The verb `%d` of fmt on an int64, as `CanonicalHash` uses it (internal/domain/approval/approval.go):
-- decimal digits, with a sign where the number is negative.
use native.Mathlib.Nat.{pow-suc}
use algebra.Prelude.{
  ℕ, zero, suc, ◌+◌, ◌-◌, inl, inr, Bool-cases, ◌*◌, ◌/◌, ◌%◌, ◌^◌, ◌<◌, ◌≡◌, refl, ◌∙◌, ap, List,
  [], ◌∷◌, arith, ltb, if◌then◌else◌,
}
use algebra.Prelude.Int.{ℤ, pos, negsuc}

-- `fuel` is a bound on the number of digits; 20 are enough for an int64.
unfoldable digits_onto : ℕ → ℕ → List ℕ → List ℕ
digits_onto zero n acc = acc
digits_onto (suc fuel) n acc =
    let more = digits_onto fuel (n / 10) ((48 + n % 10) ∷ acc) in
    if ltb n 10 then (48 + n) ∷ acc else more

unfoldable pub decimal_ℕ : ℕ → List ℕ
unfolding digits_onto
decimal_ℕ n = digits_onto 20 n []

unfoldable pub decimal : ℤ → List ℕ
unfolding decimal_ℕ
decimal (pos n) = decimal_ℕ n
decimal (negsuc n) = b'-' ∷ decimal_ℕ (suc n)

-- The number that a text of digits stands for, after `n`.
abbrev pub value_from : ℕ → List ℕ → ℕ
value_from n [] = n
value_from n (c ∷ s) = value_from (n * 10 + (c - 48)) s

-- Enough fuel writes all the digits.
below_one : (n : ℕ) → n < 10 ^ 0 → n ≡ 0
below_one n h = omega arith

fewer : (fuel n : ℕ) → n < 10 ^ suc fuel → n / 10 < 10 ^ fuel
fewer fuel n h = let e = pow-suc 10 fuel in omega (arith, e)

digits_onto-value :
    (fuel n : ℕ) (acc : List ℕ)
    → n < 10 ^ fuel
    → value_from 0 (digits_onto fuel n acc) ≡ value_from n acc
unfolding digits_onto
digits_onto-value zero n acc h = rw (below_one n h) refl
digits_onto-value (suc fuel) n acc h = elim (Bool-cases (ltb n 10)) [
  | inl small ↦ rw small (ap (λ k. value_from k acc) (omega arith))
  | inr big ↦ rw big (
      digits_onto-value fuel (n / 10) ((48 + n % 10) ∷ acc) (fewer fuel n h)
      ∙ ap (λ k. value_from k acc) (omega arith))
]

-- A number that fits 64 bits is read back from its digits.
pub decimal_ℕ-value : (n : ℕ) → n < 2 ^ 64 → value_from 0 (decimal_ℕ n) ≡ n
unfolding decimal_ℕ
decimal_ℕ-value n h = digits_onto-value 20 n [] (omega arith)
