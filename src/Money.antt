-- ===== src/Money.antt =====
-- internal/domain/money/money.go: amounts in minor units. `none` is the panic of `mustMatch`.
pub mod Laws
use algebra.Prelude.{String, Bool, ◌&&◌, Option, none, some, str_eq, if◌then◌else◌}
use algebra.Prelude.Int.{ℤ, pos, ltb_ℤ, leb_ℤ, add64, sub64, neg64}

pub record Amount : Type 0 where
  pub minor_units : ℤ
  pub currency : String

unfoldable pub is_zero : Amount → Bool
is_zero a = leb_ℤ a.minor_units (pos 0) && leb_ℤ (pos 0) a.minor_units

unfoldable pub same_currency : Amount → Amount → Bool
same_currency a b = str_eq a.currency b.currency

-- The result of an operation on amounts whose currencies must agree.
abbrev pub must_match {ℓ} : {A : Type ℓ} → Amount → Amount → A → Option A
must_match a b r = if str_eq a.currency b.currency then some r else none

unfoldable pub add : Amount → Amount → Option Amount
add a b =
    must_match a b
      (record { minor_units = add64 a.minor_units b.minor_units; currency = a.currency })

unfoldable pub sub : Amount → Amount → Option Amount
sub a b =
    must_match a b
      (record { minor_units = sub64 a.minor_units b.minor_units; currency = a.currency })

unfoldable pub greater_than : Amount → Amount → Option Bool
greater_than a b = must_match a b (ltb_ℤ b.minor_units a.minor_units)

-- `if diff < 0 { diff = -diff }`, which leaves the least int64 as it is.
unfoldable pub abs_diff : ℤ → ℤ → ℤ
abs_diff a b = let diff = sub64 a b in if ltb_ℤ diff (pos 0) then neg64 diff else diff

unfoldable pub within_tolerance : Amount → Amount → Amount → Option Bool
within_tolerance a b tolerance =
    if str_eq a.currency b.currency
    then must_match a tolerance (leb_ℤ (abs_diff a.minor_units b.minor_units) tolerance.minor_units)
    else none
