-- ===== src/Money/Laws.antt =====
-- What the tolerance test of money.go decides.
use algebra.Prelude.{
  ℕ, ◌+◌, ◌-◌, ◌^◌, ◌≤◌, ◌<◌, ◌≡◌, ◌↔◌, Bool, true, some, arith, eq_refl, leb, String,
}
use algebra.Prelude.Int.{pos, neg64}
use algebra.Money.{within_tolerance, abs_diff}

abbrev dist : ℕ → ℕ → ℕ
dist a b = (a - b) + (b - a)

-- The distance of two non-negative int64 values is exact.
abs_diff_small : (a b : ℕ) → a < 2 ^ 63 → b < 2 ^ 63 → abs_diff (pos a) (pos b) ≡ pos (dist a b)
unfolding abs_diff neg64
abs_diff_small a b ha hb = ground arith

-- An amount that is not negative, in an int64.
abbrev pub Within : ℕ → ℕ → ℕ → Type 0
Within a b t = (a ≤ b + t) × (b ≤ a + t)

-- For amounts of one currency that are not negative, the tolerance test does not panic, and it
-- answers yes exactly when neither amount passes the other by more than the tolerance.
pub within_tolerance_exact :
    (a b t : ℕ) (c : String)
    → a < 2 ^ 63
    → b < 2 ^ 63
    → (r : Bool) × (within_tolerance
          (record { minor_units = pos a; currency = c })
          (record { minor_units = pos b; currency = c })
          (record { minor_units = pos t; currency = c })
        ≡ some r)
      × ((r ≡ true) ↔ Within a b t)
unfolding within_tolerance
within_tolerance_exact a b t c ha hb = (
  leb (dist a b) t,
  rw (abs_diff_small a b ha hb) (rw eq_refl (ground arith)),
  (ground arith, ground arith),
)
