-- ===== src/Policy/Provider/Overflow.antt =====
-- Where the caps of local_provider.go do not hold: sums and USDC amounts that overflow an int64.
use algebra.Prelude.{ℕ, ◌*◌, ◌^◌, ◌≤◌, ◌<◌, ◌≡◌, some, List, ◌∷◌, arith, All}
use algebra.Prelude.Int.{pos}
use algebra.Policy.Decision.{allow}
use algebra.Policy.Rules.{Rules}
use algebra.Policy.Usdc.{scan_digits, parse_usdc_micros}
use algebra.Policy.Usdc.Whole.{IsDigit, overflow_not_above}
use algebra.Policy.Provider.{decide, evaluate_crypto_amount}

module _ (p : Rules) (now : ℕ) where
  -- A USDC amount of digits alone, whose micros lie between 2^63 and 2^64, passes any cap that reads
  -- as 0 or more.
  pub crypto_cap_overflow :
      (c : ℕ) (s : List ℕ) (l : ℕ)
      → All IsDigit (c ∷ s)
      → 2 ^ 63 ≤ scan_digits 0 (c ∷ s) * 1000000
      → scan_digits 0 (c ∷ s) * 1000000 < 2 ^ 64
      → parse_usdc_micros p.max_crypto_tx_usdc ≡ some (pos l)
      → evaluate_crypto_amount p now (c ∷ s) ≡ some (decide p now allow "CRYPTO_AMOUNT_OK")
  unfolding evaluate_crypto_amount
  crypto_cap_overflow c s l h lo hi e =
      let passes = overflow_not_above c s p.max_crypto_tx_usdc l h lo hi e in ground arith
