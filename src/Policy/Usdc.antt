-- ===== src/Policy/Usdc.antt =====
-- policy/usdc.go over the bytes of the texts. `none` is an error.
-- `strings.TrimSpace`, `strings.Cut` and `fmt.Sscanf` with `%d` are the standard library's on ASCII
-- text: a space beyond ASCII, which the library would skip too, is an error here.
pub mod Whole
use algebra.Prelude.{
  ℕ, zero, suc, ◌+◌, ◌-◌, ◌*◌, ◌^◌, String, Bool, true, false, ◌&&◌, ◌||◌, Option, none, some, List,
  [], ◌∷◌, ◌++◌, ltb, leb, ◌==◌, if◌then◌else◌, is_empty, length,
}
use algebra.Prelude.Int.{ℤ, pos, negsuc, sub_ℕ, ltb_ℤ, leb_ℤ, add64, mul64, neg64}
use mathlib.Core.List.{reverse}

infixl 5 ◌>>=◌
abbrev pub ◌>>=◌ {ℓ κ} : {A : Type ℓ} {B : Type κ} → Option A → (A → Option B) → Option B
none >>= f = none
some a >>= f = f a

-- '\t', '\n', '\v', '\f', '\r' and ' '.
abbrev pub is_space : ℕ → Bool
is_space c = (leb 9 c && leb c 13) || c == 32

abbrev pub is_digit : ℕ → Bool
is_digit c = leb b'0' c && leb c b'9'

-- The text from the first byte that is no space.
unfoldable pub trim_left : List ℕ → List ℕ
trim_left [] = []
trim_left (c ∷ s) = let rest = trim_left s in if is_space c then rest else c ∷ s

unfoldable pub trim_space : List ℕ → List ℕ
unfolding trim_left
trim_space s = reverse (trim_left (reverse (trim_left s)))

-- The parts before and after the first `sep`; the second is empty where there is none.
unfoldable pub cut : ℕ → List ℕ → List ℕ × List ℕ
cut sep [] = ([], [])
cut sep (c ∷ s) = let r = cut sep s in if c == sep then ([], s) else (c ∷ r.0, r.1)

-- The spaces that a scan of an integer skips; a newline there is an error.
unfoldable pub skip_space : List ℕ → Option (List ℕ)
skip_space [] = some []
skip_space (c ∷ s) =
    let rest = skip_space s in if c == 10 then none else if is_space c then rest else some (c ∷ s)

-- The value of the digits at the front, after `n`; what follows them is left unread.
unfoldable pub scan_digits : ℕ → List ℕ → ℕ
scan_digits n [] = n
scan_digits n (c ∷ s) =
    let rest = scan_digits (n * 10 + (c - b'0')) s in if is_digit c then rest else n

-- At least one digit, and a value that fits an int64 with the sign read.
unfoldable pub scan_magnitude : Bool → List ℕ → Option ℤ
unfolding scan_digits
scan_magnitude neg [] = none
scan_magnitude neg (c ∷ s) =
    let n = scan_digits 0 (c ∷ s) in
    if is_digit c
    then if neg
      then if leb n (2 ^ 63) then some (sub_ℕ 0 n) else none
      else if ltb n (2 ^ 63)
      then some (pos n)
      else none
    else none

abbrev scan_sign : List ℕ → Option ℤ
scan_sign [] = none
scan_sign (c ∷ s) =
    if c == b'-'
    then scan_magnitude true s
    else if c == b'+'
    then scan_magnitude false s
    else scan_magnitude false (c ∷ s)

-- `fmt.Sscanf(s, "%d", &v)` for an int64.
unfoldable pub sscanf_d : List ℕ → Option ℤ
unfolding skip_space scan_magnitude
sscanf_d s = skip_space s >>= scan_sign

-- The loop that pads and the slice that cuts the fraction to six bytes.
unfoldable pub pad : ℕ → List ℕ → List ℕ
pad zero s = []
pad (suc n) [] = b'0' ∷ pad n []
pad (suc n) (c ∷ s) = c ∷ pad n s

-- `neg` and the text after it.
unfoldable pub split_sign : List ℕ → Bool × List ℕ
split_sign [] = (false, [])
split_sign (c ∷ s) = if c == b'-' then (true, s) else (false, c ∷ s)

abbrev or_zero : List ℕ → List ℕ
or_zero [] = b'0' ∷ []
or_zero (c ∷ s) = c ∷ s

abbrev pub micros : ℤ → ℤ → ℤ
micros whole frac = add64 (mul64 whole (pos 1000000)) frac

unfoldable pub parse_usdc_micros : List ℕ → Option ℤ
unfolding trim_space split_sign cut pad sscanf_d
parse_usdc_micros s =
    let signed = split_sign (trim_space s) in
    let parts = cut b'.' signed.1 in
    do
      whole_val ← sscanf_d (or_zero parts.0)
      frac_val ← sscanf_d (pad 6 parts.1)
      some (if signed.0 then neg64 (micros whole_val frac_val) else micros whole_val frac_val)

unfoldable pub usdc_at_or_above : List ℕ → List ℕ → Option Bool
usdc_at_or_above amount threshold = do
  a ← parse_usdc_micros amount
  t ← parse_usdc_micros threshold
  some (leb_ℤ t a)

unfoldable pub usdc_above : List ℕ → List ℕ → Option Bool
usdc_above amount limit = do
  a ← parse_usdc_micros amount
  l ← parse_usdc_micros limit
  some (ltb_ℤ l a)
