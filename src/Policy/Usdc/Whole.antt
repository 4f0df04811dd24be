-- ===== src/Policy/Usdc/Whole.antt =====
-- What usdc.go reads from an amount that is written as digits alone.
use mathlib.Core.List.{reverse, reverse-reverse, reverse-cons}
use algebra.Prelude.{
  ℕ, ◌-◌, ◌*◌, ◌^◌, ◌≤◌, ◌<◌, ◌≡◌, refl, ap, ◌∙◌, true, false, some, List, [], ◌∷◌, ◌++◌, arith,
  All,
}
use algebra.Prelude.Int.{ℤ, pos, negsuc, wrap64, add64, mul64, ltb_ℤ}
use algebra.Policy.Usdc.{
  is_space, is_digit, trim_left, trim_space, cut, skip_space, scan_digits, scan_magnitude, sscanf_d,
  split_sign, scan_sign, micros, parse_usdc_micros, usdc_above,
}

abbrev pub IsDigit : ℕ → Type 0
IsDigit c = is_digit c ≡ true

not_space : (c : ℕ) → IsDigit c → is_space c ≡ false
not_space c h = ground arith

trim_left_digits : (s : List ℕ) → All IsDigit s → trim_left s ≡ s
unfolding trim_left
trim_left_digits [] h = refl
trim_left_digits (c ∷ s) h = rw (not_space c h.0)

All-append : (xs ys : List ℕ) → All IsDigit xs → All IsDigit ys → All IsDigit (xs ++ ys)
All-append [] ys hx hy = hy
All-append (x ∷ xs) ys hx hy = (hx.0, All-append xs ys hx.1 hy)

All-reverse : (xs : List ℕ) → All IsDigit xs → All IsDigit (reverse xs)
All-reverse [] h = tt
All-reverse (x ∷ xs) h =
    rw reverse-cons (All-append (reverse xs) (x ∷ []) (All-reverse xs h.1) (h.0, tt))

trim_digits : (s : List ℕ) → All IsDigit s → trim_space s ≡ s
unfolding trim_space
trim_digits s h =
    rw (trim_left_digits s h)
      (rw (trim_left_digits (reverse s) (All-reverse s h)) (reverse-reverse s))

cut_digits : (s : List ℕ) → All IsDigit s → cut b'.' s ≡ (s, [])
unfolding cut
cut_digits [] h = refl
cut_digits (c ∷ s) h = rw (cut_digits s h.1) (ground arith)

skip_digit : (c : ℕ) (s : List ℕ) → IsDigit c → skip_space (c ∷ s) ≡ some (c ∷ s)
unfolding skip_space
skip_digit c s h = ground arith

sign_digit : (c : ℕ) (s : List ℕ) → IsDigit c → scan_sign (c ∷ s) ≡ scan_magnitude false (c ∷ s)
sign_digit c s h = ground arith

magnitude_digits :
    (c : ℕ) (s : List ℕ)
    → IsDigit c
    → scan_digits 0 (c ∷ s) < 2 ^ 63
    → scan_magnitude false (c ∷ s) ≡ some (pos (scan_digits 0 (c ∷ s)))
unfolding scan_magnitude
magnitude_digits c s h fits = ground arith

sscanf_digits :
    (c : ℕ) (s : List ℕ)
    → IsDigit c
    → scan_digits 0 (c ∷ s) < 2 ^ 63
    → sscanf_d (c ∷ s) ≡ some (pos (scan_digits 0 (c ∷ s)))
unfolding sscanf_d
sscanf_digits c s h fits = rw (skip_digit c s h) (sign_digit c s h ∙ magnitude_digits c s h fits)

no_sign : (c : ℕ) (s : List ℕ) → IsDigit c → split_sign (c ∷ s) ≡ (false, c ∷ s)
unfolding split_sign
no_sign c s h = ground arith

whole_micros : (v : ℕ) → v < 2 ^ 63 → micros (pos v) (pos 0) ≡ wrap64 (pos (v * 1000000))
unfolding add64 mul64
whole_micros v h = ground arith

-- An amount written as digits alone, whose value fits an int64, is read as a million times its
-- value, wrapped to 64 bits.
pub parse_whole :
    (c : ℕ) (s : List ℕ)
    → All IsDigit (c ∷ s)
    → scan_digits 0 (c ∷ s) < 2 ^ 63
    → parse_usdc_micros (c ∷ s) ≡ some (wrap64 (pos (scan_digits 0 (c ∷ s) * 1000000)))
unfolding parse_usdc_micros
parse_whole c s h fits = rw (trim_digits (c ∷ s) h) (
    rw (no_sign c s h.0) (
      rw (cut_digits (c ∷ s) h)
        (rw (sscanf_digits c s h.0 fits) (ap some (whole_micros (scan_digits 0 (c ∷ s)) fits)))))

wrap_exact : (v : ℕ) → v * 1000000 < 2 ^ 63 → wrap64 (pos (v * 1000000)) ≡ pos (v * 1000000)
unfolding wrap64
wrap_exact v h = ground arith

-- Where the micros fit an int64, the amount is read exactly.
pub parse_whole_exact :
    (c : ℕ) (s : List ℕ)
    → All IsDigit (c ∷ s)
    → scan_digits 0 (c ∷ s) * 1000000 < 2 ^ 63
    → parse_usdc_micros (c ∷ s) ≡ some (pos (scan_digits 0 (c ∷ s) * 1000000))
parse_whole_exact c s h fits =
    parse_whole c s h (omega arith) ∙ ap some (wrap_exact (scan_digits 0 (c ∷ s)) fits)

wrap_negative :
    (v : ℕ)
    → 2 ^ 63 ≤ v * 1000000
    → v * 1000000 < 2 ^ 64
    → (n : ℕ) × (wrap64 (pos (v * 1000000)) ≡ negsuc n)
unfolding wrap64
wrap_negative v lo hi = (2 ^ 64 - v * 1000000 - 1, ground arith)

above_of_parsed :
    (amount limit : List ℕ) (a l : ℤ)
    → parse_usdc_micros amount ≡ some a
    → parse_usdc_micros limit ≡ some l
    → usdc_above amount limit ≡ some (ltb_ℤ l a)
unfolding usdc_above
above_of_parsed amount limit a l pa pl = rw (pa, pl)

never_above : (l n : ℕ) → ltb_ℤ (pos l) (negsuc n) ≡ false
never_above l n = ground arith

-- An amount of digits alone whose micros lie between 2^63 and 2^64 is read as negative, so it is not
-- above any limit that reads as 0 or more.
pub overflow_not_above :
    (c : ℕ) (s limit : List ℕ) (l : ℕ)
    → All IsDigit (c ∷ s)
    → 2 ^ 63 ≤ scan_digits 0 (c ∷ s) * 1000000
    → scan_digits 0 (c ∷ s) * 1000000 < 2 ^ 64
    → parse_usdc_micros limit ≡ some (pos l)
    → usdc_above (c ∷ s) limit ≡ some false
overflow_not_above c s limit l h lo hi e =
    let (n, wrapped) = wrap_negative (scan_digits 0 (c ∷ s)) lo hi in
    above_of_parsed (c ∷ s) limit (negsuc n) (pos l)
      (parse_whole c s h (omega arith) ∙ ap some wrapped) e
    ∙ ap some (never_above l n)
