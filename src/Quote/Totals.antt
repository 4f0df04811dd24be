-- ===== src/Quote/Totals.antt =====
-- The amount that quote.go computes against the sum that it stands for.
use algebra.Prelude.{
  String, ◌≡◌, refl, ap, ◌∙◌, ◌⊎◌, some, arith, eq_iff, eq_refl, str_eq, if◌then◌else◌,
}
use algebra.Prelude.Int.{ℤ, pos, negsuc, ◌+ℤ◌, ◌-ℤ◌, wrap64, wrap64_fits, add64, sub64, IsInt64}
use algebra.Money
use algebra.Money.{Amount}
use algebra.Quote.{CheckoutQuote, or_zero, payable, recompute}

wrap-add : (a b : ℤ) → wrap64 (wrap64 a +ℤ b) ≡ wrap64 (a +ℤ b)
unfolding wrap64 ◌+ℤ◌
wrap-add (pos a) (pos b) = ground arith
wrap-add (pos a) (negsuc b) = ground arith
wrap-add (negsuc a) (pos b) = ground arith
wrap-add (negsuc a) (negsuc b) = ground arith

wrap-sub : (a b : ℤ) → wrap64 (wrap64 a -ℤ b) ≡ wrap64 (a -ℤ b)
unfolding wrap64 ◌-ℤ◌
wrap-sub (pos a) (pos b) = ground arith
wrap-sub (pos a) (negsuc b) = ground arith
wrap-sub (negsuc a) (pos b) = ground arith
wrap-sub (negsuc a) (negsuc b) = ground arith

add64-wrap : (a b : ℤ) → add64 (wrap64 a) b ≡ wrap64 (a +ℤ b)
unfolding add64
add64-wrap a b = wrap-add a b

sub64-wrap : (a b : ℤ) → sub64 (wrap64 a) b ≡ wrap64 (a -ℤ b)
unfolding sub64
sub64-wrap a b = wrap-sub a b

-- What a line of the quote counts for: nothing where it has no currency.
abbrev pub value : Amount → ℤ
value a = if str_eq a.currency "" then pos 0 else a.minor_units

abbrev pub InCurrency : String → Amount → Type 0
InCurrency c a = (a.currency ≡ "") ⊎ (a.currency ≡ c)

abbrev pub amount : ℤ → String → Amount
amount n c = record { minor_units = n; currency = c }

or_zero_lem :
    (c : String) (a : Amount) → InCurrency c a → or_zero a (amount (pos 0) c) ≡ amount (value a) c
unfolding or_zero
or_zero_lem c a h = ground (arith, eq_iff a.currency "")

add_line :
    (c : String) (t : ℤ) (a : Amount)
    → InCurrency c a
    → Money.add (amount (wrap64 t) c) (or_zero a (amount (pos 0) c))
      ≡ some (amount (wrap64 (t +ℤ value a)) c)
add_line c t a h =
    rw (or_zero_lem c a h)
      (unfold Money.add in rw eq_refl (ap (λ n. some (amount n c)) (add64-wrap t (value a))))

sub_line :
    (c : String) (t : ℤ) (a : Amount)
    → InCurrency c a
    → Money.sub (amount (wrap64 t) c) (or_zero a (amount (pos 0) c))
      ≡ some (amount (wrap64 (t -ℤ value a)) c)
sub_line c t a h =
    rw (or_zero_lem c a h)
      (unfold Money.sub in rw eq_refl (ap (λ n. some (amount n c)) (sub64-wrap t (value a))))

-- Each line of the quote is in the currency of the subtotal, or empty.
pub record HasOneCurrency (q : CheckoutQuote) : Type 0 where
  pub item_discounts : InCurrency q.subtotal.currency q.item_discounts
  pub coupon_discount : InCurrency q.subtotal.currency q.coupon_discount
  pub bank_offer : InCurrency q.subtotal.currency q.bank_offer
  pub card_offer : InCurrency q.subtotal.currency q.card_offer
  pub cashback : InCurrency q.subtotal.currency q.cashback
  pub delivery_fee : InCurrency q.subtotal.currency q.delivery_fee
  pub handling_fee : InCurrency q.subtotal.currency q.handling_fee
  pub platform_fee : InCurrency q.subtotal.currency q.platform_fee
  pub tax : InCurrency q.subtotal.currency q.tax
  pub other_fee : InCurrency q.subtotal.currency q.other_fee

-- What the user is charged: the subtotal less the discounts, and the fees. There is no cashback.
abbrev pub total : CheckoutQuote → ℤ
total q =
    q.subtotal.minor_units
    -ℤ value q.item_discounts
    -ℤ value q.coupon_discount
    -ℤ value q.bank_offer
    -ℤ value q.card_offer
    +ℤ value q.delivery_fee
    +ℤ value q.handling_fee
    +ℤ value q.platform_fee
    +ℤ value q.tax
    +ℤ value q.other_fee

subtotal_wrapped :
    (q : CheckoutQuote)
    → IsInt64 q.subtotal.minor_units
    → q.subtotal ≡ amount (wrap64 q.subtotal.minor_units) q.subtotal.currency
subtotal_wrapped q h = rw (wrap64_fits q.subtotal.minor_units h)

first_line :
    (q : CheckoutQuote)
    → HasOneCurrency q
    → IsInt64 q.subtotal.minor_units
    → Money.sub q.subtotal (or_zero q.item_discounts (amount (pos 0) q.subtotal.currency))
      ≡ some
          (amount (wrap64 (q.subtotal.minor_units -ℤ value q.item_discounts)) q.subtotal.currency)
first_line q h fits =
    ap (λ (a : Amount). Money.sub a (or_zero q.item_discounts (amount (pos 0) q.subtotal.currency)))
      (subtotal_wrapped q fits)
    ∙ sub_line q.subtotal.currency q.subtotal.minor_units q.item_discounts h.item_discounts

payable_lem :
    (q : CheckoutQuote)
    → HasOneCurrency q
    → IsInt64 q.subtotal.minor_units
    → payable q ≡ some (amount (wrap64 (total q)) q.subtotal.currency)
unfolding payable
payable_lem q h fits =
    let c = q.subtotal.currency in
    let a = q.subtotal.minor_units -ℤ value q.item_discounts in
    let b = a -ℤ value q.coupon_discount in
    let d = b -ℤ value q.bank_offer in
    let e = d -ℤ value q.card_offer in
    let f = e +ℤ value q.delivery_fee in
    let g = f +ℤ value q.handling_fee in
    let k = g +ℤ value q.platform_fee in
    rw (first_line q h fits) (
      rw (sub_line c a q.coupon_discount h.coupon_discount) (
        rw (sub_line c b q.bank_offer h.bank_offer) (
          rw (sub_line c d q.card_offer h.card_offer) (
            rw (add_line c e q.delivery_fee h.delivery_fee) (
              rw (add_line c f q.handling_fee h.handling_fee) (
                rw (add_line c g q.platform_fee h.platform_fee) (
                  rw (add_line c k q.tax h.tax)
                    (add_line c (k +ℤ value q.tax) q.other_fee h.other_fee))))))))

-- Where all the lines are in one currency and the sums fit an int64, `Recompute` does not panic: the
-- amount payable is the subtotal less the discounts plus the fees, whatever overflows on the way,
-- the cashback lowers the effective cost alone, and nothing else of the quote changes.
pub recompute_exact :
    (q : CheckoutQuote)
    → HasOneCurrency q
    → IsInt64 q.subtotal.minor_units
    → IsInt64 (total q)
    → IsInt64 (total q -ℤ value q.cashback)
    → recompute q
      ≡ some (record q {
        final_payable = amount (total q) q.subtotal.currency;
        effective_cost = amount (total q -ℤ value q.cashback) q.subtotal.currency;
      })
unfolding recompute
recompute_exact q h fits SumFits net_fits = rw (payable_lem q h fits) (
    rw (sub_line q.subtotal.currency (total q) q.cashback h.cashback) (
      rw (wrap64_fits (total q) SumFits)
        (rw (wrap64_fits (total q -ℤ value q.cashback) net_fits) refl)))
