-- ===== src/Quote.antt =====
-- internal/domain/quote/quote.go. `none` is the panic of amounts in different currencies.
pub mod Totals
use algebra.Prelude.{ℕ, String, Bool, not, Option, none, some, List, str_eq, ltb, if◌then◌else◌}
use algebra.Prelude.Int.{ℤ, pos}
use algebra.Money
use algebra.Money.{Amount, within_tolerance}

infixl 5 ◌>>=◌
abbrev ◌>>=◌ {ℓ κ} : {A : Type ℓ} {B : Type κ} → Option A → (A → Option B) → Option B
none >>= f = none
some a >>= f = f a

pub data OfferType : Type 0 where
  immediate_discount cashback conditional_offer : OfferType

pub record Offer : Type 0 where
  pub kind : OfferType
  pub description : String
  pub amount : Amount
  pub code : String

pub record Item : Type 0 where
  pub merchant_product_id : String
  pub name : String
  pub quantity : ℤ
  pub unit_price : Amount

pub record CheckoutQuote : Type 0 where
  pub quote_id : String
  pub cart_id : String
  pub merchant : String
  pub items : List Item
  pub subtotal : Amount
  pub item_discounts : Amount
  pub coupon_discount : Amount
  pub bank_offer : Amount
  pub card_offer : Amount
  pub cashback : Amount
  pub delivery_fee : Amount
  pub handling_fee : Amount
  pub platform_fee : Amount
  pub tax : Amount
  pub other_fee : Amount
  pub final_payable : Amount
  pub effective_cost : Amount
  pub offers : List Offer
  pub payment_source_requirements : List String
  pub delivery_eta : Option ℕ
  pub expires_at : ℕ
  pub retrieved_at : ℕ

unfoldable pub or_zero : Amount → Amount → Amount
or_zero a zero = if str_eq a.currency "" then zero else a

-- The four subtractions and the five additions, in the order of the code.
unfoldable pub payable : CheckoutQuote → Option Amount
payable q =
    let zero : Amount = record { minor_units = pos 0; currency = q.subtotal.currency } in
    do
      a ← Money.sub q.subtotal (or_zero q.item_discounts zero)
      b ← Money.sub a (or_zero q.coupon_discount zero)
      c ← Money.sub b (or_zero q.bank_offer zero)
      d ← Money.sub c (or_zero q.card_offer zero)
      e ← Money.add d (or_zero q.delivery_fee zero)
      f ← Money.add e (or_zero q.handling_fee zero)
      g ← Money.add f (or_zero q.platform_fee zero)
      h ← Money.add g (or_zero q.tax zero)
      Money.add h (or_zero q.other_fee zero)

unfoldable pub recompute : CheckoutQuote → Option CheckoutQuote
recompute q =
    let zero : Amount = record { minor_units = pos 0; currency = q.subtotal.currency } in
    do
      final ← payable q
      effective ← Money.sub final (or_zero q.cashback zero)
      some (record q { final_payable = final; effective_cost = effective })

unfoldable pub is_expired : CheckoutQuote → ℕ → Bool
is_expired q now = ltb q.expires_at now

unfoldable pub drifted_beyond_tolerance : CheckoutQuote → CheckoutQuote → Amount → Option Bool
drifted_beyond_tolerance q refreshed tolerance = do
  within ← within_tolerance q.final_payable refreshed.final_payable tolerance
  some (not within)
