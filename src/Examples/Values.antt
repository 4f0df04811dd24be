-- ===== src/Examples/Values.antt =====
-- The theorems on amounts, quotes and approvals at concrete inputs.
use algebra.Prelude.{
  ℕ, String, ◌≡◌, refl, inl, inr, ◌↔◌, Bool, true, none, some, List, [], ◌∷◌, arith,
}
use algebra.Prelude.Int.{ℤ, pos, ◌+ℤ◌, ◌-ℤ◌}
use algebra.Money.{Amount, within_tolerance}
use algebra.Money.Laws.{Within, within_tolerance_exact}
use algebra.Quote.{CheckoutQuote, recompute}
use algebra.Quote.Totals.{value, HasOneCurrency, total, amount, recompute_exact}
use algebra.Approval.{Approval, approved, matches}
use algebra.Approval.Binding.{matches_iff}
use algebra.Approval.Hash.{HashableItem}

within_tolerance_exact_example :
    (r : Bool) × (within_tolerance
        (record { minor_units = pos 1000; currency = "INR" })
        (record { minor_units = pos 1040; currency = "INR" })
        (record { minor_units = pos 50; currency = "INR" })
      ≡ some r)
    × ((r ≡ true) ↔ Within 1000 1040 50)
within_tolerance_exact_example =
    within_tolerance_exact 1000 1040 50 "INR" (omega arith) (omega arith)

abbrev inr_amount : ℤ → Amount
inr_amount n = amount n "INR"

abbrev no_amount : Amount
no_amount = amount (pos 0) ""

-- 1,000.00 less a coupon of 100.00, with delivery and tax, and cashback to come.
abbrev basket : CheckoutQuote
basket = record {
  quote_id = "q1";
  cart_id = "c1";
  merchant = "amazon.in";
  items = [];
  subtotal = inr_amount (pos 100000);
  item_discounts = no_amount;
  coupon_discount = inr_amount (pos 10000);
  bank_offer = no_amount;
  card_offer = no_amount;
  cashback = inr_amount (pos 5000);
  delivery_fee = inr_amount (pos 4000);
  handling_fee = no_amount;
  platform_fee = no_amount;
  tax = inr_amount (pos 18000);
  other_fee = no_amount;
  final_payable = no_amount;
  effective_cost = no_amount;
  offers = [];
  payment_source_requirements = [];
  delivery_eta = none;
  expires_at = 100;
  retrieved_at = 0;
}

basket_currency : HasOneCurrency basket
basket_currency = record {
  item_discounts = inl refl;
  coupon_discount = inr refl;
  bank_offer = inl refl;
  card_offer = inl refl;
  cashback = inr refl;
  delivery_fee = inr refl;
  handling_fee = inl refl;
  platform_fee = inl refl;
  tax = inr refl;
  other_fee = inl refl;
}

basket-total : total basket ≡ pos 112000
unfolding ◌+ℤ◌ ◌-ℤ◌
basket-total = refl

recompute_exact_example :
    recompute basket
    ≡ some (record basket {
      final_payable = amount (total basket) "INR";
      effective_cost = amount (total basket -ℤ value basket.cashback) "INR";
    })
unfolding ◌+ℤ◌ ◌-ℤ◌
recompute_exact_example =
    recompute_exact basket basket_currency (record { upper = omega arith; lower = omega arith })
      (record { upper = omega arith; lower = omega arith })
      (record { upper = omega arith; lower = omega arith })

abbrev granted : Approval
granted = record {
  id = "ap1";
  intent_id = "i1";
  agentic_payment_intent_id = "";
  quote_id = "q1";
  user_id = "u1";
  agent_id = "a1";
  merchant = "amazon.in";
  amount = inr_amount (pos 112000);
  payment_source_alias = "payment:personal";
  items_hash = "h";
  status = approved;
  authentication_method = "";
  created_at = 0;
  decided_at = some 1;
  expires_at = 900;
}

matches_iff_example :
    (r : Bool) × (matches granted "amazon.in" "h"
        (record { minor_units = pos 112500; currency = "INR" })
        "payment:personal"
        (record { minor_units = pos 1000; currency = "INR" })
      ≡ some r)
    × ((r ≡ true) ↔ (
        (granted.merchant ≡ "amazon.in")
        × (granted.items_hash ≡ "h")
        × (granted.payment_source_alias ≡ "payment:personal")
        × (granted.amount.currency ≡ "INR")
        × Within 112000 112500 1000))
matches_iff_example =
    matches_iff granted 112000 112500 1000 "amazon.in" "h" "payment:personal" "INR" refl
      (omega arith) (omega arith)

abbrev rice : HashableItem
rice = record { merchant_product_id = "rice"; quantity = pos 2; unit_price_minor_units = pos 5000 }

abbrev milk : HashableItem
milk = record { merchant_product_id = "milk"; quantity = pos 1; unit_price_minor_units = pos 3000 }

-- A stand-in for the digest.
abbrev digest : List ℕ → String
digest [] = "empty"
digest (c ∷ s) = "some"

abbrev first_byte : List ℕ → ℕ
first_byte [] = 0
first_byte (c ∷ s) = c

-- One item whose id spells two.
abbrev forged : HashableItem
forged = record {
  merchant_product_id = "milk:1:3000;item=rice";
  quantity = pos 2;
  unit_price_minor_units = pos 5000;
}
