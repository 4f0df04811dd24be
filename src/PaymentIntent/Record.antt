-- ===== src/PaymentIntent/Record.antt =====
-- internal/domain/paymentintent/intent.go. The metadata map, which no code reads, is left out.
use algebra.Prelude.{ℕ, String, Bool, false, Option, none, some}
use algebra.Prelude.Int.{ℤ, pos}
use algebra.PaymentIntent.State.{State, draft, TransitionError, Outcome, moved, refused, transition}

pub record AgenticPaymentIntent : Type 0 where
  pub id : String
  pub tenant_id : String
  pub user_id : String
  pub agent_id : String
  pub purpose : String
  pub merchant : String
  pub merchant_domain : String
  pub category : String
  pub international : Bool
  pub amount_minor_units : ℤ
  pub currency : String
  pub tolerance_minor_units : ℤ
  pub product_ref : String
  pub payment_source_alias : String
  pub requested_capability : String
  pub status : State
  pub policy_version : String
  pub provider_transaction_id : String
  pub provider_status : String
  pub final_amount_minor_units : ℤ
  pub final_currency : String
  pub created_at : ℕ
  pub updated_at : ℕ
  pub expires_at : Option ℕ

unfoldable pub new :
    String → String → String → String → String → ℤ → String → String → ℕ → AgenticPaymentIntent
new id tenant_id user_id agent_id merchant amount currency alias now = record {
  id = id;
  tenant_id = tenant_id;
  user_id = user_id;
  agent_id = agent_id;
  purpose = "";
  merchant = merchant;
  merchant_domain = "";
  category = "";
  international = false;
  amount_minor_units = amount;
  currency = currency;
  tolerance_minor_units = pos 0;
  product_ref = "";
  payment_source_alias = alias;
  requested_capability = "";
  status = draft;
  policy_version = "";
  provider_transaction_id = "";
  provider_status = "";
  final_amount_minor_units = pos 0;
  final_currency = "";
  created_at = now;
  updated_at = now;
  expires_at = none;
}

abbrev pub moved_to :
    Outcome → ℕ → AgenticPaymentIntent → AgenticPaymentIntent × Option TransitionError
moved_to (moved next) now p = (record p { status = next; updated_at = now }, none)
moved_to (refused e) now p = (p, some e)

-- The intent after the call, and the error.
unfoldable pub apply_transition :
    State → ℕ → AgenticPaymentIntent → AgenticPaymentIntent × Option TransitionError
apply_transition to now p = moved_to (transition p.status to) now p
