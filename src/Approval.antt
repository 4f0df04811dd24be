-- ===== src/Approval.antt =====
-- internal/domain/approval/approval.go. `none` is the panic of amounts in different currencies. The
-- SHA-256 digest in hexadecimal is an argument.
pub mod Decimal
pub mod Hash
pub mod Binding
use algebra.Prelude.{
  ℕ, String, Bool, true, false, not, ◌&&◌, ◌||◌, Option, none, some, str_eq, ltb, if◌then◌else◌,
}
use algebra.Money.{Amount, within_tolerance}

pub data Status : Type 0 where
  pending approved rejected expired consumed reapproval_required : Status

pub record Approval : Type 0 where
  pub id : String
  pub intent_id : String
  pub agentic_payment_intent_id : String
  pub quote_id : String
  pub user_id : String
  pub agent_id : String
  pub merchant : String
  pub amount : Amount
  pub payment_source_alias : String
  pub items_hash : String
  pub status : Status
  pub authentication_method : String
  pub created_at : ℕ
  pub decided_at : Option ℕ
  pub expires_at : ℕ

unfoldable pub matches : Approval → String → String → Amount → String → Amount → Option Bool
matches a merchant items_hash amount alias tolerance =
    if not (str_eq a.merchant merchant)
    then some false
    else if not (str_eq a.items_hash items_hash)
    then some false
    else if not (str_eq a.payment_source_alias alias)
    then some false
    else if not (str_eq a.amount.currency amount.currency)
        || not (str_eq a.amount.currency tolerance.currency)
    then some false
    else within_tolerance a.amount amount tolerance

unfoldable pub is_expired : Approval → ℕ → Bool
is_expired a now = ltb a.expires_at now

abbrev pub is_approved : Status → Bool
is_approved approved = true
is_approved _ = false

unfoldable pub executable : Approval → ℕ → Bool
unfolding is_expired
executable a now = is_approved a.status && not (is_expired a now)
