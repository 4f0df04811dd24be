-- ===== src/App/World.antt =====
-- What the services of internal/app work on: the tables that internal/platform/postgres keeps, what
-- was sent to the payment provider and to the tenants, the clock, and the faults to come.
use algebra.Prelude.{ℕ, String, Option, List}
use algebra.Prelude.Int.{ℤ}
use algebra.Agent.{Identity}
use algebra.Approval.{Approval}
use algebra.PaymentIntent.Record.{AgenticPaymentIntent}
use algebra.PaymentIntent.State as PaymentState
use algebra.Intent.State as IntentState
use algebra.Intent.Record.{PurchaseIntent}
use algebra.Money.{Amount}
use algebra.Quote.{Item, CheckoutQuote}
use algebra.Policy.Decision.{PolicyDecision}
use algebra.Policy.Rules.{Rules}
use algebra.Billing.{Plan, Subscription}

pub record User : Type 0 where
  pub id : String
  pub tenant_id : String

-- internal/domain/policyset. A policy set of the tenant has no user.
pub record PolicySet : Type 0 where
  pub id : String
  pub tenant_id : String
  pub user_id : Option String
  pub rules : Rules
  pub version : ℕ
  pub created_at : ℕ
  pub superseded_at : Option ℕ

-- The state in an audit event, which is a text in the source.
pub data EventState : Type 0 where
  absent : EventState
  payment : PaymentState.State → EventState
  purchase : IntentState.State → EventState

-- internal/domain/audit/audit.go: an event, without its free texts and its random id.
pub record Event : Type 0 where
  pub action : String
  pub intent_id : String
  pub payment_intent_id : String
  pub timestamp : ℕ
  pub previous_state : EventState
  pub new_state : EventState
  pub policy_decision : String
  pub merchant : String

pub record Webhook : Type 0 where
  pub tenant_id : String
  pub event_type : String
  pub payment_intent_id : String
  pub status : PaymentState.State

-- How money is asked for: the provider's `ExecutePayment`, or the `ExecuteCheckout` of a cart.
pub data Channel : Type 0 where
  provider : Channel
  checkout : String → Channel

-- A call that moves money, with the approval that was claimed for it. The amount of a checkout is that
-- of the quote it stands on, and it has no credential, domain or key.
pub record Charge : Type 0 where
  pub channel : Channel
  pub approval_id : String
  pub credential_ref : String
  pub merchant : String
  pub merchant_domain : String
  pub amount_minor_units : ℤ
  pub currency : String
  pub idempotency_key : String

-- quotes and policy_decisions, under the intent that they were made for.
pub record QuoteRow : Type 0 where
  pub intent_id : String
  pub payload : CheckoutQuote

pub record DecisionRow : Type 0 where
  pub intent_id : String
  pub raw : PolicyDecision

-- internal/domain/order/order.go
pub data OrderStatus : Type 0 where
  placed confirmed shipped delivered cancelled failed : OrderStatus

pub record Order : Type 0 where
  pub id : String
  pub intent_id : String
  pub approval_id : String
  pub merchant : String
  pub merchant_order_id : String
  pub items : List Item
  pub total : Amount
  pub status : OrderStatus
  pub placed_at : ℕ
  pub delivery_eta : Option ℕ
  pub receipt_url : String
  pub provider_mode : String

-- orders, with the user of the intent, and order_events without their payload.
pub record OrderRow : Type 0 where
  pub user_id : String
  pub order : Order

pub record OrderEvent : Type 0 where
  pub id : String
  pub order_id : String
  pub kind : String
  pub created_at : ℕ

-- idempotency_keys: a reserved key, which has no response while its request is in progress.
pub record KeyRow : Type 0 where
  pub key : String
  pub scope : String
  pub response : Option String

-- billing_plans: the plan that was made at the payment company for a price.
pub record PlanRow : Type 0 where
  pub plan : Plan
  pub amount_minor : ℤ
  pub currency : String
  pub provider_plan_id : String

-- A statement that is sent to the database runs, or is lost, or runs while its answer is lost.
pub data Fault : Type 0 where
  healthy lost unacknowledged : Fault

-- What decides about a charge, and the charges.
pub record Ledger : Type 0 where
  pub policy_sets : List PolicySet
  pub approvals : List Approval
  pub charges : List Charge

pub record World : Type 0 where
  pub ledger : Ledger
  pub payment_intents : List AgenticPaymentIntent
  pub intents : List PurchaseIntent
  pub quotes : List QuoteRow
  pub decisions : List DecisionRow
  pub orders : List OrderRow
  pub order_events : List OrderEvent
  pub idempotency_keys : List KeyRow
  pub subscriptions : List Subscription
  pub billing_plans : List PlanRow
  pub billing_events : List String
  pub agents : List Identity
  pub users : List User
  pub events : List Event
  pub webhooks : List Webhook
  pub clock : ℕ
  pub delays : List ℕ
  pub fresh : ℕ → String
  pub serial : ℕ
  pub faults : List Fault
