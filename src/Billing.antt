-- ===== src/Billing.antt =====
-- internal/domain/billing/billing.go: the plans that users pay for, and what they entitle to.
use algebra.Prelude.{ℕ, String, Bool, true, false, Option, none, some}

-- A text in the source, as the database has it.
pub data Plan : Type 0 where
  developer growth : Plan
  unlisted : String → Plan

pub record Entitlement : Type 0 where
  pub included_executions : ℕ
  pub hard_limit : Bool

-- A plan that the map does not have reads as the zero value.
abbrev pub entitlements : Plan → Entitlement
entitlements developer = record { included_executions = 100; hard_limit = true }
entitlements growth = record { included_executions = 5000; hard_limit = false }
entitlements (unlisted s) = record { included_executions = 0; hard_limit = false }

-- A text in the source; the payment company can send any.
pub data Status : Type 0 where
  created authenticated active pending halted cancelled completed expired : Status
  unknown : String → Status

abbrev pub grants : Status → Bool
grants authenticated = true
grants active = true
grants pending = true
grants _ = false

abbrev pub terminal : Status → Bool
terminal cancelled = true
terminal completed = true
terminal expired = true
terminal halted = true
terminal _ = false

pub record Subscription : Type 0 where
  pub user_id : String
  pub plan : Plan
  pub provider : String
  pub provider_subscription_id : String
  pub status : Status
  pub current_period_start : Option ℕ
  pub current_period_end : Option ℕ
  pub cancel_at_period_end : Bool
  pub created_at : ℕ
  pub updated_at : ℕ

abbrev plan_if : Bool → Plan → Plan
plan_if true plan = plan
plan_if false plan = developer

abbrev pub effective_plan : Option Subscription → Plan
effective_plan none = developer
effective_plan (some sub) = plan_if (grants sub.status) sub.plan

-- The payment company's view of a subscription, without its plan and its notes.
pub record GatewaySubscription : Type 0 where
  pub id : String
  pub status : Status
  pub current_start : Option ℕ
  pub current_end : Option ℕ
