-- ===== src/App/Commerce/Wiring.antt =====
-- What the services of purchases are wired with: the connectors of the merchants
-- (internal/domain/merchant/connector.go) and the optional parts of internal/app.
use algebra.Prelude.{ℕ, String, Option, List}
use algebra.Prelude.Int.{ℤ}
use algebra.Quote.{CheckoutQuote}
use algebra.Policy.Rules.{Rules}
use algebra.App.World.{Order}
use algebra.App.Exec.{Result, Err}

pub record ShippingAddress : Type 0 where
  pub recipient_name : String
  pub line1 : String
  pub line2 : String
  pub city : String
  pub state : String
  pub postal_code : String
  pub country : String
  pub phone : String

pub record BillingAddress : Type 0 where
  pub holder : String
  pub line1 : String
  pub line2 : String
  pub city : String
  pub state : String
  pub postal_code : String
  pub country : String

pub record Fulfillment : Type 0 where
  pub shipping : Option ShippingAddress
  pub billing : Option BillingAddress

pub data ExecutionStatus : Type 0 where
  succeeded failed authentication_required merchant_intervention_needed user_intervention_needed :
      ExecutionStatus

-- Without the challenge and the reason, which are handed on.
pub record ExecutionResult : Type 0 where
  pub status : ExecutionStatus
  pub order : Option Order

-- A merchant answers by the time it is asked; `none` is an error.
pub record Connector : Type 0 where
  pub mode : String
  pub get_checkout_quote : ℕ → String → Option CheckoutQuote
  pub execute_checkout : ℕ → String → String → Fulfillment → Option ExecutionResult
  pub get_order : ℕ → String → Option Order
  pub cancel_order : ℕ → String → Option (Unit {0})

-- `Privacy`: the addresses that a user's aliases stand for.
pub record Privacy : Type 0 where
  pub resolve_shipping : String → String → Result ShippingAddress
  pub resolve_billing : String → String → Result BillingAddress

pub record Wiring : Type 0 where
  -- The registry, by name.
  pub connectors : String → Option Connector
  -- The rules of every user without rules, and the source of users' rules.
  pub platform_rules : Rules
  pub user_rules : Option (String → Result (Option Rules))
  pub sha256_hex : List ℕ → String
  pub approval_ttl : ℕ
  pub tolerance_minor_units : ℤ
  -- Whether the lock of an intent was acquired, where there are locks.
  pub locker : Option (String → Result (Unit {0}))
  pub gate : Option (String → Option Err)
  pub privacy : Option Privacy
  -- Midnight before a time, in the zone of the process.
  pub start_of_day : ℕ → ℕ
