-- ===== src/App/Billing/Service.antt =====
-- internal/app/billing_service.go: what users pay for, through a payment company. The clock counts
-- nanoseconds from 1970.
use algebra.Prelude.{
  ℕ, ◌*◌, ◌^◌, String, Bool, true, false, not, ◌&&◌, Option, none, some, str_eq, ltb, leb,
  if◌then◌else◌,
}
use algebra.Prelude.Int.{ℤ, pos, negsuc}
use algebra.Billing.{
  Plan, Entitlement, entitlements, Status, created, authenticated, pending, unknown, terminal,
  Subscription, effective_plan, GatewaySubscription,
}
use algebra.App.Exec.{
  Exec, Result, ok, err, not_found, unauthorized, invalid, not_implemented, quota_exceeded, pure,
  raise, attempt, ignore, now, ◌>>=◌, ◌>>◌,
}
use algebra.App.Commerce.Quotes.{asked}
use algebra.App.Commerce.Orders.{optional}
use algebra.App.Billing.{
  get_subscription, get_subscription_by_provider_id, upsert_subscription, record_event,
  count_executions_since,
}

-- What a webhook's body says, of which the rest is not read.
pub record Webhook : Type 0 where
  pub id : String
  pub status : Status
  pub current_start : ℤ
  pub current_end : ℤ

-- The payment company answers by the time it is asked; `none` is an error. `decode` reads a body.
pub record Gateway : Type 0 where
  pub key_id : String
  pub test_mode : Bool
  pub create_monthly_plan : ℕ → ℤ → String → Option String
  pub create_subscription : ℕ → String → String → Option GatewaySubscription
  pub get_subscription : ℕ → String → Option GatewaySubscription
  pub cancel_subscription : ℕ → String → Bool → Option GatewaySubscription
  pub verify_subscription_payment : String → String → String → Bool
  pub verify_webhook : String → String → Bool
  pub decode : String → Option Webhook

-- The configuration, and the first instant of the month of a time.
pub record Config : Type 0 where
  pub gateway : Option Gateway
  pub growth_plan_id : String
  pub growth_amount_minor : ℤ
  pub currency : String
  pub month_start : ℕ → ℕ

pub record Checkout : Type 0 where
  pub key_id : String
  pub subscription_id : String
  pub test_mode : Bool

pub record BillingStatus : Type 0 where
  pub plan : Plan
  pub entitlement : Entitlement
  pub used_this_month : ℕ
  pub period_start : ℕ
  pub subscription : Option Subscription
  pub checkout_available : Bool
  pub test_mode : Bool
  pub growth_price : ℤ
  pub currency : String

abbrev pub is_created : Status → Bool
is_created created = true
is_created _ = false

abbrev pub is_absent : Status → Bool
is_absent (unknown s) = str_eq s ""
is_absent _ = false

abbrev pub or_else : Option ℕ → Option ℕ → Option ℕ
or_else none old = old
or_else (some t) old = some t

-- A verified authorisation does not go back to "created".
abbrev pub next_status : Status → Status → Status
next_status old new =
    if not (is_absent new) && not (is_created new && not (is_created old)) then new else old

abbrev pub applied : Subscription → GatewaySubscription → ℕ → Subscription
applied sub gs t =
    let status = next_status sub.status gs.status in
    record sub {
      status = status;
      current_period_start = or_else gs.current_start sub.current_period_start;
      current_period_end = or_else gs.current_end sub.current_period_end;
      cancel_at_period_end = if terminal status then false else sub.cancel_at_period_end;
      updated_at = t;
    }

unfoldable pub apply : Subscription → GatewaySubscription → Exec Subscription
apply sub gs = do t ← now; pure (applied sub gs t)

unfoldable pub subscription : String → Exec (Option Subscription)
subscription user_id = do answer ← attempt (get_subscription user_id); optional answer

abbrev pub unix : ℤ → Option ℕ
unix (pos n) = if ltb 0 n then some (n * 10 ^ 9) else none
unix (negsuc n) = none

abbrev pub gateway_view : Webhook → GatewaySubscription
gateway_view evt = record {
  id = evt.id;
  status = evt.status;
  current_start = unix evt.current_start;
  current_end = unix evt.current_end;
}

-- A subscription that is not stored is not Algebra's.
abbrev pub update_from : Webhook → Result Subscription → Exec (Unit {0})
update_from evt (ok sub) = do s ← apply sub (gateway_view evt); upsert_subscription s
update_from evt (err not_found) = pure tt
update_from evt (err e) = raise e

-- Other events, such as a single payment, have no subscription.
unfoldable pub apply_event : Webhook → Exec (Unit {0})
apply_event evt =
    if str_eq evt.id ""
    then pure tt
    else (attempt (get_subscription_by_provider_id evt.id) >>= λ found. update_from evt found)

abbrev pub on_decoded : String → Option Webhook → Exec (Unit {0})
on_decoded event_id none = raise invalid
on_decoded event_id (some evt) =
    if str_eq event_id ""
    then raise invalid
    else (record_event event_id >>= λ fresh. if fresh then apply_event evt else pure tt)

abbrev pub webhook_at : Option Gateway → String → String → String → Exec (Unit {0})
webhook_at none body signature event_id = raise not_implemented
webhook_at (some g) body signature event_id =
    if g.verify_webhook body signature
    then on_decoded event_id (g.decode body)
    else raise unauthorized

module _ (config : Config) where
  unfoldable pub handle_webhook : String → String → String → Exec (Unit {0})
  handle_webhook body signature event_id = webhook_at config.gateway body signature event_id

  abbrev pub within_limit : Entitlement → String → Exec (Unit {0})
  within_limit ent user_id =
      if ent.hard_limit
      then (now >>= λ t. count_executions_since user_id (config.month_start t) >>= λ used.
          if leb ent.included_executions used then raise quota_exceeded else pure tt)
      else pure tt

  -- The gate of the order service.
  unfoldable pub check_execution : String → Exec (Unit {0})
  check_execution user_id = do
    sub ← subscription user_id
    within_limit (entitlements (effective_plan sub)) user_id

  abbrev pub is_settling : Status → Bool
  is_settling created = true
  is_settling authenticated = true
  is_settling pending = true
  is_settling _ = false

  -- The view of the payment company is taken over where it can be had.
  abbrev pub taken_over : Subscription → Option GatewaySubscription → Exec (Option Subscription)
  taken_over sub none = pure (some sub)
  taken_over sub (some gs) = do s ← apply sub gs; ignore (upsert_subscription s); pure (some s)

  abbrev pub refreshed : Option Gateway → Option Subscription → Exec (Option Subscription)
  refreshed (some g) (some sub) =
      if is_settling sub.status
      then (asked (λ t. g.get_subscription t sub.provider_subscription_id) >>= taken_over sub)
      else pure (some sub)
  refreshed none (some sub) = pure (some sub)
  refreshed g none = pure none

  abbrev pub is_available : Option Gateway → Bool
  is_available none = false
  is_available (some g) = true

  abbrev pub tests : Option Gateway → Bool
  tests none = false
  tests (some g) = g.test_mode

  unfoldable pub status : String → Exec BillingStatus
  status user_id = do
    stored ← subscription user_id
    sub ← refreshed config.gateway stored
    t ← now
    used ← count_executions_since user_id (config.month_start t)
    pure (record {
      plan = effective_plan sub;
      entitlement = entitlements (effective_plan sub);
      used_this_month = used;
      period_start = config.month_start t;
      subscription = sub;
      checkout_available = is_available config.gateway;
      test_mode = tests config.gateway;
      growth_price = config.growth_amount_minor;
      currency = config.currency;
    })
