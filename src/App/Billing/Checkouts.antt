-- ===== src/App/Billing/Checkouts.antt =====
-- internal/app/billing_service.go: `StartCheckout`, `ConfirmCheckout` and `Cancel`.
use algebra.Prelude.{
  ℕ, ◌+◌, ◌*◌, ◌^◌, String, Bool, true, false, Option, none, some, str_eq, ltb, if◌then◌else◌,
}
use algebra.Prelude.Int.{pos, leb_ℤ}
use algebra.Billing.{
  growth, Status, created, authenticated, active, pending, grants, terminal, Subscription,
}
use algebra.App.Exec.{
  Exec, Result, ok, err, not_found, unauthorized, conflict, invalid, not_implemented, pure, raise,
  attempt, now, ◌>>=◌, ◌>>◌,
}
use algebra.App.Commerce.Quotes.{asked, or_unavailable}
use algebra.App.Billing.{upsert_subscription, get_provider_plan_id, save_provider_plan_id}
use algebra.App.Billing.Service.{Gateway, Config, Checkout, is_created, apply, subscription}

module _ (config : Config) where
  abbrev pub with_gateway : {A : Type 0} → Option Gateway → (Gateway → Exec A) → Exec A
  with_gateway none f = raise not_implemented
  with_gateway (some g) f = f g

  abbrev pub plan_made : Gateway → Result String → Exec String
  plan_made g (ok id) = pure id
  plan_made g (err not_found) =
      if leb_ℤ config.growth_amount_minor (pos 0) then raise invalid else (do
        answer ← asked (λ t. g.create_monthly_plan t config.growth_amount_minor config.currency)
        id ← or_unavailable answer
        save_provider_plan_id id config.growth_amount_minor config.currency
        pure id)
  plan_made g (err e) = raise e

  unfoldable pub growth_plan_id : Gateway → Exec String
  growth_plan_id g =
      if str_eq config.growth_plan_id ""
      then (attempt (get_provider_plan_id config.growth_amount_minor config.currency)
          >>= plan_made g)
      else pure config.growth_plan_id

  abbrev pub checkout_for : Gateway → String → Checkout
  checkout_for g id = record { key_id = g.key_id; subscription_id = id; test_mode = g.test_mode }

  abbrev pub started : String → String → ℕ → Subscription
  started user_id id t = record {
    user_id = user_id;
    plan = growth;
    provider = "razorpay";
    provider_subscription_id = id;
    status = created;
    current_period_start = none;
    current_period_end = none;
    cancel_at_period_end = false;
    created_at = t;
    updated_at = t;
  }

  unfoldable pub new_checkout : Gateway → String → Exec Checkout
  new_checkout g user_id = do
    plan_id ← growth_plan_id g
    answer ← asked (λ t. g.create_subscription t plan_id user_id)
    gs ← or_unavailable answer
    t ← now
    upsert_subscription (started user_id gs.id t)
    pure (checkout_for g gs.id)

  -- A checkout of the last 24 hours that was not finished is used again.
  abbrev pub checkout_from : Gateway → String → Option Subscription → Exec Checkout
  checkout_from g user_id none = new_checkout g user_id
  checkout_from g user_id (some sub) =
      if grants sub.status
      then raise conflict
      else if is_created sub.status
      then (now >>= λ t.
          if ltb t (sub.created_at + 86400 * 10 ^ 9)
          then pure (checkout_for g sub.provider_subscription_id)
          else new_checkout g user_id)
      else new_checkout g user_id

  unfoldable pub start_checkout : String → Exec Checkout
  start_checkout user_id =
      with_gateway config.gateway (λ g. subscription user_id >>= checkout_from g user_id)

  -- A verified signature proves the authorisation.
  abbrev pub authorised : Status → Status
  authorised created = authenticated
  authorised s = s

  abbrev pub confirmed : Gateway → String → Subscription → Exec Subscription
  confirmed g id sub = do
    answer ← asked (λ t. g.get_subscription t id)
    gs ← or_unavailable answer
    s ← apply sub gs
    let next : Subscription = record s { status = authorised s.status }
    upsert_subscription next
    pure next

  abbrev pub confirm_for : Gateway → String → Option Subscription → Exec Subscription
  confirm_for g id none = raise not_found
  confirm_for g id (some sub) =
      if str_eq sub.provider_subscription_id id then confirmed g id sub else raise not_found

  unfoldable pub confirm_checkout : String → String → String → String → Exec Subscription
  confirm_checkout user_id payment_id id signature = with_gateway config.gateway (λ g.
      if g.verify_subscription_payment payment_id id signature
      then (subscription user_id >>= confirm_for g id)
      else raise unauthorized)

  abbrev pub is_running : Status → Bool
  is_running active = true
  is_running pending = true
  is_running _ = false

  abbrev pub cancel_for : Gateway → Option Subscription → Exec Subscription
  cancel_for g none = raise not_found
  cancel_for g (some sub) = if terminal sub.status then raise not_found else (do
    answer ←
        asked (λ t. g.cancel_subscription t sub.provider_subscription_id (is_running sub.status))
    gs ← or_unavailable answer
    s ← apply sub gs
    let next : Subscription = record s { cancel_at_period_end = is_running sub.status }
    upsert_subscription next
    pure next)

  unfoldable pub cancel : String → Exec Subscription
  cancel user_id = with_gateway config.gateway (λ g. subscription user_id >>= cancel_for g)
