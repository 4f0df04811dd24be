-- ===== src/Examples/Plans.antt =====
-- The theorem on the webhooks of subscriptions at a concrete input: a renewal that was paid.
use algebra.Prelude.{
  String, ◌≡◌, ◌≢◌, refl, sym, true, false, none, some, [], ◌∷◌, eq_iff, true_ne_false,
}
use algebra.Prelude.Int.{pos}
use algebra.Billing.{growth, pending, active, Subscription}
use algebra.App.World.{World, healthy, lost}
use algebra.App.Exec.{ok, err, unavailable, attempt, statement, now, pure, ◌>>=◌}
use algebra.App.Billing.{get_subscription_by_provider_id, upsert_subscription, record_event}
use algebra.App.Billing.Service.{Webhook, Gateway, Config, apply, apply_event, handle_webhook}
use algebra.App.Billing.Webhooks.{webhook_tried_once}
use algebra.Examples.Requests.{idle}

abbrev renewal : Webhook
renewal = record { id = "sub-1"; status = active; current_start = pos 10; current_end = pos 20 }

abbrev company : Gateway
company = record {
  key_id = "key";
  test_mode = true;
  create_monthly_plan = λ t amount currency. none;
  create_subscription = λ t plan user. none;
  get_subscription = λ t id. none;
  cancel_subscription = λ t id at_end. none;
  verify_subscription_payment = λ payment id signature. true;
  verify_webhook = λ body signature. true;
  decode = λ body. some renewal;
}

abbrev billing : Config
billing = record {
  gateway = some company;
  growth_plan_id = "plan";
  growth_amount_minor = pos 100;
  currency = "INR";
  month_start = λ t. 0;
}

abbrev unpaid : Subscription
unpaid = record {
  user_id = "user";
  plan = growth;
  provider = "razorpay";
  provider_subscription_id = "sub-1";
  status = pending;
  current_period_start = none;
  current_period_end = none;
  cancel_at_period_end = false;
  created_at = 0;
  updated_at = 0;
}

-- The statement that stores the subscription is lost.
abbrev subscribed : World
subscribed = record (idle (healthy ∷ healthy ∷ lost ∷ [])) { subscriptions = unpaid ∷ [] }

abbrev event : String
event = "event-1"

event_lem : event ≢ ""
event_lem e = true_ne_false (sym ((eq_iff event "").1 e))

abbrev delivered : World
delivered = record (handle_webhook billing "body" "signature" event subscribed).1 { faults = [] }

webhook_tried_once_example :
    handle_webhook billing "body" "signature" event delivered ≡ (ok tt, delivered)
webhook_tried_once_example =
    webhook_tried_once billing company renewal "body" "signature" event subscribed
      (healthy ∷ lost ∷ []) refl refl refl event_lem refl

-- The renewal is not stored, and the request has failed.
renewal_lost :
    ((handle_webhook billing "body" "signature" event subscribed).0 ≡ err unavailable)
    × (delivered.subscriptions ≡ unpaid ∷ [])
unfolding handle_webhook record_event apply_event apply get_subscription_by_provider_id
    upsert_subscription attempt statement now pure ◌>>=◌
renewal_lost = (refl, refl)
