-- ===== src/App/Billing/Webhooks.antt =====
-- What becomes of a webhook that is delivered again (internal/app/billing_service.go).
use algebra.Prelude.{
  String, ◌≡◌, ◌≢◌, refl, ◌∙◌, ap, Bool, true, false, some, List, [], ◌∷◌, str_eq, eq_refl,
  if◌then◌else◌,
}
use algebra.Billing.{Subscription, GatewaySubscription}
use algebra.App.World.{World, Fault, healthy, lost, unacknowledged}
use algebra.App.Exec.{
  Exec, Result, ok, err, Err, not_found, continue, under_fault, next_fault, tail, pure, raise,
  attempt, statement, now, ◌>>=◌,
}
use algebra.App.Idempotency.Steps.{not_empty}
use algebra.App.Billing.{
  get_subscription_by_provider_id, taken, upserted, upsert_subscription, is_recorded, recorded,
  record_event,
}
use algebra.App.Billing.Service.{
  Gateway, Webhook, Config, apply, update_from, apply_event, handle_webhook,
}

-- `m` leaves the events as they are.
record Still {A : Type 0} (m : Exec A) : Type 0 where
  at : (w : World) → (m w).1.billing_events ≡ w.billing_events

module _ {A : Type 0} where
  Still-statement : (m : Exec A) → Still m → Still (statement m)
  unfolding statement
  Still-statement m s = record {
    at = λ w. go (next_fault w.faults) (record w { faults = tail w.faults });
  }
    where
      go : (f : Fault) (w : World) → (under_fault f m w).1.billing_events ≡ w.billing_events
      go healthy w = s.at w
      go lost w = refl
      go unacknowledged w = s.at w

  Still-attempt : (m : Exec A) → Still m → Still (attempt m)
  unfolding attempt
  Still-attempt m s = record { at = λ w. s.at w }

  Still-pure : (a : A) → Still (pure a)
  unfolding pure
  Still-pure a = record { at = λ w. refl }

  Still-raise : (e : Err) → Still (raise {A = A} e)
  unfolding raise
  Still-raise e = record { at = λ w. refl }

  Still-if : (b : Bool) (m n : Exec A) → Still m → Still n → Still (if b then m else n)
  Still-if true m n sm sn = sm
  Still-if false m n sm sn = sn

Still-now : Still now
unfolding now
Still-now = record { at = λ w. refl }

module _ {A B : Type 0} where
  Still-continue : (r : Result A) (f : A → Exec B) → ((a : A) → Still (f a)) → Still (continue r f)
  Still-continue (ok a) f sf = sf a
  Still-continue (err e) f sf = record { at = λ w. refl }

  Still-bind : (m : Exec A) (f : A → Exec B) → Still m → ((a : A) → Still (f a)) → Still (m >>= f)
  unfolding ◌>>=◌
  Still-bind m f sm sf = record {
    at = λ w. let (r, w') = m w in (Still-continue r f sf).at w' ∙ sm.at w;
  }

Still-upsert : (s : Subscription) → Still (upsert_subscription s)
unfolding upsert_subscription
Still-upsert s = Still-statement _ (record { at = λ w. go (taken s w.subscriptions) w })
  where
    go : (b : Bool) (w : World) → (upserted b s w).1.billing_events ≡ w.billing_events
    go true w = refl
    go false w = refl

Still-find : (id : String) → Still (get_subscription_by_provider_id id)
unfolding get_subscription_by_provider_id
Still-find id = Still-statement _ (record { at = λ w. refl })

ruleset still_rules = (
  Still-statement, Still-attempt, Still-pure, Still-raise, Still-if, Still-now, Still-bind,
  Still-upsert, Still-find,
)

Still-apply : (sub : Subscription) (gs : GatewaySubscription) → Still (apply sub gs)
unfolding apply
Still-apply sub gs = search still_rules

Still-update_from : (evt : Webhook) (r : Result Subscription) → Still (update_from evt r)
Still-update_from evt (ok sub) = search (still_rules, Still-apply)
Still-update_from evt (err not_found) = search still_rules
Still-update_from evt (err e) = search still_rules

Still-apply_event : (evt : Webhook) → Still (apply_event evt)
unfolding apply_event
Still-apply_event evt = search (still_rules, Still-update_from)

module _ (evt : Webhook) (id : String) where
  -- What a webhook does once it is verified and decoded.
  abbrev process : Exec (Unit {0})
  process = record_event id >>= λ fresh. if fresh then apply_event evt else pure tt

  process-IsRecorded :
      (w : World) (fs : List Fault)
      → w.faults ≡ healthy ∷ fs
      → is_recorded id (process w).1.billing_events ≡ true
  unfolding record_event statement ◌>>=◌ pure
  process-IsRecorded w fs h = rw h (go (is_recorded id w.billing_events) refl)
    where
      go :
          (b : Bool)
          → is_recorded id w.billing_events ≡ b
          → is_recorded id
              (continue
                (recorded b id (record w { faults = fs })).0
                (λ fresh. if fresh then apply_event evt else pure tt)
                (recorded b id (record w { faults = fs })).1).1.billing_events
            ≡ true
      go true e = e
      go false e =
          rw
            (
              (Still-apply_event evt).at
                  (record w { faults = fs; billing_events = id ∷ w.billing_events }),
              eq_refl id,
            )
            refl

  process_again :
      (v : World)
      → is_recorded id v.billing_events ≡ true
      → process (record v { faults = [] }) ≡ (ok tt, record v { faults = [] })
  unfolding record_event statement ◌>>=◌ pure
  process_again v e = rw e refl

module _ (config : Config) (g : Gateway) (evt : Webhook) (body signature id : String)
    (available : config.gateway ≡ some g) (verified : g.verify_webhook body signature ≡ true)
    (decoded : g.decode body ≡ some evt) (named : str_eq id "" ≡ false) where
  handle_lem : (w : World) → handle_webhook config body signature id w ≡ process evt id w
  unfolding handle_webhook
  handle_lem w = rw (available, verified, decoded, named) refl

-- A verified webhook is tried once: when the statement that records its event has run, then, whatever
-- becomes of the statements after it, the same webhook, delivered again while no statement fails,
-- returns no error and changes nothing.
pub webhook_tried_once :
    (config : Config) (g : Gateway) (evt : Webhook) (body signature id : String) (w : World)
    (fs : List Fault)
    → config.gateway ≡ some g
    → g.verify_webhook body signature ≡ true
    → g.decode body ≡ some evt
    → id ≢ ""
    → w.faults ≡ healthy ∷ fs
    → let after : World = record (handle_webhook config body signature id w).1 { faults = [] } in
      handle_webhook config body signature id after ≡ (ok tt, after)
webhook_tried_once config g evt body signature id w fs available verified decoded named h =
    let handled =
      handle_lem config g evt body signature id available verified decoded (not_empty id named) in
    handled _
    ∙ process_again evt id (handle_webhook config body signature id w).1 (
        ap (λ (r : Result (Unit {0}) × World). is_recorded id r.1.billing_events) (handled w)
        ∙ process-IsRecorded evt id w fs h)
