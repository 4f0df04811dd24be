-- ===== src/App/Billing.antt =====
-- internal/platform/postgres/billing_repo.go: the statements on subscriptions, plans and events.
pub mod Service
pub mod Checkouts
pub mod Webhooks
use algebra.Prelude.{
  ℕ, ◌+◌, ◌*◌, ◌^◌, String, Bool, true, false, not, ◌&&◌, ◌||◌, Option, none, some, List, [], ◌∷◌,
  str_eq, is_empty, ltb, leb, ◌==◌, if◌then◌else◌,
}
use algebra.Prelude.Int.{ℤ, pos, negsuc, leb_ℤ}
use algebra.Billing.{
  Plan, growth, Entitlement, entitlements, Status, created, authenticated, active, pending, unknown,
  grants, terminal, Subscription, effective_plan, GatewaySubscription,
}
use algebra.App.World.{World, PlanRow, OrderRow, OrderStatus}
use algebra.App.Exec.{
  Exec, Result, ok, err, Err, not_found, unauthorized, conflict, invalid, unavailable,
  not_implemented, quota_exceeded, pure, raise, attempt, ignore, statement, now, ◌>>=◌, ◌>>◌,
}
use algebra.App.Stores.{find, or_missing}
use algebra.App.Commerce.Quotes.{asked, or_unavailable}
use algebra.App.Commerce.Orders.{optional}

unfoldable pub get_subscription : String → Exec Subscription
get_subscription user_id =
    statement
      (λ w. (or_missing (find (λ (s : Subscription). str_eq s.user_id user_id) w.subscriptions), w))

unfoldable pub get_subscription_by_provider_id : String → Exec Subscription
get_subscription_by_provider_id id = statement (λ w. (
  or_missing (find (λ (s : Subscription). str_eq s.provider_subscription_id id) w.subscriptions),
  w,
))

abbrev pub put : Subscription → List Subscription → List Subscription
put s [] = s ∷ []
put s (x ∷ xs) = if str_eq x.user_id s.user_id then s ∷ xs else x ∷ put s xs

-- The subscription of the payment company belongs to another user's row.
abbrev pub taken : Subscription → List Subscription → Bool
taken s [] = false
taken s (x ∷ xs) =
    (str_eq x.provider_subscription_id s.provider_subscription_id
      && not (str_eq x.user_id s.user_id))
    || taken s xs

abbrev pub upserted : Bool → Subscription → Exec (Unit {0})
upserted true s w = (err unavailable, w)
upserted false s w = (ok tt, record w { subscriptions = put s w.subscriptions })

unfoldable pub upsert_subscription : Subscription → Exec (Unit {0})
upsert_subscription s = statement (λ w. upserted (taken s w.subscriptions) s w)

abbrev pub is_growth : Plan → Bool
is_growth growth = true
is_growth _ = false

abbrev pub same_int : ℤ → ℤ → Bool
same_int a b = leb_ℤ a b && leb_ℤ b a

abbrev pub plan_row : ℤ → String → World → Option PlanRow
plan_row amount currency w =
    find
      (λ (row : PlanRow).
        is_growth row.plan && same_int row.amount_minor amount && str_eq row.currency currency)
      w.billing_plans

abbrev plan_id_of : Option PlanRow → Option String
plan_id_of none = none
plan_id_of (some row) = some row.provider_plan_id

unfoldable pub get_provider_plan_id : ℤ → String → Exec String
get_provider_plan_id amount currency =
    statement (λ w. (or_missing (plan_id_of (plan_row amount currency w)), w))

abbrev pub saved : Option PlanRow → PlanRow → Exec (Unit {0})
saved (some old) row w = (ok tt, w)
saved none row w = (ok tt, record w { billing_plans = row ∷ w.billing_plans })

unfoldable pub save_provider_plan_id : String → ℤ → String → Exec (Unit {0})
save_provider_plan_id id amount currency = statement (λ w.
    saved (plan_row amount currency w)
      (record { plan = growth; amount_minor = amount; currency = currency; provider_plan_id = id })
      w)

abbrev pub is_recorded : String → List String → Bool
is_recorded id [] = false
is_recorded id (e ∷ events) = str_eq e id || is_recorded id events

abbrev pub recorded : Bool → String → Exec Bool
recorded true id w = (ok false, w)
recorded false id w = (ok true, record w { billing_events = id ∷ w.billing_events })

-- Whether the event is new.
unfoldable pub record_event : String → Exec Bool
record_event id = statement (λ w. recorded (is_recorded id w.billing_events) id w)

abbrev pub is_execution : OrderStatus → Bool
is_execution OrderStatus.failed = false
is_execution OrderStatus.cancelled = false
is_execution _ = true

abbrev pub executions : String → ℕ → List OrderRow → ℕ
executions user_id since [] = 0
executions user_id since (row ∷ rows) =
    let rest = executions user_id since rows in
    if str_eq row.user_id user_id && leb since row.order.placed_at && is_execution row.order.status
    then rest + 1
    else rest

unfoldable pub count_executions_since : String → ℕ → Exec ℕ
count_executions_since user_id since = statement (λ w. (ok (executions user_id since w.orders), w))
