-- ===== src/App/Commerce/Quiet.antt =====
-- The steps of a purchase that leave the approvals and the charges alone (internal/app, and its
-- statements in internal/platform/postgres).
pub mod Steps
use algebra.Prelude.{ℕ, String, Bool, true, false, Option, none, some, refl, ◌≡◌, str_eq, ◌==◌}
use algebra.Prelude.Int.{ℤ}
use algebra.Approval.{Approval}
use algebra.Intent.State as IntentState
use algebra.Intent.State.{State}
use algebra.App.Stores.{intent_row}
use algebra.Intent.Record.{PurchaseIntent}
use algebra.Policy.Decision.{PolicyDecision}
use algebra.Policy.Rules.{Rules}
use algebra.Quote.{CheckoutQuote}
use algebra.App.World.{World, OrderStatus, Order, OrderRow, OrderEvent}
use algebra.App.Exec.{
  Exec, Result, ok, err, Err, not_found, unauthorized, conflict, invalid, unavailable,
  not_implemented, quota_exceeded, transition, purchase_transition, ◌>>=◌, ◌>>◌,
}
use algebra.App.Keeps.{Quiet, quiet_rules, Quiet-statement, Quiet-ignore}
use algebra.App.Quiet.{app_rules, Quiet-transition_intent}
use algebra.App.Authz.{require_owned_intent}
use algebra.App.PaymentIntents.Create.{answered}
use algebra.App.Commerce.Tables.{
  quotes_get, decisions_save, approvals_get_by_intent, order_row, insert_order, orders_create,
  orders_get_by_intent, set_order_status, orders_update_status, orders_add_event, spend_since,
}
use algebra.App.Commerce.Wiring.{
  ExecutionStatus, succeeded, failed, authentication_required, merchant_intervention_needed,
  user_intervention_needed, ExecutionResult, Connector, Privacy, Wiring,
}
use algebra.App.Commerce.Quotes.{
  asked, or_unavailable, or_panic, registered, connectors_get, refresh_quote,
}
use algebra.App.Commerce.Policies.{
  load_quote, load_intent_and_selected_quote, rules_found, rules_from, provider_for, evaluate,
}
use algebra.App.Commerce.Orders.{
  optional, resolved, fulfilled, passed, admitted, resolve_fulfillment, after_checkout,
}
use algebra.App.Commerce.Orders.Results.{
  ends_in, placed_when, order_kept, settled, handle_execution_result, confirmed_order,
}

pub Quiet-asked : {A : Type 0} (f : ℕ → A) → Quiet (asked f)
unfolding asked
Quiet-asked f = record { at = λ w. refl }

pub Quiet-quotes_get : (id : String) → Quiet (quotes_get id)
unfolding quotes_get
Quiet-quotes_get id = Quiet-statement _ (record { at = λ w. refl })

pub Quiet-decisions_save : (id : String) (d : PolicyDecision) → Quiet (decisions_save id d)
unfolding decisions_save
Quiet-decisions_save id d = Quiet-statement _ (record { at = λ w. refl })

pub Quiet-approvals_get_by_intent : (id : String) → Quiet (approvals_get_by_intent id)
unfolding approvals_get_by_intent
Quiet-approvals_get_by_intent id = Quiet-statement _ (record { at = λ w. refl })

pub Quiet-orders_get_by_intent : (id : String) → Quiet (orders_get_by_intent id)
unfolding orders_get_by_intent
Quiet-orders_get_by_intent id = Quiet-statement _ (record { at = λ w. refl })

insert_order_quiet :
    (o : Order) (pi : Option PurchaseIntent) (row : Option OrderRow) (w : World)
    → (insert_order o pi row w).1.ledger ≡ w.ledger
insert_order_quiet o none none w = refl
insert_order_quiet o (some pi) none w = refl
insert_order_quiet o none (some old) w = refl
insert_order_quiet o (some pi) (some old) w = refl

pub Quiet-orders_create : (o : Order) → Quiet (orders_create o)
unfolding orders_create
Quiet-orders_create o =
    Quiet-statement _
      (record { at = λ w. insert_order_quiet o (intent_row o.intent_id w) (order_row o.id w) w })

set_status_quiet :
    (id : String) (s : OrderStatus) (row : Option OrderRow) (w : World)
    → (set_order_status id s row w).1.ledger ≡ w.ledger
set_status_quiet id s none w = refl
set_status_quiet id s (some old) w = refl

pub Quiet-orders_update_status : (id : String) (s : OrderStatus) → Quiet (orders_update_status id s)
unfolding orders_update_status
Quiet-orders_update_status id s =
    Quiet-statement _ (record { at = λ w. set_status_quiet id s (order_row id w) w })

pub Quiet-orders_add_event : (e : OrderEvent) → Quiet (orders_add_event e)
unfolding orders_add_event
Quiet-orders_add_event e = Quiet-ignore _ (Quiet-statement _ (record { at = λ w. refl }))

pub Quiet-spend_since : (u c : String) (t : ℕ) → Quiet (spend_since u c t)
unfolding spend_since
Quiet-spend_since u c t = Quiet-statement _ (record { at = λ w. refl })

pub Quiet-or_unavailable : {A : Type 0} (o : Option A) → Quiet (or_unavailable o)
Quiet-or_unavailable none = search quiet_rules
Quiet-or_unavailable (some a) = search quiet_rules

pub Quiet-answered : (o : Option PolicyDecision) → Quiet (answered o)
Quiet-answered none = search quiet_rules
Quiet-answered (some d) = search quiet_rules

pub ruleset table_rules = (
  app_rules, Quiet-transition_intent, Quiet-asked, Quiet-quotes_get, Quiet-decisions_save,
  Quiet-approvals_get_by_intent, Quiet-orders_get_by_intent, Quiet-orders_create,
  Quiet-orders_update_status, Quiet-orders_add_event, Quiet-spend_since, Quiet-or_unavailable,
  Quiet-answered,
)

pub Quiet-require_owned_intent :
    (agent_id id perm : String) → Quiet (require_owned_intent agent_id id perm)
unfolding require_owned_intent
Quiet-require_owned_intent agent_id id perm = search table_rules

pub Quiet-load_intent_and_selected_quote : (id : String) → Quiet (load_intent_and_selected_quote id)
unfolding load_intent_and_selected_quote load_quote
Quiet-load_intent_and_selected_quote id = search table_rules

Quiet-optional : {A : Type 0} (r : Result A) → Quiet (optional r)
Quiet-optional (ok a) = search quiet_rules
Quiet-optional (err not_found) = search quiet_rules
Quiet-optional (err unauthorized) = search quiet_rules
Quiet-optional (err conflict) = search quiet_rules
Quiet-optional (err invalid) = search quiet_rules
Quiet-optional (err unavailable) = search quiet_rules
Quiet-optional (err not_implemented) = search quiet_rules
Quiet-optional (err quota_exceeded) = search quiet_rules
Quiet-optional (err (transition e)) = search quiet_rules
Quiet-optional (err (purchase_transition e)) = search quiet_rules

pub Quiet-fulfilled :
    (privacy : Option Privacy) (pi : PurchaseIntent) (a : Approval) → Quiet (fulfilled privacy pi a)
Quiet-fulfilled none pi a = search quiet_rules
Quiet-fulfilled (some privacy) pi a = search (quiet_rules, Quiet-optional)

Quiet-passed : (o : Option Err) → Quiet (passed o)
Quiet-passed none = search quiet_rules
Quiet-passed (some e) = search quiet_rules

pub Quiet-admitted : (gate : Option (String → Option Err)) (u : String) → Quiet (admitted gate u)
Quiet-admitted none u = search quiet_rules
Quiet-admitted (some gate) u = Quiet-passed (gate u)
