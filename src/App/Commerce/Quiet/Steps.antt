-- ===== src/App/Commerce/Quiet/Steps.antt =====
-- Whole operations of a purchase that leave the approvals and the charges alone (internal/app).
use algebra.Prelude.{String, Bool, Option, none, some}
use algebra.Approval.{Approval}
use algebra.Intent.State.{State}
use algebra.Intent.Record.{PurchaseIntent}
use algebra.Policy.Rules.{Rules}
use algebra.Quote.{CheckoutQuote}
use algebra.App.World.{Order}
use algebra.App.Exec.{Result, ok, err}
use algebra.App.Keeps.{Quiet, quiet_rules}
use algebra.App.Commerce.Wiring.{
  ExecutionStatus, succeeded, failed, authentication_required, merchant_intervention_needed,
  user_intervention_needed, ExecutionResult, Connector, Wiring,
}
use algebra.App.Commerce.Quotes.{registered, connectors_get, refresh_quote}
use algebra.App.Commerce.Policies.{rules_found, rules_from, provider_for, evaluate}
use algebra.App.Commerce.Orders.{resolve_fulfillment, after_checkout}
use algebra.App.Commerce.Orders.Results.{
  ends_in, placed_when, order_kept, settled, handle_execution_result, confirmed_order, confirm,
  complete_authentication, cancel_placed, cancel_order,
}
use algebra.App.Commerce.Quiet.{table_rules, Quiet-require_owned_intent, Quiet-fulfilled}

Quiet-ends_in : (pi : PurchaseIntent) (to : State) (action : String) → Quiet (ends_in pi to action)
Quiet-ends_in pi to action = search table_rules

Quiet-placed_when : (o : Order) → Quiet (placed_when o)
Quiet-placed_when o = search table_rules

Quiet-order_kept :
    (pi : PurchaseIntent) (a : Approval) (c : Connector) (o : Option Order)
    → Quiet (order_kept pi a c o)
Quiet-order_kept pi a c none = search table_rules
Quiet-order_kept pi a c (some o) = search (table_rules, Quiet-placed_when) depth 12

Quiet-settled :
    (pi : PurchaseIntent) (a : Approval) (c : Connector) (o : Option Order) (s : ExecutionStatus)
    → Quiet (settled pi a c o s)
Quiet-settled pi a c o succeeded = Quiet-order_kept pi a c o
Quiet-settled pi a c o failed = Quiet-ends_in pi _ _
Quiet-settled pi a c o authentication_required = Quiet-ends_in pi _ _
Quiet-settled pi a c o merchant_intervention_needed = Quiet-ends_in pi _ _
Quiet-settled pi a c o user_intervention_needed = Quiet-ends_in pi _ _

Quiet-confirmed_order :
    (pi : PurchaseIntent) (a : Approval) (c : Connector) (o : Option Order)
    → Quiet (confirmed_order pi a c o)
Quiet-confirmed_order pi a c none = search table_rules
Quiet-confirmed_order pi a c (some o) = search table_rules

module _ (wiring : Wiring) where
  pub Quiet-after_checkout :
      (pi : PurchaseIntent) (a : Approval) (c : Connector) (o : Option ExecutionResult)
      → Quiet (after_checkout wiring pi a c o)
  unfolding handle_execution_result
  Quiet-after_checkout pi a c none = search table_rules
  Quiet-after_checkout pi a c (some r) = Quiet-settled pi a c r.order r.status

  Quiet-registered : (o : Option Connector) → Quiet (registered wiring o)
  Quiet-registered none = search quiet_rules
  Quiet-registered (some c) = search quiet_rules

  Quiet-connectors_get : (merchant : String) → Quiet (connectors_get wiring merchant)
  unfolding connectors_get
  Quiet-connectors_get merchant = Quiet-registered (wiring.connectors merchant)

  pub Quiet-refresh_quote : (id : String) → Quiet (refresh_quote wiring id)
  unfolding refresh_quote
  Quiet-refresh_quote id = search (table_rules, Quiet-connectors_get) depth 12

  Quiet-rules_found : (r : Result (Option Rules)) → Quiet (rules_found wiring r)
  Quiet-rules_found (err e) = search quiet_rules
  Quiet-rules_found (ok none) = search quiet_rules
  Quiet-rules_found (ok (some rules)) = search quiet_rules

  Quiet-rules_from :
      (o : Option (String → Result (Option Rules))) (u : String) → Quiet (rules_from wiring o u)
  Quiet-rules_from none u = search quiet_rules
  Quiet-rules_from (some source) u = search (quiet_rules, Quiet-rules_found)

  pub Quiet-provider_for : (u : String) → Quiet (provider_for wiring u)
  unfolding provider_for
  Quiet-provider_for u = Quiet-rules_from wiring.user_rules u

  pub Quiet-evaluate : (pi : PurchaseIntent) (q : CheckoutQuote) → Quiet (evaluate wiring pi q)
  unfolding evaluate
  Quiet-evaluate pi q = search (table_rules, Quiet-provider_for)

  pub Quiet-resolve_fulfillment :
      (pi : PurchaseIntent) (a : Approval) → Quiet (resolve_fulfillment wiring pi a)
  unfolding resolve_fulfillment
  Quiet-resolve_fulfillment pi a = Quiet-fulfilled wiring.privacy pi a

  Quiet-confirm :
      (pi : PurchaseIntent) (a : Approval) (id : String) → Quiet (confirm wiring pi a id)
  unfolding confirm
  Quiet-confirm pi a id = search (table_rules, Quiet-connectors_get, Quiet-confirmed_order)

  pub Quiet-complete_authentication :
      (agent_id id order_id : String) (success : Bool)
      → Quiet (complete_authentication wiring agent_id id order_id success)
  unfolding complete_authentication
  Quiet-complete_authentication agent_id id order_id success =
      search (table_rules, Quiet-require_owned_intent, Quiet-confirm, Quiet-ends_in)

  Quiet-cancel_placed : (id : String) (o : Order) → Quiet (cancel_placed wiring id o)
  unfolding cancel_placed
  Quiet-cancel_placed id o = search (table_rules, Quiet-connectors_get) depth 12

  pub Quiet-cancel_order : (agent_id id : String) → Quiet (cancel_order wiring agent_id id)
  unfolding cancel_order
  Quiet-cancel_order agent_id id =
      search (table_rules, Quiet-require_owned_intent, Quiet-cancel_placed)
