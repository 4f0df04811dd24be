-- ===== src/App/Commerce/Orders/Results.antt =====
-- internal/app/order_service.go: the outcomes of a checkout, and what happens to an order afterwards.
use algebra.Prelude.{String, Bool, Option, none, some, ◌==◌, if◌then◌else◌}
use algebra.Agent.{perm_shopping_execute, perm_orders_read}
use algebra.Approval.{Approval}
use algebra.Intent.State as IntentState
use algebra.Intent.State.{State, same}
use algebra.Intent.Record.{PurchaseIntent}
use algebra.App.World.{absent, OrderStatus, cancelled, Order}
use algebra.App.Exec.{Exec, conflict, invalid, unavailable, pure, raise, now, new_id, ◌>>=◌, ◌>>◌}
use algebra.App.Stores.{audit_record}
use algebra.App.Authz.{require_owned_intent}
use algebra.App.Transition.{transition_intent, move_intent}
use algebra.App.Commerce.Tables.{
  approvals_get_by_intent, orders_create, orders_get_by_intent, orders_update_status,
  orders_add_event,
}
use algebra.App.Commerce.Wiring.{
  ExecutionStatus, succeeded, failed, authentication_required, merchant_intervention_needed,
  user_intervention_needed, ExecutionResult, Connector, Wiring,
}
use algebra.App.Commerce.Quotes.{asked, connectors_get, or_unavailable}

-- Without the challenge and the reason.
pub record ExecuteOutcome : Type 0 where
  pub intent_status : State
  pub order : Option Order

abbrev pub if_in : State → PurchaseIntent → Exec ExecuteOutcome → Exec ExecuteOutcome
if_in state pi body = if same pi.status state then body else raise conflict

abbrev pub ends_in : PurchaseIntent → State → String → Exec ExecuteOutcome
ends_in pi to action = do
  q ← move_intent pi to action
  pure (record { intent_status = q.status; order = none })

-- The order of the merchant, as it is kept.
abbrev pub kept_order : PurchaseIntent → Approval → Connector → String → Order → Order
kept_order pi a connector id o = record o {
  id = id;
  intent_id = pi.id;
  approval_id = a.id;
  provider_mode = connector.mode;
}

abbrev pub placed_when : Order → Exec Order
placed_when o = if o.placed_at == 0 then (do t ← now; pure (record o { placed_at = t })) else pure o

abbrev pub order_kept : PurchaseIntent → Approval → Connector → Option Order → Exec ExecuteOutcome
order_kept pi a connector none = raise invalid
order_kept pi a connector (some o) = do
  id ← new_id
  ord ← placed_when (kept_order pi a connector id o)
  orders_create ord
  event_id ← new_id
  t ← now
  orders_add_event
      (record { id = event_id; order_id = ord.id; kind = "OrderPlaced"; created_at = t })
  q ← move_intent pi IntentState.succeeded "OrderCompleted"
  pure (record { intent_status = q.status; order = some ord })

abbrev pub settled :
    PurchaseIntent → Approval → Connector → Option Order → ExecutionStatus → Exec ExecuteOutcome
settled pi a connector o succeeded = order_kept pi a connector o
settled pi a connector o authentication_required =
    ends_in pi IntentState.authentication_required "PaymentChallengeCreated"
settled pi a connector o merchant_intervention_needed =
    ends_in pi IntentState.merchant_intervention_required "OrderFailed"
settled pi a connector o user_intervention_needed =
    ends_in pi IntentState.user_intervention_required "OrderFailed"
settled pi a connector o failed = ends_in pi IntentState.failed "OrderFailed"

unfoldable pub handle_execution_result :
    PurchaseIntent → Approval → Connector → ExecutionResult → Exec ExecuteOutcome
handle_execution_result pi a connector result = settled pi a connector result.order result.status

abbrev pub confirmed_order :
    PurchaseIntent → Approval → Connector → Option Order → Exec ExecuteOutcome
confirmed_order pi a connector none = do
  transition_intent pi IntentState.failed "OrderFailed"
  raise unavailable
confirmed_order pi a connector (some o) = do
  id ← new_id
  let ord = kept_order pi a connector id o
  orders_create ord
  q ← move_intent pi IntentState.succeeded "OrderCompleted"
  pure (record { intent_status = q.status; order = some ord })

module _ (wiring : Wiring) where
  -- The order is the one that the merchant reports.
  unfoldable pub confirm : PurchaseIntent → Approval → String → Exec ExecuteOutcome
  confirm pi a merchant_order_id = do
    connector ← connectors_get wiring a.merchant
    answer ← asked (λ t. connector.get_order t merchant_order_id)
    confirmed_order pi a connector answer

  abbrev pub authenticated : PurchaseIntent → String → String → Bool → Exec ExecuteOutcome
  authenticated pi intent_id merchant_order_id success = do
    a ← approvals_get_by_intent intent_id
    if success then confirm pi a merchant_order_id else ends_in pi IntentState.failed "OrderFailed"

  unfoldable pub complete_authentication : String → String → String → Bool → Exec ExecuteOutcome
  complete_authentication agent_id intent_id merchant_order_id success = do
    owned ← require_owned_intent agent_id intent_id perm_shopping_execute
    if_in IntentState.authentication_required owned.1
        (authenticated owned.1 intent_id merchant_order_id success)

  abbrev pub is_cancelled : OrderStatus → Bool
  is_cancelled cancelled = Bool.true
  is_cancelled _ = Bool.false

  -- The merchant is asked first.
  unfoldable pub cancel_placed : String → Order → Exec Order
  cancel_placed intent_id ord = do
    connector ← connectors_get wiring ord.merchant
    answer ← asked (λ t. connector.cancel_order t ord.merchant_order_id)
    or_unavailable answer
    orders_update_status ord.id cancelled
    event_id ← new_id
    t ← now
    orders_add_event
        (record { id = event_id; order_id = ord.id; kind = "OrderCancelled"; created_at = t })
    t' ← now
    audit_record (record {
      action = "OrderCancelled";
      intent_id = intent_id;
      payment_intent_id = "";
      timestamp = t';
      previous_state = absent;
      new_state = absent;
      policy_decision = "";
      merchant = ord.merchant;
    })
    pure (record ord { status = cancelled })

  unfoldable pub cancel_order : String → String → Exec Order
  cancel_order agent_id intent_id = do
    owned ← require_owned_intent agent_id intent_id perm_shopping_execute
    ord ← orders_get_by_intent intent_id
    if is_cancelled ord.status then pure ord else cancel_placed intent_id ord

unfoldable pub get_order_status : String → String → Exec Order
get_order_status agent_id intent_id = do
  owned ← require_owned_intent agent_id intent_id perm_orders_read
  orders_get_by_intent intent_id
