-- ===== src/App/Commerce/Orders.antt =====
-- internal/app/order_service.go: `Execute`.
pub mod Results
use Prim.Native.String.{◌++◌ as text_append}
use algebra.Prelude.{ℕ, String, Bool, Option, none, some, [], ◌∷◌, str_eq, if◌then◌else◌}
use algebra.Prelude.Int.{ℤ, pos}
use algebra.Money.{Amount}
use algebra.Agent.{perm_shopping_execute}
use algebra.Approval.{Approval, reapproval_required, executable, matches}
use algebra.Approval.Hash.{canonical_hash}
use algebra.Intent.State as IntentState
use algebra.Intent.State.{State}
use algebra.Intent.Record.{PurchaseIntent}
use algebra.Quote.{CheckoutQuote}
use algebra.Policy.Decision.{Decision, allow, deny, require_approval, Input}
use algebra.Policy.Provider.{evaluate_payment}
use algebra.App.World.{Channel, Charge, Order}
use algebra.App.Exec.{
  Exec, Result, ok, err, Err, not_found, conflict, pure, raise, now, ◌>>=◌, ◌>>◌,
}
use algebra.App.Stores.{approvals_update, approvals_mark_consumed}
use algebra.App.Authz.{require_owned_intent}
use algebra.App.Transition.{transition_intent, move_intent}
use algebra.App.Idempotency.{run_idempotent}
use algebra.App.PaymentIntents.Create.{answered}
use algebra.App.Commerce.Tables.{approvals_get_by_intent, spend_since}
use algebra.App.Commerce.Wiring.{
  ShippingAddress, BillingAddress, Fulfillment, ExecutionResult, Connector, Privacy, Wiring,
}
use algebra.App.Commerce.Quotes.{or_panic, refresh_quote}
use algebra.App.Commerce.Policies.{hashable_items, provider_for}
use algebra.App.Commerce.Orders.Results.{ExecuteOutcome, if_in, handle_execution_result}

-- A profile that is missing is left out, and any other error is one.
abbrev pub optional : {A : Type 0} → Result A → Exec (Option A)
optional (ok a) = pure (some a)
optional (err not_found) = pure none
optional (err e) = raise e

abbrev pub resolved :
    {A : Type 0} → (String → String → Result A) → String → String → Exec (Option A)
resolved resolve user_id alias =
    if str_eq alias "" then pure none else optional (resolve user_id alias)

abbrev pub fulfilled : Option Privacy → PurchaseIntent → Approval → Exec Fulfillment
fulfilled none pi a = pure (record { shipping = none; billing = none })
fulfilled (some privacy) pi a = do
  shipping ← resolved privacy.resolve_shipping pi.user_id pi.constraints.delivery_profile
  billing ← resolved privacy.resolve_billing pi.user_id a.payment_source_alias
  pure (record { shipping = shipping; billing = billing })

abbrev pub passed : Option Err → Exec (Unit {0})
passed none = pure tt
passed (some e) = raise e

abbrev pub admitted : Option (String → Option Err) → String → Exec (Unit {0})
admitted none user_id = pure tt
admitted (some gate) user_id = passed (gate user_id)

-- The call that moves money; its failure comes back as `none`.
unfoldable pub execute_checkout :
    Connector → String → Charge → Fulfillment → Exec (Option ExecutionResult)
execute_checkout connector cart_id c fulfillment w = (
  ok (connector.execute_checkout w.clock cart_id c.approval_id fulfillment),
  record w { ledger = record w.ledger { charges = c ∷ w.ledger.charges } },
)

module _ (wiring : Wiring) where
  unfoldable pub resolve_fulfillment : PurchaseIntent → Approval → Exec Fulfillment
  resolve_fulfillment pi a = fulfilled wiring.privacy pi a

  unfoldable pub approval_hash : CheckoutQuote → String → String
  approval_hash q alias =
      canonical_hash wiring.sha256_hex q.merchant (hashable_items q.items) q.final_payable.currency
        alias

  -- The terms have drifted, or policy now asks for a human: nothing is placed.
  unfoldable pub require_reapproval : PurchaseIntent → Approval → Exec ExecuteOutcome
  require_reapproval pi a = do
    approvals_update (record a { status = reapproval_required })
    q ← move_intent pi IntentState.reapproval_required "ReapprovalRequired"
    pure (record { intent_status = q.status; order = none })

  abbrev pub after_checkout :
      PurchaseIntent → Approval → Connector → Option ExecutionResult → Exec ExecuteOutcome
  after_checkout pi a connector none = do
    transition_intent pi IntentState.failed "OrderFailed"
    pure (record { intent_status = IntentState.failed; order = none })
  after_checkout pi a connector (some result) = handle_execution_result pi a connector result

  abbrev pub checkout_of : Approval → CheckoutQuote → Charge
  checkout_of a refreshed = record {
    channel = Channel.checkout refreshed.cart_id;
    approval_id = a.id;
    credential_ref = "";
    merchant = refreshed.merchant;
    merchant_domain = "";
    amount_minor_units = refreshed.final_payable.minor_units;
    currency = refreshed.final_payable.currency;
    idempotency_key = "";
  }

  abbrev pub with_connector :
      PurchaseIntent
      → Approval
      → CheckoutQuote
      → Fulfillment
      → Option Connector
      → Exec ExecuteOutcome
  with_connector pi a refreshed fulfillment none = do
    transition_intent pi IntentState.failed "OrderFailed"
    raise not_found
  with_connector pi a refreshed fulfillment (some connector) = do
    result ← execute_checkout connector refreshed.cart_id (checkout_of a refreshed) fulfillment
    after_checkout pi a connector result

  unfoldable pub check_out :
      PurchaseIntent → Approval → CheckoutQuote → Fulfillment → Exec ExecuteOutcome
  check_out pi a refreshed fulfillment = do
    q ← move_intent pi IntentState.executing "ExecutionStarted"
    with_connector q a refreshed fulfillment (wiring.connectors refreshed.merchant)

  -- The addresses are resolved before the approval is claimed.
  unfoldable pub place : PurchaseIntent → Approval → CheckoutQuote → Exec ExecuteOutcome
  place pi a refreshed = do
    fulfillment ← resolve_fulfillment pi a
    claimed ← approvals_mark_consumed a.id
    if claimed then check_out pi a refreshed fulfillment else raise conflict

  unfoldable pub on_recheck :
      PurchaseIntent → Approval → CheckoutQuote → Decision → Exec ExecuteOutcome
  on_recheck pi a refreshed deny = do
    q ← move_intent pi IntentState.executing "ExecutionStarted"
    move_intent q IntentState.failed "IntentPolicyRejected"
    pure (record { intent_status = IntentState.failed; order = none })
  on_recheck pi a refreshed require_approval = require_reapproval pi a
  on_recheck pi a refreshed allow = place pi a refreshed

  abbrev pub payment_input : PurchaseIntent → Approval → CheckoutQuote → ℤ → Input
  payment_input pi a refreshed spend_today = record {
    user_id = pi.user_id;
    agent_id = pi.agent_id;
    merchant = refreshed.merchant;
    category = "";
    amount_minor_units = refreshed.final_payable.minor_units;
    currency = refreshed.final_payable.currency;
    payment_profile = a.payment_source_alias;
    shipping_profile = "";
    international = Bool.false;
    spend_today_minor_units = spend_today;
    crypto_recipient = "";
    amount_usdc = [];
  }

  unfoldable pub recheck : PurchaseIntent → Approval → CheckoutQuote → Exec ExecuteOutcome
  recheck pi a refreshed = do
    t ← now
    spend_today ← spend_since pi.user_id refreshed.final_payable.currency (wiring.start_of_day t)
    provider ← provider_for wiring pi.user_id
    t' ← now
    decision ← answered (evaluate_payment provider t' (payment_input pi a refreshed spend_today))
    on_recheck pi a refreshed decision.decision

  abbrev pub tolerance : CheckoutQuote → Amount
  tolerance refreshed = record {
    minor_units = wiring.tolerance_minor_units;
    currency = refreshed.final_payable.currency;
  }

  -- The comparison of a fresh quote with what was approved.
  unfoldable pub compare_terms : PurchaseIntent → Approval → Exec ExecuteOutcome
  compare_terms pi a = do
    refreshed ← refresh_quote wiring a.quote_id
    matched ← or_panic (
        matches a refreshed.merchant (approval_hash refreshed a.payment_source_alias)
          refreshed.final_payable a.payment_source_alias (tolerance refreshed))
    if matched then recheck pi a refreshed else require_reapproval pi a

  unfoldable pub execute_approved : PurchaseIntent → String → Exec ExecuteOutcome
  execute_approved pi intent_id = do
    admitted wiring.gate pi.user_id
    a ← approvals_get_by_intent intent_id
    t ← now
    if executable a t then compare_terms pi a else raise conflict

  unfoldable pub execute_owned : String → String → Exec ExecuteOutcome
  execute_owned agent_id intent_id = do
    owned ← require_owned_intent agent_id intent_id perm_shopping_execute
    if_in IntentState.approved owned.1 (execute_approved owned.1 intent_id)

  abbrev pub locked :
      Option (String → Result (Unit {0})) → String → Exec ExecuteOutcome → Exec ExecuteOutcome
  locked none intent_id body = body
  locked (some lock) intent_id body = elim (lock intent_id) [ ok _ ↦ body | err e ↦ raise e ]

  -- The function that `Execute` runs under its idempotency key.
  unfoldable pub execute_order : String → String → Exec ExecuteOutcome
  execute_order agent_id intent_id =
      locked wiring.locker intent_id (execute_owned agent_id intent_id)

unfoldable pub execute_keyed :
    (ExecuteOutcome → Result String)
    → (String → Result ExecuteOutcome)
    → Wiring
    → String
    → String
    → String
    → Exec ExecuteOutcome
execute_keyed marshal unmarshal wiring idem_key agent_id intent_id =
    run_idempotent marshal unmarshal idem_key (text_append "execute_" intent_id)
      (execute_order wiring agent_id intent_id)
