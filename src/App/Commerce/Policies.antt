-- ===== src/App/Commerce/Policies.antt =====
-- internal/app/policy_service.go and user_rules.go
use algebra.Prelude.{◌+◌, String, Option, none, some, List, [], map, str_eq, if◌then◌else◌}
use algebra.Prelude.Int.{ℤ}
use algebra.Agent.{perm_shopping_execute, perm_shopping_read, perm_policy_read}
use algebra.Approval.{Status, pending, approved}
use algebra.Approval.Hash.{HashableItem, canonical_hash}
use algebra.Intent.State as IntentState
use algebra.Intent.Record.{PurchaseIntent}
use algebra.Quote.{Item, CheckoutQuote}
use algebra.Policy.Decision.{Decision, allow, deny, require_approval, PolicyDecision, Input}
use algebra.Policy.Rules.{Rules}
use algebra.Policy.Provider.{evaluate_purchase_intent}
use algebra.App.World.{absent}
use algebra.App.Exec.{Exec, Result, ok, err, invalid, pure, raise, now, new_id, ◌>>=◌, ◌>>◌}
use algebra.App.Stores.{intents_get, approvals_create, audit_record}
use algebra.App.Authz.{require_owned_intent}
use algebra.App.Transition.{move_intent}
use algebra.App.PaymentIntents.Create.{answered, decision_name, decided_when}
use algebra.App.Commerce.Tables.{quotes_get, decisions_save, decisions_get_latest, spend_since}
use algebra.App.Commerce.Wiring.{Wiring}

abbrev hashable : Item → HashableItem
hashable it = record {
  merchant_product_id = it.merchant_product_id;
  quantity = it.quantity;
  unit_price_minor_units = it.unit_price.minor_units;
}

abbrev pub hashable_items : List Item → List HashableItem
hashable_items items = map hashable items

unfoldable pub load_quote : PurchaseIntent → Exec (PurchaseIntent × CheckoutQuote)
load_quote pi = do q ← quotes_get pi.selected_quote_id; pure (pi, q)

unfoldable pub load_intent_and_selected_quote : String → Exec (PurchaseIntent × CheckoutQuote)
load_intent_and_selected_quote intent_id = do
  pi ← intents_get intent_id
  if str_eq pi.selected_quote_id "" then raise invalid else load_quote pi

module _ (wiring : Wiring) where
  abbrev pub rules_found : Result (Option Rules) → Exec Rules
  rules_found (err e) = raise e
  rules_found (ok none) = pure wiring.platform_rules
  rules_found (ok (some rules)) = pure rules

  abbrev pub rules_from : Option (String → Result (Option Rules)) → String → Exec Rules
  rules_from none user_id = pure wiring.platform_rules
  rules_from (some source) user_id =
      if str_eq user_id "" then pure wiring.platform_rules else rules_found (source user_id)

  unfoldable pub provider_for : String → Exec Rules
  provider_for user_id = rules_from wiring.user_rules user_id

  abbrev pub purchase_input : PurchaseIntent → CheckoutQuote → ℤ → Input
  purchase_input pi q spend_today = record {
    user_id = pi.user_id;
    agent_id = pi.agent_id;
    merchant = q.merchant;
    category = pi.constraints.category;
    amount_minor_units = q.final_payable.minor_units;
    currency = q.final_payable.currency;
    payment_profile = pi.constraints.payment_profile;
    shipping_profile = pi.constraints.delivery_profile;
    international = pi.constraints.international;
    spend_today_minor_units = spend_today;
    crypto_recipient = "";
    amount_usdc = [];
  }

  unfoldable pub evaluate : PurchaseIntent → CheckoutQuote → Exec PolicyDecision
  evaluate pi q = do
    t ← now
    spend_today ← spend_since pi.user_id q.final_payable.currency (wiring.start_of_day t)
    provider ← provider_for pi.user_id
    t' ← now
    answered (evaluate_purchase_intent provider t' (purchase_input pi q spend_today))

  unfoldable pub create_approval : PurchaseIntent → CheckoutQuote → Status → Exec (Unit {0})
  create_approval pi q status = do
    t ← now
    id ← new_id
    approvals_create (record {
      id = id;
      intent_id = pi.id;
      agentic_payment_intent_id = "";
      quote_id = q.quote_id;
      user_id = pi.user_id;
      agent_id = pi.agent_id;
      merchant = q.merchant;
      amount = q.final_payable;
      payment_source_alias = pi.constraints.payment_profile;
      items_hash =
          canonical_hash wiring.sha256_hex q.merchant (hashable_items q.items)
            q.final_payable.currency pi.constraints.payment_profile;
      status = status;
      authentication_method = "";
      created_at = t;
      decided_at = decided_when status t;
      expires_at = t + wiring.approval_ttl;
    })

  -- The `switch` on the decision.
  unfoldable pub act_on : PurchaseIntent → CheckoutQuote → Decision → Exec PurchaseIntent
  act_on pi q deny = move_intent pi IntentState.policy_rejected "IntentPolicyRejected"
  act_on pi q require_approval = do
    create_approval pi q pending
    move_intent pi IntentState.approval_required "ApprovalRequested"
  act_on pi q allow = do
    create_approval pi q approved
    move_intent pi IntentState.approved "ApprovalGranted"

  unfoldable pub decide_purchase : PurchaseIntent → CheckoutQuote → Exec PolicyDecision
  decide_purchase loaded q = do
    pi ← move_intent loaded IntentState.policy_check "PolicyEvaluationStarted"
    decision ← evaluate pi q
    decisions_save pi.id decision
    t ← now
    audit_record (record {
      action = "PolicyEvaluated";
      intent_id = pi.id;
      payment_intent_id = "";
      timestamp = t;
      previous_state = absent;
      new_state = absent;
      policy_decision = decision_name decision.decision;
      merchant = q.merchant;
    })
    act_on pi q decision.decision
    pure decision

  unfoldable pub evaluate_and_transition : String → String → Exec PolicyDecision
  evaluate_and_transition agent_id intent_id = do
    owned ← require_owned_intent agent_id intent_id perm_shopping_execute
    loaded ← load_intent_and_selected_quote intent_id
    decide_purchase loaded.0 loaded.1

  unfoldable pub preview_decision : String → String → Exec PolicyDecision
  preview_decision agent_id intent_id = do
    owned ← require_owned_intent agent_id intent_id perm_shopping_read
    loaded ← load_intent_and_selected_quote intent_id
    evaluate loaded.0 loaded.1

unfoldable pub explain_decision : String → String → Exec PolicyDecision
explain_decision agent_id intent_id = do
  owned ← require_owned_intent agent_id intent_id perm_policy_read
  decisions_get_latest intent_id
