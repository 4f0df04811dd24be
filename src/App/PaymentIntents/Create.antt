-- ===== src/App/PaymentIntents/Create.antt =====
-- internal/app/payment_intent_service.go: creation, policy evaluation, reading and revoking. The SHA-256
-- digest and the approvals' time to live are parameters of the service.
use algebra.Prelude.{
  ℕ, ◌+◌, String, Bool, ◌||◌, Option, none, some, List, [], ◌∷◌, str_eq, if◌then◌else◌,
}
use algebra.Prelude.Int.{ℤ, pos, leb_ℤ}
use algebra.Agent.{
  Identity, perm_payments_create_intent, perm_payments_request, perm_payments_execute,
}
use algebra.Approval.{Status, pending, approved}
use algebra.Approval.Hash.{canonical_hash}
use algebra.PaymentIntent.State as PaymentState
use algebra.PaymentIntent.State.{same}
use algebra.PaymentIntent.Record as PaymentRecord
use algebra.PaymentIntent.Record.{AgenticPaymentIntent}
use algebra.Policy.Decision.{Decision, allow, deny, require_approval, PolicyDecision, Input}
use algebra.Policy.Provider.{evaluate_purchase_intent}
use algebra.App.World.{User, PolicySet, absent, payment}
use algebra.App.Exec.{
  Exec, Result, ok, err, not_found, unauthorized, conflict, invalid, pure, raise, attempt, now,
  new_id, ◌>>=◌, ◌>>◌,
}
use algebra.App.Stores.{
  users_get, payment_intents_get, payment_intents_create, approvals_create, policy_sets_get_active,
  audit_record,
}
use algebra.App.Authz.{require_permission}
use algebra.App.Transition.{record_payment_intent_audit, move}

pub record CreatePaymentIntentInput : Type 0 where
  pub agent_id : String
  pub purpose : String
  pub merchant : String
  pub merchant_domain : String
  pub category : String
  pub international : Bool
  pub amount_minor_units : ℤ
  pub currency : String
  pub tolerance_minor_units : ℤ
  pub product_ref : String
  pub payment_source_alias : String
  pub requested_capability : String

-- The call of the dispatcher, whose own failures are dropped.
unfoldable pub fire_webhook : AgenticPaymentIntent → String → Exec (Unit {0})
fire_webhook p event_type w = (
  ok tt,
  record w {
    webhooks =
        record {
          tenant_id = p.tenant_id;
          event_type = event_type;
          payment_intent_id = p.id;
          status = p.status;
        }
        ∷ w.webhooks;
  },
)

-- internal/app/policy_set_service.go, `GetActive`: the user's own set, or the tenant's.
abbrev pub own_or_default : String → Result PolicySet → Exec PolicySet
own_or_default tenant (ok s) = pure s
own_or_default tenant (err not_found) = policy_sets_get_active tenant none
own_or_default tenant (err e) = raise e

unfoldable pub get_active : String → Option String → Exec PolicySet
get_active tenant none = policy_sets_get_active tenant none
get_active tenant (some user) = do
  r ← attempt (policy_sets_get_active tenant (some user))
  own_or_default tenant r

-- A tenant without a policy is a conflict.
abbrev pub or_conflict : Result PolicySet → Exec PolicySet
or_conflict (ok s) = pure s
or_conflict (err not_found) = raise conflict
or_conflict (err e) = raise e

abbrev pub policy_input : AgenticPaymentIntent → Input
policy_input p = record {
  user_id = p.user_id;
  agent_id = p.agent_id;
  merchant = p.merchant;
  category = p.category;
  amount_minor_units = p.amount_minor_units;
  currency = p.currency;
  payment_profile = p.payment_source_alias;
  shipping_profile = "";
  international = p.international;
  spend_today_minor_units = pos 0;
  crypto_recipient = "";
  amount_usdc = [];
}

abbrev pub answered : Option PolicyDecision → Exec PolicyDecision
answered none = raise invalid
answered (some d) = pure d

abbrev pub decision_name : Decision → String
decision_name allow = "ALLOW"
decision_name deny = "DENY"
decision_name require_approval = "REQUIRE_APPROVAL"

abbrev pub decided_when : Status → ℕ → Option ℕ
decided_when approved t = some t
decided_when _ t = none

abbrev pub is_incomplete : CreatePaymentIntentInput → Bool
is_incomplete input =
    str_eq input.merchant ""
    || (leb_ℤ input.amount_minor_units (pos 0)
        || (str_eq input.currency "" || str_eq input.payment_source_alias ""))

module _ (sha256_hex : List ℕ → String) (approval_ttl : ℕ) where
  unfoldable pub create_approval : AgenticPaymentIntent → Status → Exec (Unit {0})
  create_approval p status = do
    t ← now
    id ← new_id
    approvals_create (record {
      id = id;
      intent_id = "";
      agentic_payment_intent_id = p.id;
      quote_id = "";
      user_id = p.user_id;
      agent_id = p.agent_id;
      merchant = p.merchant;
      amount = record { minor_units = p.amount_minor_units; currency = p.currency };
      payment_source_alias = p.payment_source_alias;
      items_hash = canonical_hash sha256_hex p.merchant [] p.currency p.payment_source_alias;
      status = status;
      authentication_method = "";
      created_at = t;
      decided_at = decided_when status t;
      expires_at = t + approval_ttl;
    })

  -- The `switch` on the decision.
  unfoldable pub act_on : AgenticPaymentIntent → Decision → Exec AgenticPaymentIntent
  act_on p deny = do
    q ← move p PaymentState.denied "PaymentIntentDenied"
    fire_webhook q "payment_intent.policy_denied"
    pure q
  act_on p require_approval = do
    create_approval p pending
    q ← move p PaymentState.approval_required "ApprovalRequested"
    fire_webhook q "payment_intent.approval_required"
    pure q
  act_on p allow = do
    create_approval p approved
    q ← move p PaymentState.authorized "PaymentIntentAuthorized"
    fire_webhook q "payment_intent.policy_allowed"
    pure q

  -- The intent as it is left in memory, and the decision.
  unfoldable pub evaluate : AgenticPaymentIntent → Exec (AgenticPaymentIntent × PolicyDecision)
  evaluate p = do
    p' ← move p PaymentState.policy_evaluating "PolicyEvaluationStarted"
    found ← attempt (get_active p'.tenant_id (some p'.user_id))
    set ← or_conflict found
    t ← now
    decision ← answered (evaluate_purchase_intent set.rules t (policy_input p'))
    t' ← now
    audit_record (record {
      action = "PolicyEvaluated";
      intent_id = "";
      payment_intent_id = p'.id;
      timestamp = t';
      previous_state = absent;
      new_state = absent;
      policy_decision = decision_name decision.decision;
      merchant = p'.merchant;
    })
    q ← act_on (record p' { policy_version = decision.policy_version }) decision.decision
    pure (q, decision)

  -- The rest of `Create`, once the agent, its tenant and the input were accepted.
  unfoldable pub create_admitted :
      CreatePaymentIntentInput → Identity → User → Exec (AgenticPaymentIntent × PolicyDecision)
  create_admitted input ag user = do
    t ← now
    id ← new_id
    let fresh =
        PaymentRecord.new id user.tenant_id ag.user_id ag.id input.merchant input.amount_minor_units
          input.currency input.payment_source_alias t
    let p = record fresh {
      purpose = input.purpose;
      merchant_domain = input.merchant_domain;
      category = input.category;
      international = input.international;
      tolerance_minor_units = input.tolerance_minor_units;
      product_ref = input.product_ref;
      requested_capability = input.requested_capability;
    }
    payment_intents_create p
    record_payment_intent_audit p "PaymentIntentCreated" absent (payment p.status)
    fire_webhook p "payment_intent.created"
    evaluate p

  abbrev pub create_for :
      CreatePaymentIntentInput → Identity → User → Exec (AgenticPaymentIntent × PolicyDecision)
  create_for input ag user =
      if str_eq user.tenant_id ""
      then raise unauthorized
      else if is_incomplete input
      then raise invalid
      else create_admitted input ag user

  unfoldable pub create : CreatePaymentIntentInput → Exec (AgenticPaymentIntent × PolicyDecision)
  create input = do
    ag ← require_permission input.agent_id perm_payments_create_intent
    user ← users_get ag.user_id
    create_for input ag user

-- The intent, if it belongs to the agent's user; another's looks like one that is missing.
unfoldable pub owned : String → String → String → Exec AgenticPaymentIntent
owned agent_id perm id = do
  ag ← require_permission agent_id perm
  p ← payment_intents_get id
  if str_eq p.user_id ag.user_id then pure p else raise not_found

unfoldable pub get : String → String → Exec AgenticPaymentIntent
get agent_id id = owned agent_id perm_payments_request id

abbrev pub revoke_target : PaymentState.State → PaymentState.State
revoke_target PaymentState.approval_required = PaymentState.revoked
revoke_target PaymentState.authorized = PaymentState.revoked
revoke_target PaymentState.ready_to_execute = PaymentState.revoked
revoke_target _ = PaymentState.cancelled

unfoldable pub revoke : String → String → Exec AgenticPaymentIntent
revoke agent_id id = do
  p ← owned agent_id perm_payments_execute id
  move p (revoke_target p.status) "PaymentIntentRevoked"
