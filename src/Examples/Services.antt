-- ===== src/Examples/Services.antt =====
-- The theorems on the services at concrete inputs: one user, one agent, and a policy of the tenant.
use algebra.Prelude.{
  ◌⊎◌, ℕ, String, ◌≡◌, refl, true, false, none, some, List, [], ◌∷◌, if◌then◌else◌, ◌==◌,
  none_ne_some,
}
use algebra.Prelude.Int.{pos, add64, wrap64}
use algebra.Agent.{
  Identity, perm_payments_create_intent, perm_payments_request, perm_payments_execute,
  has_permission, is_revoked,
}
use algebra.Approval.{consumed, executable}
use algebra.Approval.Hash.{canonical_hash, canonical_text, sort_items, items_text}
use algebra.PaymentIntent.State as PaymentState
use algebra.PaymentIntent.Record as PaymentRecord
use algebra.PaymentIntent.Record.{AgenticPaymentIntent}
use algebra.Policy.Decision.{deny, PolicyDecision, merge}
use algebra.Policy.Rules.{default_rules, contains}
use algebra.Policy.Provider.{
  evaluate_purchase_intent, evaluate_merchant, evaluate_category, evaluate_amount,
  evaluate_payment_source, evaluate_shipping, evaluate_international,
}
use algebra.App.World.{World, PolicySet}
use algebra.App.Exec.{Result, ok, err, pure, raise, attempt, ignore, statement, now, new_id, ◌>>=◌}
use algebra.App.Stores.{
  agents_get, agent_of_id, with_permissions, users_get, payment_intents_create, payment_intents_get,
  payment_intents_update, approvals_create, approvals_get_by_payment_intent,
  approvals_mark_consumed, policy_sets_get_active, audit_record, update_rows, latest,
  newest_version,
}
use algebra.App.Authz.{require_permission}
use algebra.App.Transition.{record_payment_intent_audit, transition_payment_intent, move}
use algebra.App.Reads.{Refused, Answered}
use algebra.App.PaymentIntents.Create.{
  CreatePaymentIntentInput, create, create_admitted, evaluate, act_on, create_approval, get_active,
  fire_webhook, is_incomplete, owned, get, revoke,
}
use algebra.App.PaymentIntents.Execute.{
  Provider, PaymentExecuteOutcome, succeeded, execute, execute_approved, prepare_and_pay,
  prepare_credential, claim_and_pay, pay, charge, handle_execution_result, finish, give_up,
}
use algebra.App.PaymentIntents.Judged.Creation.{AskedBy, DecidedBy, create_follows_policy}
use algebra.App.PaymentIntents.Access.{Entitled, get_shows_own}
use algebra.App.PaymentIntents.Outsiders.{outsiders_only_replay}
use algebra.App.Idempotency.Refusals.{ReservedOrReplayed}
use algebra.App.PaymentIntents.Backing.Execution.{Executed, execute_charge}
use algebra.App.Stores.Rows.{status_of}
use algebra.App.Idempotency.{run_idempotent, begin, reserve, run_fresh, complete}
use algebra.App.PaymentIntents.Keyed.{execute_keyed}
use algebra.Intent.State as IntentState
use algebra.App.Commerce.Wiring.{Wiring}
use algebra.App.Exec.{not_found}
use algebra.App.Charging.{
  Codec, System, Op, creates, executes, charges_for, run, charged_at_most_once,
}

abbrev digest : List ℕ → String
digest [] = "empty"
digest (c ∷ s) = "some"

-- A provider that accepts everything.
abbrev bank : Provider
bank = record {
  register_payment_source = λ r. some "source";
  create_delegated_authorization = λ r. some "authorization";
  request_authentication = λ r. some true;
  create_scoped_credential = λ r. some "credential";
  execute_payment = λ c. some (record {
    status = succeeded;
    provider_transaction_id = "tx";
    final_amount_minor_units = c.amount_minor_units;
    final_currency = c.currency;
    reason = "";
  });
}

abbrev shopper : Identity
shopper = record {
  id = "agent";
  user_id = "user";
  client_id = "client";
  name = "Shopper";
  permissions = perm_payments_create_intent ∷ perm_payments_request ∷ perm_payments_execute ∷ [];
  token_hash = "";
  created_at = 0;
  revoked_at = none;
}

abbrev tenant_policy : PolicySet
tenant_policy = record {
  id = "policyset-1";
  tenant_id = "tenant";
  user_id = none;
  rules = record default_rules { allowed_shipping_profiles = [] };
  version = 1;
  created_at = 0;
  superseded_at = none;
}

abbrev name_at : ℕ → String
name_at n = if n == 0 then "intent-1" else if n == 1 then "approval-1" else "later"

abbrev start : World
start = record {
  ledger = record { policy_sets = tenant_policy ∷ []; approvals = []; charges = [] };
  payment_intents = [];
  intents = [];
  quotes = [];
  decisions = [];
  orders = [];
  order_events = [];
  idempotency_keys = [];
  subscriptions = [];
  billing_plans = [];
  billing_events = [];
  agents = shopper ∷ [];
  users = record { id = "user"; tenant_id = "tenant" } ∷ [];
  events = [];
  webhooks = [];
  clock = 100;
  delays = [];
  fresh = name_at;
  serial = 0;
  faults = [];
}

abbrev groceries : CreatePaymentIntentInput
groceries = record {
  agent_id = "agent";
  purpose = "groceries";
  merchant = "shop";
  merchant_domain = "shop.example";
  category = "groceries";
  international = false;
  amount_minor_units = pos 50000;
  currency = "INR";
  tolerance_minor_units = pos 0;
  product_ref = "";
  payment_source_alias = "payment:personal";
  requested_capability = "";
}

-- The policy allows the payment, which is executed twice.
abbrev twice : List Op
twice =
    creates groceries
    ∷ executes "key-1" "agent" "intent-1"
    ∷ executes "key-2" "agent" "intent-1"
    ∷ []

-- An encoding of the outcomes that keeps what the second request reads.
abbrev payment_codec : Codec PaymentExecuteOutcome
payment_codec = record {
  marshal = λ outcome. ok "done";
  unmarshal = λ s. ok (record { status = PaymentState.succeeded; result = none });
}

-- No merchant is connected.
abbrev no_merchants : Wiring
no_merchants = record {
  connectors = λ merchant. none;
  platform_rules = default_rules;
  user_rules = none;
  sha256_hex = digest;
  approval_ttl = 900;
  tolerance_minor_units = pos 100;
  locker = none;
  gate = none;
  privacy = none;
  start_of_day = λ t. t;
}

abbrev system : System
system = record {
  wiring = no_merchants;
  provider = bank;
  payments = payment_codec;
  orders = record {
    marshal = λ outcome. ok "done";
    unmarshal = λ s. ok (record { intent_status = IntentState.succeeded; order = none });
  };
  purchases = record { marshal = λ p. ok "intent"; unmarshal = λ s. err not_found };
}

charged_at_most_once_example :
    (charges_for "approval-1" (run system twice start).ledger.charges ≡ 0)
    ⊎ ((charges_for "approval-1" (run system twice start).ledger.charges ≡ 1)
        × (status_of "approval-1" (run system twice start).ledger.approvals ≡ some consumed))
charged_at_most_once_example = charged_at_most_once system twice start refl tt "approval-1"

abbrev returned : {A : Type 0} → A → Result A → A
returned a (ok b) = b
returned a (err e) = a

abbrev no_answer : AgenticPaymentIntent × PolicyDecision
no_answer = (
  PaymentRecord.new "" "" "" "" "" (pos 0) "" "" 0,
  record {
    decision = deny;
    reason_codes = [];
    policy_version = "";
    approval_requirement = none;
    evaluated_at = 0;
  },
)

abbrev creation : Result (AgenticPaymentIntent × PolicyDecision) × World
creation = create digest 900 groceries start

abbrev created : AgenticPaymentIntent × PolicyDecision
created = returned no_answer creation.0

creation_succeeds : create digest 900 groceries start ≡ (ok (created.0, created.1), creation.1)
unfolding create create_admitted evaluate act_on create_approval require_permission agents_get
    agent_of_id with_permissions users_get payment_intents_create payment_intents_update
    approvals_create policy_sets_get_active get_active audit_record record_payment_intent_audit
    transition_payment_intent move fire_webhook now new_id pure raise attempt ignore statement ◌>>=◌
    has_permission is_revoked PaymentRecord.new PaymentRecord.apply_transition
    PaymentState.transition PaymentState.valid PaymentState.can_transition PaymentState.transitions
    canonical_hash canonical_text sort_items items_text evaluate_purchase_intent evaluate_merchant
    evaluate_category evaluate_amount evaluate_payment_source evaluate_shipping
    evaluate_international merge contains add64 wrap64 update_rows newest_version
creation_succeeds = refl

created_state : created.0.status ≡ PaymentState.authorized
unfolding create create_admitted evaluate act_on create_approval require_permission agents_get
    agent_of_id with_permissions users_get payment_intents_create payment_intents_update
    approvals_create policy_sets_get_active get_active audit_record record_payment_intent_audit
    transition_payment_intent move fire_webhook now new_id pure raise attempt ignore statement ◌>>=◌
    has_permission is_revoked PaymentRecord.new PaymentRecord.apply_transition
    PaymentState.transition PaymentState.valid PaymentState.can_transition PaymentState.transitions
    canonical_hash canonical_text sort_items items_text evaluate_purchase_intent evaluate_merchant
    evaluate_category evaluate_amount evaluate_payment_source evaluate_shipping
    evaluate_international merge contains add64 wrap64 update_rows newest_version
created_state = refl

create_follows_policy_example :
    (is_incomplete groceries ≡ false)
    × AskedBy groceries created.0
    × DecidedBy digest 900 start.ledger.policy_sets start.ledger.approvals created.0 created.1
        creation.1.ledger.approvals
create_follows_policy_example =
    create_follows_policy digest 900 groceries start creation.1 created.0 created.1
      creation_succeeds

execute_charge_example :
    Executed creation.1 "key-1" "agent" "intent-1"
      (execute bank "key-1" "agent" "intent-1" creation.1).1.ledger.charges
execute_charge_example = execute_charge bank "key-1" "agent" "intent-1" creation.1

-- The second execution is refused.
twice_charges_once : charges_for "approval-1" (run system twice start).ledger.charges ≡ 1
unfolding create create_admitted evaluate act_on create_approval require_permission agents_get
    agent_of_id with_permissions users_get payment_intents_create payment_intents_update
    approvals_create policy_sets_get_active get_active audit_record record_payment_intent_audit
    transition_payment_intent move fire_webhook now new_id pure raise attempt ignore statement ◌>>=◌
    has_permission is_revoked PaymentRecord.new PaymentRecord.apply_transition
    PaymentState.transition PaymentState.valid PaymentState.can_transition PaymentState.transitions
    canonical_hash canonical_text sort_items items_text evaluate_purchase_intent evaluate_merchant
    evaluate_category evaluate_amount evaluate_payment_source evaluate_shipping
    evaluate_international merge contains add64 wrap64 update_rows newest_version execute owned
    payment_intents_get execute_approved approvals_get_by_payment_intent latest executable
    prepare_and_pay prepare_credential claim_and_pay approvals_mark_consumed pay charge
    handle_execution_result finish give_up execute_keyed run_idempotent begin reserve run_fresh
    complete
twice_charges_once = refl

outsiders_only_replay_example :
    Refused creation.1 (revoke "stranger" "intent-1" creation.1)
    × ReservedOrReplayed payment_codec.unmarshal "key-1" "execute_payment_intent_intent-1"
        creation.1
        (execute_keyed payment_codec.marshal payment_codec.unmarshal bank "key-1" "stranger"
          "intent-1" creation.1)
unfolding create create_admitted evaluate act_on create_approval require_permission agents_get
    agent_of_id with_permissions users_get payment_intents_create payment_intents_update
    approvals_create policy_sets_get_active get_active audit_record record_payment_intent_audit
    transition_payment_intent move fire_webhook now new_id pure raise attempt ignore statement ◌>>=◌
    has_permission is_revoked PaymentRecord.new PaymentRecord.apply_transition
    PaymentState.transition PaymentState.valid PaymentState.can_transition PaymentState.transitions
    canonical_hash canonical_text sort_items items_text evaluate_purchase_intent evaluate_merchant
    evaluate_category evaluate_amount evaluate_payment_source evaluate_shipping
    evaluate_international merge contains add64 wrap64 update_rows newest_version
outsiders_only_replay_example =
    outsiders_only_replay payment_codec.marshal payment_codec.unmarshal bank "key-1" "stranger"
      "intent-1" creation.1 (λ p h. none_ne_some h.1.0)

get_shows_own_example :
    Answered creation.1
      (Entitled creation.1 "agent" perm_payments_request "intent-1")
      (get "agent" "intent-1" creation.1)
get_shows_own_example = get_shows_own "agent" "intent-1" creation.1
