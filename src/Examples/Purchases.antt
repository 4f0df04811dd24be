-- ===== src/Examples/Purchases.antt =====
-- The theorems on purchases at concrete inputs: an approved purchase of one merchant's cart.
use algebra.Prelude.{ℕ, ◌≡◌, refl, false, none, some, [], ◌∷◌, str_eq, if◌then◌else◌}
use algebra.Prelude.Int.{pos, add64, sub64, wrap64, neg64}
use algebra.Money.{Amount, within_tolerance, same_currency, greater_than, abs_diff}
use algebra.Agent.{Identity, perm_shopping_execute, has_permission, is_revoked, perm_shopping_read}
use algebra.Approval.{Approval, approved, executable, matches, is_expired}
use algebra.Intent.Record.{PurchaseIntent}
use algebra.Quote.{CheckoutQuote, recompute, or_zero, payable}
use algebra.Policy.Rules.{default_rules, contains}
use algebra.App.World.{World, Channel, Charge}
use algebra.App.Commerce.Selection.{any_quote_selected}
use algebra.App.Commerce.Quotes.{select_quote, asked, connectors_get, refresh_quote}
use algebra.App.Stores.{
  intent_row, agents_get, agent_of_id, with_permissions, update_rows, intents_get, intents_update,
  latest, approvals_mark_consumed, audit_record,
}
use algebra.App.Exec.{ok, pure, raise, ◌>>=◌, statement, ignore, attempt, now, new_id}
use algebra.App.Commerce.Wiring.{Wiring, Connector, succeeded}
use algebra.App.Commerce.Orders.{
  execute_order, execute_checkout, resolve_fulfillment, approval_hash, check_out, place, on_recheck,
  recheck, compare_terms, execute_approved, execute_owned,
}
use algebra.App.Commerce.Backing.Execution.{Executed, order_charge}
use algebra.App.Commerce.Orders.Results.{handle_execution_result}
use algebra.App.Commerce.Tables.{quotes_get, approvals_get_by_intent, spent, spend_since}
use algebra.App.Commerce.Policies.{provider_for}
use algebra.App.Authz.{require_permission, require_owned_intent}
use algebra.App.Transition.{record_audit, transition_intent, move_intent}
use algebra.Approval.Hash.{canonical_hash, canonical_text, sort_items, items_text}
use algebra.Policy.Provider.{
  evaluate_merchant, evaluate_category, evaluate_amount, evaluate_hard_amount_caps,
  evaluate_payment_source, evaluate_payment,
}
use algebra.Policy.Decision.{worse, merge_step, merge_loop, with_requirement, merge}
use algebra.Intent.State as IntentState
use algebra.Money
use algebra.Intent.Record as IntentRecord
use algebra.Approval as ApprovalFile

abbrev rupees : ℕ → Amount
rupees n = record { minor_units = pos n; currency = "INR" }

abbrev cart : CheckoutQuote
cart = record {
  quote_id = "quote-1";
  cart_id = "cart-1";
  merchant = "shop";
  items = [];
  subtotal = rupees 500;
  item_discounts = rupees 0;
  coupon_discount = rupees 0;
  bank_offer = rupees 0;
  card_offer = rupees 0;
  cashback = rupees 0;
  delivery_fee = rupees 40;
  handling_fee = rupees 0;
  platform_fee = rupees 0;
  tax = rupees 0;
  other_fee = rupees 0;
  final_payable = rupees 540;
  effective_cost = rupees 540;
  offers = [];
  payment_source_requirements = [];
  delivery_eta = none;
  expires_at = 1000;
  retrieved_at = 50;
}

abbrev shop : Connector
shop = record {
  mode = "sandbox";
  get_checkout_quote = λ t cart_id. some cart;
  execute_checkout =
      λ t cart_id approval_id fulfillment. some (record { status = succeeded; order = none });
  get_order = λ t id. none;
  cancel_order = λ t id. none;
}

abbrev one_merchant : Wiring
one_merchant = record {
  connectors = λ merchant. if str_eq merchant "shop" then some shop else none;
  platform_rules = default_rules;
  user_rules = none;
  sha256_hex = λ s. "hash";
  approval_ttl = 900;
  tolerance_minor_units = pos 100;
  locker = none;
  gate = none;
  privacy = none;
  start_of_day = λ t. 0;
}

abbrev buyer : Identity
buyer = record {
  id = "agent";
  user_id = "user";
  client_id = "client";
  name = "Buyer";
  permissions = perm_shopping_execute ∷ [];
  token_hash = "";
  created_at = 0;
  revoked_at = none;
}

abbrev purchase : PurchaseIntent
purchase = record {
  id = "intent-1";
  user_id = "user";
  agent_id = "agent";
  status = IntentState.approved;
  items = [];
  constraints = record {
    max_total_minor_units = pos 1000;
    currency = "INR";
    delivery_profile = "";
    payment_profile = "payment:personal";
    preferred_merchants = [];
    excluded_merchants = [];
    category = "";
    international = false;
  };
  selected_quote_id = "quote-1";
  created_at = 0;
  updated_at = 0;
  expires_at = none;
}

-- Approved at 500; the cart now comes to 540.
abbrev granted : Approval
granted = record {
  id = "approval-1";
  intent_id = "intent-1";
  agentic_payment_intent_id = "";
  quote_id = "quote-1";
  user_id = "user";
  agent_id = "agent";
  merchant = "shop";
  amount = rupees 500;
  payment_source_alias = "payment:personal";
  items_hash = "hash";
  status = approved;
  authentication_method = "";
  created_at = 60;
  decided_at = some 70;
  expires_at = 960;
}

abbrev store : World
store = record {
  ledger = record { policy_sets = []; approvals = granted ∷ []; charges = [] };
  payment_intents = [];
  intents = purchase ∷ [];
  quotes = record { intent_id = "intent-1"; payload = cart } ∷ [];
  decisions = [];
  orders = [];
  order_events = [];
  idempotency_keys = [];
  subscriptions = [];
  billing_plans = [];
  billing_events = [];
  agents = buyer ∷ [];
  users = [];
  events = [];
  webhooks = [];
  clock = 100;
  delays = [];
  fresh = λ n. "id";
  serial = 0;
  faults = [];
}

-- The checkout is made, at the price of the day.
abbrev checkout : Charge
checkout = record {
  channel = Channel.checkout "cart-1";
  approval_id = "approval-1";
  credential_ref = "";
  merchant = "shop";
  merchant_domain = "";
  amount_minor_units = pos 540;
  currency = "INR";
  idempotency_key = "";
}

order_charge_example :
    Executed one_merchant store "agent" "intent-1"
      (execute_order one_merchant "agent" "intent-1" store).1.ledger.charges
order_charge_example = order_charge one_merchant "agent" "intent-1" store

checkout_made :
    (execute_order one_merchant "agent" "intent-1" store).1.ledger.charges ≡ checkout ∷ []
unfolding execute_checkout resolve_fulfillment approval_hash check_out place on_recheck recheck
    compare_terms execute_approved execute_owned execute_order handle_execution_result quotes_get
    approvals_get_by_intent spent spend_since asked connectors_get refresh_quote provider_for
    require_permission require_owned_intent agents_get agent_of_id with_permissions update_rows
    intents_get intents_update latest approvals_mark_consumed audit_record record_audit
    transition_intent move_intent pure raise ◌>>=◌ statement ignore attempt now new_id matches
    ApprovalFile.is_expired executable canonical_hash canonical_text sort_items items_text or_zero
    payable recompute same_currency Money.add Money.sub greater_than abs_diff within_tolerance
    evaluate_merchant evaluate_category evaluate_amount evaluate_hard_amount_caps
    evaluate_payment_source evaluate_payment worse merge_step merge_loop with_requirement merge
    contains IntentState.transitions IntentState.valid IntentState.can_transition
    IntentState.transition IntentRecord.apply_transition is_revoked has_permission wrap64 add64
    sub64 neg64
checkout_made = refl

-- The cart was quoted for another intent.
abbrev browsing : World
browsing = record store {
  agents = record buyer { permissions = perm_shopping_read ∷ [] } ∷ [];
  intents =
      record purchase { status = IntentState.quoted; selected_quote_id = "" }
      ∷ record purchase { id = "intent-2"; status = IntentState.quoted }
      ∷ [];
  quotes = record { intent_id = "intent-2"; payload = cart } ∷ [];
}

any_quote_selected_example :
    ((select_quote "agent" "intent-1" "quote-1" browsing).0 ≡ ok tt)
    × (intent_row "intent-1" (select_quote "agent" "intent-1" "quote-1" browsing).1
        ≡ some (record purchase { status = IntentState.quoted; selected_quote_id = "quote-1" }))
unfolding has_permission is_revoked
any_quote_selected_example =
    any_quote_selected "agent" "intent-1" "quote-1" browsing
      (record buyer { permissions = perm_shopping_read ∷ [] })
      (record purchase { status = IntentState.quoted; selected_quote_id = "" })
      (record { intent_id = "intent-2"; payload = cart }) refl ((refl, refl), refl, refl) refl refl
