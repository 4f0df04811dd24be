-- ===== src/Examples/Limits.antt =====
-- The theorems on policy sets and on guardrails (internal/app/policy_set_service.go and
-- internal/domain/account/guardrails.go) at concrete inputs.
use algebra.Prelude.{
  String, ◌≡◌, refl, true, false, Option, none, some, List, [], ◌∷◌, ◌↔◌, inl, inr, map, arith,
  if◌then◌else◌,
}
use algebra.Prelude.Int.{pos, ◌+ℤ◌, ◌≤ℤ◌, ◌<ℤ◌}
use algebra.Prelude.Texts.{to_upper, to_lower, trim_space, trim_left, trim_right}
use algebra.Policy.Decision.{Input, PolicyDecision, allow}
use algebra.Policy.Rules.{default_rules, contains}
use algebra.Policy.Provider.{evaluate_purchase_intent}
use algebra.Guardrails.{
  Guardrails, default_guardrails, unknown_category, normalize, normal_categories, normal_merchants,
  platform_max_per_day_minor_units, to_rules,
}
use algebra.Guardrails.Limits.{normalize_again, normalize_bounds}
use algebra.Guardrails.Enforced.{Within, guardrails_enforced}
use algebra.App.World.{World, PolicySet}
use algebra.App.Exec.{statement, pure, attempt, now, new_id, ◌>>=◌}
use algebra.App.Stores.{is_for, newest_version, policy_sets_get_active}
use algebra.App.PolicySets.{set_policy, policy_sets_supersede_active, policy_sets_create}
use algebra.App.PolicySets.Versions.{is_pair}
use algebra.App.PolicySets.Setting.{version_after, as_made, set_policy_refines}
use algebra.App.PolicySets.Single.{Single, Setting, run_settings, one_active_policy}

-- As a user may type them.
abbrev typed : Guardrails
typed = record {
  currency = "inr";
  approval_threshold_minor_units = pos 0;
  max_per_purchase_minor_units = pos 0;
  max_per_day_minor_units = pos 500000;
  blocked_categories = " Gift_Cards " ∷ "alcohol" ∷ "ALCOHOL" ∷ [];
  blocked_merchants = "Casino " ∷ "Casino" ∷ "" ∷ [];
  international_requires_approval = true;
}

abbrev kept : Guardrails
kept = record {
  currency = "INR";
  approval_threshold_minor_units = pos 0;
  max_per_purchase_minor_units = pos 500000;
  max_per_day_minor_units = pos 500000;
  blocked_categories = "gift_cards" ∷ "alcohol" ∷ [];
  blocked_merchants = "Casino" ∷ [];
  international_requires_approval = true;
}

typed-kept : normalize typed ≡ inr kept
unfolding normalize normal_categories normal_merchants to_upper to_lower trim_space trim_left
    trim_right contains
typed-kept = refl

-- Onboarding that is skipped leaves the platform's rules.
default_mirrors :
    to_rules default_guardrails ≡ record default_rules { version = "user-guardrails-v1" }
unfolding to_rules
default_mirrors = refl

misspelt :
    normalize (record typed { blocked_categories = "giftcards" ∷ [] })
    ≡ inl (unknown_category "giftcards")
unfolding normalize normal_categories normal_merchants to_upper to_lower trim_space trim_left
    trim_right contains
misspelt = refl

normalize_again_example : normalize kept ≡ inr kept
normalize_again_example = normalize_again typed kept typed-kept

normalize_bounds_example :
    (pos 0 <ℤ kept.max_per_purchase_minor_units)
    × (kept.max_per_purchase_minor_units ≤ℤ kept.max_per_day_minor_units)
    × (kept.max_per_day_minor_units ≤ℤ platform_max_per_day_minor_units)
    × (pos 0 ≤ℤ kept.approval_threshold_minor_units)
normalize_bounds_example = normalize_bounds typed kept typed-kept

abbrev basket : Input
basket = record {
  user_id = "user";
  agent_id = "agent";
  merchant = "shop";
  category = "groceries";
  international = false;
  amount_minor_units = pos 100;
  currency = "INR";
  payment_profile = "payment:personal";
  shipping_profile = "shipping:home";
  spend_today_minor_units = pos 0;
  crypto_recipient = "";
  amount_usdc = [];
}

guardrails_enforced_example :
    (d : PolicyDecision) × (evaluate_purchase_intent (to_rules kept) 0 basket ≡ some d)
    × ((d.decision ≡ allow) ↔ Within kept basket)
unfolding ◌+ℤ◌
guardrails_enforced_example =
    guardrails_enforced typed kept typed-kept 0 basket refl
      (record { upper = omega arith; lower = omega arith })

abbrev blank : World
blank = record {
  ledger = record { policy_sets = []; approvals = []; charges = [] };
  payment_intents = [];
  intents = [];
  quotes = [];
  decisions = [];
  orders = [];
  order_events = [];
  idempotency_keys = [];
  subscriptions = [];
  billing_plans = [];
  billing_events = [];
  agents = [];
  users = [];
  events = [];
  webhooks = [];
  clock = 7;
  delays = [];
  fresh = λ n. "policyset-1";
  serial = 0;
  faults = [];
}

abbrev first_set : PolicySet
first_set = record {
  id = "policyset-1";
  tenant_id = "tenant";
  user_id = none;
  rules = default_rules;
  version = 1;
  created_at = 7;
  superseded_at = none;
}

abbrev set_once : World
set_once = record blank {
  ledger = record { policy_sets = first_set ∷ []; approvals = []; charges = [] };
  serial = 1;
}

set_policy_refines_example :
    (first_set.rules ≡ default_rules)
    × (first_set.version ≡ version_after (newest_version (is_for "tenant" none) []))
    × ((t : String) (u : Option String)
        → newest_version (is_for t u) (first_set ∷ [])
          ≡ (if is_pair "tenant" none t u then some first_set else newest_version (is_for t u) []))
    × (map as_made (first_set ∷ []) ≡ first_set ∷ map as_made [])
unfolding set_policy policy_sets_get_active policy_sets_supersede_active policy_sets_create
    newest_version statement pure attempt now new_id ◌>>=◌
set_policy_refines_example =
    set_policy_refines "tenant" none default_rules blank set_once first_set refl

abbrev twice : List Setting
twice =
    record { tenant = "tenant"; user = none; rules = default_rules }
    ∷ record { tenant = "tenant"; user = none; rules = default_rules }
    ∷ []

one_active_policy_example : Single (run_settings twice blank).ledger.policy_sets
one_active_policy_example = one_active_policy twice blank (λ t u. omega arith)
