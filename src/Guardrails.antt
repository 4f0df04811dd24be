-- ===== src/Guardrails.antt =====
-- internal/domain/account/guardrails.go: the limits that a user sets.
pub mod Normal
pub mod Limits
pub mod Enforced
use algebra.Prelude.{
  ℕ, String, Bool, true, false, not, ◌&&◌, ◌||◌, List, [], ◌∷◌, ◌++◌, ◌⊎◌, inl, inr, str_eq,
  if◌then◌else◌,
}
use algebra.Prelude.Int.{ℤ, pos, ltb_ℤ, leb_ℤ}
use algebra.Prelude.Texts.{to_upper, to_lower, trim_space}
use algebra.Policy.Rules.{Rules, default_rules, contains}

pub record Guardrails : Type 0 where
  pub currency : String
  pub approval_threshold_minor_units : ℤ
  pub max_per_purchase_minor_units : ℤ
  pub max_per_day_minor_units : ℤ
  pub blocked_categories : List String
  pub blocked_merchants : List String
  pub international_requires_approval : Bool

abbrev pub platform_max_per_day_minor_units : ℤ
platform_max_per_day_minor_units = pos 50000000

abbrev pub known_categories : List String
known_categories =
    "groceries" ∷ "food_delivery" ∷ "electronics" ∷ "fashion" ∷ "home" ∷ "beauty" ∷ "pharmacy"
    ∷ "gift_cards" ∷ "alcohol" ∷ "tobacco" ∷ "subscriptions" ∷ "travel" ∷ []

abbrev pub default_guardrails : Guardrails
default_guardrails = record {
  currency = default_rules.currency;
  approval_threshold_minor_units = default_rules.approval_threshold_minor_units;
  max_per_purchase_minor_units = default_rules.max_per_transaction_minor_units;
  max_per_day_minor_units = default_rules.max_per_day_minor_units;
  blocked_categories = default_rules.blocked_categories;
  blocked_merchants = [];
  international_requires_approval = default_rules.international_requires_approval;
}

-- The errors of `Normalize`, which are texts in the source.
pub data Flaw : Type 0 where
  daily_limit_not_positive daily_limit_too_high negative_threshold : Flaw
  unknown_category : String → Flaw

-- The two loops of `Normalize`, each with the names it has kept.
abbrev pub is_skipped : List String → String → Bool
is_skipped kept name = str_eq name "" || contains kept name

unfoldable pub normal_categories : List String → List String → Flaw ⊎ List String
normal_categories cats [] = inr cats
normal_categories cats (c ∷ rest) =
    let name = to_lower (trim_space c) in
    let others =
      normal_categories (if is_skipped cats name then cats else cats ++ name ∷ []) rest in
    if not (is_skipped cats name) && not (contains known_categories name)
    then inl (unknown_category name)
    else others

unfoldable pub normal_merchants : List String → List String → List String
normal_merchants merchants [] = merchants
normal_merchants merchants (m ∷ rest) =
    let name = trim_space m in
    normal_merchants (if is_skipped merchants name then merchants else merchants ++ name ∷ []) rest

abbrev pub with_lists : Guardrails → Flaw ⊎ List String → Flaw ⊎ Guardrails
with_lists g (inl flaw) = inl flaw
with_lists g (inr cats) = inr (record g {
  blocked_categories = cats;
  blocked_merchants = normal_merchants [] g.blocked_merchants;
})

abbrev pub with_currency : Guardrails → Guardrails
with_currency g = record g {
  currency = to_upper (if str_eq g.currency "" then "INR" else g.currency);
}

-- A cap on a purchase that is missing, or above the day's, is the day's.
abbrev pub with_purchase_cap : Guardrails → Guardrails
with_purchase_cap g =
    if leb_ℤ g.max_per_purchase_minor_units (pos 0)
      || ltb_ℤ g.max_per_day_minor_units g.max_per_purchase_minor_units
    then record g { max_per_purchase_minor_units = g.max_per_day_minor_units }
    else g

unfoldable pub normalize : Guardrails → Flaw ⊎ Guardrails
normalize g =
    if leb_ℤ g.max_per_day_minor_units (pos 0)
    then inl daily_limit_not_positive
    else if ltb_ℤ platform_max_per_day_minor_units g.max_per_day_minor_units
    then inl daily_limit_too_high
    else if ltb_ℤ g.approval_threshold_minor_units (pos 0)
    then inl negative_threshold
    else with_lists (with_purchase_cap (with_currency g))
        (normal_categories [] g.blocked_categories)

-- A threshold of zero asks for every purchase; the engine takes zero for no threshold.
abbrev pub engine_threshold : ℤ → ℤ
engine_threshold t = if leb_ℤ t (pos 0) && leb_ℤ (pos 0) t then pos 1 else t

unfoldable pub to_rules : Guardrails → Rules
to_rules g = record default_rules {
  version = "user-guardrails-v1";
  currency = g.currency;
  max_per_transaction_minor_units = g.max_per_purchase_minor_units;
  max_per_day_minor_units = g.max_per_day_minor_units;
  approval_threshold_minor_units = engine_threshold g.approval_threshold_minor_units;
  blocked_categories = g.blocked_categories;
  blocked_merchants = g.blocked_merchants;
  international_requires_approval = g.international_requires_approval;
}
