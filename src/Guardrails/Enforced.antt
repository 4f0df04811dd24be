-- ===== src/Guardrails/Enforced.antt =====
-- The policy that comes of a user's guardrails, and what it lets through
-- (internal/domain/account/guardrails.go and policy/local_provider.go).
use algebra.Prelude.{
  ℕ, zero, suc, String, ◌≡◌, refl, sym, Bool, true, false, ◌⊎◌, inl, inr, ◌↔◌, List, [], ◌∷◌, some,
  arith, eq_iff, ◌∙◌, ◌≢◌, true_ne_false,
}
use algebra.Prelude.Int.{ℤ, pos, negsuc, ◌+ℤ◌, ◌≤ℤ◌, ◌<ℤ◌, IsInt64, ltb_ℤ}
use algebra.Policy.Decision.{Input, PolicyDecision, allow}
use algebra.Policy.Provider.{evaluate_purchase_intent, is_crypto_rail}
use algebra.Policy.Provider.Compliance.{
  Listed, Permitted, CurrencyFits, Compliant, purchase_allow_iff,
}
use algebra.Guardrails.{Guardrails, normalize, engine_threshold, to_rules}
use algebra.Guardrails.Limits.{IsNormal, normalize-IsNormal}

-- A purchase within what the user allows without being asked.
pub record Within (g : Guardrails) (input : Input) : Type 0 where
  pub currency : input.currency ≡ g.currency
  pub purchase : input.amount_minor_units ≤ℤ g.max_per_purchase_minor_units
  pub day : (input.spend_today_minor_units +ℤ input.amount_minor_units) ≤ℤ g.max_per_day_minor_units
  pub unasked :
      (input.amount_minor_units <ℤ g.approval_threshold_minor_units)
      ⊎ ((g.approval_threshold_minor_units ≡ pos 0) × (input.amount_minor_units ≤ℤ pos 0))
  pub merchant : ¬ Listed input.merchant g.blocked_merchants
  pub category : (input.category ≡ "") ⊎ (¬ Listed input.category g.blocked_categories)
  pub domestic : (input.international ≡ false) ⊎ (g.international_requires_approval ≡ false)
  -- What the guardrails leave to the platform's rules.
  pub source : input.payment_profile ≡ "payment:personal"
  pub shipping : input.shipping_profile ≡ "shipping:home"

threshold_iff :
    (t a : ℤ)
    → ltb_ℤ t (pos 0) ≡ false
    → (pos 0 <ℤ engine_threshold t → a <ℤ engine_threshold t)
      ↔ ((a <ℤ t) ⊎ ((t ≡ pos 0) × (a ≤ℤ pos 0)))
threshold_iff (negsuc n) a h = absurd (ground arith)
threshold_iff (pos zero) a h = (λ below. inr (refl, ground (arith, below)), λ w. ground arith)
threshold_iff (pos (suc n)) a h = (λ below. inl (ground (arith, below)), λ w. ground arith)

cons_ne_nil : {x : String} {xs : List String} → ◌≢◌ {A = List String} (x ∷ xs) []
cons_ne_nil e = cc

-- An allow-list of one name permits that name.
only : (v x : String) → Permitted v (x ∷ []) → v ≡ x
only v x (inl none_listed) = absurd (cons_ne_nil none_listed)
only v x (inr (inl same)) = sym same
only v x (inr (inr beyond)) = absurd beyond

either_domestic : (a b : Bool) → (a ≡ true → b ≡ false) → (a ≡ false) ⊎ (b ≡ false)
either_domestic true b h = inr (h refl)
either_domestic false b h = inl refl

module _ (g : Guardrails) (normal : IsNormal g) (now : ℕ) (input : Input) where
  given_currency : CurrencyFits (to_rules g) input.currency → input.currency ≡ g.currency
  unfolding to_rules
  given_currency (inl empty) =
      absurd (true_ne_false (sym ((eq_iff g.currency "").1 empty) ∙ normal.currency_given))
  given_currency (inr same) = same

  Compliant-Within : Compliant (to_rules g) input → Within g input
  unfolding to_rules
  Compliant-Within c = record {
    currency = given_currency c.currency_fits;
    purchase = c.under_transaction_cap (ground (arith, normal.purchase_positive));
    day = c.under_day_cap (ground (arith, normal.day_positive));
    unasked =
        (threshold_iff g.approval_threshold_minor_units input.amount_minor_units normal.threshold).0
          c.below_threshold;
    merchant = c.not_blocked;
    category = c.category_open;
    domestic = either_domestic _ _ c.domestic;
    source = only _ _ c.source_permitted;
    shipping = only _ _ c.shipping_permitted;
  }

  Within-Compliant : Within g input → Compliant (to_rules g) input
  unfolding to_rules
  Within-Compliant w = record {
    not_blocked = w.merchant;
    merchant_permitted = inl refl;
    category_open = w.category;
    currency_fits = inr w.currency;
    under_transaction_cap = λ h. w.purchase;
    under_day_cap = λ h. w.day;
    below_threshold =
        (threshold_iff g.approval_threshold_minor_units input.amount_minor_units normal.threshold).1
          w.unasked;
    source_permitted = inr (inl (sym w.source));
    shipping_permitted = inr (inl (sym w.shipping));
    domestic = ground (arith, w.domestic);
  }

-- The rules of guardrails that Normalize answered with, on a purchase that is not on a crypto rail and
-- whose day's total fits an int64: the engine answers, and it answers ALLOW exactly when the purchase is
-- within the guardrails (in their currency; at most the caps on a purchase and on a day; below the
-- approval threshold, where a threshold of zero leaves no amount above zero; its merchant and its
-- category not blocked; not international where that asks for approval) and its payment and shipping
-- profiles are the platform's.
pub guardrails_enforced :
    (g g' : Guardrails)
    → normalize g ≡ inr g'
    → (now : ℕ) (input : Input) → is_crypto_rail input ≡ false
    → IsInt64 (input.spend_today_minor_units +ℤ input.amount_minor_units)
    → (d : PolicyDecision) × (evaluate_purchase_intent (to_rules g') now input ≡ some d)
      × ((d.decision ≡ allow) ↔ Within g' input)
guardrails_enforced g g' e now input rail fits =
    let normal = normalize-IsNormal g g' e in
    let (d, answers, allows) = purchase_allow_iff (to_rules g') now input rail fits in
    (
      d,
      answers,
      (
        λ a. Compliant-Within g' normal now input (allows.0 a),
        λ w. allows.1 (Within-Compliant g' normal now input w),
      ),
    )
