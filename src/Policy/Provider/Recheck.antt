-- ===== src/Policy/Provider/Recheck.antt =====
-- The check before a payment against the check of the purchase (local_provider.go), on both rails.
use algebra.Prelude.{
  ℕ, String, ◌≡◌, ◌≢◌, sym, ap, ◌∙◌, ◌⊎◌, inl, inr, true, false, some, List, [], ◌∷◌, arith,
  Bool-cases, Option-cases, of_some,
}
use algebra.Prelude.Int.{ℤ}
use algebra.Policy.Decision.{allow, deny, require_approval, PolicyDecision, Input, merge}
use algebra.Policy.Decision.Merge.{merge-AsksNothing, merge-allow_iff, merge_deny_iff}
use algebra.Policy.Rules.{Rules}
use algebra.Policy.Provider.{
  evaluate_amount, evaluate_hard_amount_caps, evaluate_payment_source, evaluate_crypto_recipient,
  evaluate_crypto_amount, evaluate_crypto_confirm_threshold, evaluate_crypto_purchase_intent,
  purchase_checks, payment_checks, evaluate_purchase_intent, evaluate_payment, is_crypto_rail,
}

module _ (p : Rules) (now : ℕ) where
  caps_ask_nothing :
      (a : ℤ) (c : String) (s : ℤ)
      → (evaluate_hard_amount_caps p now a c s).decision ≢ require_approval
  unfolding evaluate_hard_amount_caps
  caps_ask_nothing a c s h = ground arith

  source_asks_nothing : (s : String) → (evaluate_payment_source p now s).decision ≢ require_approval
  unfolding evaluate_payment_source
  source_asks_nothing s h = ground arith

  recipient_asks_nothing :
      (r : String) → (evaluate_crypto_recipient p now r).decision ≢ require_approval
  unfolding evaluate_crypto_recipient
  recipient_asks_nothing r h = ground arith

  crypto_amount_asks_nothing :
      (a : List ℕ) (d : PolicyDecision)
      → evaluate_crypto_amount p now a ≡ some d
      → d.decision ≢ require_approval
  unfolding evaluate_crypto_amount
  crypto_amount_asks_nothing a d e h = ground arith

  -- The merge that answers on a crypto rail, once the amount was read.
  abbrev crypto_payment : Input → PolicyDecision → PolicyDecision
  crypto_payment input amount_dec =
      merge now
        (some (evaluate_crypto_recipient p now input.crypto_recipient) ∷ some amount_dec ∷ [])

  payment_cases :
      (input : Input) (d : PolicyDecision)
      → evaluate_payment p now input ≡ some d
      → ((is_crypto_rail input ≡ false) × (merge now (payment_checks p now input) ≡ d))
        ⊎ ((is_crypto_rail input ≡ true)
            × ((a : PolicyDecision) × (evaluate_crypto_amount p now input.amount_usdc ≡ some a)
                × (crypto_payment input a ≡ d)))
  unfolding evaluate_payment
  payment_cases input d e = elim (Bool-cases (is_crypto_rail input)) [
    | inr rail ↦ inl (rail, of_some (rw rail at e))
    | inl rail ↦ elim (Option-cases (evaluate_crypto_amount p now input.amount_usdc)) [
      | inl failed ↦ absurd (cc (rw (rail, failed) at e))
      | inr (a, found) ↦ inr (rail, (a, found, of_some (rw (rail, found) at e)))
    ]
  ]

  -- The re-check before a payment never asks for an approval, whatever the amount and the threshold of
  -- approval are: on either rail its answer, if it is no error, is ALLOW or DENY.
  pub payment_asks_nothing :
      (input : Input) (d : PolicyDecision)
      → evaluate_payment p now input ≡ some d
      → d.decision ≢ require_approval
  payment_asks_nothing input d e = elim (payment_cases input d e) [
    | inl (_, m) ↦ rw (← m) (
        merge-AsksNothing now (payment_checks p now input) (
          caps_ask_nothing input.amount_minor_units input.currency input.spend_today_minor_units,
          (source_asks_nothing input.payment_profile, tt),
        ))
    | inr (_, (a, found, m)) ↦ rw (← m) (
        merge-AsksNothing now _ (
          recipient_asks_nothing input.crypto_recipient,
          (crypto_amount_asks_nothing input.amount_usdc a found, tt),
        ))
  ]

  caps_of_amount :
      (a : ℤ) (c : String) (s : ℤ)
      → (evaluate_amount p now a c s).decision ≢ deny
      → (evaluate_hard_amount_caps p now a c s).decision ≡ allow
  unfolding evaluate_amount evaluate_hard_amount_caps
  caps_of_amount a c s h = ground arith

  source_of_ne_deny :
      (s : String)
      → (evaluate_payment_source p now s).decision ≢ deny
      → (evaluate_payment_source p now s).decision ≡ allow
  unfolding evaluate_payment_source
  source_of_ne_deny s h = ground arith

  recipient_of_ne_deny :
      (r : String)
      → (evaluate_crypto_recipient p now r).decision ≢ deny
      → (evaluate_crypto_recipient p now r).decision ≡ allow
  unfolding evaluate_crypto_recipient
  recipient_of_ne_deny r h = ground arith

  crypto_amount_of_ne_deny :
      (s : List ℕ) (a : PolicyDecision)
      → evaluate_crypto_amount p now s ≡ some a
      → a.decision ≢ deny
      → a.decision ≡ allow
  unfolding evaluate_crypto_amount
  crypto_amount_of_ne_deny s a e h = ground arith

  plain_passes :
      (input : Input)
      → (merge now (purchase_checks p now input)).decision ≢ deny
      → (merge now (payment_checks p now input)).decision ≡ allow
  plain_passes input h =
      let denied = (merge_deny_iff now (purchase_checks p now input)).1 in
      (merge-allow_iff now (payment_checks p now input)).1 (
        caps_of_amount input.amount_minor_units input.currency input.spend_today_minor_units
            (λ e. h (denied (inr (inr (inl e))))),
        (source_of_ne_deny input.payment_profile (λ e. h (denied (inr (inr (inr (inl e)))))), tt),
      )

  crypto_passes :
      (input : Input) (a b : PolicyDecision)
      → evaluate_crypto_amount p now input.amount_usdc ≡ some a
      → (merge now (
          some (evaluate_crypto_recipient p now input.crypto_recipient)
          ∷ some a
          ∷ some b
          ∷ [])).decision
        ≢ deny
      → (crypto_payment input a).decision ≡ allow
  crypto_passes input a b e h =
      let denied =
        (merge_deny_iff now (
          some (evaluate_crypto_recipient p now input.crypto_recipient)
          ∷ some a
          ∷ some b
          ∷ [])).1 in
      (merge-allow_iff now _).1 (
        recipient_of_ne_deny input.crypto_recipient (λ q. h (denied (inl q))),
        (crypto_amount_of_ne_deny input.amount_usdc a e (λ q. h (denied (inr (inl q)))), tt),
      )

  -- What the policy did not deny, on either rail, the re-check before the payment allows while the
  -- rules, the amount and the day's spend are the same. So a purchase that a human approved is not
  -- sent back for approval.
  pub cleared_passes_recheck :
      (input : Input) (d : PolicyDecision)
      → evaluate_purchase_intent p now input ≡ some d
      → d.decision ≢ deny
      → (e : PolicyDecision) × (evaluate_payment p now input ≡ some e) × (e.decision ≡ allow)
  unfolding evaluate_purchase_intent evaluate_payment evaluate_crypto_purchase_intent
  cleared_passes_recheck input d e h = elim (Bool-cases (is_crypto_rail input)) [
    | inr rail ↦ (
      merge now (payment_checks p now input),
      rw rail,
      plain_passes input
          (λ q. h (ap (λ (x : PolicyDecision). x.decision) (sym (of_some (rw rail at e))) ∙ q)),
    )
    | inl rail ↦ elim (Option-cases (evaluate_crypto_amount p now input.amount_usdc)) [
      | inl failed ↦ absurd (cc (rw (rail, failed) at e))
      | inr (a, found) ↦
          elim (Option-cases (evaluate_crypto_confirm_threshold p now input.amount_usdc)) [
            | inl failed ↦ absurd (cc (rw (rail, found, failed) at e))
            | inr (b, confirmed) ↦ (
              crypto_payment input a,
              rw (rail, found),
              crypto_passes input a b found (λ q. h (
                  ap (λ (x : PolicyDecision). x.decision)
                    (sym (of_some (rw (rail, found, confirmed) at e)))
                  ∙ q)),
            )
          ]
    ]
  ]
