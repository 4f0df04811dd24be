-- ===== src/App/PaymentIntents/Judged/Creation.antt =====
-- What `Create` returns, and what it leaves in the tables (internal/app/payment_intent_service.go).
use algebra.Prelude.{ℕ, String, ◌≡◌, refl, sym, ◌∙◌, ap, false, some, List, [], str_eq}
use mathlib.Core.Path.{subst}
use algebra.Agent.{Identity}
use algebra.Approval.{Approval}
use algebra.PaymentIntent.Record as PaymentRecord
use algebra.PaymentIntent.Record.{AgenticPaymentIntent}
use algebra.Prelude.Int.{pos}
use algebra.Policy.Decision.{PolicyDecision, Input}
use algebra.Policy.Provider.{evaluate_purchase_intent}
use algebra.App.World.{World, User, PolicySet}
use algebra.App.Exec.{ok, unauthorized, invalid}
use algebra.App.Keeps.{Ends, Leads, Leads-raise, Leads-then, Leads-if, Leads-bind}
use algebra.App.Quiet.{app_rules}
use algebra.App.PaymentIntents.Create.{
  CreatePaymentIntentInput, policy_input, create_admitted, is_incomplete, create,
}
use algebra.App.PaymentIntents.Safety.{Quiet-fire_webhook}
use algebra.App.PaymentIntents.InForce.{Before, InForce}
use algebra.App.PaymentIntents.Judged.{
  Anything, Leads-quietly, state_for, Recorded, JudgedAs, Leads-evaluate,
}

-- The intent has the terms that were asked for.
pub record AskedBy (input : CreatePaymentIntentInput) (p : AgenticPaymentIntent) : Type 0 where
  pub merchant : p.merchant ≡ input.merchant
  pub amount : p.amount_minor_units ≡ input.amount_minor_units
  pub currency : p.currency ≡ input.currency
  pub payment_source : p.payment_source_alias ≡ input.payment_source_alias
  pub category : p.category ≡ input.category
  pub international : p.international ≡ input.international

-- The policy is asked about the terms of the intent, as if nothing had been spent that day.
pub record IsAbout (q : AgenticPaymentIntent) (input : Input) : Type 0 where
  pub user : input.user_id ≡ q.user_id
  pub agent : input.agent_id ≡ q.agent_id
  pub merchant : input.merchant ≡ q.merchant
  pub category : input.category ≡ q.category
  pub amount : input.amount_minor_units ≡ q.amount_minor_units
  pub currency : input.currency ≡ q.currency
  pub payment_source : input.payment_profile ≡ q.payment_source_alias
  pub shipping : input.shipping_profile ≡ ""
  pub international : input.international ≡ q.international
  pub spend_today : input.spend_today_minor_units ≡ pos 0
  pub crypto_recipient : input.crypto_recipient ≡ ""
  pub amount_usdc : input.amount_usdc ≡ []

module _ (sha256_hex : List ℕ → String) (approval_ttl : ℕ) (sets : List PolicySet)
    (rows : List Approval) where
  -- The policy of the user or the tenant was asked about the intent as it is, and its answer is the
  -- decision, the state and the approval.
  pub record DecidedBy (q : AgenticPaymentIntent) (d : PolicyDecision) (after : List Approval)
      : Type 0 where
    pub policy : PolicySet
    pub in_force : InForce sets q.tenant_id q.user_id policy
    pub time : ℕ
    pub input : Input
    pub about : IsAbout q input
    pub answer : evaluate_purchase_intent policy.rules time input ≡ some d
    pub state : q.status ≡ state_for d.decision
    pub recorded : Recorded rows d.decision q after

  JudgedAs-DecidedBy :
      (input : CreatePaymentIntentInput) (p q : AgenticPaymentIntent) (d : PolicyDecision)
      (after : List Approval)
      → AskedBy input p
      → JudgedAs sets rows sha256_hex approval_ttl p q d after
      → AskedBy input q × DecidedBy q d after
  JudgedAs-DecidedBy input p q d after asked j = (
    record {
      merchant = ap (λ (x : AgenticPaymentIntent). x.merchant) j.unchanged ∙ asked.merchant;
      amount = ap (λ (x : AgenticPaymentIntent). x.amount_minor_units) j.unchanged ∙ asked.amount;
      currency = ap (λ (x : AgenticPaymentIntent). x.currency) j.unchanged ∙ asked.currency;
      payment_source =
          ap (λ (x : AgenticPaymentIntent). x.payment_source_alias) j.unchanged
          ∙ asked.payment_source;
      category = ap (λ (x : AgenticPaymentIntent). x.category) j.unchanged ∙ asked.category;
      international =
          ap (λ (x : AgenticPaymentIntent). x.international) j.unchanged ∙ asked.international;
    },
    record {
      policy = j.policy;
      in_force =
          subst (λ (x : AgenticPaymentIntent). InForce sets x.tenant_id x.user_id j.policy)
            (sym j.unchanged) j.in_force;
      time = j.time;
      input = policy_input q;
      about = record {
        user = refl;
        agent = refl;
        merchant = refl;
        category = refl;
        amount = refl;
        currency = refl;
        payment_source = refl;
        shipping = refl;
        international = refl;
        spend_today = refl;
        crypto_recipient = refl;
        amount_usdc = refl;
      };
      answer = j.answer;
      state = ap (λ (x : AgenticPaymentIntent). x.status) j.unchanged;
      recorded = j.recorded;
    },
  )

  Leads-create_admitted :
      (input : CreatePaymentIntentInput) (ag : Identity) (user : User)
      → Leads
          (Anything)
          (Before sets rows)
          (create_admitted sha256_hex approval_ttl input ag user)
          (λ r l. AskedBy input r.0 × DecidedBy r.0 r.1 l.approvals)
  unfolding create_admitted PaymentRecord.new
  Leads-create_admitted input ag user =
      Leads-bind _ _ (Leads-quietly sets rows _ (search app_rules)) λ t.
        Leads-bind _ _ (Leads-quietly sets rows _ (search app_rules)) λ id.
          Leads-bind _ _ (Leads-quietly sets rows _ (search app_rules)) λ u.
            Leads-bind _ _ (Leads-quietly sets rows _ (search app_rules)) λ v.
              Leads-bind _ _ (Leads-quietly sets rows _ (Quiet-fire_webhook _ _)) λ x.
                Leads-then
                  (λ r l j.
                    JudgedAs-DecidedBy input _ r.0 r.1 l.approvals
                      (record {
                        merchant = refl;
                        amount = refl;
                        currency = refl;
                        payment_source = refl;
                        category = refl;
                        international = refl;
                      })
                      j)
                  (Leads-evaluate sets rows sha256_hex approval_ttl _)

  Leads-create :
      (input : CreatePaymentIntentInput)
      → Leads
          (Anything)
          (Before sets rows)
          (create sha256_hex approval_ttl input)
          (λ r l. (is_incomplete input ≡ false) × AskedBy input r.0 × DecidedBy r.0 r.1 l.approvals)
  unfolding create
  Leads-create input = Leads-bind _ _ (Leads-quietly sets rows _ (search app_rules)) λ ag.
      Leads-bind _ _ (Leads-quietly sets rows _ (search app_rules)) λ user.
        Leads-if (str_eq user.tenant_id "") _ _ _ (λ e. Leads-raise unauthorized (λ l h. tt))
          λ e.
            Leads-if (is_incomplete input) _ _ _ (λ e. Leads-raise invalid (λ l h. tt))
              λ complete.
                Leads-then (λ r l h. (complete, h.0, h.1)) (Leads-create_admitted input ag user)

-- When `Create` returns an intent and a decision, under whatever faults: the input was complete; the
-- intent has the terms of the input; the decision is what a policy in force for its user or its tenant
-- answers about its terms and a day on which nothing was spent, whatever was; its state is DENIED, APPROVAL_REQUIRED or AUTHORIZED as the decision is DENY,
-- REQUIRE_APPROVAL or ALLOW; and one approval was added, pending or approved, that binds its terms,
-- or none if it was denied.
pub create_follows_policy :
    (sha256_hex : List ℕ → String) (approval_ttl : ℕ) (input : CreatePaymentIntentInput)
    (w w' : World) (q : AgenticPaymentIntent) (d : PolicyDecision)
    → create sha256_hex approval_ttl input w ≡ (ok (q, d), w')
    → (is_incomplete input ≡ false)
      × AskedBy input q
      × DecidedBy sha256_hex approval_ttl w.ledger.policy_sets w.ledger.approvals q d
          w'.ledger.approvals
create_follows_policy sha256_hex approval_ttl input w w' q d e =
    let sets : List PolicySet = w.ledger.policy_sets in
    let rows : List Approval = w.ledger.approvals in
    subst
      (Ends (Anything) (λ r l.
        (is_incomplete input ≡ false)
        × AskedBy input r.0
        × DecidedBy sha256_hex approval_ttl sets rows r.0 r.1 l.approvals))
      e ((Leads-create sha256_hex approval_ttl sets rows input).at w (refl, refl))
