-- ===== src/App/PaymentIntents/Backing.antt =====
-- What a charge of `Execute` rests on (internal/app/payment_intent_service.go).
pub mod Execution
use algebra.Prelude.{
  ◌+◌, ℕ, String, ◌≡◌, refl, sym, ◌∙◌, ap, ◌⊎◌, inl, inr, Bool, true, false, Option, none, some,
  List, ◌∷◌, arith, str_eq, if◌then◌else◌, Bool-cases,
}
use algebra.Agent.{perm_payments_execute}
use algebra.Approval.{Approval, is_approved, executable}
use algebra.PaymentIntent.State as PaymentState
use algebra.PaymentIntent.State.{State, same}
use algebra.PaymentIntent.Record.{AgenticPaymentIntent}
use algebra.App.World.{World, Ledger, Charge, Fault}
use algebra.App.Exec.{now, next_delay, tail, ◌>>=◌, Exec, Result, ok, err, conflict, raise}
use algebra.App.Keeps.{
  Quiet, Ends, Leads, Leads-Quiet, Leads-raise, Leads-given, Leads-then, Leads-if, Leads-bind,
}
use algebra.App.Quiet.{app_rules}
use algebra.App.Ledger.{Leads-statement}
use algebra.App.Moves.{MovedTo, Leads-move}
use algebra.App.Reads.{Answered-query, bind_answer, Refused-bind}
use algebra.App.Stores.{
  approval_row, latest, or_missing, approvals_get_by_payment_intent, claim, approvals_mark_consumed,
}
use algebra.App.PaymentIntents.Create.{owned}
use algebra.App.PaymentIntents.Execute.{
  if_executable, Provider, PaymentExecuteOutcome, prepare_credential, charge, charge_of, pay,
  claim_and_pay, with_credential, prepare_and_pay, execute_approved, if_authorized, execute,
}
use algebra.App.PaymentIntents.Safety.{Quiet-give_up, Quiet-after_charge}
use algebra.App.PaymentIntents.Access.{Entitled, Answered-owned}

-- The charge is for the approval `a` and has the terms of the intent `p` and the caller's key.
pub record Bills (p : AgenticPaymentIntent) (a : Approval) (key : String) (c : Charge)
    : Type 0 where
  pub approval : c.approval_id ≡ a.id
  pub merchant : c.merchant ≡ p.merchant
  pub merchant_domain : c.merchant_domain ≡ p.merchant_domain
  pub amount : c.amount_minor_units ≡ p.amount_minor_units
  pub currency : c.currency ≡ p.currency
  pub idempotency_key : c.idempotency_key ≡ key

-- It is for the newest approval of the intent, which can be executed at the time `t`.
pub record Backed (rows : List Approval) (t : ℕ) (p : AgenticPaymentIntent) (id key : String)
    (c : Charge) : Type 0 where
  pub approval : Approval
  pub newest : latest (λ a. str_eq a.agentic_payment_intent_id id) rows ≡ some approval
  pub granted : executable approval t ≡ true
  pub bills : Bills p approval key c

same_authorized : (s : State) → same s PaymentState.authorized ≡ true → s ≡ PaymentState.authorized
same_authorized PaymentState.authorized h = refl
same_authorized _ h = ground arith

module _ (provider : Provider) (rows : List Approval) (t : ℕ) (charges : List Charge)
    (p : AgenticPaymentIntent) (id key : String) where
  abbrev Unpaid : Ledger → Type 0
  Unpaid l = l.charges ≡ charges

  -- Nothing was charged, or one charge was made that is backed.
  abbrev AtMostOne : Ledger → Type 0
  AtMostOne l = Unpaid l ⊎ ((c : Charge) × (l.charges ≡ c ∷ charges) × Backed rows t p id key c)

  -- The intent in memory has the terms that were stored.
  abbrev SameTerms : AgenticPaymentIntent → Type 0
  SameTerms q =
      (q.merchant ≡ p.merchant)
      × (q.merchant_domain ≡ p.merchant_domain)
      × (q.amount_minor_units ≡ p.amount_minor_units)
      × (q.currency ≡ p.currency)

  SameTerms-moved :
      (to : State) (q q' : AgenticPaymentIntent) → MovedTo to q q' → SameTerms q → SameTerms q'
  SameTerms-moved to q q' m h = (
    ap (λ (x : AgenticPaymentIntent). x.merchant) m.1 ∙ h.0,
    ap (λ (x : AgenticPaymentIntent). x.merchant_domain) m.1 ∙ h.1,
    ap (λ (x : AgenticPaymentIntent). x.amount_minor_units) m.1 ∙ h.2,
    ap (λ (x : AgenticPaymentIntent). x.currency) m.1 ∙ h.3,
  )

  unpaid : (l : Ledger) → Unpaid l → AtMostOne l
  unpaid l h = inl h

  Leads-Unpaid : {A : Type 0} (m : Exec A) → Quiet m → Leads AtMostOne Unpaid m (λ _. Unpaid)
  Leads-Unpaid m q = Leads-Quiet m unpaid q

  -- A claim charges nothing.
  Leads-claim : (a : String) → Leads AtMostOne Unpaid (approvals_mark_consumed a) (λ _. Unpaid)
  unfolding approvals_mark_consumed
  Leads-claim a =
      Leads-statement _ unpaid (λ b l h. inl h)
        (record { at = λ w h. go w (approval_row a w.ledger.approvals) h })
    where
      go :
          (w : World) (o : Option Approval)
          → Unpaid w.ledger
          → Ends AtMostOne (λ _. Unpaid) (claim a o w)
      go w none h = h
      go w (some row) h = elim (Bool-cases (is_approved row.status)) [
        | inl e ↦ rw e h
        | inr e ↦ rw e h
      ]

  module _ (a : Approval)
      (newest : latest (λ a. str_eq a.agentic_payment_intent_id id) rows ≡ some a)
      (granted : executable a t ≡ true) where
    Leads-charge :
        (q : AgenticPaymentIntent) (credential : String)
        → SameTerms q
        → Leads AtMostOne Unpaid
            (charge provider (charge_of provider q a credential key))
            (λ _. AtMostOne)
    unfolding charge
    Leads-charge q credential h = record {
      at = λ w u. inr (
        charge_of provider q a credential key,
        ap (λ cs. charge_of provider q a credential key ∷ cs) u,
        record {
          approval = a;
          newest = newest;
          granted = granted;
          bills = record {
            approval = refl;
            merchant = h.0;
            merchant_domain = h.1;
            amount = h.2;
            currency = h.3;
            idempotency_key = refl;
          };
        },
      );
    }

    Leads-pay :
        (q : AgenticPaymentIntent) (credential : String)
        → SameTerms q
        → Leads AtMostOne Unpaid (pay provider q a credential key) (λ _. AtMostOne)
    unfolding pay
    Leads-pay q credential h = Leads-bind _ _ (Leads-move unpaid q PaymentState.processing _) λ r.
        Leads-given λ m.
          Leads-bind _ _ (Leads-charge r credential (SameTerms-moved _ q r m h))
            λ result. Leads-Quiet _ (λ l s. s) (Quiet-after_charge provider r result)

    Leads-claim_and_pay :
        (q : AgenticPaymentIntent) (credential : String)
        → SameTerms q
        → Leads AtMostOne Unpaid (claim_and_pay provider q a credential key) (λ _. AtMostOne)
    unfolding claim_and_pay
    Leads-claim_and_pay q credential h = Leads-bind _ _ (Leads-claim a.id) λ claimed.
        Leads-if claimed _ _ _ (λ e. Leads-pay q credential h) (λ e. Leads-raise conflict unpaid)

    Leads-with_credential :
        (q : AgenticPaymentIntent) (c : Option String)
        → SameTerms q
        → Leads AtMostOne Unpaid (with_credential provider q a key c) (λ _. AtMostOne)
    Leads-with_credential q none h =
        Leads-then (λ o l u. inl u) (Leads-Unpaid _ (Quiet-give_up provider q _ _ _))
    Leads-with_credential q (some credential) h =
        Leads-bind _ _ (Leads-move unpaid q PaymentState.ready_to_execute _)
          λ r. Leads-given λ m. Leads-claim_and_pay r credential (SameTerms-moved _ q r m h)

    Leads-prepare_and_pay :
        (q : AgenticPaymentIntent)
        → SameTerms q
        → Leads AtMostOne Unpaid (prepare_and_pay provider q a key) (λ _. AtMostOne)
    unfolding prepare_and_pay
    Leads-prepare_and_pay q h =
        Leads-bind _ _ (Leads-move unpaid q PaymentState.credential_preparing _) λ r.
          Leads-given λ m.
            Leads-with_credential r (prepare_credential provider r a) (SameTerms-moved _ q r m h)

  Leads-if_executable :
      (a : Approval)
      → latest (λ a. str_eq a.agentic_payment_intent_id id) rows ≡ some a
      → Leads AtMostOne Unpaid (if_executable provider p a key t) (λ _. AtMostOne)
  Leads-if_executable a newest =
      Leads-if (executable a t) _ _ _
        (λ granted. Leads-prepare_and_pay a newest granted p (refl, refl, refl, refl))
        (λ e. Leads-raise conflict unpaid)
