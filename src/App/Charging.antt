-- ===== src/App/Charging.antt =====
-- Runs of operations, and what holds of the charges after each (internal/app).
use algebra.Prelude.{
  Option, ◌⊎◌, zero, suc, ℕ, ◌+◌, ◌≤◌, String, ◌≡◌, refl, sym, ◌∙◌, ap, some, List, [], ◌∷◌, arith,
  str_eq, eq_iff, Bool, if◌then◌else◌, Bool-cases, inl, inr,
}
use algebra.Approval.{Status, Approval, consumed}
use algebra.App.World.{World, Charge}
use algebra.App.Exec.{Exec, Result, ok, err}
use algebra.App.Keeps.{Ends, Quiet, Leads}
use algebra.App.Stores.Keys.{Keyed}
use algebra.App.Stores.Rows.{status_of}
use algebra.App.Ledger.{NotCharged, Distinct, Covered, IsSound}
use algebra.App.PaymentIntents.Create.{CreatePaymentIntentInput, create, revoke}
use algebra.App.PaymentIntents.Execute.{Provider, PaymentExecuteOutcome}
use algebra.App.PaymentIntents.Keyed as KeyedExecution
use algebra.App.PaymentIntents.Safety.{Leads-revoke}
use algebra.App.PaymentIntents.Safety.Creation.{Leads-create}
use algebra.App.Approvals.{approve, reject}
use algebra.App.Approvals.Safety.{Leads-approve, Leads-reject}
use algebra.Intent.Record.{PurchaseIntent}
use algebra.App.Commerce.Wiring.{Wiring}
use algebra.App.Commerce.Intents.{CreateIntentInput, create_intent, cancel_intent}
use algebra.App.Commerce.Quotes.{select_quote}
use algebra.App.Commerce.Policies.{evaluate_and_transition}
use algebra.App.Commerce.Reapprovals.{reapprove}
use algebra.App.Commerce.Orders as Orders
use algebra.App.Commerce.Orders.Results.{ExecuteOutcome, complete_authentication, cancel_order}
use algebra.App.Commerce.Quiet.Steps.{Quiet-complete_authentication, Quiet-cancel_order}
use algebra.App.Commerce.Safety.{Leads-idle}
use algebra.App.Commerce.Safety.Decisions as Decisions
use algebra.App.Commerce.Safety.Decisions.{
  Leads-create_intent, Quiet-cancel_intent, Quiet-select_quote, Leads-evaluate_and_transition,
  Leads-reapprove,
}

-- The encoding in which `RunIdempotent` records the results of one operation.
pub record Codec (A : Type 0) : Type 0 where
  pub marshal : A → Result String
  pub unmarshal : String → Result A

-- What the services are configured with.
pub record System : Type 0 where
  pub wiring : Wiring
  pub provider : Provider
  pub payments : Codec PaymentExecuteOutcome
  pub orders : Codec ExecuteOutcome
  pub purchases : Codec PurchaseIntent

-- A request to the services that can change a payment intent, a purchase intent, or an approval.
pub data Op : Type 0 where
  creates : CreatePaymentIntentInput → Op
  executes : String → String → String → Op
  revokes approves rejects reapproves : String → String → Op
  creates_purchase : String → CreateIntentInput → Op
  selects : String → String → String → Op
  decides cancels cancels_order : String → String → Op
  checks_out : String → String → String → Op
  authenticates : String → String → String → Bool → Op

abbrev pub charges_for : String → List Charge → ℕ
charges_for id [] = 0
charges_for id (c ∷ cs) = (if str_eq c.approval_id id then 1 else 0) + charges_for id cs

module _ (system : System) where
  open system use {wiring, provider, payments, orders, purchases}

  -- The world after a request, whether or not it failed.
  abbrev pub step : Op → World → World
  step (creates input) w = (create wiring.sha256_hex wiring.approval_ttl input w).1
  step (executes key agent id) w =
      (KeyedExecution.execute_keyed payments.marshal payments.unmarshal provider key agent id w).1
  step (revokes agent id) w = (revoke agent id w).1
  step (approves user id) w = (approve user id w).1
  step (rejects user id) w = (reject user id w).1
  step (reapproves user id) w = (reapprove wiring user id w).1
  step (creates_purchase key input) w =
      (create_intent purchases.marshal purchases.unmarshal key input w).1
  step (selects agent id quote) w = (select_quote agent id quote w).1
  step (decides agent id) w = (evaluate_and_transition wiring agent id w).1
  step (cancels agent id) w = (cancel_intent agent id w).1
  step (cancels_order agent id) w = (cancel_order wiring agent id w).1
  step (checks_out key agent id) w =
      (Orders.execute_keyed orders.marshal orders.unmarshal wiring key agent id w).1
  step (authenticates agent id order success) w =
      (complete_authentication wiring agent id order success w).1

  abbrev pub run : List Op → World → World
  run [] w = w
  run (op ∷ ops) w = run ops (step op w)

  Leads-step :
      {A : Type 0} (m : Exec A)
      → Leads IsSound IsSound m (λ _. IsSound)
      → (w : World) → IsSound w.ledger
      → IsSound (m w).1.ledger
  Leads-step {A = A} m lm w h = go (m w) (lm.at w h)
    where
      go : (r : Result A × World) → Ends IsSound (λ _. IsSound) r → IsSound r.1.ledger
      go (ok a, w') s = s
      go (err e, w') s = s

  Quiet-step :
      {A : Type 0} (m : Exec A) → Quiet m → (w : World) → IsSound w.ledger → IsSound (m w).1.ledger
  Quiet-step m q = Leads-step m (Leads-idle m q)

  step-IsSound : (op : Op) (w : World) → IsSound w.ledger → IsSound (step op w).ledger
  step-IsSound (creates input) =
      Leads-step _ (Leads-create wiring.sha256_hex wiring.approval_ttl input)
  step-IsSound (executes key agent id) =
      Leads-step _ (
        KeyedExecution.Leads-execute_keyed payments.marshal payments.unmarshal provider key agent
          id)
  step-IsSound (revokes agent id) = Leads-step _ (Leads-revoke agent id)
  step-IsSound (approves user id) = Leads-step _ (Leads-approve user id)
  step-IsSound (rejects user id) = Leads-step _ (Leads-reject user id)
  step-IsSound (reapproves user id) = Leads-step _ (Leads-reapprove wiring user id)
  step-IsSound (creates_purchase key input) =
      Leads-step _ (Leads-create_intent purchases.marshal purchases.unmarshal key input)
  step-IsSound (selects agent id quote) = Quiet-step _ (Quiet-select_quote agent id quote)
  step-IsSound (decides agent id) = Leads-step _ (Leads-evaluate_and_transition wiring agent id)
  step-IsSound (cancels agent id) = Quiet-step _ (Quiet-cancel_intent agent id)
  step-IsSound (cancels_order agent id) = Quiet-step _ (Quiet-cancel_order wiring agent id)
  step-IsSound (checks_out key agent id) =
      Leads-step _
        (Decisions.Leads-execute_keyed wiring orders.marshal orders.unmarshal key agent id)
  step-IsSound (authenticates agent id order success) =
      Quiet-step _ (Quiet-complete_authentication wiring agent id order success)

  run-IsSound : (ops : List Op) (w : World) → IsSound w.ledger → IsSound (run ops w).ledger
  run-IsSound [] w h = h
  run-IsSound (op ∷ ops) w h = run-IsSound ops (step op w) (step-IsSound op w h)

NotCharged-count : (id : String) (cs : List Charge) → NotCharged id cs → charges_for id cs ≡ 0
NotCharged-count id [] h = refl
NotCharged-count id (c ∷ cs) h = ground (arith, eq_iff c.approval_id id, NotCharged-count id cs h.1)

Distinct-count : (id : String) (cs : List Charge) → Distinct cs → charges_for id cs ≤ 1
Distinct-count id [] h = omega arith
Distinct-count id (c ∷ cs) h = elim (Bool-cases (str_eq c.approval_id id)) [
  | inl e ↦
      let none_else = NotCharged-count id cs (rw (sym ((eq_iff c.approval_id id).0 e)) h.0) in
      ground (arith, none_else)
  | inr e ↦ ground (arith, Distinct-count id cs h.1)
]

Covered-count :
    (id : String) (rows : List Approval) (cs : List Charge)
    → Covered rows cs
    → 1 ≤ charges_for id cs
    → status_of id rows ≡ some consumed
Covered-count id rows [] h some_charge = absurd (omega arith)
Covered-count id rows (c ∷ cs) h some_charge = elim (Bool-cases (str_eq c.approval_id id)) [
  | inl e ↦ ap (λ j. status_of j rows) (sym ((eq_iff c.approval_id id).0 e)) ∙ h.0
  | inr e ↦ Covered-count id rows cs h.1 (ground arith)
]

-- Whatever the requests for payments and purchases and their idempotency keys, their order, the faults
-- of the database, the answers of the payment provider and the merchants, the encoding of the recorded
-- outcomes and the approvals there are at the start, which differ in their ids: while nothing was
-- charged or checked out at the start, an approval is never charged or checked out, or it is once in
-- all and is consumed.
pub charged_at_most_once :
    (system : System) (ops : List Op) (w : World)
    → w.ledger.charges ≡ []
    → Keyed w.ledger.approvals
    → (id : String)
    → (charges_for id (run system ops w).ledger.charges ≡ 0)
      ⊎ ((charges_for id (run system ops w).ledger.charges ≡ 1)
          × (status_of id (run system ops w).ledger.approvals ≡ some consumed))
charged_at_most_once system ops w none_yet keyed id =
    let sound = run-IsSound system ops w (at_start w none_yet keyed) in
    none_or_one _ _ (Distinct-count id _ sound.distinct) (Covered-count id _ _ sound.covered)
  where
    at_start : (w : World) → w.ledger.charges ≡ [] → Keyed w.ledger.approvals → IsSound w.ledger
    at_start w e k = record { covered = rw e tt; distinct = rw e tt; keyed = k }

    none_or_one :
        (n : ℕ) (s : Option Status)
        → n ≤ 1
        → (1 ≤ n → s ≡ some consumed)
        → (n ≡ 0) ⊎ ((n ≡ 1) × (s ≡ some consumed))
    none_or_one zero s few paid = inl refl
    none_or_one (suc n) s few paid = inr (omega arith, paid (omega arith))
