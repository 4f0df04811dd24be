-- ===== src/App/PaymentIntents/Safety.antt =====
-- Every operation on payment intents keeps the ledger sound (internal/app/payment_intent_service.go).
pub mod Creation
use algebra.Prelude.{
  ℕ, String, ◌≡◌, refl, Bool, true, false, Option, none, some, List, [], if◌then◌else◌, str_eq,
}
use algebra.Prelude.Int.{ℤ}
use algebra.Agent.{Identity, perm_payments_create_intent, perm_payments_execute}
use algebra.Approval.{Approval, Status, pending, approved, executable}
use algebra.PaymentIntent.State as PaymentState
use algebra.PaymentIntent.State.{same}
use algebra.PaymentIntent.Record.{AgenticPaymentIntent}
use algebra.Policy.Decision.{Decision, allow, deny, require_approval, PolicyDecision}
use algebra.App.World.{World, Ledger, User, PolicySet, Charge}
use algebra.App.Exec.{
  Exec, Result, ok, err, Err, not_found, unauthorized, conflict, invalid, unavailable, transition,
  purchase_transition, raise,
}
use algebra.App.Keeps.{Quiet, Leads, Leads-Quiet, Leads-raise, Leads-if, Leads-bind}
use algebra.App.Quiet.{app_rules, Quiet-move}
use algebra.App.Ledger.{IsSound, IsClaimed}
use algebra.App.Ledger.Writes.{Claim, Leads-approvals_create, Leads-mark_consumed}
use algebra.App.PaymentIntents.Create.{
  CreatePaymentIntentInput, fire_webhook, own_or_default, get_active, or_conflict, answered,
  create_approval, act_on, evaluate, create_admitted, is_incomplete, create_for, create, owned,
  revoke,
}
use algebra.App.PaymentIntents.Execute.{
  Provider, PaymentStatus, succeeded, failed, declined, authentication_required,
  provider_unavailable, other, PaymentResult, PaymentExecuteOutcome, prepare_credential, finish,
  give_up, settled, handle_execution_result, charge, after_charge, charge_of, pay, claim_and_pay,
  with_credential, prepare_and_pay, if_executable, execute_approved, if_authorized, execute,
}

pub Quiet-fire_webhook : (p : AgenticPaymentIntent) (event : String) → Quiet (fire_webhook p event)
unfolding fire_webhook
Quiet-fire_webhook p event = record { at = λ w. refl }

Quiet-owned : (agent_id perm id : String) → Quiet (owned agent_id perm id)
unfolding owned
Quiet-owned agent_id perm id = search app_rules

-- An action that leaves the ledger alone keeps it sound.
Leads-idle : {A : Type 0} (m : Exec A) → Quiet m → Leads IsSound IsSound m (λ _. IsSound)
Leads-idle m q = Leads-Quiet m (λ l h. h) q

pub Leads-revoke :
    (agent_id id : String) → Leads IsSound IsSound (revoke agent_id id) (λ _. IsSound)
unfolding revoke
Leads-revoke agent_id id = Leads-idle _ (search (app_rules, Quiet-owned))

module _ (provider : Provider) where
  Quiet-finish :
      (p : AgenticPaymentIntent) (to : PaymentState.State) (action event : String)
      (r : Option PaymentResult)
      → Quiet (finish provider p to action event r)
  unfolding finish
  Quiet-finish p to action event r = search (app_rules, Quiet-fire_webhook)

  pub Quiet-give_up :
      (p : AgenticPaymentIntent) (to : PaymentState.State) (action event : String)
      → Quiet (give_up provider p to action event)
  unfolding give_up
  Quiet-give_up p to action event = search (app_rules, Quiet-fire_webhook)

  Quiet-settled :
      (p : AgenticPaymentIntent) (r : PaymentResult) (s : PaymentStatus)
      → Quiet (settled provider p r s)
  Quiet-settled p r succeeded = Quiet-finish _ _ _ _ _
  Quiet-settled p r failed = Quiet-finish _ _ _ _ _
  Quiet-settled p r declined = Quiet-finish _ _ _ _ _
  Quiet-settled p r authentication_required = Quiet-finish _ _ _ _ _
  Quiet-settled p r provider_unavailable = Quiet-finish _ _ _ _ _
  Quiet-settled p r (other s) = Quiet-finish _ _ _ _ _

  pub Quiet-after_charge :
      (p : AgenticPaymentIntent) (r : Option PaymentResult) → Quiet (after_charge provider p r)
  unfolding handle_execution_result
  Quiet-after_charge p none = Quiet-give_up _ _ _ _
  Quiet-after_charge p (some r) = Quiet-settled _ _ _

  -- A charge needs the claim of its approval, and uses it up.
  Leads-charge :
      (c : Charge) → Leads IsSound (IsClaimed c.approval_id) (charge provider c) (λ _. IsSound)
  unfolding charge
  Leads-charge c = record {
    at = λ w h. record {
      covered = (h.is_consumed, h.sound.covered);
      distinct = (h.uncharged, h.sound.distinct);
      keyed = h.sound.keyed;
    };
  }

  Leads-pay :
      (p : AgenticPaymentIntent) (a : Approval) (credential idem_key : String)
      → Leads IsSound (IsClaimed a.id) (pay provider p a credential idem_key) (λ _. IsSound)
  unfolding pay
  Leads-pay p a credential idem_key =
      Leads-bind _ _ (Leads-Quiet _ (λ l h. h.sound) (Quiet-move _ _ _)) λ q.
        Leads-bind _ _ (Leads-charge (charge_of provider q a credential idem_key))
          λ r. Leads-idle _ (Quiet-after_charge q r)

  Leads-if_claimed :
      (p : AgenticPaymentIntent) (a : Approval) (credential idem_key : String) (claimed : Bool)
      → Leads IsSound
          (Claim a.id claimed)
          (if claimed then pay provider p a credential idem_key else raise conflict)
          (λ _. IsSound)
  Leads-if_claimed p a credential idem_key true = Leads-pay p a credential idem_key
  Leads-if_claimed p a credential idem_key false = Leads-raise conflict (λ l h. h)

  Leads-claim_and_pay :
      (p : AgenticPaymentIntent) (a : Approval) (credential idem_key : String)
      → Leads IsSound IsSound (claim_and_pay provider p a credential idem_key) (λ _. IsSound)
  unfolding claim_and_pay
  Leads-claim_and_pay p a credential idem_key =
      Leads-bind _ _ (Leads-mark_consumed a.id) (Leads-if_claimed p a credential idem_key)

  Leads-with_credential :
      (p : AgenticPaymentIntent) (a : Approval) (idem_key : String) (c : Option String)
      → Leads IsSound IsSound (with_credential provider p a idem_key c) (λ _. IsSound)
  Leads-with_credential p a idem_key none = Leads-idle _ (Quiet-give_up _ _ _ _)
  Leads-with_credential p a idem_key (some credential) =
      Leads-bind _ _ (Leads-idle _ (Quiet-move _ _ _))
        λ q. Leads-claim_and_pay q a credential idem_key

  Leads-prepare_and_pay :
      (p : AgenticPaymentIntent) (a : Approval) (idem_key : String)
      → Leads IsSound IsSound (prepare_and_pay provider p a idem_key) (λ _. IsSound)
  unfolding prepare_and_pay
  Leads-prepare_and_pay p a idem_key =
      Leads-bind _ _ (Leads-idle _ (Quiet-move _ _ _))
        λ q. Leads-with_credential q a idem_key (prepare_credential provider q a)

  Leads-execute_approved :
      (p : AgenticPaymentIntent) (idem_key id : String)
      → Leads IsSound IsSound (execute_approved provider p idem_key id) (λ _. IsSound)
  unfolding execute_approved
  Leads-execute_approved p idem_key id = Leads-bind _ _ (Leads-idle _ (search app_rules)) λ a.
      Leads-bind _ _ (Leads-idle _ (search app_rules)) λ t.
        Leads-if (executable a t) _ _ _ (λ e. Leads-prepare_and_pay p a idem_key)
          (λ e. Leads-raise conflict (λ l h. h))

  pub Leads-execute :
      (idem_key agent_id id : String)
      → Leads IsSound IsSound (execute provider idem_key agent_id id) (λ _. IsSound)
  unfolding execute
  Leads-execute idem_key agent_id id = Leads-bind _ _ (Leads-idle _ (Quiet-owned _ _ _)) λ p.
      Leads-if (same p.status PaymentState.authorized) _ _ _
        (λ e. Leads-execute_approved p idem_key id) (λ e. Leads-raise conflict (λ l h. h))
