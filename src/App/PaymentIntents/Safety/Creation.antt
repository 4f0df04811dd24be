-- ===== src/App/PaymentIntents/Safety/Creation.antt =====
-- Creating and evaluating a payment intent keeps the ledger sound (internal/app/payment_intent_service.go).
use algebra.Prelude.{ℕ, String, Option, none, some, List, str_eq}
use algebra.Agent.{Identity}
use algebra.Approval.{Status, pending, approved}
use algebra.PaymentIntent.Record.{AgenticPaymentIntent}
use algebra.Policy.Decision.{Decision, allow, deny, require_approval, PolicyDecision}
use algebra.App.World.{User, PolicySet}
use algebra.App.Exec.{
  Result, ok, err, not_found, unauthorized, conflict, invalid, unavailable, not_implemented,
  quota_exceeded, transition, purchase_transition,
}
use algebra.App.Keeps.{Quiet, Leads, Leads-raise, Leads-if, Leads-bind}
use algebra.App.Quiet.{app_rules, Quiet-move}
use algebra.App.Ledger.{IsSound}
use algebra.App.Ledger.Writes.{Leads-approvals_create}
use algebra.App.PaymentIntents.Create.{
  CreatePaymentIntentInput, own_or_default, get_active, or_conflict, answered, create_approval,
  act_on, evaluate, create_admitted, is_incomplete, create,
}
use algebra.App.PaymentIntents.Safety.{Leads-idle, Quiet-fire_webhook}

module _ (sha256_hex : List ℕ → String) (approval_ttl : ℕ) where
  Leads-create_approval :
      (p : AgenticPaymentIntent) (s : Status)
      → Leads IsSound IsSound (create_approval sha256_hex approval_ttl p s) (λ _. IsSound)
  unfolding create_approval
  Leads-create_approval p s =
      Leads-bind _ _ (Leads-idle _ (search app_rules))
        λ t. Leads-bind _ _ (Leads-idle _ (search app_rules)) λ id. Leads-approvals_create _

  Leads-act_on :
      (p : AgenticPaymentIntent) (d : Decision)
      → Leads IsSound IsSound (act_on sha256_hex approval_ttl p d) (λ _. IsSound)
  unfolding act_on
  Leads-act_on p deny = Leads-idle _ (search (app_rules, Quiet-fire_webhook))
  Leads-act_on p allow =
      Leads-bind _ _ (Leads-create_approval p approved)
        λ u. Leads-idle _ (search (app_rules, Quiet-fire_webhook))
  Leads-act_on p require_approval =
      Leads-bind _ _ (Leads-create_approval p pending)
        λ u. Leads-idle _ (search (app_rules, Quiet-fire_webhook))

  Quiet-own_or_default : (t : String) (r : Result PolicySet) → Quiet (own_or_default t r)
  Quiet-own_or_default t (ok s) = search app_rules
  Quiet-own_or_default t (err not_found) = search app_rules
  Quiet-own_or_default t (err unauthorized) = search app_rules
  Quiet-own_or_default t (err conflict) = search app_rules
  Quiet-own_or_default t (err invalid) = search app_rules
  Quiet-own_or_default t (err unavailable) = search app_rules
  Quiet-own_or_default t (err not_implemented) = search app_rules
  Quiet-own_or_default t (err quota_exceeded) = search app_rules
  Quiet-own_or_default t (err (transition e)) = search app_rules
  Quiet-own_or_default t (err (purchase_transition e)) = search app_rules

  Quiet-or_conflict : (r : Result PolicySet) → Quiet (or_conflict r)
  Quiet-or_conflict (ok s) = search app_rules
  Quiet-or_conflict (err not_found) = search app_rules
  Quiet-or_conflict (err unauthorized) = search app_rules
  Quiet-or_conflict (err conflict) = search app_rules
  Quiet-or_conflict (err invalid) = search app_rules
  Quiet-or_conflict (err unavailable) = search app_rules
  Quiet-or_conflict (err not_implemented) = search app_rules
  Quiet-or_conflict (err quota_exceeded) = search app_rules
  Quiet-or_conflict (err (transition e)) = search app_rules
  Quiet-or_conflict (err (purchase_transition e)) = search app_rules

  Quiet-answered : (o : Option PolicyDecision) → Quiet (answered o)
  Quiet-answered none = search app_rules
  Quiet-answered (some d) = search app_rules

  Quiet-get_active : (t : String) (u : Option String) → Quiet (get_active t u)
  unfolding get_active
  Quiet-get_active t none = search app_rules
  Quiet-get_active t (some u) = search (app_rules, Quiet-own_or_default)

  Leads-evaluate :
      (p : AgenticPaymentIntent)
      → Leads IsSound IsSound (evaluate sha256_hex approval_ttl p) (λ _. IsSound)
  unfolding evaluate
  Leads-evaluate p = Leads-bind _ _ (Leads-idle _ (Quiet-move _ _ _)) λ q.
      Leads-bind _ _ (Leads-idle _ (search (app_rules, Quiet-get_active))) λ r.
        Leads-bind _ _ (Leads-idle _ (Quiet-or_conflict r)) λ set.
          Leads-bind _ _ (Leads-idle _ (search app_rules)) λ t.
            Leads-bind _ _ (Leads-idle _ (Quiet-answered _)) λ d.
              Leads-bind _ _ (Leads-idle _ (search app_rules)) λ t'.
                Leads-bind _ _ (Leads-idle _ (search app_rules))
                  λ u. Leads-bind _ _ (Leads-act_on _ _) λ q'. Leads-idle _ (search app_rules)

  Leads-create_admitted :
      (input : CreatePaymentIntentInput) (ag : Identity) (user : User)
      → Leads IsSound IsSound (create_admitted sha256_hex approval_ttl input ag user) (λ _. IsSound)
  unfolding create_admitted
  Leads-create_admitted input ag user = Leads-bind _ _ (Leads-idle _ (search app_rules)) λ t.
      Leads-bind _ _ (Leads-idle _ (search app_rules)) λ id.
        Leads-bind _ _ (Leads-idle _ (search app_rules)) λ u.
          Leads-bind _ _ (Leads-idle _ (search app_rules))
            λ v. Leads-bind _ _ (Leads-idle _ (Quiet-fire_webhook _ _)) λ x. Leads-evaluate _

  pub Leads-create :
      (input : CreatePaymentIntentInput)
      → Leads IsSound IsSound (create sha256_hex approval_ttl input) (λ _. IsSound)
  unfolding create
  Leads-create input = Leads-bind _ _ (Leads-idle _ (search app_rules)) λ ag.
      Leads-bind _ _ (Leads-idle _ (search app_rules)) λ user.
        Leads-if (str_eq user.tenant_id "") _ _ _ (λ e. Leads-raise unauthorized (λ l h. h))
          λ e.
            Leads-if (is_incomplete input) _ _ _ (λ e. Leads-raise invalid (λ l h. h))
              λ e. Leads-create_admitted input ag user
