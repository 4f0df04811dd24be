-- ===== src/App/PaymentIntents/Judged.antt =====
-- What a payment intent is once `Create` has returned it (internal/app/payment_intent_service.go).
pub mod Creation
use algebra.Prelude.{
  ℕ, String, ◌≡◌, refl, sym, ◌∙◌, ap, ◌⊎◌, inl, inr, Bool, true, false, Option, none, some, List,
  [], ◌∷◌, arith, ◌&&◌, eq_iff, str_eq, Bool-cases, Option-cases, of_some, if◌then◌else◌,
}
use mathlib.Core.List.{Memᴰ}
use mathlib.Core.Path.{subst}
use algebra.Prelude.Int.{ℤ}
use algebra.Agent.{Identity}
use algebra.Approval.{Approval, Status, pending, approved}
use algebra.PaymentIntent.State as PaymentState
use algebra.PaymentIntent.State.{State}
use algebra.PaymentIntent.Record as PaymentRecord
use algebra.PaymentIntent.Record.{AgenticPaymentIntent}
use algebra.Policy.Decision.{Decision, allow, deny, require_approval, PolicyDecision}
use algebra.Policy.Provider.{evaluate_purchase_intent}
use algebra.App.World.{World, Ledger, User, PolicySet}
use algebra.App.Exec.{
  Exec, Result, ok, err, Err, not_found, unauthorized, conflict, invalid, unavailable, transition,
  purchase_transition, attempt, pure, ◌>>=◌,
}
use algebra.App.Transition.{move}
use algebra.App.Keeps.{
  Quiet, Ends, Attempted, Leads, Leads-Quiet, Leads-raise, Leads-pure, Leads-from, Leads-then,
  Leads-given, Leads-attempt, Leads-safe, Leads-if, Leads-bind,
}
use algebra.App.Quiet.{app_rules}
use algebra.App.Ledger.{Leads-statement}
use algebra.App.Moves.{MovedTo, Leads-move}
use algebra.App.Stores.{
  find, or_missing, approval_row, insert_approval, approvals_create, user_eq, is_active,
  policy_sets_get_active,
}
use algebra.App.PaymentIntents.Create.{
  CreatePaymentIntentInput, fire_webhook, own_or_default, get_active, or_conflict, policy_input,
  answered, create_approval, act_on, evaluate, create_admitted, is_incomplete, create,
}
use algebra.App.PaymentIntents.Safety.{Quiet-fire_webhook}
use algebra.App.PaymentIntents.InForce.{InForce, Before, Leads-get_active, Leads-or_conflict}

-- The new approval binds the terms of the intent.
abbrev pub Binds : AgenticPaymentIntent → Status → Approval → Type 0
Binds p s a =
    (a.agentic_payment_intent_id ≡ p.id)
    × (a.status ≡ s)
    × (a.user_id ≡ p.user_id)
    × (a.merchant ≡ p.merchant)
    × (a.amount ≡ record { minor_units = p.amount_minor_units; currency = p.currency })
    × (a.payment_source_alias ≡ p.payment_source_alias)

abbrev pub Added : List Approval → AgenticPaymentIntent → Status → List Approval → Type 0
Added rows p s after = (a : Approval) × Binds p s a × (after ≡ a ∷ rows)

abbrev pub state_for : Decision → State
state_for deny = PaymentState.denied
state_for require_approval = PaymentState.approval_required
state_for allow = PaymentState.authorized

-- The approvals after the decision on `p`.
abbrev pub Recorded : List Approval → Decision → AgenticPaymentIntent → List Approval → Type 0
Recorded rows deny p after = after ≡ rows
Recorded rows require_approval p after = Added rows p pending after
Recorded rows allow p after = Added rows p approved after

-- From here on nothing is asked of the ledger after an error.
abbrev Anything : Ledger → Type 0
Anything l = Unit

module _ (sets : List PolicySet) (rows : List Approval) where
  Leads-quietly :
      {A : Type 0} (m : Exec A)
      → Quiet m
      → Leads Anything (Before sets rows) m (λ _. (Before sets rows))
  Leads-quietly m q = Leads-Quiet m (λ l h. tt) q

  Leads-answered :
      (o : Option PolicyDecision)
      → Leads Anything (Before sets rows) (answered o) (λ d l. (o ≡ some d) × (Before sets rows) l)
  Leads-answered none = Leads-raise invalid (λ l h. tt)
  Leads-answered (some d) = Leads-pure d (λ l h. (refl, h))

  Leads-insert :
      (p : AgenticPaymentIntent) (s : Status) (a : Approval)
      → Binds p s a
      → Leads Anything (Before sets rows) (approvals_create a) (λ u l. Added rows p s l.approvals)
  unfolding approvals_create
  Leads-insert p s a b =
      Leads-statement _ (λ l h. tt) (λ u l h. tt)
        (record { at = λ w h. go w (approval_row a.id w.ledger.approvals) h })
    where
      go :
          (w : World) (o : Option Approval)
          → (Before sets rows) w.ledger
          → Ends Anything (λ u l. Added rows p s l.approvals) (insert_approval a o w)
      go w none h = (a, b, ap (λ x. a ∷ x) h.1)
      go w (some old) h = tt

  module _ (sha256_hex : List ℕ → String) (approval_ttl : ℕ) where
    Leads-create_approval :
        (p : AgenticPaymentIntent) (s : Status)
        → Leads Anything
            (Before sets rows)
            (create_approval sha256_hex approval_ttl p s)
            (λ u l. Added rows p s l.approvals)
    unfolding create_approval
    Leads-create_approval p s = Leads-bind _ _ (Leads-quietly _ (search app_rules)) λ t.
        Leads-bind _ _ (Leads-quietly _ (search app_rules))
          λ id. Leads-insert p s _ (refl, refl, refl, refl, refl, refl)

    -- The last move and its webhook.
    Leads-settled :
        (P : Ledger → Type 0) (p : AgenticPaymentIntent) (to : State) (action event : String)
        → Leads Anything P
            (move p to action >>= λ q. fire_webhook q event >>= λ _. pure q)
            (λ q l. MovedTo to p q × P l)
    Leads-settled P p to action event = Leads-bind _ _ (Leads-move (λ l h. tt) p to action) λ q.
        Leads-bind _ _ (Leads-Quiet _ (λ l h. tt) (Quiet-fire_webhook q event))
          λ u. Leads-pure q (λ l h. h)

    Leads-act_on :
        (p : AgenticPaymentIntent) (d : Decision)
        → Leads Anything
            (Before sets rows)
            (act_on sha256_hex approval_ttl p d)
            (λ q l. MovedTo (state_for d) p q × Recorded rows d p l.approvals)
    unfolding act_on
    Leads-act_on p deny =
        Leads-then (λ q l h. (h.0, h.1.1))
          (Leads-settled (Before sets rows) p PaymentState.denied _ _)
    Leads-act_on p require_approval = Leads-bind _ _ (Leads-create_approval p pending) λ u.
        Leads-settled (λ l. Added rows p pending l.approvals) p PaymentState.approval_required _ _
    Leads-act_on p allow =
        Leads-bind _ _ (Leads-create_approval p approved)
          λ u. Leads-settled (λ l. Added rows p approved l.approvals) p PaymentState.authorized _ _

    -- `q` is `p` after the decision `d`, which is what a policy in force answers on `q`.
    pub record JudgedAs (p q : AgenticPaymentIntent) (d : PolicyDecision) (after : List Approval)
        : Type 0 where
      pub policy : PolicySet
      pub in_force : InForce sets p.tenant_id p.user_id policy
      pub time : ℕ
      pub answer : evaluate_purchase_intent policy.rules time (policy_input q) ≡ some d
      pub unchanged : q ≡ record p {
        status = state_for d.decision;
        policy_version = d.policy_version;
        updated_at = q.updated_at;
      }
      pub recorded : Recorded rows d.decision q after

    -- The approvals bind no state and no time.
    Recorded-moved :
        (d : Decision) (p : AgenticPaymentIntent) (s : State) (t : ℕ) (after : List Approval)
        → Recorded rows d p after
        → Recorded rows d (record p { status = s; updated_at = t }) after
    Recorded-moved deny p s t after h = h
    Recorded-moved require_approval p s t after h = h
    Recorded-moved allow p s t after h = h

    JudgedAs-moved :
        (p p' q : AgenticPaymentIntent) (d : PolicyDecision) (set : PolicySet) (t : ℕ)
        (after : List Approval)
        → MovedTo PaymentState.policy_evaluating p p'
        → InForce sets p'.tenant_id p'.user_id set
        → evaluate_purchase_intent set.rules t (policy_input p') ≡ some d
        → MovedTo (state_for d.decision) (record p' { policy_version = d.policy_version }) q
        → Recorded rows d.decision (record p' { policy_version = d.policy_version }) after
        → JudgedAs p q d after
    JudgedAs-moved p p' q d set t after first force e last recorded = record {
      policy = set;
      in_force =
          subst (λ (x : AgenticPaymentIntent). InForce sets x.tenant_id x.user_id set) first.1
            force;
      time = t;
      answer = ap (λ x. evaluate_purchase_intent set.rules t (policy_input x)) last.1 ∙ e;
      unchanged =
          last.1
          ∙ ap
              (λ (x : AgenticPaymentIntent). record x {
                status = state_for d.decision;
                policy_version = d.policy_version;
                updated_at = q.updated_at;
              })
              first.1;
      recorded =
          subst (λ x. Recorded rows d.decision x after) (sym last.1)
            (Recorded-moved d.decision (record p' { policy_version = d.policy_version })
              (state_for d.decision) q.updated_at after recorded);
    }

    Leads-evaluate :
        (p : AgenticPaymentIntent)
        → Leads Anything
            (Before sets rows)
            (evaluate sha256_hex approval_ttl p)
            (λ r l. JudgedAs p r.0 r.1 l.approvals)
    unfolding evaluate
    Leads-evaluate p =
        Leads-bind _ _ (Leads-move (λ l h. tt) p PaymentState.policy_evaluating _) λ p'.
          Leads-given λ first.
            Leads-bind _ _
              (Leads-safe (λ l h. tt)
                (Leads-attempt _ _ (Leads-get_active sets rows p'.tenant_id p'.user_id)))
              λ r.
                Leads-bind _ _
                  (Leads-safe (λ l h. tt) (Leads-or_conflict sets rows p'.tenant_id p'.user_id r))
                  λ set. Leads-given λ force.
                    Leads-bind _ _ (Leads-quietly _ (search app_rules)) λ t.
                      Leads-bind _ _ (Leads-answered _) λ d. Leads-given λ e.
                        Leads-bind _ _ (Leads-quietly _ (search app_rules)) λ t'.
                          Leads-bind _ _ (Leads-quietly _ (search app_rules)) λ u.
                            Leads-bind _ _ (Leads-act_on _ d.decision) λ q.
                              Leads-pure (q, d)
                                (λ l h.
                                  JudgedAs-moved p p' q d set t l.approvals first force e h.0 h.1)
