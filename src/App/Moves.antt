-- ===== src/App/Moves.antt =====
-- What a transition hands to the code after it (internal/app/payment_intent_transition.go).
use algebra.Prelude.{ℕ, arith, ◌≡◌, refl, sym, String, Option, none, true}
use algebra.PaymentIntent.State.{State, Outcome, moved, refused, transition, can_transition}
use algebra.PaymentIntent.Record.{AgenticPaymentIntent, moved_to, apply_transition}
use algebra.App.World.{Ledger, EventState, payment}
use algebra.App.Exec.{Result, ok, err, Err}
use algebra.App.Keeps.{Leads, Leads-Quiet, Leads-raised, Leads-pure, Leads-bind}
use algebra.App.Quiet.{app_rules}
use algebra.App.Transition.{payment_written, payment_applied, transition_payment_intent, move}

-- `q` is `p` in the state `to`, at some time.
abbrev pub MovedTo : State → AgenticPaymentIntent → AgenticPaymentIntent → Type 0
MovedTo to p q =
    (can_transition p.status to ≡ true) × (q ≡ record p { status = to; updated_at = q.updated_at })

outcome_moved :
    (from to next : State)
    → transition from to ≡ moved next
    → (next ≡ to) × (can_transition from to ≡ true)
unfolding transition
outcome_moved from to next h = ground arith

module _ {Safe P : Ledger → Type 0} (safe : (l : Ledger) → P l → Safe l) where
  -- A transition without an error has made its move.
  abbrev Answer : State → AgenticPaymentIntent → AgenticPaymentIntent × Option Err → Ledger → Type 0
  Answer to p r l = P l × (r.1 ≡ none → MovedTo to p r.0)

  Leads-written :
      (to : State) (p q : AgenticPaymentIntent) (action : String) (x : EventState)
      → MovedTo to p q
      → (r : Result (Unit {0})) → Leads Safe P (payment_written q action x r) (Answer to p)
  Leads-written to p q action x h (ok u) =
      Leads-bind _ _ (Leads-Quiet _ safe (search app_rules)) λ u. Leads-pure _ (λ l k. (k, λ e. h))
  Leads-written to p q action x h (err e) = Leads-pure _ (λ l k. (k, λ n. absurd (cc (sym n))))

  Leads-applied :
      (to : State) (p : AgenticPaymentIntent) (t : ℕ) (action : String) (x : EventState)
      (o : Outcome)
      → transition p.status to ≡ o
      → Leads Safe P (payment_applied action x (moved_to o t p)) (Answer to p)
  Leads-applied to p t action x (refused e) h = Leads-pure _ (λ l k. (k, λ n. absurd (cc (sym n))))
  Leads-applied to p t action x (moved next) h =
      let (goes, can) = outcome_moved p.status to next h in
      Leads-bind _ _ (Leads-Quiet _ safe (search app_rules)) λ r.
        Leads-written to p (record p { status = next; updated_at = t }) action x
          (can, λ i. record p { status = goes i; updated_at = t }) r

  Leads-transition :
      (p : AgenticPaymentIntent) (to : State) (action : String)
      → Leads Safe P (transition_payment_intent p to action) (Answer to p)
  unfolding transition_payment_intent apply_transition
  Leads-transition p to action =
      Leads-bind _ _ (Leads-Quiet _ safe (search app_rules))
        λ t. Leads-applied to p t action (payment p.status) (transition p.status to) refl

  -- After a move the intent is in the state that was asked for, the table of transitions has the move,
  -- and nothing else of the intent has changed but its time.
  pub Leads-move :
      (p : AgenticPaymentIntent) (to : State) (action : String)
      → Leads Safe P (move p to action) (λ q l. MovedTo to p q × P l)
  unfolding move
  Leads-move p to action =
      Leads-bind _ _ (Leads-transition p to action)
        λ r. Leads-raised r _ (λ l h. safe l h.0) (λ e l h. (h.1 e, h.0))
