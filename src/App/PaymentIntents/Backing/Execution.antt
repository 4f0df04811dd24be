-- ===== src/App/PaymentIntents/Backing/Execution.antt =====
-- The charge that `Execute` makes (internal/app/payment_intent_service.go).
use algebra.Prelude.{
  ◌+◌, String, ◌≡◌, refl, ap, ◌⊎◌, inl, inr, Bool, true, false, some, List, ◌∷◌, str_eq,
  if◌then◌else◌,
}
use algebra.Agent.{perm_payments_execute}
use algebra.Approval.{Approval}
use algebra.PaymentIntent.State as PaymentState
use algebra.PaymentIntent.State.{State, same}
use algebra.PaymentIntent.Record.{AgenticPaymentIntent}
use algebra.App.World.{World, Ledger, Charge, Fault}
use algebra.App.Exec.{now, next_delay, tail, ◌>>=◌, Result, ok, err, conflict, raise}
use algebra.App.Keeps.{Ends}
use algebra.App.Reads.{Answered-query, bind_answer, Refused-bind}
use algebra.App.Stores.{latest, approvals_get_by_payment_intent}
use algebra.App.PaymentIntents.Create.{owned}
use algebra.App.PaymentIntents.Execute.{
  if_executable, Provider, PaymentExecuteOutcome, execute_approved, if_authorized, execute,
}
use algebra.App.PaymentIntents.Access.{Entitled, Answered-owned}
use algebra.App.PaymentIntents.Backing.{Backed, same_authorized, AtMostOne, Leads-if_executable}

-- The charge that a run of `Execute` has made, if it has made one. The approval is compared with the
-- next reading of the clock.
abbrev pub Executed : World → String → String → String → List Charge → Type 0
Executed w key agent_id id after =
    (after ≡ w.ledger.charges)
    ⊎ ((p : AgenticPaymentIntent) × Entitled w agent_id perm_payments_execute id p
        × (p.status ≡ PaymentState.authorized)
        × (c : Charge) × (after ≡ c ∷ w.ledger.charges)
        × Backed w.ledger.approvals (w.clock + next_delay w.delays) p id key c)

module _ (provider : Provider) (key agent_id id : String) (w : World) (p : AgenticPaymentIntent)
    (entitled : Entitled w agent_id perm_payments_execute id p)
    (status : p.status ≡ PaymentState.authorized) where
  abbrev Ended : Ledger → Type 0
  Ended =
      AtMostOne provider w.ledger.approvals (w.clock + next_delay w.delays) w.ledger.charges p id
        key

  Ended-Executed : (l : Ledger) → Ended l → Executed w key agent_id id l.charges
  Ended-Executed l (inl h) = inl h
  Ended-Executed l (inr (c, h, b)) = inr (p, entitled, status, c, h, b)

  ending :
      (r : Result PaymentExecuteOutcome × World)
      → Ends Ended (λ _. Ended) r
      → Executed w key agent_id id r.1.ledger.charges
  ending (ok o, w') h = Ended-Executed w'.ledger h
  ending (err x, w') h = Ended-Executed w'.ledger h

  after_approval :
      (a : Approval) (fs : List Fault)
      → latest (λ a. str_eq a.agentic_payment_intent_id id) w.ledger.approvals ≡ some a
      → Executed w key agent_id id
          ((now >>= λ t. if_executable provider p a key t)
            (record w { faults = fs })).1.ledger.charges
  unfolding now ◌>>=◌
  after_approval a fs newest = ending _ (
      (Leads-if_executable provider w.ledger.approvals (w.clock + next_delay w.delays)
          w.ledger.charges p id key a newest).at
        (record w { clock = w.clock + next_delay w.delays; delays = tail w.delays; faults = fs })
        refl)

  after_authorized :
      (fs : List Fault)
      → Executed w key agent_id id
          (execute_approved provider p key id (record w { faults = fs })).1.ledger.charges
  unfolding execute_approved approvals_get_by_payment_intent
  after_authorized fs =
      elim (Answered-query
        (λ v. latest (λ a. str_eq a.agentic_payment_intent_id id) v.ledger.approvals)
        (record w { faults = fs })) [
          | inl (e, gs, q) ↦ inl (
              ap (λ r. r.1.ledger.charges)
                (Refused-bind (record w { faults = fs }) _
                  (λ a. now >>= λ t. if_executable provider p a key t) (e, gs, q)).2)
          | inr (a, gs, q, newest) ↦
              rw
                (bind_answer (record w { faults = fs }) (approvals_get_by_payment_intent id)
                  (λ a. now >>= λ t. if_executable provider p a key t) a gs q)
                (after_approval a gs newest)
        ]

module _ (provider : Provider) (key agent_id id : String) (w : World) (fs : List Fault) where
  after_owned :
      (p : AgenticPaymentIntent)
      → Entitled w agent_id perm_payments_execute id p
      → (b : Bool) → same p.status PaymentState.authorized ≡ b
      → Executed w key agent_id id
          ((if b then execute_approved provider p key id else raise conflict)
            (record w { faults = fs })).1.ledger.charges
  unfolding raise
  after_owned p entitled false e = inl refl
  after_owned p entitled true e =
      after_authorized provider key agent_id id w p entitled (same_authorized p.status e) fs

-- Whatever the faults and the answers of the provider are, a run of `Execute` makes no charge, or one:
-- then the agent was entitled to execute the intent, which was AUTHORIZED; the newest approval of the
-- intent can be executed at the next reading of the clock; and the charge is for that approval, with
-- the merchant, the amount and the currency of the stored intent, and the caller's idempotency key.
pub execute_charge :
    (provider : Provider) (key agent_id id : String) (w : World)
    → Executed w key agent_id id (execute provider key agent_id id w).1.ledger.charges
unfolding execute
execute_charge provider key agent_id id w =
    elim (Answered-owned w agent_id perm_payments_execute id) [
      | inl (e, fs, q) ↦ inl (
          ap (λ r. r.1.ledger.charges)
            (Refused-bind w _ (λ p. if_authorized provider p key id) (e, fs, q)).2)
      | inr (p, fs, q, entitled) ↦
          rw
            (bind_answer w (owned agent_id perm_payments_execute id)
              (λ p. if_authorized provider p key id) p fs q)
            (after_owned provider key agent_id id w fs p entitled
              (same p.status PaymentState.authorized) refl)
    ]
