-- ===== src/App/PaymentIntents/Keyed.antt =====
-- internal/app/payment_intent_service.go: `Execute` as it is called, under an idempotency key.
use Prim.Native.String.{◌++◌}
use algebra.Prelude.{String, ◌≡◌, refl, Option, none, some, str_eq}
use algebra.App.World.{World, KeyRow}
use algebra.App.Exec.{Exec, Result}
use algebra.App.Keeps.{
  Quiet, quiet_rules, Quiet-statement, Leads, Leads-Quiet, Leads-bind, Leads-if,
}
use algebra.App.Ledger.{IsSound}
use algebra.App.Idempotency.{
  reserve, reserve_in, recorded_response, begin, complete, lift, run_fresh, replay_or_run,
  run_idempotent,
}
use algebra.App.PaymentIntents.Execute.{Provider, PaymentExecuteOutcome, execute}
use algebra.App.PaymentIntents.Safety.{Leads-execute}

reserve_quiet :
    (key scope : String) (o : Option KeyRow) (w : World)
    → (reserve_in key scope o w).1.ledger ≡ w.ledger
reserve_quiet key scope none w = refl
reserve_quiet key scope (some row) w = refl

Quiet-reserve : (key scope : String) → Quiet (reserve key scope)
unfolding reserve
Quiet-reserve key scope = Quiet-statement _ (record { at = λ w. reserve_quiet key scope _ w })

Quiet-recorded_response : (key scope : String) → Quiet (recorded_response key scope)
unfolding recorded_response
Quiet-recorded_response key scope = Quiet-statement _ (record { at = λ w. refl })

Quiet-begin : (key scope : String) → Quiet (begin key scope)
unfolding begin
Quiet-begin key scope = search (quiet_rules, Quiet-reserve, Quiet-recorded_response)

module _ {A : Type 0} (marshal : A → Result String) (unmarshal : String → Result A) where
  Quiet-lift : {B : Type 0} (r : Result B) → Quiet (lift r)
  Quiet-lift r = record { at = λ w. refl }

  Quiet-complete : (key scope s : String) → Quiet (complete key scope s)
  unfolding complete
  Quiet-complete key scope s = Quiet-statement _ (record { at = λ w. refl })

  -- What `fn` keeps of the ledger, a request under a key keeps.
  pub Leads-run_idempotent :
      (key scope : String) (fn : Exec A)
      → Leads IsSound IsSound fn (λ _. IsSound)
      → Leads IsSound IsSound (run_idempotent marshal unmarshal key scope fn) (λ _. IsSound)
  unfolding run_idempotent run_fresh
  Leads-run_idempotent key scope fn lf =
      Leads-if (str_eq key "") fn _ (λ _. IsSound) (λ e. lf)
        (λ e. Leads-bind _ _ (idle (Quiet-begin key scope)) resumes)
    where
      idle : {B : Type 0} {m : Exec B} → Quiet m → Leads IsSound IsSound m (λ _. IsSound)
      idle q = Leads-Quiet _ (λ l h. h) q

      resumes :
          (o : Option String)
          → Leads IsSound IsSound (replay_or_run marshal unmarshal key scope fn o) (λ _. IsSound)
      resumes none = Leads-bind _ _ lf λ a. idle (search (quiet_rules, Quiet-lift, Quiet-complete))
      resumes (some s) = idle (Quiet-lift (unmarshal s))

module _ (marshal : PaymentExecuteOutcome → Result String)
    (unmarshal : String → Result PaymentExecuteOutcome) (provider : Provider) where
  unfoldable pub execute_keyed : String → String → String → Exec PaymentExecuteOutcome
  execute_keyed idem_key agent_id payment_intent_id =
      run_idempotent marshal unmarshal idem_key ("execute_payment_intent_" ++ payment_intent_id)
        (execute provider idem_key agent_id payment_intent_id)

  pub Leads-execute_keyed :
      (idem_key agent_id id : String)
      → Leads IsSound IsSound (execute_keyed idem_key agent_id id) (λ _. IsSound)
  unfolding execute_keyed
  Leads-execute_keyed idem_key agent_id id =
      Leads-run_idempotent marshal unmarshal idem_key ("execute_payment_intent_" ++ id) _
        (Leads-execute provider idem_key agent_id id)
