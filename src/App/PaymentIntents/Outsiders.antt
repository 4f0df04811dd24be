-- ===== src/App/PaymentIntents/Outsiders.antt =====
-- What an agent can do with a payment intent that it may not execute
-- (internal/app/payment_intent_service.go, under the keys of idempotency.go).
use Prim.Native.String.{◌++◌}
use algebra.Prelude.{String}
use algebra.Agent.{perm_payments_execute}
use algebra.PaymentIntent.Record.{AgenticPaymentIntent}
use algebra.App.World.{World}
use algebra.App.Exec.{Result}
use algebra.App.Reads.{Refused}
use algebra.App.Idempotency.Refusals.{ReservedOrReplayed, refused_run}
use algebra.App.PaymentIntents.Access.{Entitled, Refused-execute, Refused-revoke}
use algebra.App.PaymentIntents.Create.{revoke}
use algebra.App.PaymentIntents.Execute.{Provider, PaymentExecuteOutcome, execute}
use algebra.App.PaymentIntents.Keyed.{execute_keyed}

-- Unless the agent exists, is not revoked, has the permission to execute, and the intent of that id
-- exists and belongs to the agent's user, whatever the faults are: `Revoke` ends in an error and
-- changes nothing; and `Execute`, under its key, ends in an error and changes nothing but that the key
-- may be reserved, or it changes nothing and replays the response that is recorded under the key.
pub outsiders_only_replay :
    (marshal : PaymentExecuteOutcome → Result String)
    (unmarshal : String → Result PaymentExecuteOutcome) (provider : Provider)
    (key agent_id id : String) (w : World)
    → ((p : AgenticPaymentIntent) → ¬ Entitled w agent_id perm_payments_execute id p)
    → Refused w (revoke agent_id id w)
      × ReservedOrReplayed unmarshal key
          ("execute_payment_intent_" ++ id)
          w
          (execute_keyed marshal unmarshal provider key agent_id id w)
unfolding execute_keyed
outsiders_only_replay marshal unmarshal provider key agent_id id w none_such = (
  Refused-revoke agent_id id w none_such,
  refused_run marshal unmarshal key ("execute_payment_intent_" ++ id) w
      (execute provider key agent_id id)
      (λ fs ks.
        Refused-execute provider key agent_id id (record w { faults = fs; idempotency_keys = ks })
          none_such),
)
