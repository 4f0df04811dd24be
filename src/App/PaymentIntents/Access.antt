-- ===== src/App/PaymentIntents/Access.antt =====
-- Who may read, execute and revoke a payment intent (internal/app/payment_intent_service.go).
use algebra.Prelude.{
  String, ◌≡◌, refl, inl, inr, Bool, true, false, some, List, str_eq, eq_iff, if◌then◌else◌,
}
use algebra.Agent.{Identity, perm_payments_request, perm_payments_execute}
use algebra.PaymentIntent.Record.{AgenticPaymentIntent}
use algebra.App.World.{World, Fault}
use algebra.App.Exec.{Exec, not_found, pure, raise, ◌>>=◌}
use algebra.App.Stores.{payment_intent_row, payment_intents_get}
use algebra.App.Authz.{require_permission}
use algebra.App.Reads.{
  Refused, Answered, Answered-query, Refused-bind, bind_answer, Permitted,
  Answered-require_permission,
}
use algebra.App.PaymentIntents.Create.{owned, get, revoke}
use algebra.App.PaymentIntents.Execute.{Provider, execute}

-- The agent has the permission, and the intent of that id is its user's.
abbrev pub Entitled : World → String → String → String → AgenticPaymentIntent → Type 0
Entitled w agent_id perm id p =
    (ag : Identity) × Permitted w agent_id perm ag
    × (payment_intent_row id w ≡ some p)
    × (p.user_id ≡ ag.user_id)

if_own :
    (w : World) (fs : List Fault) (agent_id perm id : String) (ag : Identity)
    (p : AgenticPaymentIntent) (b : Bool)
    → str_eq p.user_id ag.user_id ≡ b
    → Permitted w agent_id perm ag
    → payment_intent_row id w ≡ some p
    → Answered w
        (Entitled w agent_id perm id)
        ((if b then pure p else raise not_found) (record w { faults = fs }))
unfolding pure raise
if_own w fs agent_id perm id ag p true e permitted row =
    inr (p, fs, refl, (ag, permitted, row, (eq_iff p.user_id ag.user_id).0 e))
if_own w fs agent_id perm id ag p false e permitted row = inl (not_found, fs, refl)

Answered-intent :
    (w : World) (fs : List Fault) (agent_id perm id : String) (ag : Identity)
    → Permitted w agent_id perm ag
    → Answered w (Entitled w agent_id perm id) (
        (payment_intents_get id >>= λ p.
        if str_eq p.user_id ag.user_id then pure p else raise not_found)
          (record w { faults = fs }))
unfolding payment_intents_get
Answered-intent w fs agent_id perm id ag permitted =
    elim (Answered-query (payment_intent_row id) (record w { faults = fs })) [
      | inl refused ↦ inl (Refused-bind (record w { faults = fs }) _ _ refused)
      | inr (p, gs, q, row) ↦
          rw
            (bind_answer (record w { faults = fs }) (payment_intents_get id)
              (λ p. if str_eq p.user_id ag.user_id then pure p else raise not_found) p gs q)
            (if_own w gs agent_id perm id ag p (str_eq p.user_id ag.user_id) refl permitted row)
    ]

pub Answered-owned :
    (w : World) (agent_id perm id : String)
    → Answered w (Entitled w agent_id perm id) (owned agent_id perm id w)
unfolding owned
Answered-owned w agent_id perm id = elim (Answered-require_permission w agent_id perm) [
  | inl refused ↦ inl (Refused-bind w _ _ refused)
  | inr (ag, fs, q, permitted) ↦
      rw
        (bind_answer w (require_permission agent_id perm)
          (λ ag. payment_intents_get id >>= λ p.
            if str_eq p.user_id ag.user_id then pure p else raise not_found)
          ag fs q)
        (Answered-intent w fs agent_id perm id ag permitted)
]

Refused-unless :
    {B : Type 0} (w : World) (agent_id perm id : String) (f : AgenticPaymentIntent → Exec B)
    → ((p : AgenticPaymentIntent) → ¬ Entitled w agent_id perm id p)
    → Refused w ((owned agent_id perm id >>= f) w)
Refused-unless w agent_id perm id f none_such = elim (Answered-owned w agent_id perm id) [
  | inl refused ↦ Refused-bind w _ _ refused
  | inr (p, fs, q, entitled) ↦ absurd (none_such p entitled)
]

pub Refused-execute :
    (provider : Provider) (key agent_id id : String) (w : World)
    → ((p : AgenticPaymentIntent) → ¬ Entitled w agent_id perm_payments_execute id p)
    → Refused w (execute provider key agent_id id w)
unfolding execute
Refused-execute provider key agent_id id w none_such =
    Refused-unless w agent_id perm_payments_execute id _ none_such

pub Refused-revoke :
    (agent_id id : String) (w : World)
    → ((p : AgenticPaymentIntent) → ¬ Entitled w agent_id perm_payments_execute id p)
    → Refused w (revoke agent_id id w)
unfolding revoke
Refused-revoke agent_id id w none_such =
    Refused-unless w agent_id perm_payments_execute id _ none_such

-- `Get` changes nothing, and it answers with no other intent than the one of that id, which belongs to
-- the user of the agent, who has the permission to ask for payments.
pub get_shows_own :
    (agent_id id : String) (w : World)
    → Answered w (Entitled w agent_id perm_payments_request id) (get agent_id id w)
unfolding get
get_shows_own agent_id id w = Answered-owned w agent_id perm_payments_request id
