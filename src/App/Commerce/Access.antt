-- ===== src/App/Commerce/Access.antt =====
-- Whose purchases an agent may act on (internal/app/authz.go).
use algebra.Prelude.{
  String, ◌≡◌, refl, inl, inr, Bool, true, false, some, List, str_eq, eq_iff, if◌then◌else◌,
}
use algebra.Agent.{Identity}
use algebra.Intent.Record.{PurchaseIntent}
use algebra.App.World.{World, Fault}
use algebra.App.Exec.{not_found, pure, raise, ◌>>=◌}
use algebra.App.Stores.{intent_row, intents_get}
use algebra.App.Authz.{require_permission, of_agent, require_owned_intent}
use algebra.App.Reads.{
  Answered, Answered-query, Refused-bind, bind_answer, Permitted, Answered-require_permission,
}

-- The agent has the permission, and the intent of that id is its user's.
abbrev pub Owned : World → String → String → String → Identity × PurchaseIntent → Type 0
Owned w agent_id perm id owned =
    Permitted w agent_id perm owned.0
    × (intent_row id w ≡ some owned.1)
    × (owned.1.user_id ≡ owned.0.user_id)

if_own :
    (w : World) (fs : List Fault) (agent_id perm id : String) (ag : Identity) (pi : PurchaseIntent)
    (b : Bool)
    → str_eq pi.user_id ag.user_id ≡ b
    → Permitted w agent_id perm ag
    → intent_row id w ≡ some pi
    → Answered w
        (Owned w agent_id perm id)
        ((if b then pure (ag, pi) else raise not_found) (record w { faults = fs }))
unfolding pure raise
if_own w fs agent_id perm id ag pi true e permitted row =
    inr ((ag, pi), fs, refl, (permitted, row, (eq_iff pi.user_id ag.user_id).0 e))
if_own w fs agent_id perm id ag pi false e permitted row = inl (not_found, fs, refl)

Answered-intent :
    (w : World) (fs : List Fault) (agent_id perm id : String) (ag : Identity)
    → Permitted w agent_id perm ag
    → Answered w
        (Owned w agent_id perm id)
        ((intents_get id >>= of_agent ag) (record w { faults = fs }))
unfolding intents_get
Answered-intent w fs agent_id perm id ag permitted =
    elim (Answered-query (intent_row id) (record w { faults = fs })) [
      | inl refused ↦ inl (Refused-bind (record w { faults = fs }) _ _ refused)
      | inr (pi, gs, q, row) ↦
          rw (bind_answer (record w { faults = fs }) (intents_get id) (of_agent ag) pi gs q)
            (if_own w gs agent_id perm id ag pi (str_eq pi.user_id ag.user_id) refl permitted row)
    ]

pub Answered-require_owned_intent :
    (w : World) (agent_id id perm : String)
    → Answered w (Owned w agent_id perm id) (require_owned_intent agent_id id perm w)
unfolding require_owned_intent
Answered-require_owned_intent w agent_id id perm =
    elim (Answered-require_permission w agent_id perm) [
      | inl refused ↦ inl (Refused-bind w _ _ refused)
      | inr (ag, fs, q, permitted) ↦
          rw
            (bind_answer w (require_permission agent_id perm) (λ ag. intents_get id >>= of_agent ag)
              ag fs q)
            (Answered-intent w fs agent_id perm id ag permitted)
    ]
