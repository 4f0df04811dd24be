-- ===== src/App/Commerce/Intents.antt =====
-- internal/app/intent_service.go
use algebra.Prelude.{String, Bool, ◌||◌, Option, none, some, List, str_eq, is_empty, if◌then◌else◌}
use algebra.Prelude.Int.{pos, leb_ℤ}
use algebra.Agent.{perm_shopping_create_intent, perm_shopping_read, perm_shopping_execute}
use algebra.Intent.State as IntentState
use algebra.Intent.State.{State, TransitionError}
use algebra.Intent.Record.{Item, Constraints, PurchaseIntent, new, apply_transition}
use algebra.App.World.{absent, purchase}
use algebra.App.Exec.{
  Exec, Result, invalid, purchase_transition, pure, raise, now, new_id, ◌>>=◌, ◌>>◌,
}
use algebra.App.Stores.{intents_create, intents_update}
use algebra.App.Authz.{require_permission, require_owned_intent}
use algebra.App.Transition.{record_audit}
use algebra.App.Idempotency.{run_idempotent}

pub record CreateIntentInput : Type 0 where
  pub user_id : String
  pub agent_id : String
  pub items : List Item
  pub constraints : Constraints

abbrev pub is_incomplete : CreateIntentInput → Bool
is_incomplete input =
    is_empty input.items
    || (str_eq input.constraints.currency ""
        || leb_ℤ input.constraints.max_total_minor_units (pos 0))

abbrev pub create_complete : CreateIntentInput → Exec PurchaseIntent
create_complete input = do
  t ← now
  id ← new_id
  let pi = new id input.user_id input.agent_id input.items input.constraints t
  intents_create pi
  record_audit pi "IntentCreated" absent (purchase pi.status)
  pure pi

-- The function that `CreateIntent` runs under its idempotency key.
unfoldable pub create : CreateIntentInput → Exec PurchaseIntent
create input = do
  ag ← require_permission input.agent_id perm_shopping_create_intent
  if is_incomplete input then raise invalid else create_complete input

unfoldable pub create_intent :
    (PurchaseIntent → Result String)
    → (String → Result PurchaseIntent)
    → String
    → CreateIntentInput
    → Exec PurchaseIntent
create_intent marshal unmarshal idem_key input =
    run_idempotent marshal unmarshal idem_key "create_intent" (create input)

unfoldable pub get_intent : String → String → Exec PurchaseIntent
get_intent agent_id id = do
  owned ← require_owned_intent agent_id id perm_shopping_read
  pure owned.1

abbrev pub cancelled_to : State → PurchaseIntent × Option TransitionError → Exec PurchaseIntent
cancelled_to previous (p, some e) = raise (purchase_transition e)
cancelled_to previous (p, none) = do
  intents_update p
  record_audit p "IntentCancelled" (purchase previous) (purchase p.status)
  pure p

unfoldable pub cancel_intent : String → String → Exec PurchaseIntent
cancel_intent agent_id id = do
  owned ← require_owned_intent agent_id id perm_shopping_execute
  t ← now
  cancelled_to owned.1.status (apply_transition IntentState.cancelled t owned.1)
