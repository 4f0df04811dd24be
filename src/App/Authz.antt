-- ===== src/App/Authz.antt =====
-- internal/app/authz.go
use algebra.Prelude.{String, str_eq, if◌then◌else◌}
use algebra.Agent.{Identity, has_permission}
use algebra.App.Exec.{Exec, unauthorized, not_found, pure, raise, ◌>>=◌}
use algebra.Intent.Record.{PurchaseIntent}
use algebra.App.Stores.{agents_get, intents_get}

unfoldable pub require_permission : String → String → Exec Identity
require_permission agent_id perm = do
  ag ← agents_get agent_id
  if has_permission ag perm then pure ag else raise unauthorized

abbrev pub of_agent : Identity → PurchaseIntent → Exec (Identity × PurchaseIntent)
of_agent ag pi = if str_eq pi.user_id ag.user_id then pure (ag, pi) else raise not_found

-- The intent of another user counts as missing.
unfoldable pub require_owned_intent : String → String → String → Exec (Identity × PurchaseIntent)
require_owned_intent agent_id intent_id perm = do
  ag ← require_permission agent_id perm
  pi ← intents_get intent_id
  of_agent ag pi
