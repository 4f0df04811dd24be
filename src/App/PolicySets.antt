-- ===== src/App/PolicySets.antt =====
-- internal/app/policy_set_service.go, `SetPolicy`, and the writes of
-- internal/platform/postgres/policy_set_repo.go.
pub mod Versions
pub mod Setting
pub mod Single
use algebra.Prelude.{
  ℕ, ◌+◌, ◌^◌, String, Bool, true, false, Option, none, some, List, [], ◌∷◌, map, str_eq, ltb,
  if◌then◌else◌,
}
use algebra.Policy.Rules.{Rules}
use algebra.App.World.{World, Ledger, PolicySet}
use algebra.App.Exec.{
  Exec, Result, ok, err, not_found, unavailable, pure, raise, attempt, statement, now, new_id,
  ◌>>=◌, ◌>>◌,
}
use algebra.App.Stores.{find, is_for, policy_sets_get_active}

abbrev pub supersede : String → Option String → ℕ → PolicySet → PolicySet
supersede tenant user t s = if is_for tenant user s then record s { superseded_at = some t } else s

abbrev pub with_policy_sets : List PolicySet → World → World
with_policy_sets sets w = record w { ledger = record w.ledger { policy_sets = sets } }

-- Every active row of the pair, and none is an error.
unfoldable pub policy_sets_supersede_active : String → Option String → ℕ → Exec (Unit {0})
policy_sets_supersede_active tenant user t =
    statement
      (λ w. (ok tt, with_policy_sets (map (supersede tenant user t) w.ledger.policy_sets) w))

-- The id is the key, and the version is an INTEGER.
abbrev pub insert_policy_set : PolicySet → Option PolicySet → Exec (Unit {0})
insert_policy_set s none w =
    if ltb s.version (2 ^ 31)
    then (ok tt, with_policy_sets (s ∷ w.ledger.policy_sets) w)
    else (err unavailable, w)
insert_policy_set s (some old) w = (err unavailable, w)

unfoldable pub policy_sets_create : PolicySet → Exec (Unit {0})
policy_sets_create s = statement (λ w.
    insert_policy_set s (find (λ (row : PolicySet). str_eq row.id s.id) w.ledger.policy_sets) w)

abbrev pub next_version : Result PolicySet → Exec ℕ
next_version (ok current) = pure (current.version + 1)
next_version (err not_found) = pure 1
next_version (err e) = raise e

-- The rows before it are kept.
unfoldable pub set_policy : String → Option String → Rules → Exec PolicySet
set_policy tenant user rules = do
  t ← now
  current ← attempt (policy_sets_get_active tenant user)
  version ← next_version current
  policy_sets_supersede_active tenant user t
  id ← new_id
  let ps : PolicySet = record {
    id = id;
    tenant_id = tenant;
    user_id = user;
    rules = rules;
    version = version;
    created_at = t;
    superseded_at = none;
  }
  policy_sets_create ps
  pure ps
