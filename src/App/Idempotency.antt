-- ===== src/App/Idempotency.antt =====
-- internal/app/idempotency.go, and internal/platform/postgres/idempotency_repo.go: a request that is
-- repeated under one key.
pub mod Steps
pub mod Repeated
pub mod Refusals
use algebra.Prelude.{
  String, Bool, true, false, ◌&&◌, Option, none, some, List, ◌∷◌, str_eq, if◌then◌else◌,
}
use algebra.App.World.{World, KeyRow}
use algebra.App.Exec.{Exec, Result, ok, err, pure, statement, ◌>>=◌, ◌>>◌}
use algebra.App.Stores.{find, update_rows}

-- The row of a key within its scope.
abbrev pub is_key : String → String → KeyRow → Bool
is_key key scope row = str_eq row.key key && str_eq row.scope scope

abbrev pub key_row : String → String → World → Option KeyRow
key_row key scope w = find (is_key key scope) w.idempotency_keys

-- `INSERT … ON CONFLICT DO NOTHING`, and whether a row was inserted.
abbrev pub reserve_in : String → String → Option KeyRow → Exec Bool
reserve_in key scope none w = (
  ok true,
  record w {
    idempotency_keys = record { key = key; scope = scope; response = none } ∷ w.idempotency_keys;
  },
)
reserve_in key scope (some row) w = (ok false, w)

unfoldable pub reserve : String → String → Exec Bool
reserve key scope = statement (λ w. reserve_in key scope (key_row key scope w) w)

-- A row that has vanished counts as one in progress.
abbrev pub recorded : Option KeyRow → Option String
recorded none = none
recorded (some row) = row.response

unfoldable pub recorded_response : String → String → Exec (Option String)
recorded_response key scope = statement (λ w. (ok (recorded (key_row key scope w)), w))

-- `Begin`: the response to replay, where the request was completed.
unfoldable pub begin : String → String → Exec (Option String)
begin key scope = do
  fresh ← reserve key scope
  if fresh then pure none else recorded_response key scope

-- `Complete` sets no row, and does not fail, where the key is not reserved.
unfoldable pub complete : String → String → String → Exec (Unit {0})
complete key scope response = statement (λ w. (
  ok tt,
  record w {
    idempotency_keys =
        update_rows (is_key key scope) (λ row. record row { response = some response })
          w.idempotency_keys;
  },
))

abbrev pub lift : {A : Type 0} → Result A → Exec A
lift r w = (r, w)

-- The encoding of results is `encoding/json`'s.
module _ {A : Type 0} (marshal : A → Result String) (unmarshal : String → Result A) where
  unfoldable pub run_fresh : String → String → Exec A → Exec A
  run_fresh key scope fn = do
    result ← fn
    payload ← lift (marshal result)
    complete key scope payload
    pure result

  abbrev pub replay_or_run : String → String → Exec A → Option String → Exec A
  replay_or_run key scope fn none = run_fresh key scope fn
  replay_or_run key scope fn (some response) = lift (unmarshal response)

  unfoldable pub run_idempotent : String → String → Exec A → Exec A
  run_idempotent key scope fn =
      if str_eq key "" then fn else (begin key scope >>= replay_or_run key scope fn)
