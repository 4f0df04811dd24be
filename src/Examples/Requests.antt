-- ===== src/Examples/Requests.antt =====
-- The theorems on repeated requests (internal/app/idempotency.go) at concrete inputs.
use algebra.Prelude.{String, ◌≡◌, refl, none, List, [], ◌∷◌, eq_iff, ◌≢◌, sym, true_ne_false}
use algebra.App.World.{World, Fault, healthy, lost}
use algebra.App.Exec.{Result, ok, new_id, statement, pure, ◌>>=◌}
use algebra.App.Idempotency.{begin, reserve, complete, run_fresh, run_idempotent}
use algebra.App.Idempotency.Steps.{LeavesKey}
use algebra.App.Idempotency.Repeated.{idempotent_replay, open_until_recorded, IsError}

-- A world in which nothing has been requested.
abbrev pub idle : List Fault → World
idle faults = record {
  ledger = record { policy_sets = []; approvals = []; charges = [] };
  payment_intents = [];
  intents = [];
  quotes = [];
  decisions = [];
  orders = [];
  order_events = [];
  idempotency_keys = [];
  subscriptions = [];
  billing_plans = [];
  billing_events = [];
  agents = [];
  users = [];
  events = [];
  webhooks = [];
  clock = 0;
  delays = [];
  fresh = λ n. "intent-1";
  serial = 0;
  faults = faults;
}

abbrev written : String → Result String
written s = ok s

abbrev given : String
given = "key"

given_lem : given ≢ ""
given_lem e = true_ne_false (sym ((eq_iff given "").1 e))

new_id-leaves : LeavesKey "key" "create_intent" written written new_id
unfolding new_id
new_id-leaves = record { healthy = λ v h. h; row = λ v. refl }

abbrev request : World → Result String × World
request w = run_idempotent written written "key" "create_intent" new_id w

-- The statement that completes the request is lost.
abbrev half_done : World
half_done = idle (healthy ∷ lost ∷ [])

idempotent_replay_example : request (request (idle [])).1 ≡ (ok "intent-1", (request (idle [])).1)
unfolding run_idempotent begin reserve run_fresh statement new_id pure ◌>>=◌ complete
idempotent_replay_example =
    idempotent_replay written written "key" "create_intent" (λ a s e. sym e) given_lem new_id new_id
      new_id-leaves (idle []) refl "intent-1" refl

open_until_recorded_example :
    IsError (request half_done).0
    × (request (request half_done).1
        ≡ run_fresh written written "key" "create_intent" new_id (request half_done).1)
unfolding run_idempotent begin reserve run_fresh statement new_id pure ◌>>=◌ complete
open_until_recorded_example =
    open_until_recorded written written "key" "create_intent" given_lem new_id new_id half_done
      (begin "key" "create_intent" half_done).1 refl
      (record { key = "key"; scope = "create_intent"; response = none }, refl, refl)
      ("intent-1", refl, refl)
