-- ===== src/App/Stores.antt =====
-- internal/platform/postgres: the statements that the services send. A table is a list of rows, and a
-- row is found by its id.
pub mod Rows
pub mod Keys
use algebra.Prelude.{
  ℕ, String, Bool, true, false, ◌&&◌, Option, none, some, List, [], ◌∷◌, ◌++◌, str_eq, ltb,
  if◌then◌else◌,
}
use algebra.Agent.{Identity}
use algebra.Approval.{Approval, Status, approved, consumed, is_approved}
use algebra.PaymentIntent.Record.{AgenticPaymentIntent}
use algebra.Intent.Record.{PurchaseIntent}
use algebra.App.World.{World, Ledger, User, PolicySet, Event, Webhook, Charge}
use algebra.App.Exec.{Exec, Result, ok, err, Err, not_found, unavailable, statement, ignore, ◌>>=◌}

abbrev pub find : {A : Type 0} → (A → Bool) → List A → Option A
find p [] = none
find p (x ∷ xs) = if p x then some x else find p xs

abbrev pub or_missing : {A : Type 0} → Option A → Result A
or_missing none = err not_found
or_missing (some a) = ok a

unfoldable pub agent_of_id : String → Exec Identity
agent_of_id id = statement (λ w. (or_missing (find (λ a. str_eq a.id id) w.agents), w))

-- The query of the permissions, which the row holds in the model.
unfoldable pub with_permissions : Identity → Exec Identity
with_permissions a = statement (λ w. (or_missing (some a), w))

unfoldable pub agents_get : String → Exec Identity
agents_get id = agent_of_id id >>= with_permissions

unfoldable pub users_get : String → Exec User
users_get id = statement (λ w. (or_missing (find (λ u. str_eq u.id id) w.users), w))

-- agentic_payment_intents
abbrev pub payment_intent_row : String → World → Option AgenticPaymentIntent
payment_intent_row id w = find (λ p. str_eq p.id id) w.payment_intents

unfoldable pub payment_intents_get : String → Exec AgenticPaymentIntent
payment_intents_get id = statement (λ w. (or_missing (payment_intent_row id w), w))

-- The primary key refuses a second row.
abbrev pub insert_payment_intent :
    AgenticPaymentIntent → Option AgenticPaymentIntent → Exec (Unit {0})
insert_payment_intent p none w = (ok tt, record w { payment_intents = p ∷ w.payment_intents })
insert_payment_intent p (some old) w = (err unavailable, w)

unfoldable pub payment_intents_create : AgenticPaymentIntent → Exec (Unit {0})
payment_intents_create p = statement (λ w. insert_payment_intent p (payment_intent_row p.id w) w)

-- The columns that an update sets.
abbrev pub updated : AgenticPaymentIntent → AgenticPaymentIntent → AgenticPaymentIntent
updated p row = record row {
  status = p.status;
  policy_version = p.policy_version;
  provider_transaction_id = p.provider_transaction_id;
  provider_status = p.provider_status;
  final_amount_minor_units = p.final_amount_minor_units;
  final_currency = p.final_currency;
  updated_at = p.updated_at;
}

-- `UPDATE … WHERE id = …`; an id is the key, so one row is set.
unfoldable pub update_rows : {A : Type 0} → (A → Bool) → (A → A) → List A → List A
update_rows at f [] = []
update_rows at f (x ∷ xs) = if at x then f x ∷ xs else x ∷ update_rows at f xs

abbrev pub write_payment_intent :
    AgenticPaymentIntent → Option AgenticPaymentIntent → Exec (Unit {0})
write_payment_intent p none w = (err not_found, w)
write_payment_intent p (some old) w = (
  ok tt,
  record w {
    payment_intents = update_rows (λ row. str_eq row.id p.id) (updated p) w.payment_intents;
  },
)

unfoldable pub payment_intents_update : AgenticPaymentIntent → Exec (Unit {0})
payment_intents_update p = statement (λ w. write_payment_intent p (payment_intent_row p.id w) w)

-- purchase_intents, with the columns that an update sets.
abbrev pub intent_columns : PurchaseIntent → PurchaseIntent → PurchaseIntent
intent_columns p row = record row {
  status = p.status;
  items = p.items;
  constraints = p.constraints;
  selected_quote_id = p.selected_quote_id;
  updated_at = p.updated_at;
  expires_at = p.expires_at;
}

abbrev pub intent_row : String → World → Option PurchaseIntent
intent_row id w = find (λ p. str_eq p.id id) w.intents

unfoldable pub intents_get : String → Exec PurchaseIntent
intents_get id = statement (λ w. (or_missing (intent_row id w), w))

abbrev pub insert_intent : PurchaseIntent → Option PurchaseIntent → Exec (Unit {0})
insert_intent p none w = (ok tt, record w { intents = p ∷ w.intents })
insert_intent p (some old) w = (err unavailable, w)

unfoldable pub intents_create : PurchaseIntent → Exec (Unit {0})
intents_create p = statement (λ w. insert_intent p (intent_row p.id w) w)

abbrev pub write_intent : PurchaseIntent → Option PurchaseIntent → Exec (Unit {0})
write_intent p none w = (err not_found, w)
write_intent p (some old) w = (
  ok tt,
  record w { intents = update_rows (λ row. str_eq row.id p.id) (intent_columns p) w.intents },
)

unfoldable pub intents_update : PurchaseIntent → Exec (Unit {0})
intents_update p = statement (λ w. write_intent p (intent_row p.id w) w)

-- approvals
abbrev pub approval_row : String → List Approval → Option Approval
approval_row id rows = find (λ a. str_eq a.id id) rows

unfoldable pub approvals_get : String → Exec Approval
approvals_get id = statement (λ w. (or_missing (approval_row id w.ledger.approvals), w))

-- `ORDER BY created_at DESC LIMIT 1`: of rows with one time, the later insert.
abbrev pub newer : Approval → Option Approval → Approval
newer a none = a
newer a (some b) = if ltb a.created_at b.created_at then b else a

unfoldable pub latest : (Approval → Bool) → List Approval → Option Approval
latest p [] = none
latest p (a ∷ rest) = let older = latest p rest in if p a then some (newer a older) else older

unfoldable pub approvals_get_by_payment_intent : String → Exec Approval
approvals_get_by_payment_intent id =
    statement (λ w.
      (or_missing (latest (λ a. str_eq a.agentic_payment_intent_id id) w.ledger.approvals), w))

abbrev pub insert_approval : Approval → Option Approval → Exec (Unit {0})
insert_approval a none w =
    (ok tt, record w { ledger = record w.ledger { approvals = a ∷ w.ledger.approvals } })
insert_approval a (some old) w = (err unavailable, w)

unfoldable pub approvals_create : Approval → Exec (Unit {0})
approvals_create a = statement (λ w. insert_approval a (approval_row a.id w.ledger.approvals) w)

-- The columns that an update sets.
abbrev pub rewritten : Approval → Approval → Approval
rewritten a row = record row {
  merchant = a.merchant;
  amount = a.amount;
  payment_source_alias = a.payment_source_alias;
  items_hash = a.items_hash;
  status = a.status;
  authentication_method = a.authentication_method;
  decided_at = a.decided_at;
  expires_at = a.expires_at;
}

abbrev pub set_approval : String → (Approval → Approval) → World → World
set_approval id f w = record w {
  ledger = record w.ledger {
    approvals = update_rows (λ row. str_eq row.id id) f w.ledger.approvals;
  };
}

abbrev pub write_approval : Approval → Option Approval → Exec (Unit {0})
write_approval a none w = (err not_found, w)
write_approval a (some old) w = (ok tt, set_approval a.id (rewritten a) w)

unfoldable pub approvals_update : Approval → Exec (Unit {0})
approvals_update a = statement (λ w. write_approval a (approval_row a.id w.ledger.approvals) w)

-- `UPDATE approvals SET status = 'CONSUMED' WHERE id = … AND status = 'APPROVED'`, and whether a row
-- was changed.
abbrev pub claim : String → Option Approval → Exec Bool
claim id none w = (ok false, w)
claim id (some a) w =
    if is_approved a.status
    then (ok true, set_approval id (λ row. record row { status = consumed }) w)
    else (ok false, w)

unfoldable pub approvals_mark_consumed : String → Exec Bool
approvals_mark_consumed id = statement (λ w. claim id (approval_row id w.ledger.approvals) w)

-- policy_sets
abbrev pub user_eq : Option String → Option String → Bool
user_eq none none = true
user_eq (some a) (some b) = str_eq a b
user_eq _ _ = false

abbrev pub is_active : PolicySet → Bool
is_active s = elim s.superseded_at [ none ↦ true | some t ↦ false ]

-- The rows of the statements that name a tenant and a user.
abbrev pub is_for : String → Option String → PolicySet → Bool
is_for tenant user s = str_eq s.tenant_id tenant && (user_eq s.user_id user && is_active s)

-- `ORDER BY version DESC LIMIT 1`: of rows with one version, the later insert.
abbrev pub newer_version : PolicySet → Option PolicySet → PolicySet
newer_version s none = s
newer_version s (some t) = if ltb s.version t.version then t else s

unfoldable pub newest_version : (PolicySet → Bool) → List PolicySet → Option PolicySet
newest_version p [] = none
newest_version p (s ∷ rest) =
    let older = newest_version p rest in if p s then some (newer_version s older) else older

unfoldable pub policy_sets_get_active : String → Option String → Exec PolicySet
policy_sets_get_active tenant user =
    statement (λ w. (or_missing (newest_version (is_for tenant user) w.ledger.policy_sets), w))

-- An audit event whose write fails is dropped.
unfoldable pub audit_record : Event → Exec (Unit {0})
audit_record e = ignore (statement (λ w. (ok tt, record w { events = e ∷ w.events })))
