-- ===== src/App/Quiet.antt =====
-- The statements and transitions that leave the ledger alone (internal/app, internal/platform/postgres).
use algebra.Prelude.{String, ◌≡◌, refl, Option, none, some}
use algebra.PaymentIntent.State as PaymentState
use algebra.PaymentIntent.Record.{AgenticPaymentIntent}
use algebra.Intent.State as IntentState
use algebra.Intent.Record.{PurchaseIntent}
use algebra.App.World.{World, Event, EventState}
use algebra.App.Exec.{Result, ok, err}
use algebra.App.Keeps.{Quiet, quiet_rules, Quiet-statement, Quiet-ignore, Quiet-bind}
use algebra.App.Stores.{
  agents_get, agent_of_id, with_permissions, users_get, payment_intent_row, payment_intents_get,
  insert_payment_intent, payment_intents_create, write_payment_intent, payment_intents_update,
  intent_row, intents_get, write_intent, intents_update, approvals_get,
  approvals_get_by_payment_intent, policy_sets_get_active, audit_record,
}
use algebra.App.Authz.{require_permission}
use algebra.App.Transition.{
  record_payment_intent_audit, payment_written, payment_applied, transition_payment_intent, move,
  record_audit, purchase_written, purchase_applied, transition_intent, move_intent,
}

-- A query answers from the world and changes nothing.
Quiet-query : {A : Type 0} (f : World → Result A) → Quiet (λ w. (f w, w))
Quiet-query f = record { at = λ w. refl }

pub Quiet-agents_get : (id : String) → Quiet (agents_get id)
unfolding agents_get agent_of_id with_permissions
Quiet-agents_get id =
    Quiet-bind _ _ (Quiet-statement _ (Quiet-query _)) λ a. Quiet-statement _ (Quiet-query _)

pub Quiet-users_get : (id : String) → Quiet (users_get id)
unfolding users_get
Quiet-users_get id = Quiet-statement _ (Quiet-query _)

pub Quiet-payment_intents_get : (id : String) → Quiet (payment_intents_get id)
unfolding payment_intents_get
Quiet-payment_intents_get id = Quiet-statement _ (Quiet-query _)

pub Quiet-intents_get : (id : String) → Quiet (intents_get id)
unfolding intents_get
Quiet-intents_get id = Quiet-statement _ (Quiet-query _)

pub Quiet-approvals_get : (id : String) → Quiet (approvals_get id)
unfolding approvals_get
Quiet-approvals_get id = Quiet-statement _ (Quiet-query _)

pub Quiet-approvals_get_by_payment_intent :
    (id : String) → Quiet (approvals_get_by_payment_intent id)
unfolding approvals_get_by_payment_intent
Quiet-approvals_get_by_payment_intent id = Quiet-statement _ (Quiet-query _)

pub Quiet-policy_sets_get_active :
    (t : String) (u : Option String) → Quiet (policy_sets_get_active t u)
unfolding policy_sets_get_active
Quiet-policy_sets_get_active t u = Quiet-statement _ (Quiet-query _)

insert_quiet :
    (p : AgenticPaymentIntent) (o : Option AgenticPaymentIntent) (w : World)
    → (insert_payment_intent p o w).1.ledger ≡ w.ledger
insert_quiet p none w = refl
insert_quiet p (some old) w = refl

pub Quiet-payment_intents_create : (p : AgenticPaymentIntent) → Quiet (payment_intents_create p)
unfolding payment_intents_create
Quiet-payment_intents_create p =
    Quiet-statement _ (record { at = λ w. insert_quiet p (payment_intent_row p.id w) w })

write_quiet :
    (p : AgenticPaymentIntent) (o : Option AgenticPaymentIntent) (w : World)
    → (write_payment_intent p o w).1.ledger ≡ w.ledger
write_quiet p none w = refl
write_quiet p (some old) w = refl

pub Quiet-payment_intents_update : (p : AgenticPaymentIntent) → Quiet (payment_intents_update p)
unfolding payment_intents_update
Quiet-payment_intents_update p =
    Quiet-statement _ (record { at = λ w. write_quiet p (payment_intent_row p.id w) w })

write_intent_quiet :
    (p : PurchaseIntent) (o : Option PurchaseIntent) (w : World)
    → (write_intent p o w).1.ledger ≡ w.ledger
write_intent_quiet p none w = refl
write_intent_quiet p (some old) w = refl

pub Quiet-intents_update : (p : PurchaseIntent) → Quiet (intents_update p)
unfolding intents_update
Quiet-intents_update p =
    Quiet-statement _ (record { at = λ w. write_intent_quiet p (intent_row p.id w) w })

pub Quiet-audit_record : (e : Event) → Quiet (audit_record e)
unfolding audit_record
Quiet-audit_record e = Quiet-ignore _ (Quiet-statement _ (record { at = λ w. refl }))

pub ruleset store_rules = (
  quiet_rules, Quiet-agents_get, Quiet-users_get, Quiet-payment_intents_get, Quiet-intents_get,
  Quiet-approvals_get, Quiet-approvals_get_by_payment_intent, Quiet-policy_sets_get_active,
  Quiet-payment_intents_create, Quiet-payment_intents_update, Quiet-intents_update,
  Quiet-audit_record,
)

pub Quiet-require_permission : (id perm : String) → Quiet (require_permission id perm)
unfolding require_permission
Quiet-require_permission id perm = search store_rules

pub Quiet-record_payment_intent_audit :
    (p : AgenticPaymentIntent) (a : String) (x y : EventState)
    → Quiet (record_payment_intent_audit p a x y)
unfolding record_payment_intent_audit
Quiet-record_payment_intent_audit p a x y = search store_rules

Quiet-payment_written :
    (p : AgenticPaymentIntent) (a : String) (x : EventState) (r : Result (Unit {0}))
    → Quiet (payment_written p a x r)
Quiet-payment_written p a x (ok u) = search (store_rules, Quiet-record_payment_intent_audit)
Quiet-payment_written p a x (err e) = search store_rules

Quiet-payment_applied :
    (a : String) (x : EventState) (r : AgenticPaymentIntent × Option PaymentState.TransitionError)
    → Quiet (payment_applied a x r)
Quiet-payment_applied a x (p, some e) = search store_rules
Quiet-payment_applied a x (p, none) = search (store_rules, Quiet-payment_written)

pub Quiet-transition_payment_intent :
    (p : AgenticPaymentIntent) (s : PaymentState.State) (a : String)
    → Quiet (transition_payment_intent p s a)
unfolding transition_payment_intent
Quiet-transition_payment_intent p s a = search (store_rules, Quiet-payment_applied)

pub Quiet-move :
    (p : AgenticPaymentIntent) (s : PaymentState.State) (a : String) → Quiet (move p s a)
unfolding move
Quiet-move p s a = search (store_rules, Quiet-transition_payment_intent)

pub Quiet-record_audit :
    (p : PurchaseIntent) (a : String) (x y : EventState) → Quiet (record_audit p a x y)
unfolding record_audit
Quiet-record_audit p a x y = search store_rules

Quiet-purchase_written :
    (p : PurchaseIntent) (a : String) (x : EventState) (r : Result (Unit {0}))
    → Quiet (purchase_written p a x r)
Quiet-purchase_written p a x (ok u) = search (store_rules, Quiet-record_audit)
Quiet-purchase_written p a x (err e) = search store_rules

Quiet-purchase_applied :
    (a : String) (x : EventState) (r : PurchaseIntent × Option IntentState.TransitionError)
    → Quiet (purchase_applied a x r)
Quiet-purchase_applied a x (p, some e) = search store_rules
Quiet-purchase_applied a x (p, none) = search (store_rules, Quiet-purchase_written)

pub Quiet-transition_intent :
    (p : PurchaseIntent) (s : IntentState.State) (a : String) → Quiet (transition_intent p s a)
unfolding transition_intent
Quiet-transition_intent p s a = search (store_rules, Quiet-purchase_applied)

pub Quiet-move_intent :
    (p : PurchaseIntent) (s : IntentState.State) (a : String) → Quiet (move_intent p s a)
unfolding move_intent
Quiet-move_intent p s a = search (store_rules, Quiet-transition_intent)

pub ruleset app_rules = (
  store_rules, Quiet-require_permission, Quiet-record_payment_intent_audit,
  Quiet-transition_payment_intent, Quiet-move, Quiet-move_intent,
)
