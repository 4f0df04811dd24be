-- ===== src/App/Transition.antt =====
-- internal/app/payment_intent_transition.go and transition.go: the one way to change an intent's state.
use algebra.Prelude.{String, Option, none, some}
use algebra.PaymentIntent.State as PaymentState
use algebra.PaymentIntent.Record as PaymentRecord
use algebra.PaymentIntent.Record.{AgenticPaymentIntent}
use algebra.Intent.State as IntentState
use algebra.Intent.Record as IntentRecord
use algebra.Intent.Record.{PurchaseIntent}
use algebra.App.World.{EventState, payment, purchase}
use algebra.App.Exec.{
  Exec, Err, transition, purchase_transition, Result, ok, err, pure, raised, attempt, now, ◌>>=◌,
  ◌>>◌,
}
use algebra.App.Stores.{payment_intents_update, intents_update, audit_record}

unfoldable pub record_payment_intent_audit :
    AgenticPaymentIntent → String → EventState → EventState → Exec (Unit {0})
record_payment_intent_audit p action previous new = do
  t ← now
  audit_record (record {
    action = action;
    intent_id = "";
    payment_intent_id = p.id;
    timestamp = t;
    previous_state = previous;
    new_state = new;
    policy_decision = "";
    merchant = p.merchant;
  })

-- The intent as the call leaves it in memory, and the error. A write that fails leaves the new state
-- in memory alone.
abbrev pub payment_written :
    AgenticPaymentIntent
    → String
    → EventState
    → Result (Unit {0})
    → Exec (AgenticPaymentIntent × Option Err)
payment_written p action previous (ok _) = do
  record_payment_intent_audit p action previous (payment p.status)
  pure (p, none)
payment_written p action previous (err e) = pure (p, some e)

abbrev pub payment_applied :
    String
    → EventState
    → AgenticPaymentIntent × Option PaymentState.TransitionError
    → Exec (AgenticPaymentIntent × Option Err)
payment_applied action previous (p, some e) = pure (p, some (transition e))
payment_applied action previous (p, none) = do
  r ← attempt (payment_intents_update p)
  payment_written p action previous r

unfoldable pub transition_payment_intent :
    AgenticPaymentIntent → PaymentState.State → String → Exec (AgenticPaymentIntent × Option Err)
transition_payment_intent p to action = do
  t ← now
  payment_applied action (payment p.status) (PaymentRecord.apply_transition to t p)

-- A transition whose error the caller returns.
unfoldable pub move : AgenticPaymentIntent → PaymentState.State → String → Exec AgenticPaymentIntent
move p to action = do r ← transition_payment_intent p to action; raised r

unfoldable pub record_audit : PurchaseIntent → String → EventState → EventState → Exec (Unit {0})
record_audit p action previous new = do
  t ← now
  audit_record (record {
    action = action;
    intent_id = p.id;
    payment_intent_id = "";
    timestamp = t;
    previous_state = previous;
    new_state = new;
    policy_decision = "";
    merchant = "";
  })

abbrev pub purchase_written :
    PurchaseIntent → String → EventState → Result (Unit {0}) → Exec (PurchaseIntent × Option Err)
purchase_written p action previous (ok _) = do
  record_audit p action previous (purchase p.status)
  pure (p, none)
purchase_written p action previous (err e) = pure (p, some e)

abbrev pub purchase_applied :
    String
    → EventState
    → PurchaseIntent × Option IntentState.TransitionError
    → Exec (PurchaseIntent × Option Err)
purchase_applied action previous (p, some e) = pure (p, some (purchase_transition e))
purchase_applied action previous (p, none) = do
  r ← attempt (intents_update p)
  purchase_written p action previous r

unfoldable pub transition_intent :
    PurchaseIntent → IntentState.State → String → Exec (PurchaseIntent × Option Err)
transition_intent p to action = do
  t ← now
  purchase_applied action (purchase p.status) (IntentRecord.apply_transition to t p)

unfoldable pub move_intent : PurchaseIntent → IntentState.State → String → Exec PurchaseIntent
move_intent p to action = do r ← transition_intent p to action; raised r
