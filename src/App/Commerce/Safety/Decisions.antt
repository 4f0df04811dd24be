-- ===== src/App/Commerce/Safety/Decisions.antt =====
-- The other operations of a purchase keep the ledger sound (internal/app/intent_service.go,
-- quote_service.go, policy_service.go and approval_service.go).
use Prim.Native.String.{◌++◌}
use algebra.Prelude.{String, ◌≡◌, refl, Option, none, some}
use algebra.Approval.{
  Approval, Status, pending, approved, rejected, expired, consumed, reapproval_required,
}
use algebra.Intent.State.{State, TransitionError}
use algebra.Intent.Record.{PurchaseIntent}
use algebra.Quote.{CheckoutQuote}
use algebra.Policy.Decision.{Decision, allow, deny, require_approval}
use algebra.App.World.{World}
use algebra.App.Exec.{Result, conflict}
use algebra.App.Keeps.{
  Quiet, quiet_rules, Quiet-statement, Leads, Leads-Quiet, Leads-raise, Leads-pure, Leads-from,
  Leads-bind,
}
use algebra.App.Quiet.{app_rules, Quiet-record_audit}
use algebra.App.Stores.{intents_create, insert_intent, intent_row}
use algebra.App.Approvals.Safety.{Leads-get_owned, Held, Held-Open}
use algebra.App.Ledger.{IsSound}
use algebra.App.Ledger.Writes.{Open, Leads-approvals_create, Leads-approvals_update}
use algebra.App.PaymentIntents.Keyed.{Leads-run_idempotent}
use algebra.App.Commerce.Wiring.{Wiring}
use algebra.App.Commerce.Intents.{
  CreateIntentInput, create, create_intent, cancelled_to, cancel_intent,
}
use algebra.App.Commerce.Quotes.{select_quote}
use algebra.App.Commerce.Policies.{
  create_approval, act_on, decide_purchase, evaluate_and_transition,
}
use algebra.App.Commerce.Reapprovals.{rebind, reapprove_in, reapprove}
use algebra.App.Commerce.Orders.{execute_keyed}
use algebra.App.Commerce.Orders.Results.{ExecuteOutcome}
use algebra.App.Commerce.Quiet.{
  table_rules, Quiet-require_owned_intent, Quiet-load_intent_and_selected_quote,
}
use algebra.App.Commerce.Quiet.Steps.{Quiet-refresh_quote, Quiet-evaluate}
use algebra.App.Commerce.Safety.{Leads-idle, Leads-execute_order}

insert_intent_quiet :
    (p : PurchaseIntent) (o : Option PurchaseIntent) (w : World)
    → (insert_intent p o w).1.ledger ≡ w.ledger
insert_intent_quiet p none w = refl
insert_intent_quiet p (some old) w = refl

Quiet-intents_create : (p : PurchaseIntent) → Quiet (intents_create p)
unfolding intents_create
Quiet-intents_create p =
    Quiet-statement _ (record { at = λ w. insert_intent_quiet p (intent_row p.id w) w })

Quiet-create : (input : CreateIntentInput) → Quiet (create input)
unfolding create
Quiet-create input = search (app_rules, Quiet-record_audit, Quiet-intents_create) depth 12

pub Leads-create_intent :
    (marshal : PurchaseIntent → Result String) (unmarshal : String → Result PurchaseIntent)
    (key : String) (input : CreateIntentInput)
    → Leads IsSound IsSound (create_intent marshal unmarshal key input) (λ _. IsSound)
unfolding create_intent
Leads-create_intent marshal unmarshal key input =
    Leads-run_idempotent marshal unmarshal key "create_intent" _ (Leads-idle _ (Quiet-create input))

Quiet-cancelled_to :
    (previous : State) (r : PurchaseIntent × Option TransitionError)
    → Quiet (cancelled_to previous r)
Quiet-cancelled_to previous (p, some e) = search quiet_rules
Quiet-cancelled_to previous (p, none) = search (app_rules, Quiet-record_audit)

pub Quiet-cancel_intent : (agent_id id : String) → Quiet (cancel_intent agent_id id)
unfolding cancel_intent
Quiet-cancel_intent agent_id id =
    search (quiet_rules, Quiet-require_owned_intent, Quiet-cancelled_to)

pub Quiet-select_quote : (agent_id id quote_id : String) → Quiet (select_quote agent_id id quote_id)
unfolding select_quote
Quiet-select_quote agent_id id quote_id = search (table_rules, Quiet-require_owned_intent)

module _ (wiring : Wiring) where
  Leads-create_approval :
      (pi : PurchaseIntent) (q : CheckoutQuote) (s : Status)
      → Leads IsSound IsSound (create_approval wiring pi q s) (λ _. IsSound)
  unfolding create_approval
  Leads-create_approval pi q s =
      Leads-bind _ _ (Leads-idle _ (search app_rules))
        λ t. Leads-bind _ _ (Leads-idle _ (search app_rules)) λ id. Leads-approvals_create _

  Leads-act_on :
      (pi : PurchaseIntent) (q : CheckoutQuote) (d : Decision)
      → Leads IsSound IsSound (act_on wiring pi q d) (λ _. IsSound)
  unfolding act_on
  Leads-act_on pi q deny = Leads-idle _ (search app_rules)
  Leads-act_on pi q require_approval =
      Leads-bind _ _ (Leads-create_approval pi q pending) λ u. Leads-idle _ (search app_rules)
  Leads-act_on pi q allow =
      Leads-bind _ _ (Leads-create_approval pi q approved) λ u. Leads-idle _ (search app_rules)

  Leads-decide_purchase :
      (pi : PurchaseIntent) (q : CheckoutQuote)
      → Leads IsSound IsSound (decide_purchase wiring pi q) (λ _. IsSound)
  unfolding decide_purchase
  Leads-decide_purchase pi q = Leads-bind _ _ (Leads-idle _ (search app_rules)) λ p.
      Leads-bind _ _ (Leads-idle _ (Quiet-evaluate wiring p q)) λ d.
        Leads-bind _ _ (Leads-idle _ (search table_rules)) λ u.
          Leads-bind _ _ (Leads-idle _ (search table_rules)) λ t.
            Leads-bind _ _ (Leads-idle _ (search table_rules))
              λ u'. Leads-bind _ _ (Leads-act_on p q d.decision) λ p'. Leads-pure d (λ l h. h)

  pub Leads-evaluate_and_transition :
      (agent_id id : String)
      → Leads IsSound IsSound (evaluate_and_transition wiring agent_id id) (λ _. IsSound)
  unfolding evaluate_and_transition
  Leads-evaluate_and_transition agent_id id =
      Leads-bind _ _ (Leads-idle _ (Quiet-require_owned_intent _ _ _)) λ owned.
        Leads-bind _ _ (Leads-idle _ (Quiet-load_intent_and_selected_quote id))
          λ loaded. Leads-decide_purchase loaded.0 loaded.1

  Leads-rebind : (a : Approval) → Leads IsSound (Open a.id) (rebind wiring a) (λ _. IsSound)
  unfolding rebind
  Leads-rebind a =
      Leads-bind _ _ (Leads-Quiet _ (λ l h. h.0) (Quiet-refresh_quote wiring a.quote_id)) λ q.
        Leads-bind _ _ (Leads-Quiet _ (λ l h. h.0) (search app_rules))
          λ t. Leads-bind _ _ (Leads-approvals_update _) λ u. Leads-idle _ (search app_rules)

  Leads-reapprove_in :
      (s : Status) (a : Approval)
      → Leads IsSound (Held s a) (reapprove_in wiring s a) (λ _. IsSound)
  Leads-reapprove_in reapproval_required a =
      Leads-from (Held-Open reapproval_required (λ q. cc) a) (Leads-rebind a)
  Leads-reapprove_in pending a = Leads-raise conflict (λ l h. h.0)
  Leads-reapprove_in approved a = Leads-raise conflict (λ l h. h.0)
  Leads-reapprove_in rejected a = Leads-raise conflict (λ l h. h.0)
  Leads-reapprove_in expired a = Leads-raise conflict (λ l h. h.0)
  Leads-reapprove_in consumed a = Leads-raise conflict (λ l h. h.0)

  pub Leads-reapprove :
      (user_id id : String) → Leads IsSound IsSound (reapprove wiring user_id id) (λ _. IsSound)
  unfolding reapprove
  Leads-reapprove user_id id =
      Leads-bind _ _ (Leads-get_owned user_id id) λ a. Leads-reapprove_in a.status a

  pub Leads-execute_keyed :
      (marshal : ExecuteOutcome → Result String) (unmarshal : String → Result ExecuteOutcome)
      (key agent_id id : String)
      → Leads IsSound IsSound
          (execute_keyed marshal unmarshal wiring key agent_id id)
          (λ _. IsSound)
  unfolding execute_keyed
  Leads-execute_keyed marshal unmarshal key agent_id id =
      Leads-run_idempotent marshal unmarshal key ("execute_" ++ id) _
        (Leads-execute_order wiring agent_id id)
