-- ===== src/App/Commerce/Safety.antt =====
-- Every operation of a purchase keeps the ledger sound (internal/app/order_service.go,
-- policy_service.go and approval_service.go).
pub mod Decisions
use algebra.Prelude.{
  ℕ, String, ◌≡◌, ◌≢◌, refl, sym, ap, ◌∙◌, Bool, true, false, Option, none, some, List, str_eq,
  ◌&&◌, of_some, if◌then◌else◌,
}
use algebra.Approval.{
  Approval, Status, pending, approved, rejected, expired, consumed, reapproval_required,
  is_approved, executable, matches,
}
use algebra.Intent.State as IntentState
use algebra.Intent.Record.{PurchaseIntent}
use algebra.Quote.{CheckoutQuote}
use algebra.Policy.Decision.{Decision, allow, deny, require_approval}
use algebra.App.World.{World, Ledger, Charge}
use algebra.App.Exec.{Exec, Result, ok, err, conflict, not_found, raise, now, ◌>>=◌, ◌>>◌}
use algebra.App.Keeps.{
  Ends, Quiet, Leads, Leads-Quiet, Leads-raise, Leads-pure, Leads-if, Leads-from, Leads-bind,
}
use algebra.App.Quiet.{app_rules, Quiet-move_intent, Quiet-transition_intent}
use algebra.App.Stores.{or_missing, latest, approval_row}
use algebra.App.Stores.Keys.{latest-row}
use algebra.App.Stores.Rows.{status_of, status_of_row}
use algebra.App.Ledger.{IsSound, IsClaimed, Leads-statement}
use algebra.App.Ledger.Writes.{
  Stored, Open, Claim, Leads-approvals_create, Leads-approvals_update, Leads-mark_consumed,
}
use algebra.App.Commerce.Tables.{approvals_get_by_intent}
use algebra.App.Commerce.Wiring.{Fulfillment, Connector, Wiring}
use algebra.App.Commerce.Policies.{
  create_approval, act_on, decide_purchase, evaluate_and_transition,
}
use algebra.App.Commerce.Orders.{
  require_reapproval, execute_checkout, checkout_of, with_connector, check_out, place, on_recheck,
  recheck, compare_terms, execute_approved, execute_owned, locked, execute_order,
}
use algebra.App.Commerce.Orders.Results.{ExecuteOutcome, if_in}
use algebra.App.Commerce.Quiet.{
  table_rules, Quiet-admitted, Quiet-require_owned_intent, Quiet-load_intent_and_selected_quote,
  Quiet-or_unavailable,
}
use algebra.App.Commerce.Quiet.Steps.{
  Quiet-after_checkout, Quiet-refresh_quote, Quiet-provider_for, Quiet-evaluate,
  Quiet-resolve_fulfillment,
}

pub Leads-idle : {A : Type 0} (m : Exec A) → Quiet m → Leads IsSound IsSound m (λ _. IsSound)
Leads-idle m q = Leads-Quiet m (λ l h. h) q

-- The approval of an intent that is handed out, as the table has it.
pub Leads-approvals_get_by_intent :
    (id : String) → Leads IsSound IsSound (approvals_get_by_intent id) Stored
unfolding approvals_get_by_intent
Leads-approvals_get_by_intent id =
    Leads-statement _ (λ l h. h) (λ a l h. h.0)
      (record { at = λ w h. go w (latest (λ a. str_eq a.intent_id id) w.ledger.approvals) refl h })
  where
    go :
        (w : World) (o : Option Approval)
        → latest (λ a. str_eq a.intent_id id) w.ledger.approvals ≡ o
        → IsSound w.ledger
        → Ends IsSound Stored (or_missing o, w)
    go w none e h = h
    go w (some a) e h = (h, ap status_of_row (latest-row _ w.ledger.approvals a h.keyed e))

executable-Open :
    (a : Approval) (t : ℕ) (l : Ledger) → executable a t ≡ true → Stored a l → Open a.id l
unfolding executable
executable-Open a t l e h = (h.0, λ q. go a.status _ e (of_some (sym h.1 ∙ q)))
  where
    go : (s : Status) (b : Bool) → is_approved s && b ≡ true → s ≢ consumed
    go approved b e q = cc
    go pending b e q = cc
    go rejected b e q = cc
    go expired b e q = cc
    go consumed b e q = cc
    go reapproval_required b e q = cc

-- A checkout needs the claim of its approval, and uses it up.
Leads-execute_checkout :
    (connector : Connector) (cart_id : String) (c : Charge) (f : Fulfillment)
    → Leads IsSound
        (IsClaimed c.approval_id)
        (execute_checkout connector cart_id c f)
        (λ _. IsSound)
unfolding execute_checkout
Leads-execute_checkout connector cart_id c f = record {
  at = λ w h. record {
    covered = (h.is_consumed, h.sound.covered);
    distinct = (h.uncharged, h.sound.distinct);
    keyed = h.sound.keyed;
  };
}

module _ (wiring : Wiring) (pi : PurchaseIntent) (a : Approval) where
  -- What is quiet keeps the approval open.
  Open-idle : {B : Type 0} (m : Exec B) → Quiet m → Leads IsSound (Open a.id) m (λ _. Open a.id)
  Open-idle m q = Leads-Quiet m (λ l h. h.0) q

  Leads-require_reapproval :
      Leads IsSound (Open a.id) (require_reapproval wiring pi a) (λ _. IsSound)
  unfolding require_reapproval
  Leads-require_reapproval =
      Leads-bind _ _ (Leads-approvals_update (record a { status = reapproval_required }))
        λ u. Leads-idle _ (search app_rules)

  Leads-with_connector :
      (q : CheckoutQuote) (f : Fulfillment) (o : Option Connector)
      → Leads IsSound (IsClaimed a.id) (with_connector wiring pi a q f o) (λ _. IsSound)
  Leads-with_connector q f none =
      Leads-from (λ l h. h.sound) (Leads-idle _ (search (app_rules, Quiet-transition_intent)))
  Leads-with_connector q f (some connector) =
      Leads-bind _ _ (Leads-execute_checkout connector q.cart_id (checkout_of wiring a q) f)
        λ r. Leads-idle _ (Quiet-after_checkout wiring pi a connector r)

module _ (wiring : Wiring) where
  Leads-check_out :
      (pi : PurchaseIntent) (a : Approval) (q : CheckoutQuote) (f : Fulfillment)
      → Leads IsSound (IsClaimed a.id) (check_out wiring pi a q f) (λ _. IsSound)
  unfolding check_out
  Leads-check_out pi a q f =
      Leads-bind _ _ (Leads-Quiet _ (λ l h. h.sound) (Quiet-move_intent _ _ _))
        λ p. Leads-with_connector wiring p a q f (wiring.connectors q.merchant)

  Leads-if_claimed :
      (pi : PurchaseIntent) (a : Approval) (q : CheckoutQuote) (f : Fulfillment) (b : Bool)
      → Leads IsSound
          (Claim a.id b)
          (if b then check_out wiring pi a q f else raise conflict)
          (λ _. IsSound)
  Leads-if_claimed pi a q f true = Leads-check_out pi a q f
  Leads-if_claimed pi a q f false = Leads-raise conflict (λ l h. h)

  Leads-place :
      (pi : PurchaseIntent) (a : Approval) (q : CheckoutQuote)
      → Leads IsSound IsSound (place wiring pi a q) (λ _. IsSound)
  unfolding place
  Leads-place pi a q =
      Leads-bind _ _ (Leads-idle _ (Quiet-resolve_fulfillment wiring pi a))
        λ f. Leads-bind _ _ (Leads-mark_consumed a.id) (Leads-if_claimed pi a q f)

  Leads-on_recheck :
      (pi : PurchaseIntent) (a : Approval) (q : CheckoutQuote) (d : Decision)
      → Leads IsSound (Open a.id) (on_recheck wiring pi a q d) (λ _. IsSound)
  unfolding on_recheck
  Leads-on_recheck pi a q deny = Leads-from (λ l h. h.0) (Leads-idle _ (search app_rules))
  Leads-on_recheck pi a q require_approval = Leads-require_reapproval wiring pi a
  Leads-on_recheck pi a q allow = Leads-from (λ l h. h.0) (Leads-place pi a q)

  Leads-recheck :
      (pi : PurchaseIntent) (a : Approval) (q : CheckoutQuote)
      → Leads IsSound (Open a.id) (recheck wiring pi a q) (λ _. IsSound)
  unfolding recheck
  Leads-recheck pi a q = Leads-bind _ _ (Open-idle wiring pi a _ (search table_rules)) λ t.
      Leads-bind _ _ (Open-idle wiring pi a _ (search table_rules)) λ spend.
        Leads-bind _ _ (Open-idle wiring pi a _ (Quiet-provider_for wiring _)) λ rules.
          Leads-bind _ _ (Open-idle wiring pi a _ (search table_rules)) λ t'.
            Leads-bind _ _ (Open-idle wiring pi a _ (search table_rules))
              λ d. Leads-on_recheck pi a q d.decision

  Leads-compare_terms :
      (pi : PurchaseIntent) (a : Approval)
      → Leads IsSound (Open a.id) (compare_terms wiring pi a) (λ _. IsSound)
  unfolding compare_terms
  Leads-compare_terms pi a =
      Leads-bind _ _ (Open-idle wiring pi a _ (Quiet-refresh_quote wiring _)) λ q.
        Leads-bind _ _ (Open-idle wiring pi a _ (Quiet-or_unavailable _)) λ same.
          Leads-if same _ _ _ (λ e. Leads-recheck pi a q)
            (λ e. Leads-require_reapproval wiring pi a)

  Leads-execute_approved :
      (pi : PurchaseIntent) (id : String)
      → Leads IsSound IsSound (execute_approved wiring pi id) (λ _. IsSound)
  unfolding execute_approved
  Leads-execute_approved pi id =
      Leads-bind _ _ (Leads-idle _ (Quiet-admitted wiring.gate pi.user_id)) λ u.
        Leads-bind _ _ (Leads-approvals_get_by_intent id) λ a.
          Leads-bind _ _ (Leads-Quiet _ (λ l h. h.0) (search app_rules)) λ t.
            Leads-if (executable a t) _ _ _
              (λ e. Leads-from (λ l. executable-Open a t l e) (Leads-compare_terms pi a))
              (λ e. Leads-raise conflict (λ l h. h.0))

  Leads-execute_owned :
      (agent_id id : String)
      → Leads IsSound IsSound (execute_owned wiring agent_id id) (λ _. IsSound)
  unfolding execute_owned
  Leads-execute_owned agent_id id =
      Leads-bind _ _ (Leads-idle _ (Quiet-require_owned_intent _ _ _)) λ owned.
        Leads-if (IntentState.same owned.1.status IntentState.approved) _ _ _
          (λ e. Leads-execute_approved owned.1 id) (λ e. Leads-raise conflict (λ l h. h))

  pub Leads-execute_order :
      (agent_id id : String)
      → Leads IsSound IsSound (execute_order wiring agent_id id) (λ _. IsSound)
  unfolding execute_order
  Leads-execute_order agent_id id = go wiring.locker
    where
      held :
          (r : Result (Unit {0}))
          → Leads IsSound IsSound
              (elim r [ ok _ ↦ execute_owned wiring agent_id id | err e ↦ raise e ])
              (λ _. IsSound)
      held (ok u) = Leads-execute_owned agent_id id
      held (err e) = Leads-raise e (λ l h. h)

      go :
          (o : Option (String → Result (Unit {0})))
          → Leads IsSound IsSound
              (locked wiring o id (execute_owned wiring agent_id id))
              (λ _. IsSound)
      go none = Leads-execute_owned agent_id id
      go (some lock) = held (lock id)
