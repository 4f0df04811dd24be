-- ===== src/App/Commerce/Backing/Execution.antt =====
-- The checkout that `Execute` makes (internal/app/order_service.go).
use algebra.Prelude.{
  ◌+◌, String, ◌≡◌, refl, ap, ◌⊎◌, inl, inr, Bool, true, false, Option, none, some, List, ◌∷◌,
  str_eq, if◌then◌else◌, arith,
}
use algebra.Agent.{Identity, perm_shopping_execute}
use algebra.Approval.{Approval, executable}
use algebra.Intent.State as IntentState
use algebra.Intent.State.{State, same}
use algebra.Intent.Record.{PurchaseIntent}
use algebra.App.World.{World, Ledger, Charge, Fault}
use algebra.App.Exec.{
  Exec, Result, ok, err, Err, conflict, pure, raise, now, next_delay, tail, ◌>>=◌,
}
use algebra.App.Keeps.{Ends}
use algebra.App.Reads.{Answered-query, bind_answer, Refused-bind}
use algebra.App.Stores.{latest}
use algebra.App.Authz.{require_owned_intent}
use algebra.App.Commerce.Access.{Owned, Answered-require_owned_intent}
use algebra.App.Commerce.Tables.{approvals_get_by_intent}
use algebra.App.Commerce.Wiring.{Wiring}
use algebra.App.Commerce.Orders.{
  passed, admitted, compare_terms, execute_approved, execute_owned, locked, execute_order,
}
use algebra.App.Commerce.Orders.Results.{ExecuteOutcome, if_in}
use algebra.App.Commerce.Backing.{Backed, AtMostOne, Leads-compare_terms}

-- The checkout that a run of `Execute` has made, if it has made one. The approval is compared with the
-- next reading of the clock.
abbrev pub Executed : Wiring → World → String → String → List Charge → Type 0
Executed wiring w agent_id id after =
    (after ≡ w.ledger.charges)
    ⊎ ((owned : Identity × PurchaseIntent) × Owned w agent_id perm_shopping_execute id owned
        × (owned.1.status ≡ IntentState.approved)
        × (a : Approval) × (latest (λ a. str_eq a.intent_id id) w.ledger.approvals ≡ some a)
        × (executable a (w.clock + next_delay w.delays) ≡ true)
        × (c : Charge) × (after ≡ c ∷ w.ledger.charges)
        × Backed wiring a c)

same_approved : (s : State) → same s IntentState.approved ≡ true → s ≡ IntentState.approved
same_approved IntentState.approved h = refl
same_approved _ h = ground arith

module _ (wiring : Wiring) (agent_id id : String) (w : World) where
  abbrev Done : Result ExecuteOutcome × World → Type 0
  Done r = Executed wiring w agent_id id r.1.ledger.charges

  module _ (owned : Identity × PurchaseIntent)
      (entitled : Owned w agent_id perm_shopping_execute id owned)
      (status : owned.1.status ≡ IntentState.approved) where
    module _ (a : Approval)
        (newest : latest (λ a. str_eq a.intent_id id) w.ledger.approvals ≡ some a) where
      module _ (granted : executable a (w.clock + next_delay w.delays) ≡ true) where
        AtMostOne-Executed :
            (l : Ledger)
            → AtMostOne wiring w.ledger.charges a l
            → Executed wiring w agent_id id l.charges
        AtMostOne-Executed l (inl h) = inl h
        AtMostOne-Executed l (inr (c, h, b)) =
            inr (owned, entitled, status, a, newest, granted, c, h, b)

        Ends-Done :
            (r : Result ExecuteOutcome × World)
            → Ends
                (AtMostOne wiring w.ledger.charges a)
                (λ _. AtMostOne wiring w.ledger.charges a)
                r
            → Done r
        Ends-Done (ok o, w') h = AtMostOne-Executed w'.ledger h
        Ends-Done (err x, w') h = AtMostOne-Executed w'.ledger h

      if_executable :
          (v : World) (b : Bool)
          → v.ledger ≡ w.ledger
          → executable a (w.clock + next_delay w.delays) ≡ b
          → Done ((if b then compare_terms wiring owned.1 a else raise conflict) v)
      unfolding raise
      if_executable v false same_ledger e = inl (ap (λ (l : Ledger). l.charges) same_ledger)
      if_executable v true same_ledger e = Ends-Done e _ (
          (Leads-compare_terms wiring w.ledger.charges a owned.1).at v
            (ap (λ (l : Ledger). l.charges) same_ledger))

      after_approval :
          (fs : List Fault)
          → Done (
              (now >>= λ t.
              if executable a t then compare_terms wiring owned.1 a else raise conflict)
                (record w { faults = fs }))
      unfolding now ◌>>=◌
      after_approval fs =
          if_executable
            (record w {
              clock = w.clock + next_delay w.delays;
              delays = tail w.delays;
              faults = fs;
            })
            (executable a (w.clock + next_delay w.delays)) refl refl

    abbrev decide : Approval → Exec ExecuteOutcome
    decide a =
        now >>= λ t. if executable a t then compare_terms wiring owned.1 a else raise conflict

    after_gate :
        (fs : List Fault)
        → Done ((approvals_get_by_intent id >>= decide) (record w { faults = fs }))
    unfolding approvals_get_by_intent
    after_gate fs =
        elim (Answered-query (λ v. latest (λ a. str_eq a.intent_id id) v.ledger.approvals)
          (record w { faults = fs })) [
            | inl (e, gs, q) ↦ inl (
                ap (λ r. r.1.ledger.charges)
                  (Refused-bind (record w { faults = fs }) _ decide (e, gs, q)).2)
            | inr (a, gs, q, newest) ↦
                rw
                  (bind_answer (record w { faults = fs }) (approvals_get_by_intent id) decide a gs
                    q)
                  (after_approval a newest gs)
          ]

    gated :
        (o : Option Err) (fs : List Fault)
        → Done
            ((passed o >>= λ _. approvals_get_by_intent id >>= decide) (record w { faults = fs }))
    unfolding ◌>>=◌ raise pure
    gated none fs = after_gate fs
    gated (some e) fs = inl refl

    after_approved :
        (fs : List Fault) → Done (execute_approved wiring owned.1 id (record w { faults = fs }))
    unfolding execute_approved
    after_approved fs = go wiring.gate
      where
        go :
            (o : Option (String → Option Err))
            → Done (
                (admitted o owned.1.user_id >>= λ _. approvals_get_by_intent id >>= decide)
                  (record w { faults = fs }))
        go none = gated none fs
        go (some gate) = gated (gate owned.1.user_id) fs

  after_owned :
      (owned : Identity × PurchaseIntent) (fs : List Fault)
      → Owned w agent_id perm_shopping_execute id owned
      → (b : Bool) → same owned.1.status IntentState.approved ≡ b
      → Done (
          (if b then execute_approved wiring owned.1 id else raise conflict)
            (record w { faults = fs }))
  unfolding raise
  after_owned owned fs entitled false e = inl refl
  after_owned owned fs entitled true e =
      after_approved owned entitled (same_approved owned.1.status e) fs

  Done-execute_owned : Done (execute_owned wiring agent_id id w)
  unfolding execute_owned
  Done-execute_owned = elim (Answered-require_owned_intent w agent_id id perm_shopping_execute) [
    | inl (e, fs, q) ↦ inl (
        ap (λ r. r.1.ledger.charges)
          (Refused-bind w _
            (λ owned. if_in IntentState.approved owned.1 (execute_approved wiring owned.1 id))
            (e, fs, q)).2)
    | inr (owned, fs, q, entitled) ↦
        rw
          (bind_answer w (require_owned_intent agent_id id perm_shopping_execute)
            (λ owned. if_in IntentState.approved owned.1 (execute_approved wiring owned.1 id)) owned
            fs q)
          (after_owned owned fs entitled (same owned.1.status IntentState.approved) refl)
  ]

  Done-held :
      (r : Result (Unit {0}))
      → Done (
          (elim r as (λ _. Exec ExecuteOutcome) [
            | ok _ ↦ execute_owned wiring agent_id id
            | err e ↦ raise e
          ])
            w)
  unfolding raise
  Done-held (ok u) = Done-execute_owned
  Done-held (err e) = inl refl

  Done-locked :
      (o : Option (String → Result (Unit {0})))
      → Done (locked wiring o id (execute_owned wiring agent_id id) w)
  Done-locked none = Done-execute_owned
  Done-locked (some lock) = Done-held (lock id)

-- Whatever the faults and the answers of the connectors are, a run of `Execute` on a purchase makes no
-- checkout, or one: then the agent is permitted to execute purchases, and the intent is its user's and
-- was APPROVED; the newest approval of the intent can be executed at the next reading of the clock; and
-- the checkout is for that approval, of the cart, the merchant and the amount of a quote that has the
-- merchant and the currency that were approved, whose items have the approved hash, and which is within
-- the tolerance of the approved amount.
pub order_charge :
    (wiring : Wiring) (agent_id id : String) (w : World)
    → Executed wiring w agent_id id (execute_order wiring agent_id id w).1.ledger.charges
unfolding execute_order
order_charge wiring agent_id id w = Done-locked wiring agent_id id w wiring.locker
