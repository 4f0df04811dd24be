-- ===== src/App/Commerce/Tables.antt =====
-- internal/platform/postgres: the statements on quotes, policy decisions, orders and what was spent.
use algebra.Prelude.{
  ℕ, String, Bool, true, false, ◌&&◌, Option, none, some, List, [], ◌∷◌, ◌++◌, str_eq, ltb, leb,
  ◌^◌, if◌then◌else◌,
}
use algebra.Prelude.Int.{ℤ, pos, ◌+ℤ◌, pos_part, neg_part}
use algebra.Approval.{Approval}
use algebra.Policy.Decision.{PolicyDecision}
use algebra.Quote.{CheckoutQuote}
use algebra.Intent.Record.{PurchaseIntent}
use algebra.App.World.{
  World, QuoteRow, DecisionRow, OrderStatus, cancelled, failed, Order, OrderRow, OrderEvent,
}
use algebra.App.Exec.{Exec, Result, ok, err, not_found, unavailable, statement, ignore}
use algebra.App.Stores.{find, or_missing, latest, update_rows, intent_row}

-- quote_repo.go
abbrev payload_of : Option QuoteRow → Option CheckoutQuote
payload_of none = none
payload_of (some row) = some row.payload

abbrev pub quote_row : String → World → Option QuoteRow
quote_row id w = find (λ (row : QuoteRow). str_eq row.payload.quote_id id) w.quotes

unfoldable pub quotes_get : String → Exec CheckoutQuote
quotes_get id = statement (λ w. (or_missing (payload_of (quote_row id w)), w))

-- In the order of their insertion; the newest row is the first.
abbrev quotes_of : String → List QuoteRow → List CheckoutQuote
quotes_of id [] = []
quotes_of id (row ∷ rows) =
    let older = quotes_of id rows in
    if str_eq row.intent_id id then older ++ row.payload ∷ [] else older

unfoldable pub quotes_list_by_intent : String → Exec (List CheckoutQuote)
quotes_list_by_intent id = statement (λ w. (ok (quotes_of id w.quotes), w))

-- policy_decision_repo.go
unfoldable pub decisions_save : String → PolicyDecision → Exec (Unit {0})
decisions_save id d =
    statement
      (λ w. (ok tt, record w { decisions = record { intent_id = id; raw = d } ∷ w.decisions }))

abbrev later_decision : PolicyDecision → Option PolicyDecision → PolicyDecision
later_decision d none = d
later_decision d (some e) = if ltb d.evaluated_at e.evaluated_at then e else d

unfoldable pub latest_decision : String → List DecisionRow → Option PolicyDecision
latest_decision id [] = none
latest_decision id (row ∷ rows) =
    let older = latest_decision id rows in
    if str_eq row.intent_id id then some (later_decision row.raw older) else older

unfoldable pub decisions_get_latest : String → Exec PolicyDecision
decisions_get_latest id = statement (λ w. (or_missing (latest_decision id w.decisions), w))

-- approval_repo.go
unfoldable pub approvals_get_by_intent : String → Exec Approval
approvals_get_by_intent id =
    statement (λ w. (or_missing (latest (λ a. str_eq a.intent_id id) w.ledger.approvals), w))

-- order_repo.go
abbrev pub order_row : String → World → Option OrderRow
order_row id w = find (λ (row : OrderRow). str_eq row.order.id id) w.orders

-- The user is that of the intent, without which the column would be null.
abbrev pub insert_order : Order → Option PurchaseIntent → Option OrderRow → Exec (Unit {0})
insert_order o (some pi) none w =
    (ok tt, record w { orders = record { user_id = pi.user_id; order = o } ∷ w.orders })
insert_order o none none w = (err unavailable, w)
insert_order o pi (some old) w = (err unavailable, w)

unfoldable pub orders_create : Order → Exec (Unit {0})
orders_create o = statement (λ w. insert_order o (intent_row o.intent_id w) (order_row o.id w) w)

abbrev later_order : Order → Option Order → Order
later_order o none = o
later_order o (some p) = if ltb o.placed_at p.placed_at then p else o

unfoldable pub latest_order : String → List OrderRow → Option Order
latest_order id [] = none
latest_order id (row ∷ rows) =
    let older = latest_order id rows in
    if str_eq row.order.intent_id id then some (later_order row.order older) else older

unfoldable pub orders_get_by_intent : String → Exec Order
orders_get_by_intent id = statement (λ w. (or_missing (latest_order id w.orders), w))

abbrev pub set_order_status : String → OrderStatus → Option OrderRow → Exec (Unit {0})
set_order_status id s none w = (err not_found, w)
set_order_status id s (some old) w = (
  ok tt,
  record w {
    orders =
        update_rows (λ row. str_eq row.order.id id)
          (λ row. record row { order = record row.order { status = s } }) w.orders;
  },
)

unfoldable pub orders_update_status : String → OrderStatus → Exec (Unit {0})
orders_update_status id s = statement (λ w. set_order_status id s (order_row id w) w)

-- Its callers drop the error.
unfoldable pub orders_add_event : OrderEvent → Exec (Unit {0})
orders_add_event e =
    ignore (statement (λ w. (ok tt, record w { order_events = e ∷ w.order_events })))

-- ledger_repo.go: the orders of the day that count, and their sum.
abbrev pub counts_as_spent : OrderStatus → Bool
counts_as_spent cancelled = false
counts_as_spent failed = false
counts_as_spent _ = true

abbrev pub is_spend : String → String → ℕ → OrderRow → Bool
is_spend user currency since row =
    str_eq row.user_id user
    && (str_eq row.order.total.currency currency
        && (leb since row.order.placed_at && counts_as_spent row.order.status))

unfoldable pub spent : String → String → ℕ → List OrderRow → ℤ
spent user currency since [] = pos 0
spent user currency since (row ∷ rows) =
    let rest = spent user currency since rows in
    if is_spend user currency since row then row.order.total.minor_units +ℤ rest else rest

-- A sum that an int64 cannot hold is an error of the scan.
abbrev pub scanned : ℤ → Result ℤ
scanned a = if ltb (pos_part a) (2 ^ 63) && leb (neg_part a) (2 ^ 63) then ok a else err unavailable

unfoldable pub spend_since : String → String → ℕ → Exec ℤ
spend_since user currency since = statement (λ w. (scanned (spent user currency since w.orders), w))
