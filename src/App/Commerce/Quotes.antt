-- ===== src/App/Commerce/Quotes.antt =====
-- internal/app/quote_service.go
use algebra.Prelude.{ℕ, String, Option, none, some, List, if◌then◌else◌}
use algebra.Agent.{perm_shopping_read}
use algebra.Intent.State as IntentState
use algebra.Intent.State.{same}
use algebra.Intent.Record.{PurchaseIntent}
use algebra.Quote.{CheckoutQuote, recompute}
use algebra.App.Exec.{Exec, ok, not_found, conflict, unavailable, pure, raise, now, ◌>>=◌}
use algebra.App.Stores.{intents_update}
use algebra.App.Authz.{require_owned_intent}
use algebra.App.Commerce.Tables.{quotes_get, quotes_list_by_intent}
use algebra.App.Commerce.Wiring.{Connector, Wiring}

-- A call of a connector: its answer depends on when it is asked.
unfoldable pub asked : {A : Type 0} → (ℕ → A) → Exec A
asked f w = (ok (f w.clock), w)

abbrev pub or_unavailable : {A : Type 0} → Option A → Exec A
or_unavailable none = raise unavailable
or_unavailable (some a) = pure a

-- A panic ends the request, as an error does.
abbrev pub or_panic : {A : Type 0} → Option A → Exec A
or_panic o = or_unavailable o

unfoldable pub get_quotes : String → String → Exec (List CheckoutQuote)
get_quotes agent_id intent_id = do
  owned ← require_owned_intent agent_id intent_id perm_shopping_read
  quotes_list_by_intent intent_id

-- Any quote can be selected, also one that was made for another intent.
abbrev pub select : PurchaseIntent → String → Exec (Unit {0})
select pi quote_id = do
  q ← quotes_get quote_id
  intents_update (record pi { selected_quote_id = quote_id })

unfoldable pub select_quote : String → String → String → Exec (Unit {0})
select_quote agent_id intent_id quote_id = do
  owned ← require_owned_intent agent_id intent_id perm_shopping_read
  if same owned.1.status IntentState.quoted then select owned.1 quote_id else raise conflict

module _ (wiring : Wiring) where
  abbrev pub registered : Option Connector → Exec Connector
  registered none = raise not_found
  registered (some c) = pure c

  unfoldable pub connectors_get : String → Exec Connector
  connectors_get merchant = registered (wiring.connectors merchant)

  unfoldable pub refresh_quote : String → Exec CheckoutQuote
  refresh_quote quote_id = do
    existing ← quotes_get quote_id
    connector ← connectors_get existing.merchant
    answer ← asked (λ t. connector.get_checkout_quote t existing.cart_id)
    refreshed ← or_unavailable answer
    t ← now
    or_panic (
        recompute (record refreshed {
          quote_id = existing.quote_id;
          cart_id = existing.cart_id;
          retrieved_at = t;
        }))
