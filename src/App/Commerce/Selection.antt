-- ===== src/App/Commerce/Selection.antt =====
-- What `SelectQuote` looks at (internal/app/quote_service.go).
use algebra.Prelude.{
  String, ◌≡◌, refl, sym, ◌∙◌, Bool, true, some, List, [], ◌∷◌, str_eq, eq_iff, if◌then◌else◌,
  Bool-cases, of_some, inl, inr, ap,
}
use algebra.Agent.{Identity, perm_shopping_read}
use algebra.Intent.State.{quoted, same}
use algebra.Intent.Record.{PurchaseIntent}
use algebra.App.World.{World, QuoteRow}
use algebra.App.Exec.{ok, conflict, pure, raise, statement, ◌>>=◌}
use algebra.App.Stores.{
  find, update_rows, intent_columns, intent_row, agents_get, agent_of_id, with_permissions,
  intents_get, intents_update,
}
use algebra.App.Reads.{bind_answer}
use algebra.App.Authz.{require_permission, require_owned_intent}
use algebra.App.Commerce.Access.{Owned}
use algebra.App.Commerce.Tables.{quote_row, quotes_get}
use algebra.App.Commerce.Quotes.{select, select_quote}

module _ {A : Type 0} (p : A → Bool) where
  found : (rows : List A) (a : A) → find p rows ≡ some a → p a ≡ true
  found [] a e = absurd (cc)
  found (x ∷ rows) a e = elim (Bool-cases (p x)) [
    | inl h ↦ ap p (sym (of_some (rw (h, find) at e))) ∙ h
    | inr h ↦ found rows a (rw (h, find) at e)
  ]

  -- The row that is found is the one that was updated.
  found_updated :
      (f : A → A) (rows : List A) (a : A)
      → ((x : A) → p (f x) ≡ p x)
      → find p rows ≡ some a
      → find p (update_rows p f rows) ≡ some (f a)
  unfolding update_rows
  found_updated f [] a keeps e = absurd (cc)
  found_updated f (x ∷ rows) a keeps e = elim (Bool-cases (p x)) [
    | inl h ↦ rw (h, find, keeps x, h) (λ i. some (f (of_some (rw (h, find) at e) i)))
    | inr h ↦ rw (h, find, h) (found_updated f rows a keeps (rw (h, find) at e))
  ]

-- The world that a statement leaves which has not failed.
abbrev calm : World → World
calm w = record w { faults = [] }

answer_of_owner :
    (agent_id id perm : String) (w : World) (ag : Identity) (pi : PurchaseIntent)
    → w.faults ≡ []
    → Owned w agent_id perm id (ag, pi)
    → require_owned_intent agent_id id perm w ≡ (ok (ag, pi), calm w)
unfolding require_owned_intent require_permission agents_get agent_of_id with_permissions
    intents_get statement ◌>>=◌ pure raise
answer_of_owner agent_id id perm w ag pi h owned =
    rw (h, owned.0.0, owned.0.1, owned.1, (eq_iff pi.user_id ag.user_id).1 owned.2) refl

select_answer :
    (id quote_id : String) (w : World) (pi : PurchaseIntent) (row : QuoteRow)
    → intent_row id w ≡ some pi
    → quote_row quote_id w ≡ some row
    → select pi quote_id (calm w) ≡ (
      ok tt,
      record (calm w) {
        intents =
            update_rows
              (λ row. str_eq row.id pi.id)
              (intent_columns (record pi { selected_quote_id = quote_id }))
              w.intents;
      },
    )
unfolding quotes_get intents_update statement ◌>>=◌
select_answer id quote_id w pi row found_row quote =
    let own =
      (eq_iff pi.id id).0 (found (λ (p : PurchaseIntent). str_eq p.id id) w.intents pi found_row) in
    rw (quote, own, found_row) refl

-- Where no statement fails, an agent that may read purchases can select any quote that is stored, also
-- one that was made for another intent, for its user's intent in the state QUOTED: `SelectQuote` then
-- returns no error, and the intent has that quote and is otherwise what it was.
pub any_quote_selected :
    (agent_id id quote_id : String) (w : World) (ag : Identity) (pi : PurchaseIntent)
    (row : QuoteRow)
    → w.faults ≡ []
    → Owned w agent_id perm_shopping_read id (ag, pi)
    → pi.status ≡ quoted
    → quote_row quote_id w ≡ some row
    → ((select_quote agent_id id quote_id w).0 ≡ ok tt)
      × (intent_row id (select_quote agent_id id quote_id w).1
          ≡ some (record pi { selected_quote_id = quote_id }))
unfolding select_quote
any_quote_selected agent_id id quote_id w ag pi row h owned status quote =
    let own =
      (eq_iff pi.id id).0 (found (λ (p : PurchaseIntent). str_eq p.id id) w.intents pi owned.1) in
    let at = select_answer id quote_id w pi row owned.1 quote in
    let moves =
      bind_answer w (require_owned_intent agent_id id perm_shopping_read)
        (λ owned. if same owned.1.status quoted then select owned.1 quote_id else raise conflict)
        (ag, pi) [] (answer_of_owner agent_id id perm_shopping_read w ag pi h owned) in
    let ready : same pi.status quoted ≡ true = rw status refl in
    rw (moves, ready, at)
      (
        refl,
        ap
              (λ j.
                find (λ (p : PurchaseIntent). str_eq p.id id)
                  (update_rows (λ row. str_eq row.id j)
                    (intent_columns (record pi { selected_quote_id = quote_id })) w.intents))
              own
            ∙ found_updated (λ (p : PurchaseIntent). str_eq p.id id)
                (intent_columns (record pi { selected_quote_id = quote_id })) w.intents pi
                (λ x. refl) owned.1,
      )
