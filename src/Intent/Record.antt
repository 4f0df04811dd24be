-- ===== src/Intent/Record.antt =====
-- internal/domain/intent/intent.go. The metadata map, which no code reads, is left out.
use algebra.Prelude.{ℕ, String, Bool, Option, none, some, List}
use algebra.Prelude.Int.{ℤ}
use algebra.Intent.State.{State, draft, TransitionError, Outcome, moved, refused, transition}

pub record Item : Type 0 where
  pub query : String
  pub quantity : ℤ
  pub product_id : String

pub record Constraints : Type 0 where
  pub max_total_minor_units : ℤ
  pub currency : String
  pub delivery_profile : String
  pub payment_profile : String
  pub preferred_merchants : List String
  pub excluded_merchants : List String
  pub category : String
  pub international : Bool

pub record PurchaseIntent : Type 0 where
  pub id : String
  pub user_id : String
  pub agent_id : String
  pub status : State
  pub items : List Item
  pub constraints : Constraints
  pub selected_quote_id : String
  pub created_at : ℕ
  pub updated_at : ℕ
  pub expires_at : Option ℕ

unfoldable pub new : String → String → String → List Item → Constraints → ℕ → PurchaseIntent
new id user_id agent_id items constraints now = record {
  id = id;
  user_id = user_id;
  agent_id = agent_id;
  status = draft;
  items = items;
  constraints = constraints;
  selected_quote_id = "";
  created_at = now;
  updated_at = now;
  expires_at = none;
}

abbrev moved_to : Outcome → ℕ → PurchaseIntent → PurchaseIntent × Option TransitionError
moved_to (moved next) now p = (record p { status = next; updated_at = now }, none)
moved_to (refused e) now p = (p, some e)

-- The intent after the call, and the error.
unfoldable pub apply_transition :
    State → ℕ → PurchaseIntent → PurchaseIntent × Option TransitionError
apply_transition to now p = moved_to (transition p.status to) now p
