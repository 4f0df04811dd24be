-- ===== src/Agent.antt =====
-- internal/domain/agent/agent.go: what an agent may do. A permission is a text in the source.
use algebra.Prelude.{
  ℕ, String, Bool, true, false, Option, none, some, List, [], ◌∷◌, any, str_eq, if◌then◌else◌,
}

abbrev pub perm_shopping_read : String
perm_shopping_read = "shopping.read"

abbrev pub perm_shopping_create_intent : String
perm_shopping_create_intent = "shopping.create_intent"

abbrev pub perm_policy_read : String
perm_policy_read = "policy.read"

abbrev pub perm_orders_read : String
perm_orders_read = "orders.read"

abbrev pub perm_shopping_execute : String
perm_shopping_execute = "shopping.execute"

abbrev pub perm_payments_request : String
perm_payments_request = "payments.request"

abbrev pub perm_payments_create_intent : String
perm_payments_create_intent = "payments.create_intent"

abbrev pub perm_payments_execute : String
perm_payments_execute = "payments.execute"

abbrev pub all_permissions : List String
all_permissions =
    perm_shopping_read ∷ perm_shopping_create_intent ∷ perm_shopping_execute ∷ perm_payments_request
    ∷ "orders.read" ∷ "profiles.read" ∷ "policy.read" ∷ perm_payments_create_intent
    ∷ perm_payments_execute ∷ "profiles.write" ∷ []

unfoldable pub is_valid_permission : String → Bool
is_valid_permission p = any (λ known. str_eq p known) all_permissions

pub record Identity : Type 0 where
  pub id : String
  pub user_id : String
  pub client_id : String
  pub name : String
  pub permissions : List String
  pub token_hash : String
  pub created_at : ℕ
  pub revoked_at : Option ℕ

unfoldable pub is_revoked : Identity → Bool
is_revoked a = elim a.revoked_at [ none ↦ false | some t ↦ true ]

unfoldable pub has_permission : Identity → String → Bool
unfolding is_revoked
has_permission a p = if is_revoked a then false else any (λ granted. str_eq granted p) a.permissions
