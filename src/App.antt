-- ===== src/App.antt =====
-- internal/app: the services, over a store that can fail at every statement.
pub mod World
pub mod Exec
pub mod Stores
pub mod Authz
pub mod Transition
pub mod Approvals
pub mod Keeps
pub mod Quiet
pub mod Moves
pub mod Reads
pub mod Ledger
pub mod PaymentIntents
pub mod Charging
pub mod Billing
pub mod Idempotency
pub mod PolicySets
pub mod Commerce
