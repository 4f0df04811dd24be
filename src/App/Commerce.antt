-- ===== src/App/Commerce.antt =====
-- internal/app: purchases from merchants, from the intent over quotes and policy to the order.
pub mod Tables
pub mod Wiring
pub mod Intents
pub mod Quotes
pub mod Policies
pub mod Orders
pub mod Reapprovals
pub mod Quiet
pub mod Safety
pub mod Access
pub mod Backing
pub mod Selection
