-- ===== src/App/PaymentIntents.antt =====
-- internal/app/payment_intent_service.go
pub mod Create
pub mod Execute
pub mod Safety
pub mod Keyed
pub mod Outsiders
pub mod InForce
pub mod Judged
pub mod Access
pub mod Backing
