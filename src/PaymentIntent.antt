-- ===== src/PaymentIntent.antt =====
-- internal/domain/paymentintent/state.go, state_machine.go and intent.go: the agentic payment intent.
pub mod State
pub mod Record
pub mod Paths
