-- ===== src/Intent.antt =====
-- internal/domain/intent/state.go, state_machine.go and intent.go: the purchase intent.
pub mod State
pub mod Record
pub mod Paths
