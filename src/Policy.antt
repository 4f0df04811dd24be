-- ===== src/Policy.antt =====
-- policy/: decisions, rules and the rule-based provider.
pub mod Decision
pub mod Rules
pub mod Usdc
pub mod Provider
