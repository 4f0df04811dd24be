-- ===== src/Examples.antt =====
-- The theorems at concrete inputs, and runs of the code.
pub mod Policies
pub mod States
pub mod Values
pub mod Services
pub mod Purchases
pub mod Plans
pub mod Breakers
pub mod Requests
pub mod Limits
