-- ===== src/Examples/Breakers.antt =====
-- The theorems on the circuit breaker at concrete inputs.
use algebra.Prelude.{ℕ, ◌+◌, ◌<◌, ◌≤◌, ◌≡◌, ◌≢◌, refl, ◌↔◌, true, List, [], ◌∷◌, arith}
use algebra.Prelude.Int.{pos, add64, wrap64}
use algebra.Resilience.{
  CircuitBreaker, closed, opened, new_circuit_breaker, allow, record_success, record_failure,
}
use algebra.Resilience.Breaker.{
  Event, asks, succeeds, fails, run, closed_below_threshold, opened_refuses, admitted,
  trials_unlimited,
}

abbrev fresh : CircuitBreaker
fresh = new_circuit_breaker (pos 3) 60

-- Two failures, a success, and a failure again.
abbrev calls : List Event
calls = fails 1 ∷ fails 2 ∷ succeeds ∷ asks 3 ∷ fails 4 ∷ []

still_closed : (run calls fresh).state ≡ closed
unfolding new_circuit_breaker allow record_success record_failure add64 wrap64
still_closed = refl

closed_below_threshold_example :
    (n : ℕ) × ((run calls (new_circuit_breaker (pos 3) 60)).consecutive_fails ≡ pos n) × (n < 3)
closed_below_threshold_example =
    closed_below_threshold 3 60 calls (omega arith) (omega arith) still_closed

abbrev shaken : CircuitBreaker
shaken = run (fails 1 ∷ fails 2 ∷ []) fresh

shaken_closed : shaken.state ≢ opened
unfolding new_circuit_breaker record_failure add64 wrap64
shaken_closed e = cc

shaken_opens : (record_failure 5 shaken).state ≡ opened
unfolding new_circuit_breaker record_failure add64 wrap64
shaken_opens = refl

opened_refuses_example :
    ((allow 30 (record_failure 5 shaken)).0 ≡ true) ↔ (5 + shaken.reset_timeout ≤ 30)
opened_refuses_example = opened_refuses 5 30 shaken shaken_closed shaken_opens

trials_late : 5 + shaken.reset_timeout ≤ 70
unfolding new_circuit_breaker record_failure add64 wrap64
trials_late = omega arith

trials_unlimited_example : admitted (70 ∷ 70 ∷ 71 ∷ []) (record_failure 5 shaken) ≡ 3
trials_unlimited_example =
    trials_unlimited 5 70 (70 ∷ 71 ∷ []) shaken shaken_closed shaken_opens trials_late
