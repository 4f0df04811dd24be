-- ===== src/Resilience.antt =====
-- internal/platform/resilience/circuit_breaker.go. The mutex makes each method one step; the clock is
-- an argument. `time.Since(t) < d` is `now < t + d`.
pub mod Breaker
use algebra.Prelude.{ℕ, ◌+◌, Bool, true, false, ◌||◌, ltb, if◌then◌else◌}
use algebra.Prelude.Int.{ℤ, pos, leb_ℤ, add64}

pub data State : Type 0 where
  closed opened half_open : State

pub record CircuitBreaker : Type 0 where
  pub failure_threshold : ℤ
  pub reset_timeout : ℕ
  pub state : State
  pub consecutive_fails : ℤ
  pub opened_at : ℕ

-- `NewCircuitBreaker`; the zero time is 0.
unfoldable pub new_circuit_breaker : ℤ → ℕ → CircuitBreaker
new_circuit_breaker threshold timeout = record {
  failure_threshold = threshold;
  reset_timeout = timeout;
  state = closed;
  consecutive_fails = pos 0;
  opened_at = 0;
}

abbrev pub allow_in : State → ℕ → CircuitBreaker → Bool × CircuitBreaker
allow_in opened now cb =
    if ltb now (cb.opened_at + cb.reset_timeout)
    then (false, cb)
    else (true, record cb { state = half_open })
allow_in closed now cb = (true, cb)
allow_in half_open now cb = (true, cb)

unfoldable pub allow : ℕ → CircuitBreaker → Bool × CircuitBreaker
allow now cb = allow_in cb.state now cb

unfoldable pub record_success : CircuitBreaker → CircuitBreaker
record_success cb = record cb { consecutive_fails = pos 0; state = closed }

abbrev pub is_half_open : State → Bool
is_half_open half_open = true
is_half_open _ = false

abbrev pub trip : Bool → ℕ → CircuitBreaker → CircuitBreaker
trip true now cb = record cb { state = opened; opened_at = now }
trip false now cb = cb

unfoldable pub record_failure : ℕ → CircuitBreaker → CircuitBreaker
record_failure now cb =
    let fails = add64 cb.consecutive_fails (pos 1) in
    trip (is_half_open cb.state || leb_ℤ cb.failure_threshold fails) now
      (record cb { consecutive_fails = fails })
