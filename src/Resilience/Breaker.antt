-- ===== src/Resilience/Breaker.antt =====
-- When the circuit breaker lets calls through (internal/platform/resilience/circuit_breaker.go).
use algebra.Prelude.{
  ℕ, suc, length, ◌+◌, ◌^◌, ◌≤◌, ◌<◌, ◌≡◌, ◌≢◌, refl, sym, ◌∙◌, ap, inl, inr, Bool, true, false,
  List, [], ◌∷◌, arith, Bool-cases, ltb, ◌||◌, ◌↔◌, if◌then◌else◌,
}
use algebra.Prelude.Int.{pos, leb_ℤ, add64, wrap64}
use algebra.Resilience.{
  State, closed, opened, half_open, CircuitBreaker, new_circuit_breaker, allow_in, allow,
  is_half_open, record_success, trip, record_failure,
}

pub data Event : Type 0 where
  asks : ℕ → Event
  succeeds : Event
  fails : ℕ → Event

abbrev pub step : Event → CircuitBreaker → CircuitBreaker
step (asks t) cb = (allow t cb).1
step succeeds cb = record_success cb
step (fails t) cb = record_failure t cb

abbrev pub run : List Event → CircuitBreaker → CircuitBreaker
run [] cb = cb
run (e ∷ es) cb = run es (step e cb)

-- A closed breaker has counted fewer failures than the threshold, one at least.
abbrev Below : ℕ → CircuitBreaker → Type 0
Below k cb =
    (cb.failure_threshold ≡ pos k)
    × (cb.state ≡ closed → (n : ℕ) × (cb.consecutive_fails ≡ pos n) × (n < k))

add_one : (n : ℕ) → n + 1 < 2 ^ 63 → add64 (pos n) (pos 1) ≡ pos (n + 1)
unfolding add64 wrap64
add_one n h = ground arith

asks-Below :
    (k t : ℕ) (s : State) (cb : CircuitBreaker)
    → cb.state ≡ s
    → Below k cb
    → Below k (allow_in s t cb).1
asks-Below k t closed cb e h = h
asks-Below k t half_open cb e h = h
asks-Below k t opened cb e h = elim (Bool-cases (ltb t (cb.opened_at + cb.reset_timeout))) [
  | inl early ↦ rw early h
  | inr late ↦ rw late (h.0, λ q. absurd (cc))
]

trip-Below :
    (k t n : ℕ) (b : Bool) (cb : CircuitBreaker)
    → cb.failure_threshold ≡ pos k
    → cb.consecutive_fails ≡ pos n
    → (b ≡ false → n < k)
    → Below k (trip b t cb)
trip-Below k t n true cb threshold count below = (threshold, λ q. absurd (cc))
trip-Below k t n false cb threshold count below = (threshold, λ q. (n, count, below refl))

trip_stays :
    (b : Bool) (t : ℕ) (cb : CircuitBreaker) → cb.state ≢ closed → (trip b t cb).state ≢ closed
trip_stays true t cb ne = λ q. cc
trip_stays false t cb ne = ne

trip_threshold :
    (b : Bool) (t : ℕ) (cb : CircuitBreaker)
    → (trip b t cb).failure_threshold ≡ cb.failure_threshold
trip_threshold true t cb = refl
trip_threshold false t cb = refl

fails_in :
    (k t : ℕ) (s : State) (cb : CircuitBreaker)
    → k < 2 ^ 63
    → cb.state ≡ s
    → Below k cb
    → Below k (record_failure t cb)
unfolding record_failure
fails_in k t closed cb fits e h =
    let (n, count, small) = h.1 e in
    let counted : add64 cb.consecutive_fails (pos 1) ≡ pos (n + 1) =
      ap (λ x. add64 x (pos 1)) count ∙ add_one n (omega arith) in
    trip-Below k t (n + 1) _ _ h.0 counted (λ q. below_of k n (
      ap (λ s. is_half_open s || leb_ℤ (pos k) (pos (n + 1))) (sym e)
      ∙ (λ i. is_half_open cb.state || leb_ℤ (sym h.0 i) (sym counted i))
      ∙ q))
  where
    below_of : (k n : ℕ) → leb_ℤ (pos k) (pos (n + 1)) ≡ false → n + 1 < k
    below_of k n q = ground arith
fails_in k t opened cb fits e h =
    (trip_threshold _ t _ ∙ h.0, λ q. absurd (trip_stays _ t _ (λ c. cc (sym e ∙ c)) q))
fails_in k t half_open cb fits e h =
    (trip_threshold _ t _ ∙ h.0, λ q. absurd (trip_stays _ t _ (λ c. cc (sym e ∙ c)) q))

step-Below :
    (k : ℕ) (x : Event) (cb : CircuitBreaker)
    → 0 < k
    → k < 2 ^ 63
    → Below k cb
    → Below k (step x cb)
unfolding allow record_success
step-Below k (asks t) cb some_fails fits h = asks-Below k t cb.state cb refl h
step-Below k succeeds cb some_fails fits h = (h.0, λ q. (0, refl, some_fails))
step-Below k (fails t) cb some_fails fits h = fails_in k t cb.state cb fits refl h

run-Below :
    (k : ℕ) (es : List Event) (cb : CircuitBreaker)
    → 0 < k
    → k < 2 ^ 63
    → Below k cb
    → Below k (run es cb)
run-Below k [] cb some_fails fits h = h
run-Below k (x ∷ es) cb some_fails fits h =
    run-Below k es (step x cb) some_fails fits (step-Below k x cb some_fails fits h)

-- Whatever calls a breaker has seen, in whatever order: while it is closed, it has counted fewer
-- failures since the last success than its threshold, which is positive and fits an int.
pub closed_below_threshold :
    (k timeout : ℕ) (es : List Event)
    → 0 < k
    → k < 2 ^ 63
    → (run es (new_circuit_breaker (pos k) timeout)).state ≡ closed
    → (n : ℕ) × ((run es (new_circuit_breaker (pos k) timeout)).consecutive_fails ≡ pos n) × (n < k)
unfolding new_circuit_breaker
closed_below_threshold k timeout es some_fails fits e =
    (run-Below k es _ some_fails fits (refl, λ q. (0, refl, some_fails))).1 e

-- A failure that opens a breaker which was not open: a call is let through exactly when the timeout
-- has passed since that failure.
pub opened_refuses :
    (t t' : ℕ) (cb : CircuitBreaker)
    → cb.state ≢ opened
    → (record_failure t cb).state ≡ opened
    → ((allow t' (record_failure t cb)).0 ≡ true) ↔ (t + cb.reset_timeout ≤ t')
unfolding record_failure allow
opened_refuses t t' cb was e = refuses _ e
  where
    granted :
        (a b : ℕ) (x y : CircuitBreaker)
        → ((if◌then◌else◌ {A = Bool × CircuitBreaker} (ltb b a) (false, x) (true, y)).0 ≡ true)
          ↔ (a ≤ b)
    granted a b x y = ground arith

    refuses :
        (b : Bool)
        → (trip b t (record cb { consecutive_fails = add64 cb.consecutive_fails (pos 1) })).state
          ≡ opened
        → let cb' =
            trip b t (record cb { consecutive_fails = add64 cb.consecutive_fails (pos 1) }) in
          ((allow_in cb'.state t' cb').0 ≡ true) ↔ (t + cb.reset_timeout ≤ t')
    refuses true q = granted (t + cb.reset_timeout) t' _ _
    refuses false q = absurd (was q)

-- How many of the calls at these times are let through, while none of them is answered.
unfoldable pub admitted : List ℕ → CircuitBreaker → ℕ
admitted [] cb = 0
admitted (t ∷ ts) cb =
    let (granted, cb') = allow t cb in
    let rest = admitted ts cb' in if granted then suc rest else rest

half_open_allows :
    (s : State) (t : ℕ) (cb : CircuitBreaker) → s ≡ half_open → allow_in s t cb ≡ (true, cb)
half_open_allows closed t cb e = refl
half_open_allows half_open t cb e = refl
half_open_allows opened t cb e = absurd (cc)

half_open_admits :
    (ts : List ℕ) (cb : CircuitBreaker) → cb.state ≡ half_open → admitted ts cb ≡ length ts
unfolding admitted allow
half_open_admits [] cb e = refl
half_open_admits (t ∷ ts) cb e =
    rw (half_open_allows cb.state t cb e) (ap (λ n. suc n) (half_open_admits ts cb e))

opened_allows :
    (s : State) (t : ℕ) (cb : CircuitBreaker)
    → s ≡ opened
    → ltb t (cb.opened_at + cb.reset_timeout) ≡ false
    → allow_in s t cb ≡ (true, record cb { state = half_open })
opened_allows closed t cb e late = absurd (cc)
opened_allows half_open t cb e late = absurd (cc)
opened_allows opened t cb e late = rw late refl

trip_at :
    (b : Bool) (t : ℕ) (cb : CircuitBreaker)
    → cb.state ≢ opened
    → (trip b t cb).state ≡ opened
    → ((trip b t cb).opened_at ≡ t) × ((trip b t cb).reset_timeout ≡ cb.reset_timeout)
trip_at true t cb was e = (refl, refl)
trip_at false t cb was e = absurd (was e)

opened_when :
    (t : ℕ) (cb : CircuitBreaker)
    → cb.state ≢ opened
    → (record_failure t cb).state ≡ opened
    → ((record_failure t cb).opened_at ≡ t)
      × ((record_failure t cb).reset_timeout ≡ cb.reset_timeout)
unfolding record_failure
opened_when t cb was e = trip_at _ t _ was e

late_enough : (t d t' : ℕ) → t + d ≤ t' → ltb t' (t + d) ≡ false
late_enough t d t' h = ground arith

-- A failure opens a breaker which was not open. Once the timeout has passed since then, the next call
-- is let through, and so is every call after it, however many come before one of them is answered.
pub trials_unlimited :
    (t t' : ℕ) (ts : List ℕ) (cb : CircuitBreaker)
    → cb.state ≢ opened
    → (record_failure t cb).state ≡ opened
    → t + cb.reset_timeout ≤ t'
    → admitted (t' ∷ ts) (record_failure t cb) ≡ suc (length ts)
unfolding admitted allow
trials_unlimited t t' ts cb was e late =
    let broken = record_failure t cb in
    let at = opened_when t cb was e in
    let past : ltb t' (broken.opened_at + broken.reset_timeout) ≡ false =
      rw (at.0, at.1) (late_enough t cb.reset_timeout t' late) in
    rw (opened_allows broken.state t' broken e past)
      (ap (λ n. suc n) (half_open_admits ts (record broken { state = half_open }) refl))
