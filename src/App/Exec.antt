-- ===== src/App/Exec.antt =====
-- The actions of the services. What a statement has written stays written when a later one fails, so
-- the world comes back beside an error too.
use algebra.Prelude.{ℕ, ◌+◌, String, Option, none, some, List, [], ◌∷◌}
use algebra.App.World.{World, Fault, healthy, lost, unacknowledged}
use algebra.PaymentIntent.State as PaymentState
use algebra.Intent.State as IntentState

-- internal/domain/shared/errors.go with the error of a used-up plan, and those that name no sentinel.
pub data Err : Type 0 where
  not_found unauthorized conflict invalid unavailable not_implemented quota_exceeded : Err
  transition : PaymentState.TransitionError → Err
  purchase_transition : IntentState.TransitionError → Err

pub data Result (A : Type 0) : Type 0 where
  ok : A → Result A
  err : Err → Result A

abbrev pub Exec : Type 0 → Type 0
Exec A = World → Result A × World

unfoldable pub pure : {A : Type 0} → A → Exec A
pure a w = (ok a, w)

unfoldable pub raise : {A : Type 0} → Err → Exec A
raise e w = (err e, w)

abbrev pub continue : {A B : Type 0} → Result A → (A → Exec B) → Exec B
continue (ok a) f w = f a w
continue (err e) f w = (err e, w)

infixl 5 ◌>>=◌ ◌>>◌
unfoldable pub ◌>>=◌ : {A B : Type 0} → Exec A → (A → Exec B) → Exec B
◌>>=◌ m f w = let (r, w') = m w in continue r f w'

abbrev pub ◌>>◌ : {A B : Type 0} → Exec A → Exec B → Exec B
m >> n = m >>= λ _. n

abbrev pub tail {ℓ} : {A : Type ℓ} → List A → List A
tail [] = []
tail (x ∷ xs) = xs

abbrev pub next_fault : List Fault → Fault
next_fault [] = healthy
next_fault (f ∷ _) = f

abbrev pub next_delay : List ℕ → ℕ
next_delay [] = 0
next_delay (d ∷ _) = d

abbrev pub under_fault : {A : Type 0} → Fault → Exec A → Exec A
under_fault healthy m w = m w
under_fault lost m w = (err unavailable, w)
under_fault unacknowledged m w = (err unavailable, (m w).1)

-- One statement, under the next fault.
unfoldable pub statement : {A : Type 0} → Exec A → Exec A
statement m w = under_fault (next_fault w.faults) m (record w { faults = tail w.faults })

-- The error of `m`, if any, is dropped.
abbrev pub ignored : {A : Type 0} → Result A × World → Result (Unit {0}) × World
ignored (r, w) = (ok tt, w)

unfoldable pub ignore : {A : Type 0} → Exec A → Exec (Unit {0})
ignore m w = ignored (m w)

-- `m` with its error as a value.
unfoldable pub attempt : {A : Type 0} → Exec A → Exec (Result A)
attempt m w = let (r, w') = m w in (ok r, w')

-- An error that was handed over as a value.
abbrev pub raised : {A : Type 0} → A × Option Err → Exec A
raised (a, none) = pure a
raised (a, some e) = raise e

-- `time.Now`: the clock has moved on by some delay since it was last read.
unfoldable pub now : Exec ℕ
now w =
    let t = w.clock + next_delay w.delays in (ok t, record w { clock = t; delays = tail w.delays })

-- `newID`, which the source draws at random.
unfoldable pub new_id : Exec String
new_id w = (ok (w.fresh w.serial), record w { serial = w.serial + 1 })
