-- ===== src/PaymentIntent/State.antt =====
-- internal/domain/paymentintent/state.go and state_machine.go. A state is a text in the source: `unknown` is
-- any text that is none of the constants.
use algebra.Prelude.{
  ℕ, String, Bool, true, false, ◌&&◌, Option, none, some, List, [], ◌∷◌, str_eq, ◌==◌,
  if◌then◌else◌, any,
}

pub data State : Type 0 where
  draft policy_evaluating denied approval_required authorized credential_preparing : State
  ready_to_execute processing succeeded failed expired : State
  revoked cancelled authentication_required merchant_action_required provider_unavailable : State
  unknown : String → State

abbrev pub code : State → ℕ
code draft = 1
code policy_evaluating = 2
code denied = 3
code approval_required = 4
code authorized = 5
code credential_preparing = 6
code ready_to_execute = 7
code processing = 8
code succeeded = 9
code failed = 10
code expired = 11
code revoked = 12
code cancelled = 13
code authentication_required = 14
code merchant_action_required = 15
code provider_unavailable = 16
code (unknown s) = 0

abbrev pub name_of : State → String
name_of (unknown s) = s
name_of _ = ""

-- `a == b` on the texts: the constants differ from one another and from every unknown text.
abbrev pub same : State → State → Bool
same a b = code a == code b && str_eq (name_of a) (name_of b)

unfoldable pub terminal : State → Bool
terminal denied = true
terminal succeeded = true
terminal failed = true
terminal expired = true
terminal revoked = true
terminal cancelled = true
terminal _ = false

-- The map `transitions`; `none` is a key that it lacks.
unfoldable pub transitions : State → Option (List State)
transitions draft = some (policy_evaluating ∷ cancelled ∷ expired ∷ [])
transitions policy_evaluating = some (denied ∷ approval_required ∷ authorized ∷ cancelled ∷ [])
transitions approval_required = some (authorized ∷ cancelled ∷ expired ∷ revoked ∷ [])
transitions authorized = some (credential_preparing ∷ cancelled ∷ revoked ∷ [])
transitions credential_preparing = some (ready_to_execute ∷ provider_unavailable ∷ failed ∷ [])
transitions ready_to_execute = some (processing ∷ cancelled ∷ revoked ∷ [])
transitions processing = some (
    succeeded ∷ failed ∷ authentication_required ∷ merchant_action_required ∷ provider_unavailable
    ∷ [])
transitions authentication_required = some (processing ∷ failed ∷ expired ∷ [])
transitions merchant_action_required = some (processing ∷ failed ∷ cancelled ∷ [])
transitions provider_unavailable = some (processing ∷ failed ∷ cancelled ∷ [])
transitions denied = some []
transitions succeeded = some []
transitions failed = some []
transitions expired = some []
transitions revoked = some []
transitions cancelled = some []
transitions (unknown s) = none

abbrev pub is_some {ℓ} : {A : Type ℓ} → Option A → Bool
is_some none = false
is_some (some a) = true

unfoldable pub valid : State → Bool
valid s = is_some (transitions s)

unfoldable pub can_transition : State → State → Bool
can_transition from to = elim (transitions from) [
  | none ↦ false
  | some allowed ↦ any (λ s. same s to) allowed
]

pub data TransitionError : Type 0 where
  unknown_source unknown_target : State → TransitionError
  illegal : State → State → TransitionError

pub data Outcome : Type 0 where
  moved : State → Outcome
  refused : TransitionError → Outcome

unfoldable pub transition : State → State → Outcome
transition from to =
    if valid from
    then if valid to
      then if can_transition from to then moved to else refused (illegal from to)
      else refused (unknown_target to)
    else refused (unknown_source from)
