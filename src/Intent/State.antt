-- ===== src/Intent/State.antt =====
-- internal/domain/intent/state.go and state_machine.go. A state is a text in the source: `unknown` is
-- any text that is none of the constants.
use algebra.Prelude.{
  ℕ, String, Bool, true, false, ◌&&◌, Option, none, some, List, [], ◌∷◌, str_eq, ◌==◌,
  if◌then◌else◌, any,
}

pub data State : Type 0 where
  draft discovering quoted policy_check policy_rejected approval_required : State
  approved reapproval_required executing authentication_required succeeded : State
  failed cancelled expired partially_completed : State
  merchant_intervention_required user_intervention_required : State
  unknown : String → State

abbrev pub code : State → ℕ
code draft = 1
code discovering = 2
code quoted = 3
code policy_check = 4
code policy_rejected = 5
code approval_required = 6
code approved = 7
code reapproval_required = 8
code executing = 9
code authentication_required = 10
code succeeded = 11
code failed = 12
code cancelled = 13
code expired = 14
code partially_completed = 15
code merchant_intervention_required = 16
code user_intervention_required = 17
code (unknown s) = 0

abbrev pub name_of : State → String
name_of (unknown s) = s
name_of _ = ""

-- `a == b` on the texts: the constants differ from one another and from every unknown text.
abbrev pub same : State → State → Bool
same a b = code a == code b && str_eq (name_of a) (name_of b)

unfoldable pub terminal : State → Bool
terminal policy_rejected = true
terminal succeeded = true
terminal failed = true
terminal cancelled = true
terminal expired = true
terminal partially_completed = true
terminal _ = false

-- The map `transitions`; `none` is a key that it lacks.
unfoldable pub transitions : State → Option (List State)
transitions draft = some (discovering ∷ cancelled ∷ expired ∷ [])
transitions discovering = some (quoted ∷ failed ∷ cancelled ∷ expired ∷ [])
transitions quoted = some (policy_check ∷ cancelled ∷ expired ∷ [])
transitions policy_check = some (policy_rejected ∷ approval_required ∷ approved ∷ cancelled ∷ [])
transitions approval_required = some (approved ∷ cancelled ∷ expired ∷ [])
transitions approved = some (executing ∷ reapproval_required ∷ cancelled ∷ [])
transitions reapproval_required = some (approved ∷ cancelled ∷ expired ∷ [])
transitions executing = some (
    authentication_required ∷ succeeded ∷ failed ∷ merchant_intervention_required
    ∷ user_intervention_required ∷ partially_completed ∷ [])
transitions authentication_required = some (succeeded ∷ failed ∷ expired ∷ [])
transitions merchant_intervention_required = some (executing ∷ failed ∷ cancelled ∷ [])
transitions user_intervention_required = some (executing ∷ failed ∷ cancelled ∷ [])
transitions policy_rejected = some []
transitions succeeded = some []
transitions failed = some []
transitions cancelled = some []
transitions expired = some []
transitions partially_completed = some []
transitions (unknown s) = none

abbrev pub is_some {ℓ} : {A : Type ℓ} → Option A → Bool
is_some none = false
is_some (some a) = true

unfoldable pub valid : State → Bool
valid s = is_some (transitions s)

unfoldable pub can_transition : State → State → Bool
can_transition from to = elim (transitions from) [
  | none ↦ false
  | some allowed ↦ any (λ s. same s to) allowed
]

pub data TransitionError : Type 0 where
  unknown_source unknown_target : State → TransitionError
  illegal : State → State → TransitionError

pub data Outcome : Type 0 where
  moved : State → Outcome
  refused : TransitionError → Outcome

unfoldable pub transition : State → State → Outcome
transition from to =
    if valid from
    then if valid to
      then if can_transition from to then moved to else refused (illegal from to)
      else refused (unknown_target to)
    else refused (unknown_source from)
