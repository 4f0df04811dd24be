-- ===== src/PaymentIntent/Paths/Reach.antt =====
-- Which states a payment intent can reach (internal/domain/paymentintent/state_machine.go).
use algebra.Prelude.{◌≡◌, refl, true, false, some, List, [], ◌∷◌}
use algebra.Prelude.Gates.{follow}
use algebra.PaymentIntent.State.{
  State, draft, policy_evaluating, denied, approval_required, authorized, credential_preparing,
  ready_to_execute, processing, succeeded, failed, expired, revoked, cancelled,
  authentication_required, merchant_action_required, provider_unavailable, unknown, transitions,
  terminal, valid, can_transition, transition,
}
use algebra.PaymentIntent.Paths.{accepted}

-- Moves from a draft to each known state.
abbrev pub way_in : State → List State
way_in draft = []
way_in policy_evaluating = policy_evaluating ∷ []
way_in denied = policy_evaluating ∷ denied ∷ []
way_in approval_required = policy_evaluating ∷ approval_required ∷ []
way_in authorized = policy_evaluating ∷ authorized ∷ []
way_in credential_preparing = policy_evaluating ∷ authorized ∷ credential_preparing ∷ []
way_in ready_to_execute =
    policy_evaluating ∷ authorized ∷ credential_preparing ∷ ready_to_execute ∷ []
way_in processing =
    policy_evaluating ∷ authorized ∷ credential_preparing ∷ ready_to_execute ∷ processing ∷ []
way_in expired = expired ∷ []
way_in revoked = policy_evaluating ∷ authorized ∷ revoked ∷ []
way_in cancelled = cancelled ∷ []
way_in s =
    policy_evaluating ∷ authorized ∷ credential_preparing ∷ ready_to_execute ∷ processing ∷ s ∷ []

abbrev pub way_out : State → List State
way_out credential_preparing = failed ∷ []
way_out processing = failed ∷ []
way_out authentication_required = failed ∷ []
way_out s = cancelled ∷ []

-- Every known state can be reached from a draft, and from every known state that is not terminal a
-- terminal one can be reached.
pub payment_reachable :
    (s : State)
    → valid s ≡ true
    → (follow accepted draft (way_in s) ≡ some s)
      × (terminal s ≡ false
          → (t : State) × (follow accepted s (way_out s) ≡ some t) × (terminal t ≡ true))
unfolding terminal accepted transition valid can_transition transitions
payment_reachable draft v = (refl, λ h. (cancelled, refl, refl))
payment_reachable policy_evaluating v = (refl, λ h. (cancelled, refl, refl))
payment_reachable denied v = (refl, λ h. absurd (cc))
payment_reachable approval_required v = (refl, λ h. (cancelled, refl, refl))
payment_reachable authorized v = (refl, λ h. (cancelled, refl, refl))
payment_reachable credential_preparing v = (refl, λ h. (failed, refl, refl))
payment_reachable ready_to_execute v = (refl, λ h. (cancelled, refl, refl))
payment_reachable processing v = (refl, λ h. (failed, refl, refl))
payment_reachable succeeded v = (refl, λ h. absurd (cc))
payment_reachable failed v = (refl, λ h. absurd (cc))
payment_reachable expired v = (refl, λ h. absurd (cc))
payment_reachable revoked v = (refl, λ h. absurd (cc))
payment_reachable cancelled v = (refl, λ h. absurd (cc))
payment_reachable authentication_required v = (refl, λ h. (failed, refl, refl))
payment_reachable merchant_action_required v = (refl, λ h. (cancelled, refl, refl))
payment_reachable provider_unavailable v = (refl, λ h. (cancelled, refl, refl))
payment_reachable (unknown x) v = absurd (cc)
