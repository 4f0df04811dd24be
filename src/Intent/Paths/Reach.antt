-- ===== src/Intent/Paths/Reach.antt =====
-- Which states a purchase intent can reach (internal/domain/intent/state_machine.go).
use algebra.Prelude.{◌≡◌, refl, true, false, some, List, [], ◌∷◌}
use algebra.Prelude.Gates.{follow}
use algebra.Intent.State.{
  State, draft, discovering, quoted, policy_check, policy_rejected, approval_required, approved,
  reapproval_required, executing, authentication_required, succeeded, failed, cancelled, expired,
  partially_completed, merchant_intervention_required, user_intervention_required, unknown,
  transitions, terminal, valid, can_transition, transition,
}
use algebra.Intent.Paths.{accepted}

-- Moves from a draft to each known state.
abbrev pub way_in : State → List State
way_in draft = []
way_in discovering = discovering ∷ []
way_in quoted = discovering ∷ quoted ∷ []
way_in policy_check = discovering ∷ quoted ∷ policy_check ∷ []
way_in policy_rejected = discovering ∷ quoted ∷ policy_check ∷ policy_rejected ∷ []
way_in approval_required = discovering ∷ quoted ∷ policy_check ∷ approval_required ∷ []
way_in approved = discovering ∷ quoted ∷ policy_check ∷ approved ∷ []
way_in failed = discovering ∷ failed ∷ []
way_in cancelled = cancelled ∷ []
way_in expired = expired ∷ []
way_in reapproval_required =
    discovering ∷ quoted ∷ policy_check ∷ approved ∷ reapproval_required ∷ []
way_in executing = discovering ∷ quoted ∷ policy_check ∷ approved ∷ executing ∷ []
way_in s = discovering ∷ quoted ∷ policy_check ∷ approved ∷ executing ∷ s ∷ []

abbrev pub way_out : State → List State
way_out discovering = failed ∷ []
way_out executing = failed ∷ []
way_out authentication_required = failed ∷ []
way_out s = cancelled ∷ []

-- Every known state can be reached from a draft, and from every known state that is not terminal a
-- terminal one can be reached.
pub purchase_reachable :
    (s : State)
    → valid s ≡ true
    → (follow accepted draft (way_in s) ≡ some s)
      × (terminal s ≡ false
          → (t : State) × (follow accepted s (way_out s) ≡ some t) × (terminal t ≡ true))
unfolding terminal accepted transition valid can_transition transitions
purchase_reachable draft v = (refl, λ h. (cancelled, refl, refl))
purchase_reachable discovering v = (refl, λ h. (failed, refl, refl))
purchase_reachable quoted v = (refl, λ h. (cancelled, refl, refl))
purchase_reachable policy_check v = (refl, λ h. (cancelled, refl, refl))
purchase_reachable policy_rejected v = (refl, λ h. absurd (cc))
purchase_reachable approval_required v = (refl, λ h. (cancelled, refl, refl))
purchase_reachable approved v = (refl, λ h. (cancelled, refl, refl))
purchase_reachable reapproval_required v = (refl, λ h. (cancelled, refl, refl))
purchase_reachable executing v = (refl, λ h. (failed, refl, refl))
purchase_reachable authentication_required v = (refl, λ h. (failed, refl, refl))
purchase_reachable succeeded v = (refl, λ h. absurd (cc))
purchase_reachable failed v = (refl, λ h. absurd (cc))
purchase_reachable cancelled v = (refl, λ h. absurd (cc))
purchase_reachable expired v = (refl, λ h. absurd (cc))
purchase_reachable partially_completed v = (refl, λ h. absurd (cc))
purchase_reachable merchant_intervention_required v = (refl, λ h. (cancelled, refl, refl))
purchase_reachable user_intervention_required v = (refl, λ h. (cancelled, refl, refl))
purchase_reachable (unknown x) v = absurd (cc)
