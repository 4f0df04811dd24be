-- ===== src/Policy/Decision.antt =====
-- policy/provider.go: decisions and how they are merged. The times are readings of the clock, taken
-- as an argument.
pub mod Merge
use algebra.Prelude.{
  ℕ, String, Bool, true, false, Option, none, some, List, [], ◌∷◌, ◌++◌, ltb, if◌then◌else◌, str_eq,
}
use algebra.Prelude.Int.{ℤ}

pub data Decision : Type 0 where
  allow deny require_approval : Decision

abbrev pub rank : Decision → ℕ
rank allow = 0
rank require_approval = 1
rank deny = 2

unfoldable pub worse : Decision → Decision → Decision
worse a b = if ltb (rank a) (rank b) then b else a

pub record ApprovalRequirement : Type 0 where
  pub reason : String

pub record PolicyDecision : Type 0 where
  pub decision : Decision
  pub reason_codes : List String
  pub policy_version : String
  pub approval_requirement : Option ApprovalRequirement
  pub evaluated_at : ℕ

abbrev pub or_else {ℓ} : {A : Type ℓ} → Option A → Option A → Option A
or_else (some a) o = some a
or_else none o = o

-- One round of the loop of `merge`; a nil result is skipped.
unfoldable pub merge_step : PolicyDecision → Option PolicyDecision → PolicyDecision
unfolding worse
merge_step out none = out
merge_step out (some r) = record out {
  decision = worse out.decision r.decision;
  reason_codes = out.reason_codes ++ r.reason_codes;
  policy_version = if str_eq r.policy_version "" then out.policy_version else r.policy_version;
  approval_requirement = or_else r.approval_requirement out.approval_requirement;
}

unfoldable pub merge_loop : PolicyDecision → List (Option PolicyDecision) → PolicyDecision
merge_loop out [] = out
merge_loop out (r ∷ rest) = merge_loop (merge_step out r) rest

abbrev pub default_requirement : Decision → Option ApprovalRequirement → Option ApprovalRequirement
default_requirement require_approval none =
    some (record { reason = "policy requires explicit user approval" })
default_requirement _ o = o

-- The last statement of `merge`: an approval is never required without a reason.
unfoldable pub with_requirement : PolicyDecision → PolicyDecision
with_requirement out = record out {
  approval_requirement = default_requirement out.decision out.approval_requirement;
}

abbrev pub fresh : ℕ → PolicyDecision
fresh now = record {
  decision = allow;
  reason_codes = [];
  policy_version = "";
  approval_requirement = none;
  evaluated_at = now;
}

unfoldable pub merge : ℕ → List (Option PolicyDecision) → PolicyDecision
unfolding merge_loop with_requirement merge_step
merge now results = with_requirement (merge_loop (fresh now) results)

-- What a provider is asked about. Texts that are only compared are strings, and the USDC amount,
-- which is parsed, is its bytes.
pub record Input : Type 0 where
  pub user_id : String
  pub agent_id : String
  pub merchant : String
  pub category : String
  pub amount_minor_units : ℤ
  pub currency : String
  pub payment_profile : String
  pub shipping_profile : String
  pub international : Bool
  pub spend_today_minor_units : ℤ
  pub crypto_recipient : String
  pub amount_usdc : List ℕ
