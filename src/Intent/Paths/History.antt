-- ===== src/Intent/Paths/History.antt =====
-- What a purchase intent has gone through, whatever moves were asked for (internal/domain/intent/state_machine.go).
use mathlib.Core.List.{Memᴰ}
use algebra.Prelude.{◌≡◌, refl, ◌⊎◌, Bool, true, false, some, List, arith}
use algebra.Prelude.Gates.{follow, follow-Memᴰ}
use algebra.Intent.State.{
  State, draft, policy_check, policy_rejected, approval_required, approved, reapproval_required,
  executing, authentication_required, succeeded, partially_completed,
  merchant_intervention_required, user_intervention_required, transitions,
}
use algebra.Intent.Paths.{OneOf, accepted, accepted-target, can_OneOf, targets}

module _ (inside : State → Bool) (gate : State)
    (table : (s t : State)
      → inside s ≡ false
      → OneOf t (targets (transitions s))
      → (t ≡ gate) ⊎ (inside t ≡ false)) where
  enter :
      (s t u : State) → inside s ≡ false → accepted s t ≡ some u → (t ≡ gate) ⊎ (inside u ≡ false)
  enter s t u out h =
      let (e, can) = accepted-target s t u h in rw e (table s t out (can_OneOf s t can))

  passes_gate :
      (ts : List State) (u : State)
      → inside draft ≡ false
      → follow accepted draft ts ≡ some u
      → inside u ≡ true
      → Memᴰ gate ts
  passes_gate ts u out e h = follow-Memᴰ accepted inside gate enter draft ts u out e h

-- The states that are entered only by or after the execution, after an approval, and after the
-- policy was asked.
abbrev placed : State → Bool
placed executing = true
placed authentication_required = true
placed succeeded = true
placed partially_completed = true
placed merchant_intervention_required = true
placed user_intervention_required = true
placed _ = false

abbrev cleared : State → Bool
cleared approved = true
cleared reapproval_required = true
cleared s = placed s

abbrev judged : State → Bool
judged policy_check = true
judged policy_rejected = true
judged approval_required = true
judged s = cleared s

table_judged :
    (s t : State)
    → judged s ≡ false
    → OneOf t (targets (transitions s))
    → (t ≡ policy_check) ⊎ (judged t ≡ false)
unfolding transitions
table_judged draft t out h = ground arith
table_judged _ t out h = ground arith

table_cleared :
    (s t : State)
    → cleared s ≡ false
    → OneOf t (targets (transitions s))
    → (t ≡ approved) ⊎ (cleared t ≡ false)
unfolding transitions
table_cleared draft t out h = ground arith
table_cleared _ t out h = ground arith

table_placed :
    (s t : State)
    → placed s ≡ false
    → OneOf t (targets (transitions s))
    → (t ≡ executing) ⊎ (placed t ≡ false)
unfolding transitions
table_placed draft t out h = ground arith
table_placed _ t out h = ground arith

-- Whatever moves are asked for, an intent that started as a draft and has succeeded went through
-- the policy check, an approval and the execution.
pub purchase_history :
    (ts : List State)
    → follow accepted draft ts ≡ some succeeded
    → Memᴰ policy_check ts × Memᴰ approved ts × Memᴰ executing ts
purchase_history ts e = (
  passes_gate judged policy_check table_judged ts succeeded refl e refl,
  passes_gate cleared approved table_cleared ts succeeded refl e refl,
  passes_gate placed executing table_placed ts succeeded refl e refl,
)
