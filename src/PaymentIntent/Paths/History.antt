-- ===== src/PaymentIntent/Paths/History.antt =====
-- What a payment intent has gone through, whatever moves were asked for (internal/domain/paymentintent/state_machine.go).
use mathlib.Core.List.{Memᴰ}
use algebra.Prelude.{◌≡◌, ◌≢◌, refl, sym, true_ne_false, ◌⊎◌, Bool, true, false, some, List, arith}
use algebra.Prelude.Gates.{follow, follow-Memᴰ, follow-keeps}
use algebra.PaymentIntent.State.{
  State, draft, policy_evaluating, denied, approval_required, authorized, credential_preparing,
  ready_to_execute, processing, succeeded, failed, revoked, authentication_required,
  merchant_action_required, provider_unavailable, transitions,
}
use algebra.PaymentIntent.Paths.{OneOf, accepted, accepted-target, can_OneOf, targets}

module _ (inside : State → Bool) (gate : State)
    (table : (s t : State)
      → inside s ≡ false
      → OneOf t (targets (transitions s))
      → (t ≡ gate) ⊎ (inside t ≡ false)) where
  enter :
      (s t u : State) → inside s ≡ false → accepted s t ≡ some u → (t ≡ gate) ⊎ (inside u ≡ false)
  enter s t u out h =
      let (e, can) = accepted-target s t u h in rw e (table s t out (can_OneOf s t can))

  passes_gate :
      (ts : List State) (u : State)
      → inside draft ≡ false
      → follow accepted draft ts ≡ some u
      → inside u ≡ true
      → Memᴰ gate ts
  passes_gate ts u out e h = follow-Memᴰ accepted inside gate enter draft ts u out e h

-- The states that are entered only once the intent is processed, authorized, and judged.
abbrev charged : State → Bool
charged processing = true
charged succeeded = true
charged authentication_required = true
charged merchant_action_required = true
charged _ = false

abbrev cleared : State → Bool
cleared authorized = true
cleared credential_preparing = true
cleared ready_to_execute = true
cleared provider_unavailable = true
cleared failed = true
cleared s = charged s

abbrev judged : State → Bool
judged policy_evaluating = true
judged denied = true
judged approval_required = true
judged revoked = true
judged s = cleared s

table_judged :
    (s t : State)
    → judged s ≡ false
    → OneOf t (targets (transitions s))
    → (t ≡ policy_evaluating) ⊎ (judged t ≡ false)
unfolding transitions
table_judged draft t out h = ground arith
table_judged _ t out h = ground arith

table_cleared :
    (s t : State)
    → cleared s ≡ false
    → OneOf t (targets (transitions s))
    → (t ≡ authorized) ⊎ (cleared t ≡ false)
unfolding transitions
table_cleared draft t out h = ground arith
table_cleared _ t out h = ground arith

table_charged :
    (s t : State)
    → charged s ≡ false
    → OneOf t (targets (transitions s))
    → (t ≡ processing) ⊎ (charged t ≡ false)
unfolding transitions
table_charged draft t out h = ground arith
table_charged _ t out h = ground arith

-- Whatever moves are asked for, a payment intent that started as a draft and has succeeded was
-- judged by the policy, was authorized, and was processed; and none fails before it was authorized.
pub payment_history :
    (ts : List State)
    → (follow accepted draft ts ≡ some succeeded
        → Memᴰ policy_evaluating ts × Memᴰ authorized ts × Memᴰ processing ts)
      × (follow accepted draft ts ≡ some failed → Memᴰ authorized ts)
payment_history ts = (
  λ e. (
    passes_gate judged policy_evaluating table_judged ts succeeded refl e refl,
    passes_gate cleared authorized table_cleared ts succeeded refl e refl,
    passes_gate charged processing table_charged ts succeeded refl e refl,
  ),
  λ e. passes_gate cleared authorized table_cleared ts failed refl e refl,
)

-- The states that an intent which has left AUTHORIZED can be in.
abbrev left_authorized : State → Bool
left_authorized draft = false
left_authorized policy_evaluating = false
left_authorized approval_required = false
left_authorized authorized = false
left_authorized _ = true

table_left :
    (s t : State)
    → left_authorized s ≡ true
    → OneOf t (targets (transitions s))
    → left_authorized t ≡ true
unfolding transitions
table_left draft t h o = ground arith
table_left _ t h o = ground arith

keep_left :
    (s t u : State) → left_authorized s ≡ true → accepted s t ≡ some u → left_authorized u ≡ true
keep_left s t u h a =
    let (e, can) = accepted-target s t u a in rw e (table_left s t h (can_OneOf s t can))

-- A payment intent that has left AUTHORIZED, and one whose provider was unavailable in particular,
-- never gets back to it, whatever moves are asked for.
pub never_authorized_again :
    (ts : List State) → follow accepted credential_preparing ts ≢ some authorized
never_authorized_again ts e = true_ne_false (
    sym (follow-keeps accepted left_authorized keep_left credential_preparing ts authorized refl e))
