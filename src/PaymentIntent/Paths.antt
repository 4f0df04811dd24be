-- ===== src/PaymentIntent/Paths.antt =====
-- Which histories the table of state_machine.go allows.
pub mod History
pub mod Reach
use mathlib.Core.List.{Memᴰ}
use algebra.Prelude.{
  ℕ, String, ◌≡◌, ◌≢◌, refl, sym, ◌∙◌, any, ◌==◌, if◌then◌else◌, none_ne_some, true_ne_false, ◌⊎◌,
  inl, inr, ◌↔◌, Bool, true, false, Option, none, some, List, [], ◌∷◌, arith, eq_iff, Bool-cases,
}
use mathlib.Core.Path.{ap₂}
use algebra.Prelude.Gates.{follow, follow-Memᴰ, follow-keeps}
use algebra.PaymentIntent.State.{
  State, draft, policy_evaluating, denied, approval_required, authorized, credential_preparing,
  ready_to_execute, processing, succeeded, failed, expired, revoked, cancelled,
  authentication_required, merchant_action_required, provider_unavailable, unknown, code, name_of,
  same, transitions, terminal, valid, can_transition, moved, refused, transition,
}

unfoldable pub accepted : State → State → Option State
accepted s t = elim (transition s t) [ moved u ↦ some u | refused e ↦ none ]

-- A state from its number and its text.
abbrev decode : ℕ → String → State
decode n s =
    if n == 1
    then draft
    else if n == 2
    then policy_evaluating
    else if n == 3
    then denied
    else if n == 4
    then approval_required
    else if n == 5
    then authorized
    else if n == 6
    then credential_preparing
    else if n == 7
    then ready_to_execute
    else if n == 8
    then processing
    else if n == 9
    then succeeded
    else if n == 10
    then failed
    else if n == 11
    then expired
    else if n == 12
    then revoked
    else if n == 13
    then cancelled
    else if n == 14
    then authentication_required
    else if n == 15
    then merchant_action_required
    else if n == 16
    then provider_unavailable
    else unknown s

decode-code : (s : State) → decode (code s) (name_of s) ≡ s
decode-code draft = refl
decode-code policy_evaluating = refl
decode-code denied = refl
decode-code approval_required = refl
decode-code authorized = refl
decode-code credential_preparing = refl
decode-code ready_to_execute = refl
decode-code processing = refl
decode-code succeeded = refl
decode-code failed = refl
decode-code expired = refl
decode-code revoked = refl
decode-code cancelled = refl
decode-code authentication_required = refl
decode-code merchant_action_required = refl
decode-code provider_unavailable = refl
decode-code (unknown s) = refl

same_eq : (a b : State) → same a b ≡ true → a ≡ b
same_eq a b h =
    let codes : code a ≡ code b = ground arith in
    let names : name_of a ≡ name_of b = ground (arith, eq_iff (name_of a) (name_of b)) in
    sym (decode-code a) ∙ ap₂ decode codes names ∙ decode-code b

abbrev OneOf : State → List State → Type 0
OneOf t [] = ⊥
OneOf t (x ∷ xs) = (x ≡ t) ⊎ OneOf t xs

any-OneOf : (l : List State) (t : State) → any (λ s. same s t) l ≡ true → OneOf t l
any-OneOf [] t h = cc
any-OneOf (x ∷ xs) t h = elim (Bool-cases (same x t)) [
  | inl e ↦ inl (same_eq x t e)
  | inr e ↦ inr (any-OneOf xs t (rw e at h))
]

abbrev targets : Option (List State) → List State
targets none = []
targets (some l) = l

allowed-OneOf :
    (o : Option (List State)) (t : State)
    → elim o [ none ↦ false | some allowed ↦ any (λ s. same s t) allowed ] ≡ true
    → OneOf t (targets o)
allowed-OneOf none t h = cc
allowed-OneOf (some l) t h = any-OneOf l t h

can_OneOf : (s t : State) → can_transition s t ≡ true → OneOf t (targets (transitions s))
unfolding can_transition
can_OneOf s t h = allowed-OneOf (transitions s) t h

-- An accepted move goes where it was asked to, along the table.
accepted-target : (s t u : State) → accepted s t ≡ some u → (u ≡ t) × (can_transition s t ≡ true)
unfolding accepted transition
accepted-target s t u h = ground arith

-- A state that each live state can move to.
abbrev exit : State → State
exit credential_preparing = failed
exit processing = failed
exit authentication_required = failed
exit s = cancelled

terminal_stuck : (s t : State) → terminal s ≡ true → accepted s t ≡ none
unfolding terminal accepted transition valid can_transition transitions
terminal_stuck draft t h = cc
terminal_stuck _ t h = ground arith

live_exit : (s : State) → valid s ≡ true → terminal s ≡ false → accepted s (exit s) ≡ some (exit s)
unfolding terminal accepted transition valid can_transition transitions
live_exit draft v h = refl
live_exit processing v h = refl
live_exit _ v h = ground arith

-- A known state refuses every move exactly if it is one that `Terminal` names.
pub payment_terminal_iff :
    (s : State) → valid s ≡ true → (terminal s ≡ true) ↔ ((t : State) → accepted s t ≡ none)
payment_terminal_iff s v = (
  λ h t. terminal_stuck s t h,
  λ stuck. elim (Bool-cases (terminal s)) [
    | inl h ↦ h
    | inr h ↦ absurd (none_ne_some (sym (stuck (exit s)) ∙ live_exit s v h))
  ],
)
