-- ===== src/Intent/Paths.antt =====
-- Which histories the table of state_machine.go allows.
pub mod History
pub mod Reach
use mathlib.Core.List.{Memᴰ}
use algebra.Prelude.{
  ℕ, String, ◌≡◌, refl, sym, ◌∙◌, any, ◌==◌, if◌then◌else◌, none_ne_some, ◌⊎◌, inl, inr, ◌↔◌, Bool,
  true, false, Option, none, some, List, [], ◌∷◌, arith, eq_iff, Bool-cases,
}
use mathlib.Core.Path.{ap₂}
use algebra.Prelude.Gates.{follow, follow-Memᴰ}
use algebra.Intent.State.{
  State, draft, discovering, quoted, policy_check, policy_rejected, approval_required, approved,
  reapproval_required, executing, authentication_required, succeeded, failed, cancelled, expired,
  partially_completed, merchant_intervention_required, user_intervention_required, unknown, code,
  name_of, same, transitions, terminal, valid, can_transition, moved, refused, transition,
}

unfoldable pub accepted : State → State → Option State
accepted s t = elim (transition s t) [ moved u ↦ some u | refused e ↦ none ]

-- A state from its number and its text.
abbrev decode : ℕ → String → State
decode n s =
    if n == 1
    then draft
    else if n == 2
    then discovering
    else if n == 3
    then quoted
    else if n == 4
    then policy_check
    else if n == 5
    then policy_rejected
    else if n == 6
    then approval_required
    else if n == 7
    then approved
    else if n == 8
    then reapproval_required
    else if n == 9
    then executing
    else if n == 10
    then authentication_required
    else if n == 11
    then succeeded
    else if n == 12
    then failed
    else if n == 13
    then cancelled
    else if n == 14
    then expired
    else if n == 15
    then partially_completed
    else if n == 16
    then merchant_intervention_required
    else if n == 17
    then user_intervention_required
    else unknown s

decode-code : (s : State) → decode (code s) (name_of s) ≡ s
decode-code draft = refl
decode-code discovering = refl
decode-code quoted = refl
decode-code policy_check = refl
decode-code policy_rejected = refl
decode-code approval_required = refl
decode-code approved = refl
decode-code reapproval_required = refl
decode-code executing = refl
decode-code authentication_required = refl
decode-code succeeded = refl
decode-code failed = refl
decode-code cancelled = refl
decode-code expired = refl
decode-code partially_completed = refl
decode-code merchant_intervention_required = refl
decode-code user_intervention_required = refl
decode-code (unknown s) = refl

same_eq : (a b : State) → same a b ≡ true → a ≡ b
same_eq a b h =
    let codes : code a ≡ code b = ground arith in
    let names : name_of a ≡ name_of b = ground (arith, eq_iff (name_of a) (name_of b)) in
    sym (decode-code a) ∙ ap₂ decode codes names ∙ decode-code b

abbrev OneOf : State → List State → Type 0
OneOf t [] = ⊥
OneOf t (x ∷ xs) = (x ≡ t) ⊎ OneOf t xs

any-OneOf : (l : List State) (t : State) → any (λ s. same s t) l ≡ true → OneOf t l
any-OneOf [] t h = cc
any-OneOf (x ∷ xs) t h = elim (Bool-cases (same x t)) [
  | inl e ↦ inl (same_eq x t e)
  | inr e ↦ inr (any-OneOf xs t (rw e at h))
]

abbrev targets : Option (List State) → List State
targets none = []
targets (some l) = l

allowed-OneOf :
    (o : Option (List State)) (t : State)
    → elim o [ none ↦ false | some allowed ↦ any (λ s. same s t) allowed ] ≡ true
    → OneOf t (targets o)
allowed-OneOf none t h = cc
allowed-OneOf (some l) t h = any-OneOf l t h

can_OneOf : (s t : State) → can_transition s t ≡ true → OneOf t (targets (transitions s))
unfolding can_transition
can_OneOf s t h = allowed-OneOf (transitions s) t h

-- An accepted move goes where it was asked to, along the table.
accepted-target : (s t u : State) → accepted s t ≡ some u → (u ≡ t) × (can_transition s t ≡ true)
unfolding accepted transition
accepted-target s t u h = ground arith

-- A state that each live state can move to.
abbrev exit : State → State
exit draft = cancelled
exit discovering = failed
exit quoted = policy_check
exit policy_check = policy_rejected
exit authentication_required = failed
exit executing = failed
exit s = cancelled

terminal_stuck : (s t : State) → terminal s ≡ true → accepted s t ≡ none
unfolding terminal accepted transition valid can_transition transitions
terminal_stuck draft t h = cc
terminal_stuck _ t h = ground arith

live_exit : (s : State) → valid s ≡ true → terminal s ≡ false → accepted s (exit s) ≡ some (exit s)
unfolding terminal accepted transition valid can_transition transitions
live_exit draft v h = refl
live_exit executing v h = refl
live_exit _ v h = ground arith

-- A known state refuses every move exactly if it is one that `Terminal` names.
pub purchase_terminal_iff :
    (s : State) → valid s ≡ true → (terminal s ≡ true) ↔ ((t : State) → accepted s t ≡ none)
purchase_terminal_iff s v = (
  λ h t. terminal_stuck s t h,
  λ stuck. elim (Bool-cases (terminal s)) [
    | inl h ↦ h
    | inr h ↦ absurd (none_ne_some (sym (stuck (exit s)) ∙ live_exit s v h))
  ],
)
