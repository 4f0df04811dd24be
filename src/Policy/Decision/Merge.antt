-- ===== src/Policy/Decision/Merge.antt =====
-- The merge of provider.go against an order-free description: the worst decision of the inputs.
use algebra.Prelude.{
  ℕ, ◌≤◌, ◌≡◌, refl, sym, ◌∙◌, ◌⊎◌, inl, inr, ◌↔◌, ◌≢◌, Option, none, some, List, [], ◌∷◌, arith,
  All,
}
use mathlib.Core.Path.{subst}
use algebra.Policy.Decision.{
  Decision, allow, deny, require_approval, rank, PolicyDecision, merge_step, merge_loop, fresh,
  merge,
}

-- Some result that is not nil decided `d`.
abbrev pub Decided : Decision → List (Option PolicyDecision) → Type 0
Decided d [] = ⊥
Decided d (none ∷ rest) = Decided d rest
Decided d (some r ∷ rest) = (r.decision ≡ d) ⊎ Decided d rest

-- A result, if it is not nil, is no worse than `d`.
abbrev pub AtMost : Decision → Option PolicyDecision → Type 0
AtMost d none = Unit
AtMost d (some r) = rank r.decision ≤ rank d

step-grows :
    (out : PolicyDecision) (r : Option PolicyDecision)
    → rank out.decision ≤ rank (merge_step out r).decision
unfolding merge_step
step-grows out none = omega arith
step-grows out (some r) = ground arith

loop-grows :
    (out : PolicyDecision) (rs : List (Option PolicyDecision))
    → rank out.decision ≤ rank (merge_loop out rs).decision
unfolding merge_loop
loop-grows out [] = omega arith
loop-grows out (r ∷ rs) = omega (arith, step-grows out r, loop-grows (merge_step out r) rs)

step-AtMost :
    (out : PolicyDecision) (r : PolicyDecision)
    → rank r.decision ≤ rank (merge_step out (some r)).decision
unfolding merge_step
step-AtMost out r = ground arith

loop-AtMost :
    (out : PolicyDecision) (rs : List (Option PolicyDecision))
    → All (AtMost (merge_loop out rs).decision) rs
unfolding merge_loop
loop-AtMost out [] = tt
loop-AtMost out (none ∷ rs) = (tt, loop-AtMost (merge_step out none) rs)
loop-AtMost out (some r ∷ rs) = (
  omega (arith, step-AtMost out r, loop-grows (merge_step out (some r)) rs),
  loop-AtMost (merge_step out (some r)) rs,
)

step-choice :
    (out r : PolicyDecision)
    → ((merge_step out (some r)).decision ≡ out.decision)
      ⊎ ((merge_step out (some r)).decision ≡ r.decision)
unfolding merge_step
step-choice out r = ground arith

loop-Decided :
    (out : PolicyDecision) (rs : List (Option PolicyDecision))
    → ((merge_loop out rs).decision ≡ out.decision) ⊎ Decided (merge_loop out rs).decision rs
unfolding merge_loop merge_step
loop-Decided out [] = inl refl
loop-Decided out (none ∷ rs) = loop-Decided out rs
loop-Decided out (some r ∷ rs) = elim (loop-Decided (merge_step out (some r)) rs) [
  | inl e ↦ elim (step-choice out r) [ inl p ↦ inl (e ∙ p) | inr q ↦ inr (inl (sym (e ∙ q))) ]
  | inr d ↦ inr (inr d)
]

-- The merged decision is at least as severe as that of every result, and it is ALLOW or was taken
-- by one of them.
pub merge_worst :
    (now : ℕ) (rs : List (Option PolicyDecision))
    → All (AtMost (merge now rs).decision) rs
      × (((merge now rs).decision ≡ allow) ⊎ Decided (merge now rs).decision rs)
unfolding merge
merge_worst now rs = (loop-AtMost (fresh now) rs, loop-Decided (fresh now) rs)

allow_of_rank : (a d : Decision) → d ≡ allow → rank a ≤ rank d → a ≡ allow
allow_of_rank a d e h = ground arith

deny_of_rank : (a d : Decision) → a ≡ deny → rank a ≤ rank d → d ≡ deny
deny_of_rank a d e h = ground arith

allow_ne_deny : allow ≢ deny
allow_ne_deny e = cc

allow_ne_ask : allow ≢ require_approval
allow_ne_ask e = cc

abbrev pub Allows : Option PolicyDecision → Type 0
Allows none = Unit
Allows (some r) = r.decision ≡ allow

Allows-AtMost :
    (d : Decision) (rs : List (Option PolicyDecision))
    → d ≡ allow
    → All (AtMost d) rs
    → All Allows rs
Allows-AtMost d [] e h = tt
Allows-AtMost d (none ∷ rs) e h = (tt, Allows-AtMost d rs e h.1)
Allows-AtMost d (some r ∷ rs) e h = (allow_of_rank r.decision d e h.0, Allows-AtMost d rs e h.1)

Decided-Allows :
    (d : Decision) (rs : List (Option PolicyDecision)) → All Allows rs → Decided d rs → d ≡ allow
Decided-Allows d [] a h = absurd h
Decided-Allows d (none ∷ rs) a h = Decided-Allows d rs a.1 h
Decided-Allows d (some r ∷ rs) a (inl e) = sym e ∙ a.0
Decided-Allows d (some r ∷ rs) a (inr h) = Decided-Allows d rs a.1 h

-- The merge allows exactly when every result allows.
pub merge-allow_iff :
    (now : ℕ) (rs : List (Option PolicyDecision))
    → ((merge now rs).decision ≡ allow) ↔ All Allows rs
merge-allow_iff now rs =
    let (worst, chosen) = merge_worst now rs in
    (
      λ e. Allows-AtMost (merge now rs).decision rs e worst,
      λ a. elim chosen [ inl e ↦ e | inr d ↦ Decided-Allows (merge now rs).decision rs a d ],
    )

deny_AtMost :
    (d : Decision) (rs : List (Option PolicyDecision))
    → Decided deny rs
    → All (AtMost d) rs
    → d ≡ deny
deny_AtMost d [] h a = absurd h
deny_AtMost d (none ∷ rs) h a = deny_AtMost d rs h a.1
deny_AtMost d (some r ∷ rs) (inl e) a = deny_of_rank r.decision d e a.0
deny_AtMost d (some r ∷ rs) (inr h) a = deny_AtMost d rs h a.1

-- A denial by any check wins, and there is no other way to a denial.
pub merge_deny_iff :
    (now : ℕ) (rs : List (Option PolicyDecision))
    → ((merge now rs).decision ≡ deny) ↔ Decided deny rs
merge_deny_iff now rs =
    let (worst, chosen) = merge_worst now rs in
    (
      λ e. elim chosen [
        | inl a ↦ absurd (allow_ne_deny (sym a ∙ e))
        | inr d ↦ subst (λ x. Decided x rs) e d
      ],
      λ h. deny_AtMost (merge now rs).decision rs h worst,
    )

-- A result, if it is not nil, asks for no approval.
abbrev pub AsksNothing : Option PolicyDecision → Type 0
AsksNothing none = Unit
AsksNothing (some r) = r.decision ≢ require_approval

Decided-AsksNothing :
    (rs : List (Option PolicyDecision)) → All AsksNothing rs → ¬ Decided require_approval rs
Decided-AsksNothing [] a h = h
Decided-AsksNothing (none ∷ rs) a h = Decided-AsksNothing rs a.1 h
Decided-AsksNothing (some r ∷ rs) a (inl e) = a.0 e
Decided-AsksNothing (some r ∷ rs) a (inr h) = Decided-AsksNothing rs a.1 h

pub merge-AsksNothing :
    (now : ℕ) (rs : List (Option PolicyDecision))
    → All AsksNothing rs
    → (merge now rs).decision ≢ require_approval
merge-AsksNothing now rs a e = elim (merge_worst now rs).1 [
  | inl p ↦ allow_ne_ask (sym p ∙ e)
  | inr d ↦ Decided-AsksNothing rs a (subst (λ x. Decided x rs) e d)
]
