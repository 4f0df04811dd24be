-- ===== src/App/PaymentIntents/InForce.antt =====
-- The policy that a payment intent is judged by (internal/app/policy_set_service.go and
-- payment_intent_service.go).
use algebra.Prelude.{
  String, ◌≡◌, refl, sym, ◌∙◌, ap, ◌⊎◌, inl, inr, Bool, true, Option, none, some, List, [], ◌∷◌,
  Bool-cases, of_some, none_ne_some, ltb,
}
use mathlib.Core.List.{Memᴰ}
use algebra.Approval.{Approval}
use algebra.App.World.{World, Ledger, PolicySet}
use algebra.App.Exec.{
  Result, ok, err, not_found, unauthorized, conflict, invalid, unavailable, not_implemented,
  quota_exceeded, transition, purchase_transition,
}
use algebra.App.Keeps.{
  Ends, Attempted, Leads, Leads-raise, Leads-pure, Leads-then, Leads-attempt, Leads-bind,
}
use algebra.App.Ledger.{Leads-statement}
use algebra.App.Stores.{or_missing, is_for, newer_version, newest_version, policy_sets_get_active}
use algebra.App.PaymentIntents.Create.{own_or_default, get_active, or_conflict}

found_in :
    (p : PolicySet → Bool) (rows : List PolicySet) (s : PolicySet)
    → newest_version p rows ≡ some s
    → Memᴰ s rows × (p s ≡ true)
unfolding newest_version
found_in p [] s e = absurd (none_ne_some e)
found_in p (x ∷ rows) s e = elim (Bool-cases (p x)) [
  | inl h ↦ go (found_in p rows s) (newest_version p rows) refl h (of_some (rw h at e))
  | inr h ↦ let (m, k) = found_in p rows s (rw h at e) in (Memᴰ.tail m, k)
]
  where
    here : p x ≡ true → x ≡ s → Memᴰ s (x ∷ rows) × (p s ≡ true)
    here h same = (Memᴰ.head (sym same), ap p (sym same) ∙ h)

    go :
        (newest_version p rows ≡ some s → Memᴰ s rows × (p s ≡ true))
        → (o : Option PolicySet) → newest_version p rows ≡ o
        → p x ≡ true
        → newer_version x o ≡ s
        → Memᴰ s (x ∷ rows) × (p s ≡ true)
    go rest none f h n = here h n
    go rest (some t) f h n = elim (Bool-cases (ltb x.version t.version)) [
      | inl older ↦ let (m, k) = rest (f ∙ ap (λ r. some r) (rw older at n)) in (Memᴰ.tail m, k)
      | inr newest ↦ here h (rw newest at n)
    ]

-- A policy that is in force for the user, or for the whole tenant.
abbrev pub Chosen : List PolicySet → String → Option String → PolicySet → Type 0
Chosen sets tenant user s = Memᴰ s sets × (is_for tenant user s ≡ true)

abbrev pub InForce : List PolicySet → String → String → PolicySet → Type 0
InForce sets tenant user s = Chosen sets tenant (some user) s ⊎ Chosen sets tenant none s

module _ (sets : List PolicySet) (rows : List Approval) where
  -- The policies and the approvals as they were at the start.
  abbrev pub Before : Ledger → Type 0
  Before l = (l.policy_sets ≡ sets) × (l.approvals ≡ rows)

  Leads-policy :
      (tenant : String) (user : Option String)
      → Leads Before Before
          (policy_sets_get_active tenant user)
          (λ s l. Chosen sets tenant user s × Before l)
  unfolding policy_sets_get_active
  Leads-policy tenant user =
      Leads-statement _ (λ l h. h) (λ s l h. h.1)
        (record {
          at = λ w h. go w (newest_version (is_for tenant user) w.ledger.policy_sets) refl h;
        })
    where
      go :
          (w : World) (o : Option PolicySet)
          → newest_version (is_for tenant user) w.ledger.policy_sets ≡ o
          → Before w.ledger
          → Ends Before (λ s l. Chosen sets tenant user s × Before l) (or_missing o, w)
      go w none e h = h
      go w (some s) e h = (
        found_in (is_for tenant user) sets s
            (ap (newest_version (is_for tenant user)) (sym h.0) ∙ e),
        h,
      )

  Leads-own_or_default :
      (tenant user : String) (r : Result PolicySet)
      → Leads Before
          (Attempted Before (λ s l. Chosen sets tenant (some user) s × Before l) r)
          (own_or_default tenant r)
          (λ s l. InForce sets tenant user s × Before l)
  Leads-own_or_default tenant user (ok s) = Leads-pure s (λ l h. (inl h.0, h.1))
  Leads-own_or_default tenant user (err not_found) =
      Leads-then (λ s l h. (inr h.0, h.1)) (Leads-policy tenant none)
  Leads-own_or_default tenant user (err unauthorized) = Leads-raise unauthorized (λ l h. h)
  Leads-own_or_default tenant user (err conflict) = Leads-raise conflict (λ l h. h)
  Leads-own_or_default tenant user (err invalid) = Leads-raise invalid (λ l h. h)
  Leads-own_or_default tenant user (err unavailable) = Leads-raise unavailable (λ l h. h)
  Leads-own_or_default tenant user (err not_implemented) = Leads-raise not_implemented (λ l h. h)
  Leads-own_or_default tenant user (err quota_exceeded) = Leads-raise quota_exceeded (λ l h. h)
  Leads-own_or_default tenant user (err (transition e)) = Leads-raise (transition e) (λ l h. h)
  Leads-own_or_default tenant user (err (purchase_transition e)) =
      Leads-raise (purchase_transition e) (λ l h. h)

  pub Leads-get_active :
      (tenant user : String)
      → Leads Before Before
          (get_active tenant (some user))
          (λ s l. InForce sets tenant user s × Before l)
  unfolding get_active
  Leads-get_active tenant user =
      Leads-bind _ _ (Leads-attempt _ _ (Leads-policy tenant (some user)))
        λ r. Leads-own_or_default tenant user r

  pub Leads-or_conflict :
      (tenant user : String) (r : Result PolicySet)
      → Leads Before
          (Attempted Before (λ s l. InForce sets tenant user s × Before l) r)
          (or_conflict r)
          (λ s l. InForce sets tenant user s × Before l)
  Leads-or_conflict tenant user (ok s) = Leads-pure s (λ l h. h)
  Leads-or_conflict tenant user (err not_found) = Leads-raise conflict (λ l h. h)
  Leads-or_conflict tenant user (err unauthorized) = Leads-raise unauthorized (λ l h. h)
  Leads-or_conflict tenant user (err conflict) = Leads-raise conflict (λ l h. h)
  Leads-or_conflict tenant user (err invalid) = Leads-raise invalid (λ l h. h)
  Leads-or_conflict tenant user (err unavailable) = Leads-raise unavailable (λ l h. h)
  Leads-or_conflict tenant user (err not_implemented) = Leads-raise not_implemented (λ l h. h)
  Leads-or_conflict tenant user (err quota_exceeded) = Leads-raise quota_exceeded (λ l h. h)
  Leads-or_conflict tenant user (err (transition e)) = Leads-raise (transition e) (λ l h. h)
  Leads-or_conflict tenant user (err (purchase_transition e)) =
      Leads-raise (purchase_transition e) (λ l h. h)
