-- ===== src/App/PolicySets/Single.antt =====
-- The number of active policies of a tenant and user, over runs of `SetPolicy`
-- (internal/app/policy_set_service.go).
use algebra.Prelude.{
  ℕ, ◌^◌, ◌≤◌, String, ◌≡◌, refl, sym, ◌∙◌, Option, none, some, List, [], ◌∷◌, map, length, arith,
  ltb, str_eq, Bool-cases, inl, inr,
}
use algebra.Policy.Rules.{Rules}
use algebra.App.World.{World, Ledger, PolicySet}
use algebra.App.Exec.{
  Exec, Result, ok, err, not_found, unauthorized, conflict, invalid, unavailable, not_implemented,
  quota_exceeded, transition, purchase_transition,
}
use algebra.App.Keeps.{
  Ends, Quiet, quiet_rules, Leads, Leads-Quiet, Leads-pure, Leads-bind, Quiet-now, Quiet-new_id,
}
use algebra.App.Quiet.{Quiet-policy_sets_get_active}
use algebra.App.Ledger.{Leads-statement}
use algebra.App.Stores.{find, is_for}
use algebra.App.PolicySets.{
  supersede, policy_sets_supersede_active, insert_policy_set, policy_sets_create, next_version,
  set_policy,
}
use algebra.App.PolicySets.Versions.{
  is_pair, is_pair_lem, is_for_parts, actives, actives-supersede_same, actives-supersede_other,
}

-- No tenant and user have two active policies.
abbrev pub Single : List PolicySet → Type 0
Single sets = (t : String) (u : Option String) → length (actives t u sets) ≤ 1

abbrev Kept : Ledger → Type 0
Kept l = Single l.policy_sets

module _ (tenant : String) (user : Option String) where
  -- And this one has none.
  abbrev Free : Ledger → Type 0
  Free l = Kept l × (actives tenant user l.policy_sets ≡ [])

  Leads-supersede_active :
      (t : ℕ) → Leads Kept Kept (policy_sets_supersede_active tenant user t) (λ _. Free)
  unfolding policy_sets_supersede_active
  Leads-supersede_active t =
      Leads-statement _ (λ l h. h) (λ a l h. h.0)
        (record {
          at = λ w h. (single w.ledger.policy_sets h, actives-supersede_same tenant user t _);
        })
    where
      single : (sets : List PolicySet) → Single sets → Single (map (supersede tenant user t) sets)
      single sets h t' u = elim (Bool-cases (is_pair tenant user t' u)) [
        | inl same ↦
            let (a, b) = is_pair_lem tenant user t' u same in
            let gone =
              (λ i. actives (sym a i) (sym b i) (map (supersede tenant user t) sets))
              ∙ actives-supersede_same tenant user t sets in
            rw gone (omega arith)
        | inr other ↦ rw (actives-supersede_other tenant user t t' u sets other) (h t' u)
      ]

  Leads-policy_sets_create :
      (s : PolicySet)
      → s.tenant_id ≡ tenant
      → s.user_id ≡ user
      → Leads Kept Free (policy_sets_create s) (λ _. Kept)
  unfolding policy_sets_create
  Leads-policy_sets_create s a b =
      Leads-statement _ (λ l h. h.0) (λ x l h. h)
        (record {
          at = λ w h. go w (find (λ (row : PolicySet). str_eq row.id s.id) w.ledger.policy_sets) h;
        })
    where
      single :
          (sets : List PolicySet) → Single sets → actives tenant user sets ≡ [] → Single (s ∷ sets)
      single sets h free t u = elim (Bool-cases (is_for t u s)) [
        | inl new ↦
            let (c, d) = is_for_parts t u s new in
            let gone = (λ i. actives ((sym c ∙ a) i) ((sym d ∙ b) i) sets) ∙ free in
            rw (new, gone) (omega arith)
        | inr other ↦ rw other (h t u)
      ]

      go :
          (w : World) (o : Option PolicySet)
          → Free w.ledger
          → Ends Kept (λ _. Kept) (insert_policy_set s o w)
      go w none h = elim (Bool-cases (ltb s.version (2 ^ 31))) [
        | inl fits ↦ rw fits (single w.ledger.policy_sets h.0 h.1)
        | inr big ↦ rw big h.0
      ]
      go w (some old) h = h.0

  Quiet-next_version : (r : Result PolicySet) → Quiet (next_version r)
  Quiet-next_version (ok s) = search quiet_rules
  Quiet-next_version (err not_found) = search quiet_rules
  Quiet-next_version (err unauthorized) = search quiet_rules
  Quiet-next_version (err conflict) = search quiet_rules
  Quiet-next_version (err invalid) = search quiet_rules
  Quiet-next_version (err unavailable) = search quiet_rules
  Quiet-next_version (err not_implemented) = search quiet_rules
  Quiet-next_version (err quota_exceeded) = search quiet_rules
  Quiet-next_version (err (transition e)) = search quiet_rules
  Quiet-next_version (err (purchase_transition e)) = search quiet_rules

  Leads-set_policy : (rules : Rules) → Leads Kept Kept (set_policy tenant user rules) (λ _. Kept)
  unfolding set_policy
  Leads-set_policy rules = Leads-bind _ _ (idle Quiet-now) λ t.
      Leads-bind _ _ (idle (search (quiet_rules, Quiet-policy_sets_get_active))) λ r.
        Leads-bind _ _ (idle (Quiet-next_version r)) λ v.
          Leads-bind _ _ (Leads-supersede_active t) λ u.
            Leads-bind _ _ (Leads-Quiet _ (λ l h. h.0) Quiet-new_id) λ id.
              Leads-bind _ _ (Leads-policy_sets_create _ refl refl) λ u'. Leads-pure _ (λ l h. h)
    where
      idle : {B : Type 0} {m : Exec B} → Quiet m → Leads Kept Kept m (λ _. Kept)
      idle q = Leads-Quiet _ (λ l h. h) q

-- A request to replace a policy.
pub record Setting : Type 0 where
  pub tenant : String
  pub user : Option String
  pub rules : Rules

abbrev pub run_settings : List Setting → World → World
run_settings [] w = w
run_settings (s ∷ rest) w = run_settings rest (set_policy s.tenant s.user s.rules w).1

-- However many policies are set one after the other, under whatever faults: no tenant and user have two
-- active policies afterwards, if none had two before.
pub one_active_policy :
    (settings : List Setting) (w : World)
    → Single w.ledger.policy_sets
    → Single (run_settings settings w).ledger.policy_sets
one_active_policy [] w h = h
one_active_policy (s ∷ rest) w h =
    one_active_policy rest _ (
      go (set_policy s.tenant s.user s.rules w) ((Leads-set_policy s.tenant s.user s.rules).at w h))
  where
    go : (r : Result PolicySet × World) → Ends Kept (λ _. Kept) r → Kept r.1.ledger
    go (ok a, w') k = k
    go (err e, w') k = k
