-- ===== src/App/PolicySets/Setting.antt =====
-- What `SetPolicy` leaves behind (internal/app/policy_set_service.go).
use algebra.Prelude.{
  ℕ, ◌+◌, ◌^◌, String, ◌≡◌, refl, sym, ap, ◌∙◌, Bool, true, false, ◌&&◌, Option, none, some, List,
  [], ◌∷◌, map, str_eq, ltb, Bool-cases, inl, inr, if◌then◌else◌,
}
use mathlib.Core.Path.{subst}
use algebra.Policy.Rules.{Rules}
use algebra.App.World.{World, Ledger, PolicySet, Fault, healthy, lost, unacknowledged}
use algebra.App.Exec.{
  Result, ok, err, not_found, unauthorized, conflict, invalid, unavailable, not_implemented,
  quota_exceeded, transition, purchase_transition, attempt, statement, under_fault, next_fault,
  tail,
}
use algebra.App.Keeps.{
  Ends, Leads, Leads-Quiet, Leads-raise, Leads-pure, Leads-bind, Leads-given, Quiet-now,
  Quiet-new_id,
}
use algebra.App.Ledger.{Leads-statement}
use algebra.App.Stores.{
  find, or_missing, is_for, user_eq, is_active, newest_version, policy_sets_get_active,
}
use algebra.App.PolicySets.{
  supersede, policy_sets_supersede_active, insert_policy_set, policy_sets_create, next_version,
  set_policy,
}
use algebra.App.PolicySets.Versions.{
  is_pair, is_pair_lem, actives, newest, newest_version-filter, actives-supersede_same,
  actives-supersede_other,
}

abbrev pub version_after : Option PolicySet → ℕ
version_after none = 1
version_after (some s) = s.version + 1

-- Nothing is asked of the ledger after an error.
abbrev Anything : Ledger → Type 0
Anything l = Unit

module _ (sets : List PolicySet) (tenant : String) (user : Option String) where
  abbrev Before : Ledger → Type 0
  Before l = l.policy_sets ≡ sets

  abbrev current : Option PolicySet
  current = newest_version (is_for tenant user) sets

  -- What the query said, where it did not fail.
  abbrev Current : Result PolicySet → Type 0
  Current (ok s) = current ≡ some s
  Current (err not_found) = current ≡ none
  Current (err e) = Unit

  Leads-Current :
      Leads Anything Before
        (attempt (policy_sets_get_active tenant user))
        (λ r l. Current r × Before l)
  unfolding attempt policy_sets_get_active statement
  Leads-Current = record {
    at = λ w h. go (next_fault w.faults) (record w { faults = tail w.faults }) h;
  }
    where
      found : (o : Option PolicySet) → current ≡ o → Current (or_missing o)
      found none e = e
      found (some s) e = e

      go :
          (f : Fault) (w : World)
          → Before w.ledger
          → Ends Anything
              (λ r l. Current r × Before l)
              (attempt
                (under_fault f
                  (λ v. (or_missing (newest_version (is_for tenant user) v.ledger.policy_sets), v)))
                w)
      go healthy w h = (found _ (ap (newest_version (is_for tenant user)) (sym h)), h)
      go lost w h = (tt, h)
      go unacknowledged w h = (tt, h)

  Leads-next_version :
      (r : Result PolicySet)
      → Leads Anything
          (λ l. Current r × Before l)
          (next_version r)
          (λ v l. (v ≡ version_after current) × Before l)
  Leads-next_version (ok s) = Leads-pure _ (λ l h. (ap version_after (sym h.0), h.1))
  Leads-next_version (err not_found) = Leads-pure _ (λ l h. (ap version_after (sym h.0), h.1))
  Leads-next_version (err unauthorized) = Leads-raise _ (λ l h. tt)
  Leads-next_version (err conflict) = Leads-raise _ (λ l h. tt)
  Leads-next_version (err invalid) = Leads-raise _ (λ l h. tt)
  Leads-next_version (err unavailable) = Leads-raise _ (λ l h. tt)
  Leads-next_version (err not_implemented) = Leads-raise _ (λ l h. tt)
  Leads-next_version (err quota_exceeded) = Leads-raise _ (λ l h. tt)
  Leads-next_version (err (transition e)) = Leads-raise _ (λ l h. tt)
  Leads-next_version (err (purchase_transition e)) = Leads-raise _ (λ l h. tt)

  abbrev Superseded : ℕ → Ledger → Type 0
  Superseded t l = l.policy_sets ≡ map (supersede tenant user t) sets

  Leads-supersede_active :
      (t : ℕ)
      → Leads Anything Before (policy_sets_supersede_active tenant user t) (λ _. Superseded t)
  unfolding policy_sets_supersede_active
  Leads-supersede_active t =
      Leads-statement _ (λ l h. tt) (λ a l h. tt)
        (record { at = λ w h. ap (map (supersede tenant user t)) h })

  Leads-policy_sets_create :
      (t : ℕ) (s : PolicySet)
      → Leads Anything
          (Superseded t)
          (policy_sets_create s)
          (λ _ l. l.policy_sets ≡ s ∷ map (supersede tenant user t) sets)
  unfolding policy_sets_create
  Leads-policy_sets_create t s =
      Leads-statement _ (λ l h. tt) (λ a l h. tt)
        (record {
          at = λ w h. go w (find (λ (row : PolicySet). str_eq row.id s.id) w.ledger.policy_sets) h;
        })
    where
      go :
          (w : World) (o : Option PolicySet)
          → Superseded t w.ledger
          → Ends Anything
              (λ _ l. l.policy_sets ≡ s ∷ map (supersede tenant user t) sets)
              (insert_policy_set s o w)
      go w none h = elim (Bool-cases (ltb s.version (2 ^ 31))) [
        | inl fits ↦ rw fits (ap (λ rows. s ∷ rows) h)
        | inr big ↦ rw big tt
      ]
      go w (some old) h = tt

  -- The new set, and the sets there are then.
  pub record WasSet (rules : Rules) (ps : PolicySet) (after : List PolicySet) : Type 0 where
    pub of_tenant : ps.tenant_id ≡ tenant
    pub of_user : ps.user_id ≡ user
    pub holds : ps.rules ≡ rules
    pub numbered : ps.version ≡ version_after current
    pub active : ps.superseded_at ≡ none
    pub rows : after ≡ ps ∷ map (supersede tenant user ps.created_at) sets

  Leads-set_policy :
      (rules : Rules)
      → Leads Anything Before (set_policy tenant user rules) (λ ps l. WasSet rules ps l.policy_sets)
  unfolding set_policy
  Leads-set_policy rules = Leads-bind _ _ (Leads-Quiet _ (λ l h. tt) Quiet-now) λ t.
      Leads-bind _ _ Leads-Current λ r. Leads-bind _ _ (Leads-next_version r) λ v. Leads-given λ e.
        Leads-bind _ _ (Leads-supersede_active t) λ u.
          Leads-bind _ _ (Leads-Quiet _ (λ l h. tt) Quiet-new_id) λ id.
            Leads-bind _ _ (Leads-policy_sets_create t _) λ u'. Leads-pure _ λ l h. record {
              of_tenant = refl;
              of_user = refl;
              holds = refl;
              numbered = e;
              active = refl;
              rows = h;
            }

-- A set as it was made.
abbrev pub as_made : PolicySet → PolicySet
as_made s = record s { superseded_at = none }

map-as_made :
    (tenant : String) (user : Option String) (t : ℕ) (sets : List PolicySet)
    → map as_made (map (supersede tenant user t) sets) ≡ map as_made sets
map-as_made tenant user t [] = refl
map-as_made tenant user t (s ∷ rest) = elim (Bool-cases (is_for tenant user s)) [
  | inl h ↦ rw (supersede, h, map-as_made tenant user t rest) refl
  | inr h ↦ rw (supersede, h, map-as_made tenant user t rest) refl
]

and_true : (b : Bool) → b && true ≡ b
and_true true = refl
and_true false = refl

module _ (sets : List PolicySet) (tenant : String) (user : Option String) (rules : Rules)
    (ps : PolicySet) (after : List PolicySet) (h : WasSet sets tenant user rules ps after) where
  is_for-set : (t : String) (u : Option String) → is_for t u ps ≡ is_pair tenant user t u
  is_for-set t u =
      (λ i.
        str_eq (h.of_tenant i) t
        && (user_eq (h.of_user i) u && is_active (record ps { superseded_at = h.active i })))
      ∙ ap (λ b. str_eq tenant t && b) (and_true (user_eq user u))

  pub actives-set :
      (t : String) (u : Option String)
      → actives t u after ≡ (if is_pair tenant user t u then ps ∷ [] else actives t u sets)
  actives-set t u = elim (Bool-cases (is_pair tenant user t u)) [
    | inl same ↦
        let (a, b) = is_pair_lem tenant user t u same in
        rw (h.rows, is_for-set t u, same)
          (ap (λ rest. ps ∷ rest)
            ((λ i. actives (sym a i) (sym b i) (map (supersede tenant user ps.created_at) sets))
              ∙ actives-supersede_same tenant user ps.created_at sets))
    | inr other ↦
        rw (h.rows, is_for-set t u, other)
          (actives-supersede_other tenant user ps.created_at t u sets other)
  ]

  pub newest-set :
      (t : String) (u : Option String)
      → newest_version (is_for t u) after
        ≡ (if is_pair tenant user t u then some ps else newest_version (is_for t u) sets)
  newest-set t u = elim (Bool-cases (is_pair tenant user t u)) [
    | inl same ↦ rw same (
        newest_version-filter (is_for t u) after
        ∙ ap newest (actives-set t u ∙ ap (λ b. if b then ps ∷ [] else actives t u sets) same))
    | inr other ↦ rw other (
        newest_version-filter (is_for t u) after
        ∙ ap newest (actives-set t u ∙ ap (λ b. if b then ps ∷ [] else actives t u sets) other)
        ∙ sym (newest_version-filter (is_for t u) sets))
  ]

-- When SetPolicy returns a set, whatever the faults: it has the rules and is numbered one after the
-- active set of the pair of tenant and user, or 1; the newest active set of that pair is the new one,
-- and those of all other pairs are what they were; and all the sets there were are kept, and but for
-- the time of their replacement unchanged.
pub set_policy_refines :
    (tenant : String) (user : Option String) (rules : Rules) (w w' : World) (ps : PolicySet)
    → set_policy tenant user rules w ≡ (ok ps, w')
    → let sets = w.ledger.policy_sets in
      (ps.rules ≡ rules)
      × (ps.version ≡ version_after (newest_version (is_for tenant user) sets))
      × ((t : String) (u : Option String)
          → newest_version (is_for t u) w'.ledger.policy_sets
            ≡ (if is_pair tenant user t u then some ps else newest_version (is_for t u) sets))
      × (map as_made w'.ledger.policy_sets ≡ ps ∷ map as_made sets)
set_policy_refines tenant user rules w w' ps e =
    let sets = w.ledger.policy_sets in
    let h =
      subst (Ends Anything (λ ps l. WasSet sets tenant user rules ps l.policy_sets)) e
        ((Leads-set_policy sets tenant user rules).at w refl) in
    (
      h.holds,
      h.numbered,
      newest-set sets tenant user rules ps _ h,
      ap (map as_made) h.rows ∙ (λ i.
          record ps { superseded_at = sym h.active i }
          ∷ map-as_made tenant user ps.created_at sets i),
    )
