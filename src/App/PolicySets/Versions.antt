-- ===== src/App/PolicySets/Versions.antt =====
-- The active rows of internal/platform/postgres/policy_set_repo.go, before and after its writes.
use algebra.Prelude.{
  ℕ, String, ◌≡◌, refl, sym, ap, ◌∙◌, Bool, true, false, ◌&&◌, Option, none, some, List, [], ◌∷◌,
  map, arith, str_eq, eq_iff, eq_refl, Bool-cases, true_ne_false, inl, inr, if◌then◌else◌,
}
use algebra.App.World.{PolicySet}
use algebra.App.Stores.{is_for, user_eq, newer_version, newest_version}
use algebra.App.PolicySets.{supersede}

abbrev pub filter {ℓ} : {A : Type ℓ} → (A → Bool) → List A → List A
filter p [] = []
filter p (x ∷ xs) = if p x then x ∷ filter p xs else filter p xs

-- What the tenant's or the user's policy can be read from.
abbrev pub actives : String → Option String → List PolicySet → List PolicySet
actives t u sets = filter (is_for t u) sets

abbrev pub newest : List PolicySet → Option PolicySet
newest [] = none
newest (s ∷ rest) = some (newer_version s (newest rest))

pub newest_version-filter :
    (p : PolicySet → Bool) (sets : List PolicySet) → newest_version p sets ≡ newest (filter p sets)
unfolding newest_version
newest_version-filter p [] = refl
newest_version-filter p (s ∷ rest) = elim (Bool-cases (p s)) [
  | inl h ↦ rw (h, newest_version-filter p rest) refl
  | inr h ↦ rw (h, newest_version-filter p rest) refl
]

abbrev pub is_pair : String → Option String → String → Option String → Bool
is_pair tenant user t u = str_eq tenant t && user_eq user u

user_eq_lem : (a b : Option String) → user_eq a b ≡ true → a ≡ b
user_eq_lem none none h = refl
user_eq_lem none (some b) h = cc
user_eq_lem (some a) none h = cc
user_eq_lem (some a) (some b) h = ap (λ s. some s) ((eq_iff a b).0 h)

user_eq_refl : (a : Option String) → user_eq a a ≡ true
user_eq_refl none = refl
user_eq_refl (some a) = eq_refl a

pub is_pair_lem :
    (tenant : String) (user : Option String) (t : String) (u : Option String)
    → is_pair tenant user t u ≡ true
    → (tenant ≡ t) × (user ≡ u)
is_pair_lem tenant user t u h = ground (arith, eq_iff tenant t, user_eq_lem user u)

and_elim : (a b : Bool) → a && b ≡ true → (a ≡ true) × (b ≡ true)
and_elim true true h = (refl, refl)
and_elim true false h = cc
and_elim false b h = cc

and_false : (a : Bool) → a && false ≡ false
and_false true = refl
and_false false = refl

pub is_for_parts :
    (t : String) (u : Option String) (s : PolicySet)
    → is_for t u s ≡ true
    → (s.tenant_id ≡ t) × (s.user_id ≡ u)
is_for_parts t u s h =
    let (same_tenant, rest) = and_elim _ _ h in
    ((eq_iff s.tenant_id t).0 same_tenant, user_eq_lem s.user_id u (and_elim _ _ rest).0)

-- A row that is superseded is no pair's.
not_for :
    (t : String) (u : Option String) (at : ℕ) (s : PolicySet)
    → is_for t u (record s { superseded_at = some at }) ≡ false
not_for t u at s = rw (and_false (user_eq s.user_id u)) (and_false (str_eq s.tenant_id t))

-- The rows of one pair are no other's.
one_pair :
    (tenant : String) (user : Option String) (t : String) (u : Option String) (s : PolicySet)
    → is_for tenant user s ≡ true
    → is_for t u s ≡ true
    → is_pair tenant user t u ≡ true
one_pair tenant user t u s h k =
    let (a, b) = is_for_parts tenant user s h in
    let (c, d) = is_for_parts t u s k in rw (sym a ∙ c, sym b ∙ d, eq_refl t, user_eq_refl u) refl

module _ (tenant : String) (user : Option String) (at : ℕ) where
  pub actives-supersede_same :
      (sets : List PolicySet) → actives tenant user (map (supersede tenant user at) sets) ≡ []
  actives-supersede_same [] = refl
  actives-supersede_same (s ∷ rest) = elim (Bool-cases (is_for tenant user s)) [
    | inl h ↦ rw (supersede, h, not_for tenant user at s) (actives-supersede_same rest)
    | inr h ↦ rw (supersede, h, h) (actives-supersede_same rest)
  ]

  pub actives-supersede_other :
      (t : String) (u : Option String) (sets : List PolicySet)
      → is_pair tenant user t u ≡ false
      → actives t u (map (supersede tenant user at) sets) ≡ actives t u sets
  actives-supersede_other t u [] other = refl
  actives-supersede_other t u (s ∷ rest) other = elim (Bool-cases (is_for tenant user s)) [
    | inl h ↦ elim (Bool-cases (is_for t u s)) [
      | inl k ↦ absurd (true_ne_false (sym (one_pair tenant user t u s h k) ∙ other))
      | inr k ↦ rw (supersede, h, not_for t u at s, k) (actives-supersede_other t u rest other)
    ]
    | inr h ↦ rw (supersede, h, actives-supersede_other t u rest other) refl
  ]
