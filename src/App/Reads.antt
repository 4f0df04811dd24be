-- ===== src/App/Reads.antt =====
-- Actions that only read: they answer from the tables, or end in an error, and use up faults at most.
use algebra.Prelude.{
  String, ◌≡◌, refl, ◌∙◌, ◌⊎◌, inl, inr, Bool, true, false, Option, none, some, List, str_eq,
  if◌then◌else◌,
}
use algebra.Agent.{Identity, has_permission}
use algebra.App.World.{World, Fault, healthy, lost, unacknowledged}
use algebra.App.Exec.{
  Exec, Result, ok, err, Err, not_found, unauthorized, unavailable, pure, raise, under_fault,
  next_fault, tail, statement, ◌>>=◌,
}
use algebra.App.Stores.{find, or_missing, agent_of_id, with_permissions, agents_get}
use algebra.App.Authz.{require_permission}

-- An error, and a world that differs in the faults to come alone.
abbrev pub Refused : {A : Type 0} → World → Result A × World → Type 0
Refused w r = (e : Err) × (fs : List Fault) × (r ≡ (err e, record w { faults = fs }))

-- That, or an answer of which `Φ` holds.
abbrev pub Answered : {A : Type 0} → World → (A → Type 0) → Result A × World → Type 0
Answered {A = A} w Φ r =
    Refused w r ⊎ ((a : A) × (fs : List Fault) × (r ≡ (ok a, record w { faults = fs })) × Φ a)

pub Answered-query :
    {A : Type 0} (o : World → Option A) (w : World)
    → Answered w
        (λ a. o (record w { faults = tail w.faults }) ≡ some a)
        (statement (λ v. (or_missing (o v), v)) w)
unfolding statement
Answered-query {A = A} o w = go (next_fault w.faults) (o (record w { faults = tail w.faults })) refl
  where
    go :
        (f : Fault) (x : Option A)
        → o (record w { faults = tail w.faults }) ≡ x
        → Answered w
            (λ a. o (record w { faults = tail w.faults }) ≡ some a)
            (under_fault f (λ v. (or_missing (o v), v)) (record w { faults = tail w.faults }))
    go healthy none e = inl (not_found, tail w.faults, rw e refl)
    go healthy (some a) e = inr (a, tail w.faults, rw e refl, e)
    go lost x e = inl (unavailable, tail w.faults, refl)
    go unacknowledged x e = inl (unavailable, tail w.faults, refl)

module _ {A B : Type 0} (w : World) where
  pub Refused-bind : (m : Exec A) (f : A → Exec B) → Refused w (m w) → Refused w ((m >>= f) w)
  unfolding ◌>>=◌
  Refused-bind m f (e, fs, q) = (e, fs, rw q refl)

  -- Where the first action answers, the run goes on with its answer.
  pub bind_answer :
      (m : Exec A) (f : A → Exec B) (a : A) (fs : List Fault)
      → m w ≡ (ok a, record w { faults = fs })
      → (m >>= f) w ≡ f a (record w { faults = fs })
  unfolding ◌>>=◌
  bind_answer m f a fs q = rw q refl

-- The agent of that id has the permission.
abbrev pub Permitted : World → String → String → Identity → Type 0
Permitted w agent_id perm ag =
    (find (λ (a : Identity). str_eq a.id agent_id) w.agents ≡ some ag)
    × (has_permission ag perm ≡ true)

if_Permitted :
    (w : World) (fs : List Fault) (agent_id perm : String) (ag : Identity) (b : Bool)
    → has_permission ag perm ≡ b
    → find (λ (a : Identity). str_eq a.id agent_id) w.agents ≡ some ag
    → Answered w
        (Permitted w agent_id perm)
        ((if b then pure ag else raise unauthorized) (record w { faults = fs }))
unfolding pure raise
if_Permitted w fs agent_id perm ag true h row = inr (ag, fs, refl, (row, h))
if_Permitted w fs agent_id perm ag false h row = inl (unauthorized, fs, refl)

Answered-agents_get :
    (w : World) (id : String)
    → Answered w
        (λ ag. find (λ (a : Identity). str_eq a.id id) w.agents ≡ some ag)
        (agents_get id w)
unfolding agents_get agent_of_id with_permissions
Answered-agents_get w id =
    elim (Answered-query (λ v. find (λ (a : Identity). str_eq a.id id) v.agents) w) [
      | inl refused ↦ inl (Refused-bind w _ _ refused)
      | inr (ag, fs, q, row) ↦
          rw (bind_answer w (agent_of_id id) with_permissions ag fs q)
            (elim (Answered-query (λ v. some ag) (record w { faults = fs })) [
              | inl refused ↦ inl refused
              | inr (b, gs, p, same) ↦ inr (b, gs, p, row ∙ same)
            ])
    ]

pub Answered-require_permission :
    (w : World) (agent_id perm : String)
    → Answered w (Permitted w agent_id perm) (require_permission agent_id perm w)
unfolding require_permission
Answered-require_permission w agent_id perm = elim (Answered-agents_get w agent_id) [
  | inl refused ↦ inl (Refused-bind w _ _ refused)
  | inr (ag, fs, q, row) ↦
      rw
        (bind_answer w (agents_get agent_id)
          (λ a. if has_permission a perm then pure a else raise unauthorized) ag fs q)
        (if_Permitted w fs agent_id perm ag (has_permission ag perm) refl row)
]
