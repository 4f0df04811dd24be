-- ===== src/App/Idempotency/Refusals.antt =====
-- A request that is refused, when it is sent under a key (internal/app/idempotency.go).
use algebra.Prelude.{
  String, ◌≡◌, refl, sym, ◌⊎◌, inl, inr, false, Option, none, some, List, ◌∷◌, str_eq, Bool-cases,
  if◌then◌else◌,
}
use mathlib.Core.Path.{subst}
use algebra.App.World.{World, KeyRow, Fault, healthy, lost, unacknowledged}
use algebra.App.Exec.{
  Exec, Result, ok, err, Err, unavailable, pure, statement, under_fault, next_fault, tail, ◌>>=◌,
}
use algebra.App.Reads.{Refused}
use algebra.App.Idempotency.{
  key_row, reserve, reserve_in, recorded, recorded_response, begin, run_fresh, replay_or_run,
  run_idempotent,
}
use algebra.App.Idempotency.Steps.{run_fresh-err}

module _ {A : Type 0} (unmarshal : String → Result A) (key scope : String) (w : World) where
  -- The request ends in an error, and has changed nothing but that its key may be reserved.
  abbrev pub OnlyReserved : Result A × World → Type 0
  OnlyReserved r =
      (e : Err) × (fs : List Fault) × (ks : List KeyRow) × ((ks ≡ w.idempotency_keys)
        ⊎ ((key_row key scope w ≡ none)
            × (ks ≡ record { key = key; scope = scope; response = none } ∷ w.idempotency_keys)))
      × (r ≡ (err e, record w { faults = fs; idempotency_keys = ks }))

  -- The request changes nothing, and answers with the response that is recorded under its key.
  abbrev pub Replayed : Result A × World → Type 0
  Replayed r =
      (row : KeyRow) × (s : String) × (key_row key scope w ≡ some row)
      × (row.response ≡ some s)
      × (str_eq key "" ≡ false)
      × (fs : List Fault) × (r ≡ (unmarshal s, record w { faults = fs }))

  abbrev pub ReservedOrReplayed : Result A × World → Type 0
  ReservedOrReplayed r = OnlyReserved r ⊎ Replayed r

  -- Nothing but the keys and the faults to come bears on the refusal.
  abbrev pub IsRefused : Exec A → Type 0
  IsRefused fn =
      (fs : List Fault) (ks : List KeyRow)
      → Refused (record w { faults = fs; idempotency_keys = ks })
          (fn (record w { faults = fs; idempotency_keys = ks }))

module _ {A : Type 0} (marshal : A → Result String) (unmarshal : String → Result A)
    (key scope : String) (w : World) (fn : Exec A)
    (refused : IsRefused unmarshal key scope w fn) where
  abbrev Ends : Result A × World → Type 0
  Ends r = ReservedOrReplayed unmarshal key scope w r

  Ends-from : {r r' : Result A × World} → r ≡ r' → Ends r' → Ends r
  Ends-from e h = subst Ends (sym e) h

  fresh-Ends :
      (fs : List Fault) (ks : List KeyRow)
      → (ks ≡ w.idempotency_keys)
        ⊎ ((key_row key scope w ≡ none)
            × (ks ≡ record { key = key; scope = scope; response = none } ∷ w.idempotency_keys))
      → Ends (
          run_fresh marshal unmarshal key scope fn
            (record w { faults = fs; idempotency_keys = ks }))
  fresh-Ends fs ks k =
      let (e, gs, q) = refused fs ks in
      inl (
        e,
        gs,
        ks,
        k,
        run_fresh-err key scope marshal unmarshal fn
            (record w { faults = fs; idempotency_keys = ks }) e
            (record w { faults = gs; idempotency_keys = ks }) q,
      )

  module _ (named : str_eq key "" ≡ false) where
    response-Ends :
        (row : KeyRow) (o : Option String) (fs : List Fault)
        → key_row key scope w ≡ some row
        → row.response ≡ o
        → Ends (replay_or_run marshal unmarshal key scope fn o (record w { faults = fs }))
    response-Ends row none fs found e = fresh-Ends fs w.idempotency_keys (inl refl)
    response-Ends row (some s) fs found e = inr (row, s, found, e, named, fs, refl)

    recorded-Ends :
        (row : KeyRow) (f : Fault) (fs : List Fault)
        → key_row key scope w ≡ some row
        → Ends (
            (under_fault f (λ v. (ok (recorded (key_row key scope v)), v))
                >>= replay_or_run marshal unmarshal key scope fn)
              (record w { faults = fs }))
    unfolding ◌>>=◌
    recorded-Ends row healthy fs found =
        Ends-from (rw found refl) (response-Ends row row.response fs found refl)
    recorded-Ends row lost fs found = inl (unavailable, fs, w.idempotency_keys, inl refl, refl)
    recorded-Ends row unacknowledged fs found =
        inl (unavailable, fs, w.idempotency_keys, inl refl, refl)

    reserve-Ends :
        (f : Fault) (o : Option KeyRow)
        → key_row key scope w ≡ o
        → Ends (
            (under_fault f (λ v. reserve_in key scope (key_row key scope v) v)
                >>= (λ fresh. if fresh then pure none else recorded_response key scope)
                >>= replay_or_run marshal unmarshal key scope fn)
              (record w { faults = tail w.faults }))
    unfolding ◌>>=◌ pure recorded_response statement
    reserve-Ends healthy none e =
        Ends-from (rw e refl) (fresh-Ends (tail w.faults) _ (inr (e, refl)))
    reserve-Ends healthy (some row) e =
        Ends-from (rw e refl)
          (recorded-Ends row (next_fault (tail w.faults)) (tail (tail w.faults)) e)
    reserve-Ends lost o e = inl (unavailable, tail w.faults, w.idempotency_keys, inl refl, refl)
    reserve-Ends unacknowledged none e =
        inl (unavailable, tail w.faults, _, inr (e, refl), rw e refl)
    reserve-Ends unacknowledged (some row) e =
        inl (unavailable, tail w.faults, w.idempotency_keys, inl refl, rw e refl)

  -- A request under a key, of which the function refuses, is refused or replayed.
  pub refused_run : Ends (run_idempotent marshal unmarshal key scope fn w)
  unfolding run_idempotent begin reserve statement ◌>>=◌
  refused_run = elim (Bool-cases (str_eq key "")) [
    | inl e ↦
        let (x, fs, q) = refused w.faults w.idempotency_keys in
        Ends-from (rw e refl) (inl (x, fs, w.idempotency_keys, inl refl, q))
    | inr e ↦
        Ends-from (rw e refl) (reserve-Ends e (next_fault w.faults) (key_row key scope w) refl)
  ]
