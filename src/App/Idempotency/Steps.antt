-- ===== src/App/Idempotency/Steps.antt =====
-- The steps of `RunIdempotent` (internal/app/idempotency.go).
use algebra.Prelude.{
  String, ◌≡◌, ◌≢◌, refl, sym, ap, ◌∙◌, Bool, false, none, some, Option-cases, inl, inr, List, [],
  ◌∷◌, arith, str_eq, eq_iff, eq_refl,
}
use algebra.App.World.{World, KeyRow}
use algebra.App.Exec.{
  Exec, Result, ok, err, Err, pure, statement, ◌>>=◌, under_fault, next_fault, tail,
}
use algebra.App.Stores.{find, update_rows}
use algebra.App.Idempotency.{
  is_key, key_row, reserve, reserve_in, recorded, recorded_response, begin, complete, run_fresh,
  run_idempotent,
}

-- No statement will fail.
abbrev pub IsHealthy : World → Type 0
IsHealthy w = w.faults ≡ []

pub statement-healthy : {A : Type 0} (m : Exec A) (w : World) → IsHealthy w → statement m w ≡ m w
unfolding statement
statement-healthy m w e =
    (λ i. under_fault (next_fault (e i)) m (record w { faults = tail (e i) }))
    ∙ (λ i. m (record w { faults = sym e i }))

pub not_empty : (key : String) → key ≢ "" → str_eq key "" ≡ false
not_empty key h = ground (arith, eq_iff key "")

find-update_rows :
    {A : Type 0} (p : A → Bool) (f : A → A) (old : A) (rows : List A)
    → ((a : A) → p (f a) ≡ p a)
    → find p rows ≡ some old
    → find p (update_rows p f rows) ≡ some (f old)
unfolding update_rows
find-update_rows p f old [] keeps found = cc
find-update_rows p f old (a ∷ rows) keeps found =
    ground (arith, keeps a, find-update_rows p f old rows keeps)

pub of_ok : {A : Type 0} {a b : A} → ◌≡◌ {A = Result A} (ok a) (ok b) → a ≡ b
of_ok e = cc

pub ok_ne_err : {A : Type 0} {a : A} {e : Err} → ok a ≢ err e
ok_ne_err h = cc

module _ (key scope : String) where
  -- The world in which a request that is not replayed runs.
  abbrev pub reserved : World → World
  reserved w = (reserve_in key scope (key_row key scope w) w).1

  -- The request has been reserved, and not completed.
  abbrev pub IsOpen : World → Type 0
  IsOpen w = (row : KeyRow) × (key_row key scope w ≡ some row) × (row.response ≡ none)

  begin-completed :
      (w : World) (row : KeyRow) (s : String)
      → IsHealthy w
      → key_row key scope w ≡ some row
      → row.response ≡ some s
      → begin key scope w ≡ (ok (some s), w)
  unfolding begin reserve recorded_response ◌>>=◌ pure
  begin-completed w row s h e r =
      rw (statement-healthy, h, e) (rw (statement-healthy, h, e, r) refl)

  begin-fresh :
      (w : World)
      → IsHealthy w
      → recorded (key_row key scope w) ≡ none
      → begin key scope w ≡ (ok none, reserved w)
  unfolding begin reserve recorded_response ◌>>=◌ pure
  begin-fresh w h r = elim (Option-cases (key_row key scope w)) [
    | inl e ↦ rw (reserved, statement-healthy, h, e) refl
    | inr (row, e) ↦
        let r' : row.response ≡ none = rw e at r in
        rw (reserved, statement-healthy, h, e) (rw (statement-healthy, h, e, r') refl)
  ]

  pub reserved-IsOpen : (w : World) → recorded (key_row key scope w) ≡ none → IsOpen (reserved w)
  reserved-IsOpen w r = elim (Option-cases (key_row key scope w)) [
    | inl e ↦ (
      record { key = key; scope = scope; response = none },
      rw (reserved, e) (ground (arith, eq_refl key, eq_refl scope)),
      refl,
    )
    | inr (row, e) ↦ (row, rw (reserved, e) e, rw e at r)
  ]

  -- The world in which a response has been recorded.
  abbrev pub completed : String → World → World
  completed s w = record w {
    idempotency_keys =
        update_rows (is_key key scope) (λ row. record row { response = some s }) w.idempotency_keys;
  }

  completed-row :
      (w : World) (row : KeyRow) (s : String)
      → key_row key scope w ≡ some row
      → key_row key scope (completed s w) ≡ some (record row { response = some s })
  completed-row w row s e =
      find-update_rows (is_key key scope) (λ r. record r { response = some s }) row
        w.idempotency_keys (λ a. refl) e

  module _ {A : Type 0} (marshal : A → Result String) (unmarshal : String → Result A) where
    pub run_fresh-ok :
        (fn : Exec A) (v u : World) (a : A) (s : String)
        → fn v ≡ (ok a, u)
        → IsHealthy u
        → marshal a ≡ ok s
        → run_fresh marshal unmarshal key scope fn v ≡ (ok a, completed s u)
    unfolding run_fresh complete ◌>>=◌ pure
    run_fresh-ok fn v u a s e h m = rw (e, m, statement-healthy, h) refl

    -- The function touches neither the key nor the schedule of faults.
    pub record LeavesKey (fn : Exec A) : Type 0 where
      pub healthy : (v : World) → IsHealthy v → IsHealthy (fn v).1
      pub row : (v : World) → key_row key scope (fn v).1 ≡ key_row key scope v

    pub run-replays :
        (fn : Exec A) (w : World) (row : KeyRow) (s : String)
        → key ≢ ""
        → IsHealthy w
        → key_row key scope w ≡ some row
        → row.response ≡ some s
        → run_idempotent marshal unmarshal key scope fn w ≡ (unmarshal s, w)
    unfolding run_idempotent ◌>>=◌
    run-replays fn w row s k h e r = rw (not_empty key k, begin-completed w row s h e r) refl

    pub run-fresh :
        (fn : Exec A) (w : World)
        → key ≢ ""
        → IsHealthy w
        → recorded (key_row key scope w) ≡ none
        → run_idempotent marshal unmarshal key scope fn w
          ≡ run_fresh marshal unmarshal key scope fn (reserved w)
    unfolding run_idempotent ◌>>=◌
    run-fresh fn w k h r = rw (not_empty key k, begin-fresh w h r) refl

    -- The key has been completed with a response that reads as `a`.
    pub record IsRecorded (a : A) (w : World) : Type 0 where
      pub healthy : IsHealthy w
      pub row : KeyRow
      pub found : key_row key scope w ≡ some row
      pub response : String
      pub holds : row.response ≡ some response
      pub reads : unmarshal response ≡ ok a

    module _ (fn : Exec A) (x : World) where
      pub run_fresh-err :
          (e : Err) (u : World)
          → fn x ≡ (err e, u)
          → run_fresh marshal unmarshal key scope fn x ≡ (err e, u)
      unfolding run_fresh ◌>>=◌
      run_fresh-err e u f = rw f refl

      run_fresh-unencodable :
          (a : A) (u : World) (e : Err)
          → fn x ≡ (ok a, u)
          → marshal a ≡ err e
          → run_fresh marshal unmarshal key scope fn x ≡ (err e, u)
      unfolding run_fresh ◌>>=◌
      run_fresh-unencodable a u e f m = rw (f, m) refl

    module _ (reads_back : (a : A) (s : String) → marshal a ≡ ok s → unmarshal s ≡ ok a)
        (fn : Exec A) (x : World) (b : A) where
      IsRecorded-payload :
          (a : A) (u : World) (row : KeyRow) (p : Result String)
          → fn x ≡ (ok a, u)
          → IsHealthy u
          → key_row key scope u ≡ some row
          → marshal a ≡ p
          → (run_fresh marshal unmarshal key scope fn x).0 ≡ ok b
          → IsRecorded b (run_fresh marshal unmarshal key scope fn x).1
      IsRecorded-payload a u row (err e) f h k m d =
          absurd (ok_ne_err (sym d ∙ ap (λ r. r.0) (run_fresh-unencodable fn x a u e f m)))
      IsRecorded-payload a u row (ok s) f h k m d =
          let done = run_fresh-ok fn x u a s f h m in
          let same : a ≡ b = of_ok (ap (λ r. r.0) (sym done) ∙ d) in
          rw done record {
            healthy = h;
            row = record row { response = some s };
            found = completed-row u row s k;
            response = s;
            holds = refl;
            reads = reads_back a s m ∙ ap (λ c. ok c) same;
          }

      pub IsRecorded-run :
          (r : Result A × World) (row : KeyRow)
          → fn x ≡ r
          → IsHealthy r.1
          → key_row key scope r.1 ≡ some row
          → (run_fresh marshal unmarshal key scope fn x).0 ≡ ok b
          → IsRecorded b (run_fresh marshal unmarshal key scope fn x).1
      IsRecorded-run (err e, u) row f h k d =
          absurd (ok_ne_err (sym d ∙ ap (λ r. r.0) (run_fresh-err fn x e u f)))
      IsRecorded-run (ok a, u) row f h k d = IsRecorded-payload a u row (marshal a) f h k refl d
