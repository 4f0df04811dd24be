-- ===== src/App/Idempotency/Repeated.antt =====
-- What happens to a request that is repeated under its key (internal/app/idempotency.go).
use algebra.Prelude.{
  String, ◌≡◌, ◌≢◌, refl, ap, ◌∙◌, Option, none, some, [], ◌∷◌, Option-cases, none_ne_some, inl,
  inr,
}
use algebra.App.World.{World, KeyRow, lost}
use algebra.App.Exec.{
  Exec, Result, ok, err, Err, unavailable, statement, under_fault, next_fault, tail, ◌>>=◌,
}
use algebra.App.Idempotency.{key_row, recorded, begin, complete, run_fresh, run_idempotent}
use algebra.App.Idempotency.Steps.{
  IsHealthy, IsOpen, LeavesKey, IsRecorded, reserved, reserved-IsOpen, run-replays, run-fresh,
  run_fresh-err, IsRecorded-run, not_empty,
}

statement-lost :
    {A : Type 0} (m : Exec A) (w : World)
    → w.faults ≡ lost ∷ []
    → statement m w ≡ (err unavailable, record w { faults = [] })
unfolding statement
statement-lost m w e i = under_fault (next_fault (e i)) m (record w { faults = tail (e i) })

recorded_row :
    (s : String) (o : Option KeyRow)
    → recorded o ≡ some s
    → (row : KeyRow) × (o ≡ some row) × (row.response ≡ some s)
recorded_row s none e = absurd (none_ne_some e)
recorded_row s (some row) e = (row, refl, e)

abbrev pub IsError : {A : Type 0} → Result A → Type 0
IsError r = (e : Err) × (r ≡ err e)

module _ {A : Type 0} (marshal : A → Result String) (unmarshal : String → Result A)
    (key scope : String) where
  recorded-replays :
      (fn : Exec A) (a : A) (w : World)
      → key ≢ ""
      → IsRecorded key scope marshal unmarshal a w
      → run_idempotent marshal unmarshal key scope fn w ≡ (ok a, w)
  recorded-replays fn a w k r =
      run-replays key scope marshal unmarshal fn w r.row r.response k r.healthy r.found r.holds
      ∙ (λ i. (r.reads i, w))

  reserved-IsHealthy : (w : World) → IsHealthy w → IsHealthy (reserved key scope w)
  reserved-IsHealthy w h = elim (Option-cases (key_row key scope w)) [
    | inl e ↦ rw (reserved, e) h
    | inr (row, e) ↦ rw (reserved, e) h
  ]

  module _ (reads_back : (a : A) (s : String) → marshal a ≡ ok s → unmarshal s ≡ ok a)
      (k : key ≢ "") (fn : Exec A) (leaves : LeavesKey key scope marshal unmarshal fn) where
    -- A request under the key that has succeeded is recorded, whether it ran or was replayed.
    run-IsRecorded :
        (w : World)
        → IsHealthy w
        → (a : A) → (run_idempotent marshal unmarshal key scope fn w).0 ≡ ok a
        → IsRecorded key scope marshal unmarshal a
            (run_idempotent marshal unmarshal key scope fn w).1
    run-IsRecorded w h a d = go (recorded (key_row key scope w)) refl
      where
        go :
            (o : Option String)
            → recorded (key_row key scope w) ≡ o
            → IsRecorded key scope marshal unmarshal a
                (run_idempotent marshal unmarshal key scope fn w).1
        go none e =
            let fresh = run-fresh key scope marshal unmarshal fn w k h e in
            let (row, found, _) = reserved-IsOpen key scope w e in
            rw fresh (
              IsRecorded-run key scope marshal unmarshal reads_back fn (reserved key scope w) a
                (fn (reserved key scope w)) row refl (leaves.healthy _ (reserved-IsHealthy w h))
                (leaves.row _ ∙ found) (rw fresh at d))
        go (some s) e =
            let (row, found, holds) = recorded_row s (key_row key scope w) e in
            let replay = run-replays key scope marshal unmarshal fn w row s k h found holds in
            rw replay record {
              healthy = h;
              row = row;
              found = found;
              response = s;
              holds = holds;
              reads = rw replay at d;
            }

  -- Where the encoding of results can be read back, the key is not empty, no statement fails and `fn`
  -- leaves the key's row alone: after a request that succeeded, whatever the row held before it, a
  -- request under the same key and scope answers with the same result and changes nothing, whatever it
  -- was asked to do.
  pub idempotent_replay :
      ((a : A) (s : String) → marshal a ≡ ok s → unmarshal s ≡ ok a)
      → key ≢ ""
      → (fn again : Exec A) → LeavesKey key scope marshal unmarshal fn
      → (w : World) → IsHealthy w
      → (a : A) → (run_idempotent marshal unmarshal key scope fn w).0 ≡ ok a
      → run_idempotent marshal unmarshal key scope again
          (run_idempotent marshal unmarshal key scope fn w).1
        ≡ (ok a, (run_idempotent marshal unmarshal key scope fn w).1)
  idempotent_replay reads_back k fn again leaves w h a d =
      recorded-replays again a _ k (run-IsRecorded reads_back k fn leaves w h a d)

  -- What `fn` ended with is not recorded, as it failed or the statement that records it is lost, and no
  -- statement after that fails.
  abbrev pub Unrecorded : Result A × World → Type 0
  Unrecorded (err e, u) = IsHealthy u
  Unrecorded (ok a, u) = (s : String) × (marshal a ≡ ok s) × (u.faults ≡ lost ∷ [])

  begun :
      key ≢ ""
      → (fn : Exec A) (w v : World) → begin key scope w ≡ (ok none, v)
      → run_idempotent marshal unmarshal key scope fn w ≡ run_fresh marshal unmarshal key scope fn v
  unfolding run_idempotent ◌>>=◌
  begun k fn w v b = rw (not_empty key k, b) refl

  open-runs :
      key ≢ ""
      → (again : Exec A) (u : World) → IsHealthy u
      → IsOpen key scope u
      → run_idempotent marshal unmarshal key scope again u
        ≡ run_fresh marshal unmarshal key scope again u
  open-runs k again u h (row, found, r) =
      run-fresh key scope marshal unmarshal again u k h (ap recorded found ∙ r)
      ∙ ap (run_fresh marshal unmarshal key scope again) (rw (reserved, found) refl)

  run_fresh-lost :
      (fn : Exec A) (v u : World) (a : A) (s : String)
      → fn v ≡ (ok a, u)
      → marshal a ≡ ok s
      → u.faults ≡ lost ∷ []
      → run_fresh marshal unmarshal key scope fn v ≡ (err unavailable, record u { faults = [] })
  unfolding run_fresh complete ◌>>=◌
  run_fresh-lost fn v u a s f m h = rw (f, m, statement-lost, h) refl

  -- Where a request under a key that is not empty got past Begin with nothing to replay, its key is
  -- still open after `fn`, and `fn` failed and no later statement fails, or `fn` succeeded with a result
  -- that can be encoded and of the later statements that of Complete is lost and no other fails: the
  -- request ends in an error, and the next request under the key runs again.
  pub open_until_recorded :
      key ≢ ""
      → (fn again : Exec A) (w v : World) → begin key scope w ≡ (ok none, v)
      → IsOpen key scope (fn v).1
      → Unrecorded (fn v)
      → IsError (run_idempotent marshal unmarshal key scope fn w).0
        × (run_idempotent marshal unmarshal key scope again
              (run_idempotent marshal unmarshal key scope fn w).1
            ≡ run_fresh marshal unmarshal key scope again
                (run_idempotent marshal unmarshal key scope fn w).1)
  open_until_recorded k fn again w v b open_key unrecorded =
      rw (begun k fn w v b) (go (fn v) refl open_key unrecorded)
    where
      go :
          (q : Result A × World)
          → fn v ≡ q
          → IsOpen key scope q.1
          → Unrecorded q
          → IsError (run_fresh marshal unmarshal key scope fn v).0
            × (run_idempotent marshal unmarshal key scope again
                  (run_fresh marshal unmarshal key scope fn v).1
                ≡ run_fresh marshal unmarshal key scope again
                    (run_fresh marshal unmarshal key scope fn v).1)
      go (err e, u) f o h =
          rw (run_fresh-err key scope marshal unmarshal fn v e u f)
            ((e, refl), open-runs k again u h o)
      go (ok a, u) f o (s, m, h) =
          rw (run_fresh-lost fn v u a s f m h)
            ((unavailable, refl), open-runs k again (record u { faults = [] }) refl o)
