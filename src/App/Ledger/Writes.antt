-- ===== src/App/Ledger/Writes.antt =====
-- The statements on approvals keep the ledger sound, and a claim readies it for one charge
-- (internal/platform/postgres/approval_repo.go).
use algebra.Prelude.{
  String, ◌≡◌, ◌≢◌, refl, sym, ◌∙◌, ap, Bool, true, false, Option, none, some, ◌∷◌, str_eq, eq_refl,
  if◌then◌else◌, of_some,
}
use algebra.Approval.{
  Approval, Status, pending, approved, rejected, expired, consumed, reapproval_required,
  is_approved,
}
use algebra.App.World.{World, Ledger}
use algebra.App.Exec.{ok}
use algebra.App.Keeps.{Ends, Leads}
use algebra.App.Stores.{
  or_missing, update_rows, approval_row, approvals_get, insert_approval, approvals_create,
  rewritten, set_approval, write_approval, approvals_update, claim, approvals_mark_consumed,
}
use algebra.App.Stores.Keys.{Keyed-update}
use algebra.App.Stores.Rows.{status_of, status_of_row, status-insert, status-update}
use algebra.App.Ledger.{
  Covered-NotCharged, Covered-change, IsClaimed, IsSound, Leads-statement, NotCharged, ap, row_id,
}

abbrev pub Stored : Approval → Ledger → Type 0
Stored a l = IsSound l × (status_of a.id l.approvals ≡ some a.status)

pub Leads-approvals_get : (id : String) → Leads IsSound IsSound (approvals_get id) Stored
unfolding approvals_get
Leads-approvals_get id =
    Leads-statement _ (λ l h. h) (λ a l h. h.0)
      (record { at = λ w h. go w (approval_row id w.ledger.approvals) refl h })
  where
    go :
        (w : World) (o : Option Approval)
        → approval_row id w.ledger.approvals ≡ o
        → IsSound w.ledger
        → Ends IsSound Stored (or_missing o, w)
    go w none e h = h
    go w (some a) e h = (
      h,
      ap (λ j. status_of j w.ledger.approvals) (row_id id w.ledger.approvals a e)
          ∙ ap status_of_row e,
    )

pub Leads-approvals_create :
    (a : Approval) → Leads IsSound IsSound (approvals_create a) (λ _. IsSound)
unfolding approvals_create
Leads-approvals_create a =
    Leads-statement _ (λ l h. h) (λ u l h. h)
      (record { at = λ w h. go w (approval_row a.id w.ledger.approvals) refl h })
  where
    go :
        (w : World) (o : Option Approval)
        → approval_row a.id w.ledger.approvals ≡ o
        → IsSound w.ledger
        → Ends IsSound (λ _. IsSound) (insert_approval a o w)
    go w none e h = record {
      covered =
          Covered-change a.id (some a.status) w.ledger.approvals (a ∷ w.ledger.approvals)
            w.ledger.charges (λ j. status-insert j a w.ledger.approvals)
            (Covered-NotCharged a.id w.ledger.approvals w.ledger.charges
              (λ q. cc (sym (ap status_of_row e) ∙ q)) h.covered)
            h.covered;
      distinct = h.distinct;
      keyed = (e, h.keyed);
    }
    go w (some old) e h = h

-- An approval that is not consumed, as the table has it.
abbrev pub Open : String → Ledger → Type 0
Open id l = IsSound l × (status_of id l.approvals ≢ some consumed)

pub Leads-approvals_update :
    (a : Approval) → Leads IsSound (Open a.id) (approvals_update a) (λ _. IsSound)
unfolding approvals_update
Leads-approvals_update a =
    Leads-statement _ (λ l h. h.0) (λ u l h. h)
      (record { at = λ w h. go w (approval_row a.id w.ledger.approvals) refl h })
  where
    go :
        (w : World) (o : Option Approval)
        → approval_row a.id w.ledger.approvals ≡ o
        → Open a.id w.ledger
        → Ends IsSound (λ _. IsSound) (write_approval a o w)
    go w none e h = h.0
    go w (some old) e h = record {
      covered =
          Covered-change a.id (some a.status) w.ledger.approvals _ w.ledger.charges
            (λ j.
              status-update a.id j (rewritten a) a.status old w.ledger.approvals (λ b. refl)
                (λ b. refl) e)
            (Covered-NotCharged a.id w.ledger.approvals w.ledger.charges h.1 h.0.covered)
            h.0.covered;
      distinct = h.0.distinct;
      keyed =
          Keyed-update (λ row. str_eq row.id a.id) (rewritten a) w.ledger.approvals (λ b. refl)
            h.0.keyed;
    }

abbrev pub Claim : String → Bool → Ledger → Type 0
Claim id true l = IsClaimed id l
Claim id false l = IsSound l

Claim-IsSound : (id : String) (b : Bool) (l : Ledger) → Claim id b l → IsSound l
Claim-IsSound id true l h = h.sound
Claim-IsSound id false l h = h

is_approved_status : (s : Status) → is_approved s ≡ true → s ≢ consumed
is_approved_status approved e q = cc
is_approved_status pending e q = cc
is_approved_status rejected e q = cc
is_approved_status expired e q = cc
is_approved_status consumed e q = cc
is_approved_status reapproval_required e q = cc

-- A claim takes an approval that is approved, and no charge was made for it.
IsClaimed-ledger :
    (id : String) (a : Approval) (w : World)
    → approval_row id w.ledger.approvals ≡ some a
    → is_approved a.status ≡ true
    → IsSound w.ledger
    → IsClaimed id (set_approval id (λ row. record row { status = consumed }) w).ledger
IsClaimed-ledger id a w e taken h = record {
  sound = record {
    covered =
        Covered-change id (some consumed) w.ledger.approvals _ w.ledger.charges change fresh
          h.covered;
    distinct = h.distinct;
    keyed =
        Keyed-update (λ row. str_eq row.id id)
          (λ (row : Approval). record row { status = consumed }) w.ledger.approvals (λ b. refl)
          h.keyed;
  };
  uncharged = fresh;
  is_consumed = change id ∙ rw (eq_refl id) refl;
}
  where
    change :
        (j : String)
        → status_of j (
            update_rows
              (λ row. str_eq row.id id)
              (λ (row : Approval). record row { status = consumed })
              w.ledger.approvals)
          ≡ (if str_eq id j then some consumed else status_of j w.ledger.approvals)
    change j =
        status-update id j (λ row. record row { status = consumed }) consumed a w.ledger.approvals
          (λ b. refl) (λ b. refl) e

    fresh : NotCharged id w.ledger.charges
    fresh =
        Covered-NotCharged id w.ledger.approvals w.ledger.charges
          (λ q. is_approved_status a.status taken (of_some (sym (ap status_of_row e) ∙ q)))
          h.covered

pub Leads-mark_consumed :
    (id : String) → Leads IsSound IsSound (approvals_mark_consumed id) (Claim id)
unfolding approvals_mark_consumed
Leads-mark_consumed id =
    Leads-statement _ (λ l h. h) (Claim-IsSound id)
      (record { at = λ w h. go w (approval_row id w.ledger.approvals) refl h })
  where
    claim_ends :
        (w : World) (a : Approval)
        → approval_row id w.ledger.approvals ≡ some a
        → IsSound w.ledger
        → (b : Bool) → is_approved a.status ≡ b
        → Ends IsSound (Claim id) (
            if b
            then (ok true, set_approval id (λ row. record row { status = consumed }) w)
            else (ok false, w))
    claim_ends w a e h true taken = IsClaimed-ledger id a w e taken h
    claim_ends w a e h false taken = h

    go :
        (w : World) (o : Option Approval)
        → approval_row id w.ledger.approvals ≡ o
        → IsSound w.ledger
        → Ends IsSound (Claim id) (claim id o w)
    go w none e h = h
    go w (some a) e h = claim_ends w a e h (is_approved a.status) refl
