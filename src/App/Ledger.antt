-- ===== src/App/Ledger.antt =====
-- The invariant of the approvals and the charges, and how a change of one approval bears on it
-- (internal/platform/postgres/approval_repo.go).
pub mod Writes
use algebra.Prelude.{
  String, ◌≡◌, ◌≢◌, refl, sym, ◌∙◌, ap, inl, inr, Bool, true, false, Option, none, some, List, [],
  ◌∷◌, str_eq, eq_iff, eq_refl, if◌then◌else◌, Bool-cases, of_some,
}
use algebra.Approval.{
  Approval, Status, pending, approved, rejected, expired, consumed, reapproval_required,
  is_approved,
}
use algebra.App.World.{World, Ledger, Charge, Fault, healthy, lost, unacknowledged}
use algebra.App.Exec.{Exec, Result, ok, err, statement, under_fault, next_fault, tail}
use algebra.App.Keeps.{Ends, Leads}
use algebra.App.Stores.{
  or_missing, update_rows, approval_row, approvals_get, insert_approval, approvals_create,
  rewritten, set_approval, write_approval, approvals_update, claim, approvals_mark_consumed,
}
use algebra.App.Stores.Keys.{Keyed}
use algebra.App.Stores.Rows.{status_of, status_of_row, status-insert, status-update}

abbrev pub NotCharged : String → List Charge → Type 0
NotCharged id [] = Unit
NotCharged id (c ∷ cs) = (c.approval_id ≢ id) × NotCharged id cs

abbrev pub Distinct : List Charge → Type 0
Distinct [] = Unit
Distinct (c ∷ cs) = NotCharged c.approval_id cs × Distinct cs

abbrev pub Covered : List Approval → List Charge → Type 0
Covered rows [] = Unit
Covered rows (c ∷ cs) = (status_of c.approval_id rows ≡ some consumed) × Covered rows cs

pub record IsSound (l : Ledger) : Type 0 where
  pub covered : Covered l.approvals l.charges
  pub distinct : Distinct l.charges
  pub keyed : Keyed l.approvals

pub record IsClaimed (id : String) (l : Ledger) : Type 0 where
  pub sound : IsSound l
  pub uncharged : NotCharged id l.charges
  pub is_consumed : status_of id l.approvals ≡ some consumed

Covered-NotCharged :
    (id : String) (rows : List Approval) (cs : List Charge)
    → status_of id rows ≢ some consumed
    → Covered rows cs
    → NotCharged id cs
Covered-NotCharged id rows [] ne h = tt
Covered-NotCharged id rows (c ∷ cs) ne h =
    (λ e. ne (ap (λ j. status_of j rows) (sym e) ∙ h.0), Covered-NotCharged id rows cs ne h.1)

-- A change of the status under an id that was not charged keeps the charges covered.
Covered-change :
    (id : String) (s : Option Status) (rows rows' : List Approval) (cs : List Charge)
    → ((j : String) → status_of j rows' ≡ (if str_eq id j then s else status_of j rows))
    → NotCharged id cs
    → Covered rows cs
    → Covered rows' cs
Covered-change id s rows rows' [] change new h = tt
Covered-change id s rows rows' (c ∷ cs) change new h = (
  elim (Bool-cases (str_eq id c.approval_id)) [
    | inl e ↦ absurd (new.0 (sym ((eq_iff id c.approval_id).0 e)))
    | inr e ↦ change c.approval_id ∙ rw e h.0
  ],
  Covered-change id s rows rows' cs change new.1 h.1,
)

row_id :
    (id : String) (rows : List Approval) (a : Approval) → approval_row id rows ≡ some a → a.id ≡ id
row_id id [] a e = absurd (cc)
row_id id (b ∷ rows) a e = elim (Bool-cases (str_eq b.id id)) [
  | inl h ↦
      ap (λ (x : Approval). x.id) (sym (of_some (rw (h, approval_row) at e))) ∙ (eq_iff b.id id).0 h
  | inr h ↦ row_id id rows a (rw (h, approval_row) at e)
]

module _ {A : Type 0} {Safe : Ledger → Type 0} {Q : A → Ledger → Type 0} where
  Ends-safe :
      ((a : A) (l : Ledger) → Q a l → Safe l)
      → (r : Result A × World) → Ends Safe Q r
      → Safe r.1.ledger
  Ends-safe safe (ok a, w) h = safe a w.ledger h
  Ends-safe safe (err e, w) h = h

-- The rule for a statement: the fault decides whether it runs and whether its answer arrives.
module _ {A : Type 0} {Safe P : Ledger → Type 0} {Q : A → Ledger → Type 0} where
  pub Leads-statement :
      (m : Exec A)
      → ((l : Ledger) → P l → Safe l)
      → ((a : A) (l : Ledger) → Q a l → Safe l)
      → Leads Safe P m Q
      → Leads Safe P (statement m) Q
  unfolding statement
  Leads-statement m before after lm = record {
    at = λ w h. go (next_fault w.faults) (record w { faults = tail w.faults }) h;
  }
    where
      go : (f : Fault) (w : World) → P w.ledger → Ends Safe Q (under_fault f m w)
      go healthy w h = lm.at w h
      go lost w h = before w.ledger h
      go unacknowledged w h = Ends-safe after (m w) (lm.at w h)
