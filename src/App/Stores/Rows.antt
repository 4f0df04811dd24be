-- ===== src/App/Stores/Rows.antt =====
-- Rows found by their id, before and after an insert and an update (internal/platform/postgres).
use algebra.Prelude.{
  String, ◌≡◌, Option, none, some, List, [], ◌∷◌, arith, str_eq, eq_iff, if◌then◌else◌,
}
use algebra.Approval.{Approval, Status}
use algebra.App.Stores.{update_rows, approval_row}

abbrev status_in : Option Approval → Option Status
status_in none = none
status_in (some a) = some a.status

-- The status that the table has under an id.
abbrev pub status_of : String → List Approval → Option Status
status_of id rows = status_in (approval_row id rows)

abbrev pub status_of_row : Option Approval → Option Status
status_of_row o = status_in o

pub status-insert :
    (j : String) (a : Approval) (rows : List Approval)
    → status_of j (a ∷ rows) ≡ (if str_eq a.id j then some a.status else status_of j rows)
status-insert j a rows = ground arith

-- The update of the row `id` to the status `s`, where there is such a row.
pub status-update :
    (id j : String) (f : Approval → Approval) (s : Status) (old : Approval) (rows : List Approval)
    → ((a : Approval) → (f a).id ≡ a.id)
    → ((a : Approval) → (f a).status ≡ s)
    → approval_row id rows ≡ some old
    → status_of j (update_rows (λ row. str_eq row.id id) f rows)
      ≡ (if str_eq id j then some s else status_of j rows)
unfolding update_rows
status-update id j f s old [] keeps sets found = cc
status-update id j f s old (a ∷ rows) keeps sets found = ground (
  arith,
  keeps a,
  sets a,
  eq_iff a.id id,
  eq_iff id j,
  eq_iff a.id j,
  eq_iff (f a).id j,
  status-update id j f s old rows keeps sets,
)
