-- ===== src/App/Approvals/Safety.antt =====
-- What a user decides keeps the ledger sound (internal/app/approval_service.go).
use algebra.Prelude.{ℕ, String, ◌≡◌, ◌≢◌, sym, ◌∙◌, some, str_eq, of_some}
use algebra.Approval.{
  Approval, Status, pending, approved, rejected, expired, consumed, reapproval_required, is_expired,
}
use algebra.PaymentIntent.State as PaymentState
use algebra.Intent.State as IntentState
use algebra.App.World.{Ledger}
use algebra.App.Exec.{unauthorized, conflict, raise, now, ◌>>=◌}
use algebra.App.Keeps.{
  Quiet, Leads, Leads-Quiet, Leads-raise, Leads-pure, Leads-from, Leads-if, Leads-bind,
}
use algebra.App.Quiet.{app_rules}
use algebra.App.Stores.Rows.{status_of}
use algebra.App.Ledger.{IsSound}
use algebra.App.Ledger.Writes.{Stored, Open, Leads-approvals_get, Leads-approvals_update}
use algebra.App.Approvals.{get_owned, move_parent, decide, approve_at, approve, reject_by, reject}

-- The approval that is handed out, as the table has it.
pub Leads-get_owned : (user_id id : String) → Leads IsSound IsSound (get_owned user_id id) Stored
unfolding get_owned
Leads-get_owned user_id id = Leads-bind _ _ (Leads-approvals_get id) λ a.
    Leads-if (str_eq a.user_id user_id) _ _ _ (λ e. Leads-pure a (λ l h. h))
      (λ e. Leads-raise unauthorized (λ l h. h.0))

Quiet-move_parent :
    (a : Approval) (p : PaymentState.State) (i : IntentState.State) (action : String)
    → Quiet (move_parent a p i action)
unfolding move_parent
Quiet-move_parent a p i action = search app_rules

Leads-decide :
    (a : Approval) (s : Status) (t : ℕ) (p : PaymentState.State) (i : IntentState.State)
    (action : String)
    → Leads IsSound (Open a.id) (decide a s t p i action) (λ _. IsSound)
unfolding decide
Leads-decide a s t p i action =
    Leads-bind _ _ (Leads-approvals_update (record a { status = s; decided_at = some t }))
      λ u. Leads-Quiet _ (λ l h. h) (Quiet-move_parent _ p i action)

-- The table still has the status that was read.
abbrev pub Held : Status → Approval → Ledger → Type 0
Held s a l = IsSound l × (status_of a.id l.approvals ≡ some s)

pub Held-Open : (s : Status) → s ≢ consumed → (a : Approval) (l : Ledger) → Held s a l → Open a.id l
Held-Open s ne a l h = (h.0, λ q. ne (of_some (sym h.1 ∙ q)))

Leads-refusal :
    (s : Status) (a : Approval)
    → Leads IsSound (Held s a) (raise {A = Approval} conflict) (λ _. IsSound)
Leads-refusal s a = Leads-raise conflict (λ l h. h.0)

Leads-approve_at :
    (s : Status) (a : Approval) (t : ℕ) → Leads IsSound (Held s a) (approve_at s a t) (λ _. IsSound)
Leads-approve_at pending a t =
    Leads-if (is_expired a t) _ _ _ (λ e. Leads-refusal pending a)
      λ e. Leads-from (Held-Open pending (λ q. cc) a) (Leads-decide a approved t _ _ _)
Leads-approve_at approved a t = Leads-refusal approved a
Leads-approve_at rejected a t = Leads-refusal rejected a
Leads-approve_at expired a t = Leads-refusal expired a
Leads-approve_at consumed a t = Leads-refusal consumed a
Leads-approve_at reapproval_required a t = Leads-refusal reapproval_required a

pub Leads-approve :
    (user_id id : String) → Leads IsSound IsSound (approve user_id id) (λ _. IsSound)
unfolding approve
Leads-approve user_id id = Leads-bind _ _ (Leads-get_owned user_id id) λ a.
    Leads-bind _ _ (Leads-Quiet _ (λ l h. h.0) (search app_rules))
      λ t. Leads-approve_at a.status a t

Leads-reject_open :
    (s : Status)
    → s ≢ consumed
    → (a : Approval)
    → Leads IsSound
        (Held s a)
        (now >>= λ t.
          decide a rejected t PaymentState.cancelled IntentState.cancelled "ApprovalRejected")
        (λ _. IsSound)
Leads-reject_open s ne a =
    Leads-bind _ _ (Leads-Quiet _ (λ l h. h.0) (search app_rules))
      λ t. Leads-from (Held-Open s ne a) (Leads-decide a rejected t _ _ _)

Leads-reject_by :
    (s : Status) (a : Approval) → Leads IsSound (Held s a) (reject_by s a) (λ _. IsSound)
Leads-reject_by pending a = Leads-reject_open pending (λ q. cc) a
Leads-reject_by reapproval_required a = Leads-reject_open reapproval_required (λ q. cc) a
Leads-reject_by approved a = Leads-refusal approved a
Leads-reject_by rejected a = Leads-refusal rejected a
Leads-reject_by expired a = Leads-refusal expired a
Leads-reject_by consumed a = Leads-refusal consumed a

pub Leads-reject : (user_id id : String) → Leads IsSound IsSound (reject user_id id) (λ _. IsSound)
unfolding reject
Leads-reject user_id id =
    Leads-bind _ _ (Leads-get_owned user_id id) λ a. Leads-reject_by a.status a
