-- ===== src/App/Approvals.antt =====
-- internal/app/approval_service.go: what a user decides.
pub mod Safety
use algebra.Prelude.{ℕ, String, Bool, not, ◌&&◌, ◌||◌, Option, none, some, str_eq, if◌then◌else◌}
use algebra.Approval.{
  Approval, Status, pending, approved, rejected, expired, consumed, reapproval_required, is_expired,
}
use algebra.PaymentIntent.State as PaymentState
use algebra.Intent.State as IntentState
use algebra.App.Exec.{Exec, unauthorized, conflict, pure, raise, now, ◌>>=◌, ◌>>◌}
use algebra.App.Stores.{
  approvals_get, approvals_get_by_payment_intent, approvals_update, payment_intents_get,
  intents_get,
}
use algebra.App.Transition.{move, move_intent}

abbrev pub of_user : String → Approval → Exec Approval
of_user user_id a = if str_eq a.user_id user_id then pure a else raise unauthorized

unfoldable pub get_by_payment_intent : String → String → Exec Approval
get_by_payment_intent user_id payment_intent_id = do
  a ← approvals_get_by_payment_intent payment_intent_id
  of_user user_id a

unfoldable pub get_owned : String → String → Exec Approval
get_owned user_id approval_id = do a ← approvals_get approval_id; of_user user_id a

-- The parent of the approval, of the one kind or the other, moves.
unfoldable pub move_parent :
    Approval → PaymentState.State → IntentState.State → String → Exec Approval
move_parent a to_payment to_intent action =
    if str_eq a.agentic_payment_intent_id ""
    then (do pi ← intents_get a.intent_id; move_intent pi to_intent action; pure a)
    else (do p ← payment_intents_get a.agentic_payment_intent_id; move p to_payment action; pure a)

-- The new status is written before the parent moves.
unfoldable pub decide :
    Approval → Status → ℕ → PaymentState.State → IntentState.State → String → Exec Approval
decide a status t to_payment to_intent action = do
  let a' = record a { status = status; decided_at = some t }
  approvals_update a'
  move_parent a' to_payment to_intent action

abbrev pub approve_at : Status → Approval → ℕ → Exec Approval
approve_at pending a t =
    if is_expired a t
    then raise conflict
    else decide a approved t PaymentState.authorized IntentState.approved "ApprovalGranted"
approve_at _ a t = raise conflict

unfoldable pub approve : String → String → Exec Approval
approve user_id approval_id = do a ← get_owned user_id approval_id; t ← now; approve_at a.status a t

abbrev pub reject_by : Status → Approval → Exec Approval
reject_by pending a = do
  t ← now
  decide a rejected t PaymentState.cancelled IntentState.cancelled "ApprovalRejected"
reject_by reapproval_required a = do
  t ← now
  decide a rejected t PaymentState.cancelled IntentState.cancelled "ApprovalRejected"
reject_by _ a = raise conflict

unfoldable pub reject : String → String → Exec Approval
reject user_id approval_id = do a ← get_owned user_id approval_id; reject_by a.status a
