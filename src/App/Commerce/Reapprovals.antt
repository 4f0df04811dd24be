-- ===== src/App/Commerce/Reapprovals.antt =====
-- internal/app/approval_service.go: `GetByIntent` and `Reapprove`.
use algebra.Prelude.{String, some}
use algebra.Approval.{Approval, Status, approved, reapproval_required}
use algebra.Approval.Hash.{canonical_hash}
use algebra.Intent.State as IntentState
use algebra.App.Exec.{Exec, conflict, pure, raise, now, ◌>>=◌, ◌>>◌}
use algebra.App.Stores.{approvals_update, intents_get}
use algebra.App.Transition.{move_intent}
use algebra.App.Approvals.{of_user, get_owned}
use algebra.App.Commerce.Tables.{approvals_get_by_intent}
use algebra.App.Commerce.Wiring.{Wiring}
use algebra.App.Commerce.Quotes.{refresh_quote}
use algebra.App.Commerce.Policies.{hashable_items}

unfoldable pub get_by_intent : String → String → Exec Approval
get_by_intent user_id intent_id = do a ← approvals_get_by_intent intent_id; of_user user_id a

module _ (wiring : Wiring) where
  -- The approval is bound to what the merchant asks now.
  unfoldable pub rebind : Approval → Exec Approval
  rebind a = do
    refreshed ← refresh_quote wiring a.quote_id
    t ← now
    let a' = record a {
      amount = refreshed.final_payable;
      items_hash =
          canonical_hash wiring.sha256_hex a.merchant (hashable_items refreshed.items)
            refreshed.final_payable.currency a.payment_source_alias;
      status = approved;
      decided_at = some t;
    }
    approvals_update a'
    pi ← intents_get a.intent_id
    move_intent pi IntentState.approved "ApprovalGranted"
    pure a'

  abbrev pub reapprove_in : Status → Approval → Exec Approval
  reapprove_in reapproval_required a = rebind a
  reapprove_in _ a = raise conflict

  unfoldable pub reapprove : String → String → Exec Approval
  reapprove user_id approval_id = do a ← get_owned user_id approval_id; reapprove_in a.status a
