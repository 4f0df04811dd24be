-- ===== src/Examples/States.antt =====
-- The theorems on the two state machines at concrete inputs.
use algebra.Prelude.{◌≡◌, ◌≢◌, refl, ◌↔◌, true, false, none, some, List, [], ◌∷◌}
use algebra.Prelude.Gates.{follow}
use mathlib.Core.List.{Memᴰ}
use algebra.PaymentIntent.State as P
use algebra.PaymentIntent.Paths as PaymentPaths
use algebra.PaymentIntent.Paths.Reach as PaymentReach
use algebra.PaymentIntent.Paths.{payment_terminal_iff}
use algebra.PaymentIntent.Paths.History.{payment_history, never_authorized_again}
use algebra.PaymentIntent.Paths.Reach.{payment_reachable}
use algebra.Intent.State as I
use algebra.Intent.Paths as PurchasePaths
use algebra.Intent.Paths.Reach as PurchaseReach
use algebra.Intent.Paths.{purchase_terminal_iff}
use algebra.Intent.Paths.History.{purchase_history}
use algebra.Intent.Paths.Reach.{purchase_reachable}

-- Authorized by the policy, paid.
abbrev paid : List P.State
paid =
    P.policy_evaluating ∷ P.authorized ∷ P.credential_preparing ∷ P.ready_to_execute ∷ P.processing
    ∷ P.succeeded ∷ []

payment_history_example :
    (follow PaymentPaths.accepted P.draft paid ≡ some P.succeeded
      → Memᴰ P.policy_evaluating paid × Memᴰ P.authorized paid × Memᴰ P.processing paid)
    × (follow PaymentPaths.accepted P.draft paid ≡ some P.failed → Memᴰ P.authorized paid)
payment_history_example = payment_history paid

paid_succeeds : follow PaymentPaths.accepted P.draft paid ≡ some P.succeeded
unfolding PaymentPaths.accepted P.transition P.valid P.can_transition P.transitions
paid_succeeds = refl

denied-valid : P.valid P.denied ≡ true
unfolding P.valid P.transitions
denied-valid = refl

payment_terminal_iff_example :
    (P.terminal P.denied ≡ true) ↔ ((t : P.State) → PaymentPaths.accepted P.denied t ≡ none)
payment_terminal_iff_example = payment_terminal_iff P.denied denied-valid

-- The provider is down, then back.
abbrev retried : List P.State
retried = P.provider_unavailable ∷ P.processing ∷ P.authorized ∷ []

never_authorized_again_example :
    follow PaymentPaths.accepted P.credential_preparing retried ≢ some P.authorized
never_authorized_again_example = never_authorized_again retried

processing-valid : P.valid P.processing ≡ true
unfolding P.valid P.transitions
processing-valid = refl

payment_reachable_example :
    (follow PaymentPaths.accepted P.draft (PaymentReach.way_in P.processing) ≡ some P.processing)
    × (P.terminal P.processing ≡ false
        → (t : P.State) × (follow PaymentPaths.accepted P.processing
              (PaymentReach.way_out P.processing)
            ≡ some t)
          × (P.terminal t ≡ true))
payment_reachable_example = payment_reachable P.processing processing-valid

abbrev bought : List I.State
bought = I.discovering ∷ I.quoted ∷ I.policy_check ∷ I.approved ∷ I.executing ∷ I.succeeded ∷ []

bought_succeeds : follow PurchasePaths.accepted I.draft bought ≡ some I.succeeded
unfolding PurchasePaths.accepted I.transition I.valid I.can_transition I.transitions
bought_succeeds = refl

purchase_history_example :
    Memᴰ I.policy_check bought × Memᴰ I.approved bought × Memᴰ I.executing bought
purchase_history_example = purchase_history bought bought_succeeds

expired-valid : I.valid I.expired ≡ true
unfolding I.valid I.transitions
expired-valid = refl

purchase_terminal_iff_example :
    (I.terminal I.expired ≡ true) ↔ ((t : I.State) → PurchasePaths.accepted I.expired t ≡ none)
purchase_terminal_iff_example = purchase_terminal_iff I.expired expired-valid

executing-valid : I.valid I.executing ≡ true
unfolding I.valid I.transitions
executing-valid = refl

purchase_reachable_example :
    (follow PurchasePaths.accepted I.draft (PurchaseReach.way_in I.executing) ≡ some I.executing)
    × (I.terminal I.executing ≡ false
        → (t : I.State) × (follow PurchasePaths.accepted I.executing
              (PurchaseReach.way_out I.executing)
            ≡ some t)
          × (I.terminal t ≡ true))
purchase_reachable_example = purchase_reachable I.executing executing-valid
