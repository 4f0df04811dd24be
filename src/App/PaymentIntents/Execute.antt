-- ===== src/App/PaymentIntents/Execute.antt =====
-- internal/app/payment_intent_service.go: the function that `Execute` runs under its idempotency key. The
-- provider of payments is a parameter; `none` is an error of it.
use algebra.Prelude.{ℕ, String, Bool, Option, none, some, ◌∷◌, if◌then◌else◌}
use algebra.Prelude.Int.{ℤ, add64}
use algebra.Agent.{perm_payments_execute}
use algebra.Approval.{Approval, executable}
use algebra.PaymentIntent.State as PaymentState
use algebra.PaymentIntent.State.{same}
use algebra.PaymentIntent.Record.{AgenticPaymentIntent}
use algebra.App.World.{Channel, Charge}
use algebra.App.Exec.{Exec, ok, conflict, pure, raise, now, ◌>>=◌, ◌>>◌}
use algebra.App.Stores.{approvals_get_by_payment_intent, approvals_mark_consumed}
use algebra.App.Transition.{transition_payment_intent, move}
use algebra.App.PaymentIntents.Create.{fire_webhook, owned}

-- internal/domain/paymentprovider/types.go. A status is a text in the source.
pub data PaymentStatus : Type 0 where
  succeeded failed declined authentication_required provider_unavailable : PaymentStatus
  other : String → PaymentStatus

abbrev pub status_text : PaymentStatus → String
status_text succeeded = "SUCCEEDED"
status_text failed = "FAILED"
status_text declined = "DECLINED"
status_text authentication_required = "AUTHENTICATION_REQUIRED"
status_text provider_unavailable = "PROVIDER_UNAVAILABLE"
status_text (other s) = s

pub record RegisterSourceRequest : Type 0 where
  pub user_id : String
  pub alias : String

pub record DelegatedAuthorizationRequest : Type 0 where
  pub user_id : String
  pub agent_id : String
  pub source_ref : String
  pub merchant : String
  pub merchant_domain : String
  pub max_amount_minor_units : ℤ
  pub currency : String
  pub expires_at : ℕ

pub record ScopedCredentialRequest : Type 0 where
  pub authorization_ref : String
  pub amount_minor_units : ℤ
  pub currency : String
  pub idempotency_key : String

pub record PaymentResult : Type 0 where
  pub status : PaymentStatus
  pub provider_transaction_id : String
  pub final_amount_minor_units : ℤ
  pub final_currency : String
  pub reason : String

pub record Provider : Type 0 where
  pub register_payment_source : RegisterSourceRequest → Option String
  pub create_delegated_authorization : DelegatedAuthorizationRequest → Option String
  pub request_authentication : String → Option Bool
  pub create_scoped_credential : ScopedCredentialRequest → Option String
  pub execute_payment : Charge → Option PaymentResult

-- The outcome, without its reason, a free text.
pub record PaymentExecuteOutcome : Type 0 where
  pub status : PaymentState.State
  pub result : Option PaymentResult

abbrev then_try {ℓ κ} : {A : Type ℓ} {B : Type κ} → Option A → (A → Option B) → Option B
then_try none f = none
then_try (some a) f = f a

module _ (provider : Provider) where
  -- The reference of the credential.
  unfoldable pub prepare_credential : AgenticPaymentIntent → Approval → Option String
  prepare_credential p a =
      then_try
        (provider.register_payment_source
          (record { user_id = p.user_id; alias = p.payment_source_alias }))
        λ source.
          then_try
            (provider.create_delegated_authorization (record {
              user_id = p.user_id;
              agent_id = p.agent_id;
              source_ref = source;
              merchant = p.merchant;
              merchant_domain = p.merchant_domain;
              max_amount_minor_units = add64 p.amount_minor_units p.tolerance_minor_units;
              currency = p.currency;
              expires_at = a.expires_at;
            }))
            λ authorization. then_try (provider.request_authentication authorization) λ satisfied.
              if satisfied
              then provider.create_scoped_credential (record {
                authorization_ref = authorization;
                amount_minor_units = p.amount_minor_units;
                currency = p.currency;
                idempotency_key = "";
              })
              else none

  -- A last transition whose error is returned, with its webhook and the outcome.
  unfoldable pub finish :
      AgenticPaymentIntent
      → PaymentState.State
      → String
      → String
      → Option PaymentResult
      → Exec PaymentExecuteOutcome
  finish p to action event result = do
    q ← move p to action
    fire_webhook q event
    pure (record { status = q.status; result = result })

  -- The same where the error of the transition is dropped.
  unfoldable pub give_up :
      AgenticPaymentIntent → PaymentState.State → String → String → Exec PaymentExecuteOutcome
  give_up p to action event = do
    r ← transition_payment_intent p to action
    fire_webhook r.0 event
    pure (record { status = r.0.status; result = none })

  abbrev pub settled :
      AgenticPaymentIntent → PaymentResult → PaymentStatus → Exec PaymentExecuteOutcome
  settled p result succeeded =
      finish
        (record p {
          provider_transaction_id = result.provider_transaction_id;
          final_amount_minor_units = result.final_amount_minor_units;
          final_currency = result.final_currency;
        })
        PaymentState.succeeded "PaymentSucceeded" "payment_intent.succeeded" (some result)
  settled p result authentication_required =
      finish p PaymentState.authentication_required "AuthenticationRequired"
        "payment_intent.authentication_required" (some result)
  settled p result provider_unavailable =
      finish p PaymentState.provider_unavailable "ProviderUnavailable"
        "payment_intent.provider_unavailable" (some result)
  settled p result _ =
      finish p PaymentState.failed "PaymentFailed" "payment_intent.failed" (some result)

  unfoldable pub handle_execution_result :
      AgenticPaymentIntent → PaymentResult → Exec PaymentExecuteOutcome
  handle_execution_result p result =
      settled (record p { provider_status = status_text result.status }) result result.status

  -- The call that moves money; its failure comes back as `none`.
  unfoldable pub charge : Charge → Exec (Option PaymentResult)
  charge c w = (
    ok (provider.execute_payment c),
    record w { ledger = record w.ledger { charges = c ∷ w.ledger.charges } },
  )

  abbrev pub after_charge : AgenticPaymentIntent → Option PaymentResult → Exec PaymentExecuteOutcome
  after_charge p none = give_up p PaymentState.failed "PaymentFailed" "payment_intent.failed"
  after_charge p (some result) = handle_execution_result p result

  abbrev pub charge_of : AgenticPaymentIntent → Approval → String → String → Charge
  charge_of p a credential idem_key = record {
    channel = Channel.provider;
    approval_id = a.id;
    credential_ref = credential;
    merchant = p.merchant;
    merchant_domain = p.merchant_domain;
    amount_minor_units = p.amount_minor_units;
    currency = p.currency;
    idempotency_key = idem_key;
  }

  unfoldable pub pay :
      AgenticPaymentIntent → Approval → String → String → Exec PaymentExecuteOutcome
  pay p a credential idem_key = do
    q ← move p PaymentState.processing "ExecutionStarted"
    result ← charge (charge_of q a credential idem_key)
    after_charge q result

  unfoldable pub claim_and_pay :
      AgenticPaymentIntent → Approval → String → String → Exec PaymentExecuteOutcome
  claim_and_pay p a credential idem_key = do
    claimed ← approvals_mark_consumed a.id
    if claimed then pay p a credential idem_key else raise conflict

  abbrev pub with_credential :
      AgenticPaymentIntent → Approval → String → Option String → Exec PaymentExecuteOutcome
  with_credential p a idem_key none =
      give_up p PaymentState.provider_unavailable "ProviderUnavailable"
        "payment_intent.provider_unavailable"
  with_credential p a idem_key (some credential) = do
    q ← move p PaymentState.ready_to_execute "CredentialPrepared"
    claim_and_pay q a credential idem_key

  unfoldable pub prepare_and_pay :
      AgenticPaymentIntent → Approval → String → Exec PaymentExecuteOutcome
  prepare_and_pay p a idem_key = do
    q ← move p PaymentState.credential_preparing "CredentialPreparationStarted"
    with_credential q a idem_key (prepare_credential q a)

  abbrev pub if_executable :
      AgenticPaymentIntent → Approval → String → ℕ → Exec PaymentExecuteOutcome
  if_executable p a idem_key t =
      if executable a t then prepare_and_pay p a idem_key else raise conflict

  unfoldable pub execute_approved :
      AgenticPaymentIntent → String → String → Exec PaymentExecuteOutcome
  execute_approved p idem_key payment_intent_id = do
    a ← approvals_get_by_payment_intent payment_intent_id
    t ← now
    if_executable p a idem_key t

  abbrev pub if_authorized : AgenticPaymentIntent → String → String → Exec PaymentExecuteOutcome
  if_authorized p idem_key payment_intent_id =
      if same p.status PaymentState.authorized
      then execute_approved p idem_key payment_intent_id
      else raise conflict

  -- The function that `Execute` runs under its idempotency key.
  unfoldable pub execute : String → String → String → Exec PaymentExecuteOutcome
  execute idem_key agent_id payment_intent_id = do
    p ← owned agent_id perm_payments_execute payment_intent_id
    if_authorized p idem_key payment_intent_id
