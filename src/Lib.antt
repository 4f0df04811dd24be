-- ===== src/Lib.antt =====
-- Project Algebra: payments and purchases that software agents ask for, under a user's policy.
--
-- An agent asks for a payment, or for a purchase from a merchant, whose quotes it selects from. The
-- policy of the tenant or the user decides whether that is allowed, denied or put before a human as an
-- approval. An approval binds what was approved; it is claimed once, and then the money moves, through a
-- payment provider or the merchant's checkout. The files follow these parts:
--
-- - Money: internal/domain/money/money.go. An `int64` is an integer that every operation wraps to 64
--   bits (`add64`, `sub64`, `mul64`, `neg64` of Prelude/Int); `none` is the panic of `mustMatch`.
-- - Policy: policy/. Policy/Decision is provider.go (the decisions, `worse`, `merge`), Policy/Rules is
--   rules.go, Policy/Usdc is usdc.go with the parts of `strings` and `fmt` that it uses, written out on
--   bytes, and Policy/Provider is local_provider.go, one function per check.
-- - Guardrails: internal/domain/account/guardrails.go, from the limits a user sets to the rules of the
--   policy. `ToUpper`, `ToLower` and `TrimSpace` of `strings` are in Prelude/Texts, on texts whose letters
--   are ASCII.
-- - Intent and PaymentIntent: internal/domain/intent and internal/domain/paymentintent. A state is a
--   text in the source: a data type with a constructor for each constant and one for any other text.
--   `transition` returns the new state or the error, `apply_transition` the record and the error.
-- - Quote: internal/domain/quote/quote.go. Approval: internal/domain/approval/approval.go; the SHA-256
--   digest in hexadecimal is an argument of `canonical_hash`. Agent: internal/domain/agent/agent.go.
-- - Resilience: internal/platform/resilience/circuit_breaker.go, each method one step.
-- - Billing: internal/domain/billing/billing.go, and App/Billing billing_service.go with billing_repo.go:
--   the plans that users pay for, and the webhooks that change them.
-- - App: internal/app, and the statements of internal/platform/postgres that it sends. App/World is the
--   tables, what was charged, the clock and the faults to come. App/Exec is an action: a function from
--   the world to a result and a world, so that what was written before an error stays written. App/Stores
--   has one action for each statement; a statement is run, or lost, or run while its answer is lost
--   (`Fault`). App/Authz, App/Transition, App/Approvals, App/PaymentIntents, App/PolicySets and
--   App/Idempotency are authz.go, transition.go with payment_intent_transition.go, approval_service.go,
--   payment_intent_service.go, policy_set_service.go and idempotency.go. `execute` of a payment is the
--   function that runs under the idempotency key, and `execute_keyed` is the whole.
-- - App/Commerce: Intents, Quotes, Policies and Orders are intent_service.go, quote_service.go,
--   policy_service.go with user_rules.go, and order_service.go; Reapprovals is the part of
--   approval_service.go that refreshes quotes, Tables the statements, and Wiring what the services are
--   set up with: the connectors of merchants, the lock, the plan's gate, the addresses of a profile.
-- - What actions do is said once and used by all services: App/Keeps, App/Quiet and App/Ledger on the
--   approvals and the charges, App/Moves on what a transition hands on, App/Reads on what a query
--   answers. App/Charging has runs of requests for payments and purchases, one after the other.
-- - Examples: the theorems at concrete inputs.
--
-- The payment provider (App/PaymentIntents/Execute), a merchant's connector (App/Commerce/Wiring)
-- and the company that bills for plans (App/Billing/Service) are records of functions, `none` being
-- an error of the call. Each call that moves money is noted in the list of charges, which the
-- program does not have. The clock moves by delays that are part of the world, and `newID` draws
-- from a sequence of ids that is part of it too. The midnight before a time, which hangs on the
-- zone of the process, the start of a month, and the encoding of results for idempotent replay are
-- parameters. A panic ends a request, as an error does. Nothing loops but over a list. The digits
-- of a number are computed on fuel 20, which is enough for 64 bits.
--
-- Not modelled: requests that run at the same time, free texts of audit events and errors, the
-- connectors and providers themselves, which call other companies, the payments in cryptocurrency beyond
-- their policy, accounts and sign-in, the HTTP and MCP interfaces, encryption, and all programs and
-- configuration.
pub mod Prelude
pub mod Money
pub mod Policy
pub mod Intent
pub mod PaymentIntent
pub mod Quote
pub mod Approval
pub mod Guardrails
pub mod Agent
pub mod Billing
pub mod Resilience
pub mod App
pub mod Examples
