-- ===== src/App/Commerce/Backing.antt =====
-- What a checkout rests on (internal/app/order_service.go).
pub mod Execution
use algebra.Prelude.{
  String, ◌≡◌, refl, ◌∙◌, ap, ◌⊎◌, inl, inr, Bool, true, false, Option, none, some, List, ◌∷◌,
  str_eq, not, ◌||◌, eq_iff, if◌then◌else◌, Bool-cases, arith,
}
use algebra.Money.{Amount, within_tolerance}
use algebra.Approval.{Approval, is_approved, reapproval_required, matches}
use algebra.Intent.Record.{PurchaseIntent}
use algebra.Quote.{CheckoutQuote}
use algebra.Policy.Decision.{Decision, allow, deny, require_approval}
use algebra.App.World.{World, Ledger, Charge}
use algebra.App.Exec.{Exec, conflict, raise, ◌>>=◌, ◌>>◌}
use algebra.App.Keeps.{
  Quiet, Ends, Leads, Leads-Quiet, Leads-raise, Leads-pure, Leads-given, Leads-then, Leads-if,
  Leads-bind,
}
use algebra.App.Quiet.{app_rules, Quiet-move_intent, Quiet-transition_intent}
use algebra.App.Ledger.{Leads-statement}
use algebra.App.Stores.{
  approval_row, claim, write_approval, approvals_update, approvals_mark_consumed,
}
use algebra.App.Commerce.Wiring.{Fulfillment, Connector, Wiring}
use algebra.App.Commerce.Quotes.{or_panic}
use algebra.App.Commerce.Orders.{
  require_reapproval, execute_checkout, checkout_of, with_connector, check_out, place, on_recheck,
  recheck, compare_terms, approval_hash, tolerance,
}
use algebra.App.Commerce.Quiet.{table_rules}
use algebra.App.Commerce.Quiet.Steps.{
  Quiet-after_checkout, Quiet-refresh_quote, Quiet-provider_for, Quiet-resolve_fulfillment,
}

-- The quote has the merchant and the currency that were approved, its items have the hash that was
-- approved, and its amount differs from the approved one by no more than the tolerance.
pub record Agrees (wiring : Wiring) (a : Approval) (q : CheckoutQuote) : Type 0 where
  pub merchant : a.merchant ≡ q.merchant
  pub items : a.items_hash ≡ approval_hash wiring q a.payment_source_alias
  pub currency : a.amount.currency ≡ q.final_payable.currency
  pub amount : within_tolerance a.amount q.final_payable (tolerance wiring q) ≡ some true

-- The checkout is that of a quote that agrees with the approval.
abbrev pub Backed : Wiring → Approval → Charge → Type 0
Backed wiring a c = (q : CheckoutQuote) × (c ≡ checkout_of wiring a q) × Agrees wiring a q

if_matches :
    (m h p c : Bool) (o : Option Bool)
    → (if not m
        then some false
        else if not h
        then some false
        else if not p
        then some false
        else if c
        then some false
        else o)
      ≡ some true
    → (m ≡ true) × (h ≡ true) × (c ≡ false) × (o ≡ some true)
if_matches m h p c o e = ground arith

matches-Agrees :
    (wiring : Wiring) (a : Approval) (q : CheckoutQuote)
    → matches a q.merchant
        (approval_hash wiring q a.payment_source_alias)
        q.final_payable
        a.payment_source_alias
        (tolerance wiring q)
      ≡ some true
    → Agrees wiring a q
unfolding matches
matches-Agrees wiring a q e =
    let (m, h, c, o) =
      if_matches (str_eq a.merchant q.merchant)
        (str_eq a.items_hash (approval_hash wiring q a.payment_source_alias))
        (str_eq a.payment_source_alias a.payment_source_alias)
        (not (str_eq a.amount.currency q.final_payable.currency)
          || not (str_eq a.amount.currency q.final_payable.currency))
        (within_tolerance a.amount q.final_payable (tolerance wiring q)) e in
    record {
      merchant = (eq_iff a.merchant q.merchant).0 m;
      items = (eq_iff a.items_hash (approval_hash wiring q a.payment_source_alias)).0 h;
      currency = (eq_iff a.amount.currency q.final_payable.currency).0 (agrees _ c);
      amount = o;
    }
  where
    agrees : (b : Bool) → (not b || not b) ≡ false → b ≡ true
    agrees true c = refl
    agrees false c = absurd (cc)

module _ (wiring : Wiring) (charges : List Charge) (a : Approval) where
  abbrev Unpaid : Ledger → Type 0
  Unpaid l = l.charges ≡ charges

  -- Nothing was charged, or one checkout was made that is backed.
  abbrev pub AtMostOne : Ledger → Type 0
  AtMostOne l = Unpaid l ⊎ ((c : Charge) × (l.charges ≡ c ∷ charges) × Backed wiring a c)

  unpaid : (l : Ledger) → Unpaid l → AtMostOne l
  unpaid l h = inl h

  Leads-Unpaid : {A : Type 0} (m : Exec A) → Quiet m → Leads AtMostOne Unpaid m (λ _. Unpaid)
  Leads-Unpaid m q = Leads-Quiet m unpaid q

  Leads-no_charge : {A : Type 0} (m : Exec A) → Quiet m → Leads AtMostOne Unpaid m (λ _. AtMostOne)
  Leads-no_charge m q = Leads-then (λ o l u. inl u) (Leads-Unpaid m q)

  Leads-or_panic :
      {A : Type 0} (o : Option A)
      → Leads AtMostOne Unpaid (or_panic o) (λ x l. (o ≡ some x) × Unpaid l)
  Leads-or_panic none = Leads-raise _ unpaid
  Leads-or_panic (some x) = Leads-pure x (λ l h. (refl, h))

  -- The writes of approvals charge nothing.
  Leads-update : (b : Approval) → Leads AtMostOne Unpaid (approvals_update b) (λ _. Unpaid)
  unfolding approvals_update
  Leads-update b =
      Leads-statement _ unpaid (λ u l h. inl h)
        (record { at = λ w h. go w (approval_row b.id w.ledger.approvals) h })
    where
      go :
          (w : World) (o : Option Approval)
          → Unpaid w.ledger
          → Ends AtMostOne (λ _. Unpaid) (write_approval b o w)
      go w none h = inl h
      go w (some old) h = h

  Leads-claim : Leads AtMostOne Unpaid (approvals_mark_consumed a.id) (λ _. Unpaid)
  unfolding approvals_mark_consumed
  Leads-claim =
      Leads-statement _ unpaid (λ b l h. inl h)
        (record { at = λ w h. go w (approval_row a.id w.ledger.approvals) h })
    where
      go :
          (w : World) (o : Option Approval)
          → Unpaid w.ledger
          → Ends AtMostOne (λ _. Unpaid) (claim a.id o w)
      go w none h = h
      go w (some row) h = elim (Bool-cases (is_approved row.status)) [
        | inl e ↦ rw e h
        | inr e ↦ rw e h
      ]

  Leads-require_reapproval :
      (pi : PurchaseIntent)
      → Leads AtMostOne Unpaid (require_reapproval wiring pi a) (λ _. AtMostOne)
  unfolding require_reapproval
  Leads-require_reapproval pi =
      Leads-bind _ _ (Leads-update (record a { status = reapproval_required }))
        λ u. Leads-no_charge _ (search app_rules)

  module _ (q : CheckoutQuote) (agrees : Agrees wiring a q) where
    Leads-execute_checkout :
        (connector : Connector) (f : Fulfillment)
        → Leads AtMostOne Unpaid
            (execute_checkout connector q.cart_id (checkout_of wiring a q) f)
            (λ _. AtMostOne)
    unfolding execute_checkout
    Leads-execute_checkout connector f = record {
      at = λ w u.
          inr (checkout_of wiring a q, ap (λ cs. checkout_of wiring a q ∷ cs) u, (q, refl, agrees));
    }

    Leads-with_connector :
        (pi : PurchaseIntent) (f : Fulfillment) (o : Option Connector)
        → Leads AtMostOne Unpaid (with_connector wiring pi a q f o) (λ _. AtMostOne)
    Leads-with_connector pi f none = Leads-no_charge _ (search (app_rules, Quiet-transition_intent))
    Leads-with_connector pi f (some connector) =
        Leads-bind _ _ (Leads-execute_checkout connector f)
          λ r. Leads-Quiet _ (λ l s. s) (Quiet-after_checkout wiring pi a connector r)

    Leads-place :
        (pi : PurchaseIntent) → Leads AtMostOne Unpaid (place wiring pi a q) (λ _. AtMostOne)
    unfolding place check_out
    Leads-place pi = Leads-bind _ _ (Leads-Unpaid _ (Quiet-resolve_fulfillment wiring pi a)) λ f.
        Leads-bind _ _ Leads-claim λ claimed.
          Leads-if claimed _ _ _
            (λ e.
              Leads-bind _ _ (Leads-Unpaid _ (Quiet-move_intent _ _ _))
                λ p. Leads-with_connector p f (wiring.connectors q.merchant))
            (λ e. Leads-raise conflict unpaid)

    Leads-on_recheck :
        (pi : PurchaseIntent) (d : Decision)
        → Leads AtMostOne Unpaid (on_recheck wiring pi a q d) (λ _. AtMostOne)
    unfolding on_recheck
    Leads-on_recheck pi deny = Leads-no_charge _ (search app_rules)
    Leads-on_recheck pi require_approval = Leads-require_reapproval pi
    Leads-on_recheck pi allow = Leads-place pi

    Leads-recheck :
        (pi : PurchaseIntent) → Leads AtMostOne Unpaid (recheck wiring pi a q) (λ _. AtMostOne)
    unfolding recheck
    Leads-recheck pi = Leads-bind _ _ (Leads-Unpaid _ (search table_rules)) λ t.
        Leads-bind _ _ (Leads-Unpaid _ (search table_rules)) λ spend.
          Leads-bind _ _ (Leads-Unpaid _ (Quiet-provider_for wiring _)) λ rules.
            Leads-bind _ _ (Leads-Unpaid _ (search table_rules)) λ t'.
              Leads-bind _ _ (Leads-Unpaid _ (search table_rules))
                λ d. Leads-on_recheck pi d.decision

  pub Leads-compare_terms :
      (pi : PurchaseIntent) → Leads AtMostOne Unpaid (compare_terms wiring pi a) (λ _. AtMostOne)
  unfolding compare_terms
  Leads-compare_terms pi = Leads-bind _ _ (Leads-Unpaid _ (Quiet-refresh_quote wiring _)) λ q.
      Leads-bind _ _ (Leads-or_panic _) λ same. Leads-given λ matched.
        Leads-if same _ _ _
          (λ e. Leads-recheck q (matches-Agrees wiring a q (matched ∙ ap some e)) pi)
          (λ e. Leads-require_reapproval pi)
