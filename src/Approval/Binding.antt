-- ===== src/Approval/Binding.antt =====
-- What an approval binds (approval.go).
use algebra.Prelude.{
  ℕ, ◌^◌, ◌<◌, String, ◌≡◌, ap, ◌∙◌, inl, inr, Bool-cases, ◌↔◌, Bool, true, ◌&&◌, some, arith,
  eq_iff, str_eq,
}
use algebra.Prelude.Int.{pos}
use algebra.Money.{Amount, within_tolerance}
use algebra.Money.Laws.{Within, within_tolerance_exact}
use algebra.Approval.{Approval, matches}

abbrev amount : ℕ → String → Amount
amount n c = record { minor_units = pos n; currency = c }

-- For amounts that are not negative, where the tolerance is in the currency of the new amount (as
-- `Execute` calls it), the comparison does not panic, and it answers yes exactly when the merchant,
-- the items' hash, the payment source and the currency are the approved ones and the amounts differ
-- by no more than the tolerance.
pub matches_iff :
    (a : Approval) (approved_units units tolerance : ℕ) (merchant hash alias currency : String)
    → a.amount.minor_units ≡ pos approved_units
    → approved_units < 2 ^ 63
    → units < 2 ^ 63
    → (r : Bool) × (matches a merchant hash
          (record { minor_units = pos units; currency = currency })
          alias
          (record { minor_units = pos tolerance; currency = currency })
        ≡ some r)
      × ((r ≡ true) ↔ (
          (a.merchant ≡ merchant)
          × (a.items_hash ≡ hash)
          × (a.payment_source_alias ≡ alias)
          × (a.amount.currency ≡ currency)
          × Within approved_units units tolerance))
unfolding matches
matches_iff a n u t merchant hash alias currency e hn hu =
    let (w, within, exact) = within_tolerance_exact n u t currency hn hu in
    (
      str_eq a.merchant merchant
          && (str_eq a.items_hash hash
              && (str_eq a.payment_source_alias alias && (str_eq a.amount.currency currency && w))),
      elim (Bool-cases (str_eq a.amount.currency currency)) [
        | inl c ↦
            let bound =
              ap (λ (x : Amount). within_tolerance x (amount u currency) (amount t currency))
                (λ i. record {
                  minor_units = e i;
                  currency = (eq_iff a.amount.currency currency).0 c i;
                })
              ∙ within in
            ground (arith, bound)
        | inr c ↦ ground arith
      ],
      (
        ground (
          arith,
          eq_iff a.merchant merchant,
          eq_iff a.items_hash hash,
          eq_iff a.payment_source_alias alias,
          eq_iff a.amount.currency currency,
          exact,
        ),
        ground (
          arith,
          eq_iff a.merchant merchant,
          eq_iff a.items_hash hash,
          eq_iff a.payment_source_alias alias,
          eq_iff a.amount.currency currency,
          exact,
        ),
      ),
    )
