-- ===== src/Guardrails/Limits.antt =====
-- The limits that `Normalize` answers with (internal/domain/account/guardrails.go).
use mathlib.Core.Path.{subst}
use Prim.Native.Char.{Char}
use Prim.Native.String.compare
use text.Mathlib.Text.{is_eq}
use algebra.Prelude.{
  String, ◌≡◌, refl, sym, ◌∙◌, Bool, true, false, ◌||◌, List, [], ◌⊎◌, inl, inr, str_eq, arith,
  Bool-cases, if◌then◌else◌,
}
use algebra.Prelude.Int.{ℤ, pos, ltb_ℤ, leb_ℤ, ◌≤ℤ◌, ◌<ℤ◌}
use algebra.Prelude.Texts.{to_upper, to_upper-to_upper}
use algebra.Guardrails.{
  Guardrails, Flaw, platform_max_per_day_minor_units, with_lists, with_currency, with_purchase_cap,
  normal_categories, normal_merchants, normalize,
}
use algebra.Guardrails.Normal.{
  of_inr, inl_ne_inr, Clean, IsCategory, IsMerchant, normal_categories-Clean,
  normal_categories-again, normal_merchants-Clean, normal_merchants-again,
}

-- Guardrails that `Normalize` has nothing to change in.
pub record IsNormal (g : Guardrails) : Type 0 where
  pub day_positive : leb_ℤ g.max_per_day_minor_units (pos 0) ≡ false
  pub day_capped : ltb_ℤ platform_max_per_day_minor_units g.max_per_day_minor_units ≡ false
  pub threshold : ltb_ℤ g.approval_threshold_minor_units (pos 0) ≡ false
  pub purchase_positive : leb_ℤ g.max_per_purchase_minor_units (pos 0) ≡ false
  pub purchase_capped : ltb_ℤ g.max_per_day_minor_units g.max_per_purchase_minor_units ≡ false
  pub currency_given : str_eq g.currency "" ≡ false
  pub currency_upper : to_upper g.currency ≡ g.currency
  pub categories : Clean IsCategory [] g.blocked_categories
  pub merchants : Clean IsMerchant [] g.blocked_merchants

module _ (g : Guardrails) (h : IsNormal g) where
  normal_currency : with_currency g ≡ g
  normal_currency =
      (λ i. record g { currency = to_upper (if h.currency_given i then "INR" else g.currency) })
      ∙ (λ i. record g { currency = h.currency_upper i })

  normal_purchase_cap : with_purchase_cap g ≡ g
  normal_purchase_cap = rw (with_purchase_cap, h.purchase_positive, h.purchase_capped) refl

  IsNormal-normalize : normalize g ≡ inr g
  unfolding normalize
  IsNormal-normalize =
      let cats = normal_categories [] g.blocked_categories in
      rw (h.day_positive, h.day_capped, h.threshold)
        ((λ i. with_lists (with_purchase_cap (normal_currency i)) cats)
          ∙ (λ i. with_lists (normal_purchase_cap i) cats)
          ∙ (λ i. with_lists g (normal_categories-again [] g.blocked_categories h.categories i))
          ∙ (λ i. inr (record g {
            blocked_merchants = normal_merchants-again [] g.blocked_merchants h.merchants i;
          })))

not_empty : (c : Char) (s : String) → str_eq (String.◌∷◌ c s) "" ≡ false
not_empty c s i = is_eq (compare.cons-nil c s i)

to_upper_empty : (s : String) → str_eq (to_upper s) "" ≡ str_eq s ""
unfolding to_upper
to_upper_empty String.[] = refl
to_upper_empty (String.◌∷◌ c s) = not_empty _ (to_upper s) ∙ sym (not_empty c s)

-- The currency is never empty, and it stays.
currency_given-with : (g : Guardrails) → str_eq (with_currency g).currency "" ≡ false
currency_given-with g = elim (Bool-cases (str_eq g.currency "")) [
  | inl e ↦ rw (with_currency, e) (to_upper_empty "INR")
  | inr e ↦ rw (with_currency, e) (to_upper_empty g.currency ∙ e)
]

currency_upper-with :
    (g : Guardrails) → to_upper (with_currency g).currency ≡ (with_currency g).currency
currency_upper-with g = to_upper-to_upper (if str_eq g.currency "" then "INR" else g.currency)

ltb_irrefl : (a : ℤ) → ltb_ℤ a a ≡ false
ltb_irrefl a = ground arith

or_false : (a b : Bool) → a || b ≡ false → (a ≡ false) × (b ≡ false)
or_false true b h = cc
or_false false b h = (refl, h)

module _ (g : Guardrails) (day : leb_ℤ g.max_per_day_minor_units (pos 0) ≡ false)
    (capped : ltb_ℤ platform_max_per_day_minor_units g.max_per_day_minor_units ≡ false)
    (threshold : ltb_ℤ g.approval_threshold_minor_units (pos 0) ≡ false) where
  abbrev filled : ℤ → List String → List String → Guardrails
  filled cap cats merchants = record (with_currency g) {
    max_per_purchase_minor_units = cap;
    blocked_categories = cats;
    blocked_merchants = merchants;
  }

  filled-IsNormal :
      (cap : ℤ) (cats merchants : List String)
      → leb_ℤ cap (pos 0) ≡ false
      → ltb_ℤ g.max_per_day_minor_units cap ≡ false
      → Clean IsCategory [] cats
      → Clean IsMerchant [] merchants
      → IsNormal (filled cap cats merchants)
  filled-IsNormal cap cats merchants a b c m = record {
    day_positive = day;
    day_capped = capped;
    threshold = threshold;
    purchase_positive = a;
    purchase_capped = b;
    currency_given = currency_given-with g;
    currency_upper = currency_upper-with g;
    categories = c;
    merchants = m;
  }

  with_lists-IsNormal :
      (g' : Guardrails)
      → with_lists (with_purchase_cap (with_currency g)) (normal_categories [] g.blocked_categories)
        ≡ inr g'
      → IsNormal g'
  with_lists-IsNormal g' e = go (normal_categories [] g.blocked_categories) refl e
    where
      merchants : Clean IsMerchant [] (normal_merchants [] g.blocked_merchants)
      merchants = normal_merchants-Clean [] g.blocked_merchants tt

      chosen :
          (cats : List String)
          → Clean IsCategory [] cats
          → IsNormal (record (with_purchase_cap (with_currency g)) {
            blocked_categories = cats;
            blocked_merchants =
                normal_merchants [] (with_purchase_cap (with_currency g)).blocked_merchants;
          })
      chosen cats c =
          elim (Bool-cases (
            leb_ℤ g.max_per_purchase_minor_units (pos 0)
            || ltb_ℤ g.max_per_day_minor_units g.max_per_purchase_minor_units)) [
              | inl missing ↦
                  rw (with_purchase_cap, missing)
                    (filled-IsNormal g.max_per_day_minor_units cats _ day
                      (ltb_irrefl g.max_per_day_minor_units) c merchants)
              | inr given ↦
                  let (a, b) = or_false _ _ given in
                  rw (with_purchase_cap, given)
                    (filled-IsNormal g.max_per_purchase_minor_units cats _ a b c merchants)
            ]

      go :
          (o : Flaw ⊎ List String)
          → normal_categories [] g.blocked_categories ≡ o
          → with_lists (with_purchase_cap (with_currency g)) o ≡ inr g'
          → IsNormal g'
      go (inl flaw) f e = absurd (inl_ne_inr e)
      go (inr cats) f e =
          subst IsNormal (of_inr e)
            (chosen cats (normal_categories-Clean [] g.blocked_categories cats tt f))

pub normalize-IsNormal : (g g' : Guardrails) → normalize g ≡ inr g' → IsNormal g'
unfolding normalize
normalize-IsNormal g g' e = elim (Bool-cases (leb_ℤ g.max_per_day_minor_units (pos 0))) [
  | inl a ↦ absurd (inl_ne_inr (rw a at e))
  | inr a ↦ elim (Bool-cases (ltb_ℤ platform_max_per_day_minor_units g.max_per_day_minor_units)) [
    | inl b ↦ absurd (inl_ne_inr (rw (a, b) at e))
    | inr b ↦ elim (Bool-cases (ltb_ℤ g.approval_threshold_minor_units (pos 0))) [
      | inl c ↦ absurd (inl_ne_inr (rw (a, b, c) at e))
      | inr c ↦ with_lists-IsNormal g a b c g' (rw (a, b, c) at e)
    ]
  ]
]

-- What Normalize answers without an error, it answers again unchanged.
pub normalize_again : (g g' : Guardrails) → normalize g ≡ inr g' → normalize g' ≡ inr g'
normalize_again g g' e = IsNormal-normalize g' (normalize-IsNormal g g' e)

-- Every limit that Normalize answers with is in its bounds: 0 < the cap on a purchase ≤ the cap on a
-- day ≤ the platform's, and 0 ≤ the threshold.
pub normalize_bounds :
    (g g' : Guardrails)
    → normalize g ≡ inr g'
    → (pos 0 <ℤ g'.max_per_purchase_minor_units)
      × (g'.max_per_purchase_minor_units ≤ℤ g'.max_per_day_minor_units)
      × (g'.max_per_day_minor_units ≤ℤ platform_max_per_day_minor_units)
      × (pos 0 ≤ℤ g'.approval_threshold_minor_units)
normalize_bounds g g' e =
    let h = normalize-IsNormal g g' e in
    (
      ground (arith, h.purchase_positive),
      ground (arith, h.purchase_capped),
      ground (arith, h.day_capped),
      ground (arith, h.threshold),
    )
