-- ===== src/Guardrails/Normal.antt =====
-- What `Normalize` answers, and that it answers it again (internal/domain/account/guardrails.go).
use algebra.Prelude.{
  String, ◌≡◌, ◌≢◌, sym, ap, ◌∙◌, true, false, List, [], ◌∷◌, ◌++◌, ◌⊎◌, inl, inr, str_eq, eq_iff,
  All, Bool-cases,
}
use mathlib.Core.Path.{subst}
use mathlib.Core.List.{append-nil, append_assoc}
use algebra.Prelude.Texts.{to_lower, trim_space, trim_left, trim_right, trim_space-trim_space}
use algebra.Policy.Rules.{contains}
use algebra.Guardrails.{known_categories, is_skipped, normal_categories, normal_merchants}

pub of_inr : {A B : Type 0} {a b : B} → ◌≡◌ {A = A ⊎ B} (inr a) (inr b) → a ≡ b
of_inr e = cc

pub inl_ne_inr : {A B : Type 0} {a : A} {b : B} → ◌≢◌ {A = A ⊎ B} (inl a) (inr b)
inl_ne_inr e = cc

-- What holds of all the elements holds of one that is contained.
contains-All :
    (P : String → Type 0) (list : List String) (v : String)
    → All P list
    → contains list v ≡ true
    → P v
unfolding contains
contains-All P [] v h e = cc
contains-All P (x ∷ list) v h e = elim (Bool-cases (str_eq x v)) [
  | inl same ↦ subst P ((eq_iff x v).0 same) h.0
  | inr other ↦ contains-All P list v h.1 (rw other at e)
]

-- After the names in `kept`, a list of names that are all good and all new.
module _ (Good : String → Type 0) where
  abbrev pub Clean : List String → List String → Type 0
  Clean kept [] = Unit
  Clean kept (x ∷ xs) = Good x × (is_skipped kept x ≡ false) × Clean (kept ++ x ∷ []) xs

  Clean-snoc :
      (kept xs : List String) (x : String)
      → Clean kept xs
      → Good x
      → is_skipped (kept ++ xs) x ≡ false
      → Clean kept (xs ++ x ∷ [])
  Clean-snoc kept [] x h g new = (g, rw append-nil at new, tt)
  Clean-snoc kept (y ∷ ys) x h g new =
      (h.0, h.1, Clean-snoc (kept ++ y ∷ []) ys x h.2 g (rw append_assoc new))

-- A category that the engine knows, as it is written there.
abbrev pub IsCategory : String → Type 0
IsCategory c = (contains known_categories c ≡ true) × (to_lower (trim_space c) ≡ c)

known-IsCategory : (c : String) → contains known_categories c ≡ true → IsCategory c
unfolding to_lower trim_space trim_left trim_right
known-IsCategory c h =
    (h, contains-All (λ n. to_lower (trim_space n) ≡ n) known_categories c (search) h)

pub normal_categories-Clean :
    (kept l out : List String)
    → Clean IsCategory [] kept
    → normal_categories kept l ≡ inr out
    → Clean IsCategory [] out
unfolding normal_categories
normal_categories-Clean kept [] out h e = subst (Clean IsCategory []) (of_inr e) h
normal_categories-Clean kept (c ∷ rest) out h e =
    let name = to_lower (trim_space c) in
    elim (Bool-cases (is_skipped kept name)) [
      | inl skipped ↦ normal_categories-Clean kept rest out h (rw skipped at e)
      | inr new ↦ elim (Bool-cases (contains known_categories name)) [
        | inl known ↦
            normal_categories-Clean (kept ++ name ∷ []) rest out
              (Clean-snoc IsCategory [] kept name h (known-IsCategory name known) new)
              (rw (new, known) at e)
        | inr unknown ↦ absurd (inl_ne_inr (rw (new, unknown) at e))
      ]
    ]

pub normal_categories-again :
    (kept xs : List String)
    → Clean IsCategory kept xs
    → normal_categories kept xs ≡ inr (kept ++ xs)
unfolding normal_categories
normal_categories-again kept [] h = ap (λ l. inr l) (sym (append-nil kept))
normal_categories-again kept (c ∷ rest) h =
    rw (h.0.1, h.1, h.0.0)
      (normal_categories-again (kept ++ c ∷ []) rest h.2
        ∙ ap (λ l. inr l) (append_assoc kept (c ∷ []) rest))

abbrev pub IsMerchant : String → Type 0
IsMerchant m = trim_space m ≡ m

pub normal_merchants-Clean :
    (kept l : List String)
    → Clean IsMerchant [] kept
    → Clean IsMerchant [] (normal_merchants kept l)
unfolding normal_merchants
normal_merchants-Clean kept [] h = h
normal_merchants-Clean kept (m ∷ rest) h =
    let name = trim_space m in
    elim (Bool-cases (is_skipped kept name)) [
      | inl skipped ↦ rw skipped (normal_merchants-Clean kept rest h)
      | inr new ↦ rw new (
          normal_merchants-Clean (kept ++ name ∷ []) rest
            (Clean-snoc IsMerchant [] kept name h (trim_space-trim_space m) new))
    ]

pub normal_merchants-again :
    (kept xs : List String) → Clean IsMerchant kept xs → normal_merchants kept xs ≡ kept ++ xs
unfolding normal_merchants
normal_merchants-again kept [] h = sym (append-nil kept)
normal_merchants-again kept (m ∷ rest) h =
    rw (h.0, h.1)
      (normal_merchants-again (kept ++ m ∷ []) rest h.2 ∙ append_assoc kept (m ∷ []) rest)
