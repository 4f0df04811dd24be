-- ===== src/App/Stores/Keys.antt =====
-- The ids of approvals as a key of their table (internal/platform/postgres/approval_repo.go).
use algebra.Prelude.{
  String, ◌≡◌, refl, sym, ◌∙◌, ap, Bool, Option, none, some, List, [], ◌∷◌, str_eq, eq_iff, eq_refl,
  ltb, Bool-cases, inl, inr, of_some, none_ne_some,
}
use algebra.Approval.{Approval}
use algebra.App.Stores.{update_rows, approval_row, newer, latest}

-- No two rows have one id.
abbrev pub Keyed : List Approval → Type 0
Keyed [] = Unit
Keyed (a ∷ rows) = (approval_row a.id rows ≡ none) × Keyed rows

-- An update that keeps the ids adds no row of another id.
approval_row-update :
    (p : Approval → Bool) (f : Approval → Approval) (j : String) (rows : List Approval)
    → ((a : Approval) → (f a).id ≡ a.id)
    → approval_row j rows ≡ none
    → approval_row j (update_rows p f rows) ≡ none
unfolding update_rows
approval_row-update p f j [] keeps e = refl
approval_row-update p f j (a ∷ rows) keeps e = elim (Bool-cases (str_eq a.id j)) [
  | inl h ↦ absurd (none_ne_some (sym (rw (approval_row, h) at e)))
  | inr h ↦ elim (Bool-cases (p a)) [
    | inl k ↦ rw (k, approval_row) (rw (keeps a, h) (rw (approval_row, h) at e))
    | inr k ↦
        rw (k, approval_row, h) (approval_row-update p f j rows keeps (rw (approval_row, h) at e))
  ]
]

pub Keyed-update :
    (p : Approval → Bool) (f : Approval → Approval) (rows : List Approval)
    → ((a : Approval) → (f a).id ≡ a.id)
    → Keyed rows
    → Keyed (update_rows p f rows)
unfolding update_rows
Keyed-update p f [] keeps h = tt
Keyed-update p f (a ∷ rows) keeps h = elim (Bool-cases (p a)) [
  | inl k ↦ rw k (rw (keeps a) h.0, h.1)
  | inr k ↦ rw k (approval_row-update p f a.id rows keeps h.0, Keyed-update p f rows keeps h.1)
]

-- The newest row of some kind is the row of its id.
pub latest-row :
    (p : Approval → Bool) (rows : List Approval) (a : Approval)
    → Keyed rows
    → latest p rows ≡ some a
    → approval_row a.id rows ≡ some a
unfolding latest
latest-row p [] a h e = absurd (none_ne_some e)
latest-row p (x ∷ rows) a h e = elim (Bool-cases (p x)) [
  | inl k ↦ go (latest-row p rows a h.1) (latest p rows) refl (of_some (rw k at e))
  | inr k ↦ beyond (latest-row p rows a h.1 (rw k at e))
]
  where
    beyond : approval_row a.id rows ≡ some a → approval_row a.id (x ∷ rows) ≡ some a
    beyond r = elim (Bool-cases (str_eq x.id a.id)) [
      | inl same ↦
          absurd
            (none_ne_some (sym h.0 ∙ ap (λ j. approval_row j rows) ((eq_iff x.id a.id).0 same) ∙ r))
      | inr other ↦ rw (approval_row, other) r
    ]

    here : x ≡ a → approval_row a.id (x ∷ rows) ≡ some a
    here same = rw (← same) (rw (approval_row, eq_refl x.id) refl)

    go :
        (latest p rows ≡ some a → approval_row a.id rows ≡ some a)
        → (o : Option Approval) → latest p rows ≡ o
        → newer x o ≡ a
        → approval_row a.id (x ∷ rows) ≡ some a
    go rest none f n = here n
    go rest (some b) f n = elim (Bool-cases (ltb x.created_at b.created_at)) [
      | inl older ↦ beyond (rest (f ∙ ap (λ r. some r) (rw older at n)))
      | inr newest ↦ here (rw newest at n)
    ]
