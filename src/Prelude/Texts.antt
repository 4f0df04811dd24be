-- ===== src/Prelude/Texts.antt =====
-- Go's `strings.ToUpper`, `strings.ToLower` and `strings.TrimSpace`, on texts whose letters are ASCII.
use Prim.Native.Nat.{ℕ, zero, suc, ◌-◌}
use Prim.Native.Char.{Char, code, nul}
use Prim.Native.String.{String}
use mathlib.Core.Path.{◌≡◌, refl, ap, ◌∙◌}
use mathlib.Core.Logic.{inl, inr}
use mathlib.Core.Bool.{Bool, true, false, ◌&&◌, ◌||◌}
use algebra.Prelude.Tests.{leb, ◌==◌, if◌then◌else◌, Bool-cases}

abbrev between : ℕ → ℕ → ℕ → Bool
between lo hi n = leb lo n && leb n hi

abbrev letter : ℕ → String → Char
letter n String.[] = nul
letter zero (String.◌∷◌ c s) = c
letter (suc n) (String.◌∷◌ c s) = letter n s

abbrev pub upper : Char → Char
upper c = if between 97 122 (code c) then letter (code c - 97) "ABCDEFGHIJKLMNOPQRSTUVWXYZ" else c

abbrev pub lower : Char → Char
lower c = if between 65 90 (code c) then letter (code c - 65) "abcdefghijklmnopqrstuvwxyz" else c

unfoldable pub to_upper : String → String
to_upper String.[] = String.[]
to_upper (String.◌∷◌ c s) = String.◌∷◌ (upper c) (to_upper s)

unfoldable pub to_lower : String → String
to_lower String.[] = String.[]
to_lower (String.◌∷◌ c s) = String.◌∷◌ (lower c) (to_lower s)

-- `unicode.IsSpace`
abbrev pub is_space : Char → Bool
is_space c =
    let n = code c in
    between 9 13 n
    || n == 32
    || n == 133
    || n == 160
    || n == 5760
    || between 8192 8202 n
    || n == 8232
    || n == 8233
    || n == 8239
    || n == 8287
    || n == 12288

abbrev is_blank : String → Bool
is_blank String.[] = true
is_blank (String.◌∷◌ c s) = false

unfoldable pub trim_left : String → String
trim_left String.[] = String.[]
trim_left (String.◌∷◌ c s) = if is_space c then trim_left s else String.◌∷◌ c s

unfoldable pub trim_right : String → String
trim_right String.[] = String.[]
trim_right (String.◌∷◌ c s) =
    let rest = trim_right s in if is_space c && is_blank rest then String.[] else String.◌∷◌ c rest

unfoldable pub trim_space : String → String
trim_space s = trim_right (trim_left s)

-- Every letter of the text stands for itself in upper case.
abbrev AllUpper : String → Type 0
AllUpper String.[] = Unit
AllUpper (String.◌∷◌ c s) = (upper c ≡ c) × AllUpper s

letter-AllUpper : (n : ℕ) (s : String) → AllUpper s → upper (letter n s) ≡ letter n s
letter-AllUpper n String.[] h = refl
letter-AllUpper zero (String.◌∷◌ c s) h = h.0
letter-AllUpper (suc n) (String.◌∷◌ c s) h = letter-AllUpper n s h.1

upper-upper : (c : Char) → upper (upper c) ≡ upper c
upper-upper c = elim (Bool-cases (between 97 122 (code c))) [
  | inl h ↦ rw h (letter-AllUpper (code c - 97) "ABCDEFGHIJKLMNOPQRSTUVWXYZ" (search))
  | inr h ↦ rw (h, h) refl
]

pub to_upper-to_upper : (s : String) → to_upper (to_upper s) ≡ to_upper s
unfolding to_upper
to_upper-to_upper String.[] = refl
to_upper-to_upper (String.◌∷◌ c s) = λ i. String.◌∷◌ (upper-upper c i) (to_upper-to_upper s i)

-- The text does not begin with a space.
abbrev NoLead : String → Type 0
NoLead String.[] = Unit
NoLead (String.◌∷◌ c s) = is_space c ≡ false

trim_left-NoLead : (s : String) → NoLead (trim_left s)
unfolding trim_left
trim_left-NoLead String.[] = tt
trim_left-NoLead (String.◌∷◌ c s) = elim (Bool-cases (is_space c)) [
  | inl h ↦ rw h (trim_left-NoLead s)
  | inr h ↦ rw h h
]

trim_left_lem : (s : String) → NoLead s → trim_left s ≡ s
unfolding trim_left
trim_left_lem String.[] h = refl
trim_left_lem (String.◌∷◌ c s) h = rw h refl

trim_right-NoLead : (s : String) → NoLead s → NoLead (trim_right s)
unfolding trim_right
trim_right-NoLead String.[] h = tt
trim_right-NoLead (String.◌∷◌ c s) h = rw h h

trim_right-trim_right : (s : String) → trim_right (trim_right s) ≡ trim_right s
unfolding trim_right
trim_right-trim_right String.[] = refl
trim_right-trim_right (String.◌∷◌ c s) = elim (Bool-cases (is_space c && is_blank (trim_right s))) [
  | inl h ↦ rw h refl
  | inr h ↦ rw h (rw (trim_right-trim_right s, h) refl)
]

pub trim_space-trim_space : (s : String) → trim_space (trim_space s) ≡ trim_space s
unfolding trim_space
trim_space-trim_space s =
    ap trim_right (
      trim_left_lem (trim_right (trim_left s))
        (trim_right-NoLead (trim_left s) (trim_left-NoLead s)))
    ∙ trim_right-trim_right (trim_left s)
