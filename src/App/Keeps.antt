-- ===== src/App/Keeps.antt =====
-- What an action does to the ledger of approvals and charges, with a rule for each way to build one.
use algebra.Prelude.{◌≡◌, refl, sym, ◌∙◌, Bool, true, false, Option, none, some, if◌then◌else◌}
use mathlib.Core.Path.{subst}
use algebra.App.World.{World, Ledger, Fault, healthy, lost, unacknowledged}
use algebra.App.Exec.{
  Exec, Result, ok, err, Err, pure, raise, raised, continue, under_fault, next_fault, tail,
  statement, ignore, attempt, now, new_id, ◌>>=◌,
}

-- `m` leaves the ledger as it is.
pub record Quiet {A : Type 0} (m : Exec A) : Type 0 where
  pub at : (w : World) → (m w).1.ledger ≡ w.ledger

module _ {A : Type 0} where
  pub Quiet-pure : (a : A) → Quiet (pure a)
  unfolding pure
  Quiet-pure a = record { at = λ w. refl }

  pub Quiet-raise : (e : Err) → Quiet (raise {A = A} e)
  unfolding raise
  Quiet-raise e = record { at = λ w. refl }

  pub Quiet-raised : (r : A × Option Err) → Quiet (raised r)
  Quiet-raised (a, none) = Quiet-pure a
  Quiet-raised (a, some e) = Quiet-raise e

  pub Quiet-statement : (m : Exec A) → Quiet m → Quiet (statement m)
  unfolding statement
  Quiet-statement m q = record {
    at = λ w. go (next_fault w.faults) (record w { faults = tail w.faults });
  }
    where
      go : (f : Fault) (w : World) → (under_fault f m w).1.ledger ≡ w.ledger
      go healthy w = q.at w
      go lost w = refl
      go unacknowledged w = q.at w

  pub Quiet-ignore : (m : Exec A) → Quiet m → Quiet (ignore m)
  unfolding ignore
  Quiet-ignore m q = record { at = λ w. q.at w }

  pub Quiet-attempt : (m : Exec A) → Quiet m → Quiet (attempt m)
  unfolding attempt
  Quiet-attempt m q = record { at = λ w. q.at w }

  pub Quiet-if : (b : Bool) (m n : Exec A) → Quiet m → Quiet n → Quiet (if b then m else n)
  Quiet-if true m n qm qn = qm
  Quiet-if false m n qm qn = qn

pub Quiet-now : Quiet now
unfolding now
Quiet-now = record { at = λ w. refl }

pub Quiet-new_id : Quiet new_id
unfolding new_id
Quiet-new_id = record { at = λ w. refl }

module _ {A B : Type 0} where
  Quiet-continue : (r : Result A) (f : A → Exec B) → ((a : A) → Quiet (f a)) → Quiet (continue r f)
  Quiet-continue (ok a) f qf = qf a
  Quiet-continue (err e) f qf = record { at = λ w. refl }

  pub Quiet-bind :
      (m : Exec A) (f : A → Exec B) → Quiet m → ((a : A) → Quiet (f a)) → Quiet (m >>= f)
  unfolding ◌>>=◌
  Quiet-bind m f qm qf = record {
    at = λ w. let (r, w') = m w in (Quiet-continue r f qf).at w' ∙ qm.at w;
  }

pub ruleset quiet_rules = (
  Quiet-pure, Quiet-raise, Quiet-raised, Quiet-statement, Quiet-ignore, Quiet-attempt, Quiet-if,
  Quiet-now, Quiet-new_id, Quiet-bind,
)

-- `Safe` holds after an error, and `Q` after a result.
abbrev pub Ends :
    {A : Type 0} → (Ledger → Type 0) → (A → Ledger → Type 0) → Result A × World → Type 0
Ends Safe Q (ok a, w) = Q a w.ledger
Ends Safe Q (err e, w) = Safe w.ledger

abbrev pub Attempted :
    {A : Type 0} → (Ledger → Type 0) → (A → Ledger → Type 0) → Result A → Ledger → Type 0
Attempted Safe Q (ok a) l = Q a l
Attempted Safe Q (err e) l = Safe l

pub record Leads {A : Type 0} (Safe : Ledger → Type 0) (P : Ledger → Type 0) (m : Exec A)
    (Q : A → Ledger → Type 0) : Type 0 where
  pub at : (w : World) → P w.ledger → Ends Safe Q (m w)

module _ {Safe : Ledger → Type 0} where
  module _ {A : Type 0} {P : Ledger → Type 0} where
    -- A quiet action keeps what holds of the ledger.
    pub Leads-Quiet :
        (m : Exec A) → ((l : Ledger) → P l → Safe l) → Quiet m → Leads Safe P m (λ _. P)
    Leads-Quiet m safe q = record { at = λ w h. go (m w) w h (q.at w) }
      where
        go :
            (r : Result A × World) (w : World)
            → P w.ledger
            → r.1.ledger ≡ w.ledger
            → Ends Safe (λ _. P) r
        go (ok a, w') w h e = subst P (sym e) h
        go (err x, w') w h e = safe w'.ledger (subst P (sym e) h)

    pub Leads-raise :
        (e : Err) {Q : A → Ledger → Type 0}
        → ((l : Ledger) → P l → Safe l)
        → Leads Safe P (raise {A = A} e) Q
    unfolding raise
    Leads-raise e safe = record { at = λ w h. safe w.ledger h }

    pub Leads-pure :
        (a : A) {Q : A → Ledger → Type 0} → ((l : Ledger) → P l → Q a l) → Leads Safe P (pure a) Q
    unfolding pure
    Leads-pure a q = record { at = λ w h. q w.ledger h }

    pub Leads-raised :
        (r : A × Option Err) (Q : A → Ledger → Type 0)
        → ((l : Ledger) → P l → Safe l)
        → (r.1 ≡ none → (l : Ledger) → P l → Q r.0 l)
        → Leads Safe P (raised r) Q
    Leads-raised (a, none) Q safe q = Leads-pure a (q refl)
    Leads-raised (a, some e) Q safe q = Leads-raise e safe

    -- A weaker conclusion follows from a stronger one.
    pub Leads-then :
        {Q Q' : A → Ledger → Type 0} {m : Exec A}
        → ((a : A) (l : Ledger) → Q a l → Q' a l)
        → Leads Safe P m Q
        → Leads Safe P m Q'
    Leads-then {Q = Q} {Q' = Q'} {m = m} weaker lm = record { at = λ w h. go (m w) (lm.at w h) }
      where
        go : (r : Result A × World) → Ends Safe Q r → Ends Safe Q' r
        go (ok a, w') h = weaker a w'.ledger h
        go (err e, w') h = h

    -- A fact that the ledger does not bear on.
    pub Leads-given :
        {Φ : Type 0} {Q : A → Ledger → Type 0} {m : Exec A}
        → (Φ → Leads Safe P m Q)
        → Leads Safe (λ l. Φ × P l) m Q
    Leads-given lm = record { at = λ w h. (lm h.0).at w h.1 }

    -- The error of an attempt is a value, after which what was safe holds.
    pub Leads-attempt :
        (m : Exec A) (Q : A → Ledger → Type 0)
        → Leads Safe P m Q
        → Leads Safe P (attempt m) (λ r l. Attempted Safe Q r l)
    unfolding attempt
    Leads-attempt m Q lm = record { at = λ w h. go (m w) (lm.at w h) }
      where
        go : (r : Result A × World) → Ends Safe Q r → Attempted Safe Q r.0 r.1.ledger
        go (ok a, w') h = h
        go (err e, w') h = h

    -- A weaker hypothesis serves where a stronger one holds.
    pub Leads-from :
        {P' : Ledger → Type 0} {Q : A → Ledger → Type 0} {m : Exec A}
        → ((l : Ledger) → P l → P' l)
        → Leads Safe P' m Q
        → Leads Safe P m Q
    Leads-from weaker lm = record { at = λ w h. lm.at w (weaker w.ledger h) }

    pub Leads-if :
        (b : Bool) (m n : Exec A) (Q : A → Ledger → Type 0)
        → (b ≡ true → Leads Safe P m Q)
        → (b ≡ false → Leads Safe P n Q)
        → Leads Safe P (if b then m else n) Q
    Leads-if true m n Q lm ln = lm refl
    Leads-if false m n Q lm ln = ln refl

  module _ {A B : Type 0} {P : Ledger → Type 0} {Q : A → Ledger → Type 0}
      {R : B → Ledger → Type 0} where
    pub Leads-bind :
        (m : Exec A) (f : A → Exec B)
        → Leads Safe P m Q
        → ((a : A) → Leads Safe (Q a) (f a) R)
        → Leads Safe P (m >>= f) R
    unfolding ◌>>=◌
    Leads-bind m f lm lf = record { at = λ w h. go (m w) (lm.at w h) }
      where
        go : (r : Result A × World) → Ends Safe Q r → Ends Safe R (continue r.0 f r.1)
        go (ok a, w') h = (lf a).at w' h
        go (err e, w') h = h

-- Less may be asked for after an error.
pub Leads-safe :
    {A : Type 0} {Safe Safe' P : Ledger → Type 0} {Q : A → Ledger → Type 0} {m : Exec A}
    → ((l : Ledger) → Safe l → Safe' l)
    → Leads Safe P m Q
    → Leads Safe' P m Q
Leads-safe {A = A} {Safe = Safe} {Safe' = Safe'} {Q = Q} {m = m} weaker lm = record {
  at = λ w h. go (m w) (lm.at w h);
}
  where
    go : (r : Result A × World) → Ends Safe Q r → Ends Safe' Q r
    go (ok a, w') h = h
    go (err e, w') h = weaker w'.ledger h
