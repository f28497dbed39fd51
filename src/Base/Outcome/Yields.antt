-- ===== src/Base/Outcome/Yields.antt =====
-- What a call that does not panic gives when it succeeds.
use mathlib.Core.Bool.{Bool, true, false}
use eupf.Base.Tests.{if◌then◌else◌}
use eupf.Base.Outcome.{Outcome, ok, err, panic, and_then, Error}

abbrev pub Holds : {A : Type 0} → (A → Type 0) → Outcome A → Type 0
Holds P (ok a) = P a
Holds P (err e) = Unit
Holds P panic = ⊥

-- No panic, and `P` of a value.
pub record Yields {A : Type 0} (P : A → Type 0) (x : Outcome A) : Type 0 where
  pub holds : Holds P x

pub Yields-ok : {A : Type 0} (P : A → Type 0) (a : A) → P a → Yields P (ok a)
Yields-ok P a h = record { holds = h }

pub Yields-err : {A : Type 0} (P : A → Type 0) (e : Error) → Yields P (err e)
Yields-err P e = record { holds = tt }

pub Yields-and_then :
    {A B : Type 0} (P : A → Type 0) (Q : B → Type 0) (x : Outcome A) (f : A → Outcome B)
    → Yields P x
    → ((a : A) → P a → Yields Q (f a))
    → Yields Q (and_then x f)
Yields-and_then P Q (ok a) f h k = k a h.holds
Yields-and_then P Q (err e) f h k = record { holds = tt }
Yields-and_then P Q panic f h k = absurd h.holds

pub Yields-if :
    {A : Type 0} (P : A → Type 0) (b : Bool) (x y : Outcome A)
    → Yields P x
    → Yields P y
    → Yields P (if b then x else y)
Yields-if P true x y h k = h
Yields-if P false x y h k = k

pub ruleset yields_rules = (Yields-ok, Yields-err, Yields-if)
