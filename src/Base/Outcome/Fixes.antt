-- ===== src/Base/Outcome/Fixes.antt =====
-- What a computation leaves alone, whether it returns, fails or panics: one rule for each way to
-- build a computation.
use mathlib.Core.Path.{◌≡◌, refl, ◌∙◌}
use mathlib.Core.Bool.{Bool, true, false}
use eupf.Base.Tests.{if◌then◌else◌}
use mathlib.Core.List.{List, [], ◌∷◌}
use eupf.Base.Outcome.{
  Outcome, ok, err, panic, Error, M, pure, throw, crash, lift, modify, gets, zoom, put_back, ignore,
  ignoring, for_each, ◌>>=◌, bind_with,
}

pub record Fixes {S V A : Type 0} (view : S → V) (m : M S A) : Type 0 where
  pub at : (s : S) → view (m s).1 ≡ view s

module _ {S V : Type 0} (view : S → V) where
  pub Fixes-lift : {A : Type 0} (r : Outcome A) → Fixes view (lift {S = S} r)
  Fixes-lift r = record { at = λ s. refl }

  pub Fixes-pure : {A : Type 0} (a : A) → Fixes view (pure {S = S} a)
  Fixes-pure a = record { at = λ s. refl }

  pub Fixes-throw : {A : Type 0} (e : Error) → Fixes view (throw {S = S} {A = A} e)
  Fixes-throw e = record { at = λ s. refl }

  pub Fixes-crash : {A : Type 0} → Fixes view (crash {S = S} {A = A})
  Fixes-crash = record { at = λ s. refl }

  pub Fixes-gets : {A : Type 0} (f : S → A) → Fixes view (gets f)
  Fixes-gets f = record { at = λ s. refl }

  pub Fixes-if :
      {A : Type 0} (b : Bool) (m n : M S A)
      → Fixes view m
      → Fixes view n
      → Fixes view (if b then m else n)
  Fixes-if true m n h k = h
  Fixes-if false m n h k = k

  pub Fixes-modify : (f : S → S) → ((s : S) → view (f s) ≡ view s) → Fixes view (modify f)
  Fixes-modify f h = record { at = h }

  rest-Fixes :
      {A B : Type 0} (f : A → M S B)
      → ((a : A) → Fixes view (f a))
      → (x : Outcome A × S) → view (bind_with f x).1 ≡ view x.1
  rest-Fixes f h (ok a, s) = (h a).at s
  rest-Fixes f h (err e, s) = refl
  rest-Fixes f h (panic, s) = refl

  pub Fixes-bind :
      {A B : Type 0} (m : M S A) (f : A → M S B)
      → Fixes view m
      → ((a : A) → Fixes view (f a))
      → Fixes view (m >>= f)
  Fixes-bind m f h k = record { at = λ s. rest-Fixes f k (m s) ∙ h.at s }

  put-Fixes :
      {T A : Type 0} (put : T → S → S)
      → ((t : T) (s : S) → view (put t s) ≡ view s)
      → (s : S) (x : Outcome A × T) → view (put_back put s x).1 ≡ view s
  put-Fixes put h s (r, t) = h t s

  pub Fixes-zoom :
      {T A : Type 0} (get : S → T) (put : T → S → S) (m : M T A)
      → ((t : T) (s : S) → view (put t s) ≡ view s)
      → Fixes view (zoom get put m)
  Fixes-zoom get put m h = record { at = λ s. put-Fixes put h s (m (get s)) }

  within-Fixes :
      {T A : Type 0} (v : T → V) (put : T → S → S) (n : V)
      → ((t : T) (s : S) → view (put t s) ≡ v t)
      → (s : S) (x : Outcome A × T) → v x.1 ≡ n
      → view (put_back put s x).1 ≡ n
  within-Fixes v put n h s (r, t) k = h t s ∙ k

  -- The part of the state that is worked on has what is viewed.
  pub Fixes-within :
      {T A : Type 0} (v : T → V) (get : S → T) (put : T → S → S) (m : M T A)
      → ((t : T) (s : S) → view (put t s) ≡ v t)
      → ((s : S) → v (get s) ≡ view s)
      → Fixes v m
      → Fixes view (zoom get put m)
  Fixes-within v get put m h k f = record {
    at = λ s. within-Fixes v put (view s) h s (m (get s)) (f.at (get s) ∙ k s);
  }

  ignoring-Fixes : (x : Outcome (Unit {0}) × S) → view (ignoring x).1 ≡ view x.1
  ignoring-Fixes (ok u, s) = refl
  ignoring-Fixes (err e, s) = refl
  ignoring-Fixes (panic, s) = refl

  pub Fixes-ignore : (m : M S (Unit {0})) → Fixes view m → Fixes view (ignore m)
  Fixes-ignore m h = record { at = λ s. ignoring-Fixes (m s) ∙ h.at s }

  pub Fixes-for_each :
      {A : Type 0} (f : A → M S (Unit {0})) (xs : List A)
      → ((x : A) → Fixes view (f x))
      → Fixes view (for_each f xs)
  unfolding for_each
  Fixes-for_each f [] h = Fixes-pure tt
  Fixes-for_each f (x ∷ xs) h =
      Fixes-bind (f x) (λ _. for_each f xs) (h x) (λ _. Fixes-for_each f xs h)

pub ruleset fixes_rules = (
  Fixes-lift, Fixes-pure, Fixes-throw, Fixes-crash, Fixes-gets, Fixes-modify, Fixes-bind,
  Fixes-zoom, Fixes-if, Fixes-ignore, Fixes-for_each, refl,
)
