-- ===== src/Base/Outcome/Safe.antt =====
-- Computations that do not panic from states that satisfy an invariant, which they keep; and those
-- that return a value as well.
use mathlib.Core.Path.{◌≡◌, refl}
use mathlib.Core.Bool.{Bool, true, false, ◌||◌}
use mathlib.Core.Logic.{◌≢◌}
use native.Mathlib.Omega.{arith}
use mathlib.Core.List.{List, [], ◌∷◌}
use eupf.Base.Tests.{if◌then◌else◌}
use eupf.Base.Outcome.{
  Outcome, ok, err, panic, M, pure, throw, lift, Error, modify, gets, zoom, put_back, ignore,
  ignoring, for_each, ◌>>=◌, bind_with,
}

abbrev pub any_of : {A : Type 0} → (A → Bool) → List A → Bool
any_of bad [] = false
any_of bad (x ∷ xs) = bad x || any_of bad xs

module _ {S : Type 0} (I : S → Type 0) where
  abbrev pub Calm : {A : Type 0} → Outcome A × S → Type 0
  Calm (ok a, s) = I s
  Calm (err e, s) = I s
  Calm (panic, s) = ⊥

  abbrev pub Done : {A : Type 0} → Outcome A × S → Type 0
  Done (ok a, s) = I s
  Done (err e, s) = ⊥
  Done (panic, s) = ⊥

  pub record Safe {A : Type 0} (m : M S A) : Type 0 where
    pub safe : (s : S) → I s → Calm (m s)

  pub record Returns {A : Type 0} (m : M S A) : Type 0 where
    pub returns : (s : S) → I s → Done (m s)

module _ {S : Type 0} (I : S → Type 0) where
  pub Safe-pure : {A : Type 0} (a : A) → Safe I (pure {S = S} a)
  Safe-pure a = record { safe = λ s i. i }

  pub Safe-throw : {A : Type 0} (e : Error) → Safe I (throw {S = S} {A = A} e)
  Safe-throw e = record { safe = λ s i. i }

  lifted-Calm : {A : Type 0} (r : Outcome A) (s : S) → r ≢ panic → I s → Calm I (lift {S = S} r s)
  lifted-Calm (ok a) s h i = i
  lifted-Calm (err e) s h i = i
  lifted-Calm panic s h i = h refl

  pub Safe-lift : {A : Type 0} (r : Outcome A) → r ≢ panic → Safe I (lift {S = S} r)
  Safe-lift r h = record { safe = λ s i. lifted-Calm r s h i }

  pub Safe-gets : {A : Type 0} (f : S → A) → Safe I (gets f)
  Safe-gets f = record { safe = λ s i. i }

  pub Safe-modify : (f : S → S) → ((s : S) → I s → I (f s)) → Safe I (modify f)
  Safe-modify f h = record { safe = h }

  pub Safe-if :
      {A : Type 0} (b : Bool) (m n : M S A) → Safe I m → Safe I n → Safe I (if b then m else n)
  Safe-if true m n h k = h
  Safe-if false m n h k = k

  rest-Calm :
      {A B : Type 0} (f : A → M S B)
      → ((a : A) → Safe I (f a))
      → (x : Outcome A × S) → Calm I x
      → Calm I (bind_with f x)
  rest-Calm f h (ok a, s) i = (h a).safe s i
  rest-Calm f h (err e, s) i = i
  rest-Calm f h (panic, s) i = absurd i

  pub Safe-bind :
      {A B : Type 0} (m : M S A) (f : A → M S B)
      → Safe I m
      → ((a : A) → Safe I (f a))
      → Safe I (m >>= f)
  Safe-bind m f h k = record { safe = λ s i. rest-Calm f k (m s) (h.safe s i) }

  pub Safe-for_each :
      {A : Type 0} (f : A → M S (Unit {0})) (xs : List A)
      → ((x : A) → Safe I (f x))
      → Safe I (for_each f xs)
  unfolding for_each
  Safe-for_each f [] h = Safe-pure tt
  Safe-for_each f (x ∷ xs) h =
      Safe-bind (f x) (λ _. for_each f xs) (h x) (λ _. Safe-for_each f xs h)

  -- A loop whose body is safe on the elements that stand in the list.
  pub Safe-for_each_if :
      {A : Type 0} (bad : A → Bool) (f : A → M S (Unit {0})) (xs : List A)
      → any_of bad xs ≡ false
      → ((x : A) → bad x ≡ false → Safe I (f x))
      → Safe I (for_each f xs)
  unfolding for_each
  Safe-for_each_if bad f [] h k = Safe-pure tt
  Safe-for_each_if bad f (x ∷ xs) h k =
      Safe-bind (f x) (λ _. for_each f xs) (k x (ground (arith, h)))
        (λ _. Safe-for_each_if bad f xs (ground (arith, h)) k)

  put-Calm :
      {T A : Type 0} (J : T → Type 0) (put : T → S → S)
      → ((t : T) (s : S) → J t → I s → I (put t s))
      → (s : S) (x : Outcome A × T) → I s
      → Calm J x
      → Calm I (put_back put s x)
  put-Calm J put h s (ok a, t) i j = h t s j i
  put-Calm J put h s (err e, t) i j = h t s j i
  put-Calm J put h s (panic, t) i j = absurd j

  pub Safe-zoom :
      {T A : Type 0} (J : T → Type 0) (get : S → T) (put : T → S → S) (m : M T A)
      → ((s : S) → I s → J (get s))
      → ((t : T) (s : S) → J t → I s → I (put t s))
      → Safe J m
      → Safe I (zoom get put m)
  Safe-zoom J get put m g h k = record {
    safe = λ s i. put-Calm J put h s (m (get s)) i (k.safe (get s) (g s i));
  }

  ignoring-Calm : (x : Outcome (Unit {0}) × S) → Calm I x → Done I (ignoring x)
  ignoring-Calm (ok u, s) i = i
  ignoring-Calm (err e, s) i = i
  ignoring-Calm (panic, s) i = absurd i

  pub Returns-ignore : (m : M S (Unit {0})) → Safe I m → Returns I (ignore m)
  Returns-ignore m h = record { returns = λ s i. ignoring-Calm (m s) (h.safe s i) }

  rest-Done :
      {A B : Type 0} (f : A → M S B)
      → ((a : A) → Returns I (f a))
      → (x : Outcome A × S) → Done I x
      → Done I (bind_with f x)
  rest-Done f h (ok a, s) i = (h a).returns s i
  rest-Done f h (err e, s) i = absurd i
  rest-Done f h (panic, s) i = absurd i

  pub Returns-bind :
      {A B : Type 0} (m : M S A) (f : A → M S B)
      → Returns I m
      → ((a : A) → Returns I (f a))
      → Returns I (m >>= f)
  Returns-bind m f h k = record { returns = λ s i. rest-Done f k (m s) (h.returns s i) }

  pub Returns-for_each :
      {A : Type 0} (f : A → M S (Unit {0})) (xs : List A)
      → ((x : A) → Returns I (f x))
      → Returns I (for_each f xs)
  unfolding for_each
  Returns-for_each f [] h = record { returns = λ s i. i }
  Returns-for_each f (x ∷ xs) h =
      Returns-bind (f x) (λ _. for_each f xs) (h x) (λ _. Returns-for_each f xs h)

  pub ok_of_Done : (x : Outcome (Unit {0}) × S) → Done I x → x.0 ≡ ok tt
  ok_of_Done (ok u, s) i = refl
  ok_of_Done (err e, s) i = absurd i
  ok_of_Done (panic, s) i = absurd i
