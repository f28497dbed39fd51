-- ===== src/Base/Outcome/Errs.antt =====
-- Computations that end with an error from every state that satisfies an invariant.
use mathlib.Core.Path.{◌≡◌, refl}
use mathlib.Core.Bool.{Bool, true, false, not}
use mathlib.Core.Logic.{inl, inr}
use mathlib.Core.List.{List, [], ◌∷◌}
use native.Mathlib.Omega.{arith}
use eupf.Base.Tests.{Bool-cases}
use eupf.Base.Table.Every.{every_entry}
use eupf.Base.Outcome.{
  Outcome, ok, err, panic, M, Error, zoom, put_back, for_each, ◌>>=◌, bind_with,
}
use eupf.Base.Outcome.Safe.{Safe, Calm}

module _ {S : Type 0} (I : S → Type 0) where
  abbrev pub Failed : {A : Type 0} → Outcome A × S → Type 0
  Failed (ok a, s) = ⊥
  Failed (err e, s) = I s
  Failed (panic, s) = ⊥

  pub record Errs {A : Type 0} (m : M S A) : Type 0 where
    pub errs : (s : S) → I s → Failed (m s)

module _ {S : Type 0} (I : S → Type 0) where
  first-Failed :
      {A B : Type 0} (f : A → M S B) (x : Outcome A × S) → Failed I x → Failed I (bind_with f x)
  first-Failed f (ok a, s) i = absurd i
  first-Failed f (err e, s) i = i
  first-Failed f (panic, s) i = absurd i

  pub Errs-first : {A B : Type 0} (m : M S A) (f : A → M S B) → Errs I m → Errs I (m >>= f)
  Errs-first m f h = record { errs = λ s i. first-Failed f (m s) (h.errs s i) }

  rest-Failed :
      {A B : Type 0} (f : A → M S B)
      → ((a : A) → Errs I (f a))
      → (x : Outcome A × S) → Calm I x
      → Failed I (bind_with f x)
  rest-Failed f h (ok a, s) i = (h a).errs s i
  rest-Failed f h (err e, s) i = i
  rest-Failed f h (panic, s) i = absurd i

  pub Errs-rest :
      {A B : Type 0} (m : M S A) (f : A → M S B)
      → Safe I m
      → ((a : A) → Errs I (f a))
      → Errs I (m >>= f)
  Errs-rest m f h k = record { errs = λ s i. rest-Failed f k (m s) (h.safe s i) }

  -- A loop that meets an element on which its body fails.
  pub Errs-for_each :
      {A : Type 0} (bad : A → Bool) (f : A → M S (Unit {0})) (xs : List A)
      → every_entry (λ x. not (bad x)) xs ≡ false
      → ((x : A) → Safe I (f x))
      → ((x : A) → bad x ≡ true → Errs I (f x))
      → Errs I (for_each f xs)
  unfolding for_each
  Errs-for_each bad f [] h k l = ground (arith, h)
  Errs-for_each bad f (x ∷ xs) h k l = elim (Bool-cases (bad x)) [
    | inl e ↦ Errs-first (f x) (λ _. for_each f xs) (l x e)
    | inr e ↦
        Errs-rest (f x) (λ _. for_each f xs) (k x)
          (λ _. Errs-for_each bad f xs (ground (arith, h, e)) k l)
  ]

  put-Failed :
      {T A : Type 0} (J : T → Type 0) (put : T → S → S)
      → ((t : T) (s : S) → J t → I s → I (put t s))
      → (s : S) (x : Outcome A × T) → I s
      → Failed J x
      → Failed I (put_back put s x)
  put-Failed J put h s (ok a, t) i j = absurd j
  put-Failed J put h s (err e, t) i j = h t s j i
  put-Failed J put h s (panic, t) i j = absurd j

  pub Errs-zoom :
      {T A : Type 0} (J : T → Type 0) (get : S → T) (put : T → S → S) (m : M T A)
      → ((s : S) → I s → J (get s))
      → ((t : T) (s : S) → J t → I s → I (put t s))
      → Errs J m
      → Errs I (zoom get put m)
  Errs-zoom J get put m g h k = record {
    errs = λ s i. put-Failed J put h s (m (get s)) i (k.errs (get s) (g s i));
  }

  pub error_of_Failed : {A : Type 0} (x : Outcome A × S) → Failed I x → (e : Error) × (x.0 ≡ err e)
  error_of_Failed (ok a, s) i = absurd i
  error_of_Failed (err e, s) i = (e, refl)
  error_of_Failed (panic, s) i = absurd i
