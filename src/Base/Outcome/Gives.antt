-- ===== src/Base/Outcome/Gives.antt =====
-- What a computation gives where it returns a value; `F` is what is claimed where it fails: `Unit`
-- for nothing, `⊥` for that it does not fail.
use eupf.Base.Outcome.{Outcome, ok, err, panic, M, bind_with}

module _ {S : Type 0} (F : Type 0) where
  abbrev pub Gives : {A : Type 0} → (A → Type 0) → Outcome A × S → Type 0
  Gives P (ok a, s) = P a
  Gives P (err e, s) = F
  Gives P (panic, s) = F

module _ {S : Type 0} (F : Type 0) where
  pub Gives-bind :
      {A B : Type 0} (P : A → Type 0) (Q : B → Type 0) (x : Outcome A × S) (f : A → M S B)
      → Gives F P x
      → ((a : A) (s : S) → P a → Gives F Q (f a s))
      → Gives F Q (bind_with f x)
  Gives-bind P Q (ok a, s) f h k = k a s h
  Gives-bind P Q (err e, s) f h k = h
  Gives-bind P Q (panic, s) f h k = h

  pub Gives-both :
      {A : Type 0} (P Q : A → Type 0) (x : Outcome A × S)
      → Gives F P x
      → Gives F Q x
      → Gives F (λ a. P a × Q a) x
  Gives-both P Q (ok a, s) h k = (h, k)
  Gives-both P Q (err e, s) h k = h
  Gives-both P Q (panic, s) h k = h

  pub Gives-map :
      {A : Type 0} (P Q : A → Type 0) (x : Outcome A × S)
      → ((a : A) → P a → Q a)
      → Gives F P x
      → Gives F Q x
  Gives-map P Q (ok a, s) f h = f a h
  Gives-map P Q (err e, s) f h = h
  Gives-map P Q (panic, s) f h = h
