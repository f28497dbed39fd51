-- ===== src/Base/Table/Every.antt =====
-- Tests of all the entries of a Go map, which the order of `range` does not change.
use Prim.Native.Nat.{ℕ, suc}
use mathlib.Core.List.{Permᴰ}
use mathlib.Core.Logic.{∥∥₁_elim}
use mathlib.Core.Bool.{Bool, true, false, not, ◌&&◌, Bool-set}
use mathlib.Core.Path.{◌≡◌, refl, ◌∙◌, ap}
use mathlib.Core.List.{List, [], ◌∷◌, Perm}
use mathlib.Core.Logic.{inl, inr}
use mathlib.Core.Option.{some}
use native.Mathlib.Omega.{arith}
use eupf.Base.Lists.{numbered}
use eupf.Base.Tests.{Eq, Bool-cases}
use eupf.Base.Table.{Table, lookup}

module _ {A : Type 0} where
  abbrev pub every_entry : (A → Bool) → List A → Bool
  every_entry p [] = true
  every_entry p (x ∷ xs) = p x && every_entry p xs

  every_entryᴰ : {xs ys : List A} (p : A → Bool) → Permᴰ xs ys → every_entry p xs ≡ every_entry p ys
  every_entryᴰ p Permᴰ.nil = refl
  every_entryᴰ p (Permᴰ.cons e d) = ground (arith, ap p e, every_entryᴰ p d)
  every_entryᴰ p (Permᴰ.swap e f) = ground (arith, ap p e, ap p f)
  every_entryᴰ p (Permᴰ.trans d f) = every_entryᴰ p d ∙ every_entryᴰ p f

  pub every_entry-perm :
      {xs ys : List A} (p : A → Bool) → Perm xs ys → every_entry p xs ≡ every_entry p ys
  every_entry-perm p d = ∥∥₁_elim d (Bool-set _ _) (every_entryᴰ p)

module _ {A : Type 0} where
  pub every_entry-numbered :
      (p : A → Bool) (n : ℕ) (xs : List A)
      → every_entry (λ x. p x.1) (numbered n xs) ≡ every_entry p xs
  every_entry-numbered p n [] = refl
  every_entry-numbered p n (x ∷ xs) = ap (λ b. p x && b) (every_entry-numbered p (suc n) xs)

module _ {K V : Type 0} ⦃e : Eq K⦄ where
  -- A test that an entry of the map does not pass.
  pub every_entry-lookup :
      (bad : V → Bool) (k : K) (v : V) (m : Table K V)
      → lookup k m ≡ some v
      → bad v ≡ true
      → every_entry (λ x. not (bad x.1)) m ≡ false
  unfolding lookup
  every_entry-lookup bad k v [] found h = ground (arith, found)
  every_entry-lookup bad k v ((j, w) ∷ m) found h = elim (Bool-cases (e.beq j k)) [
    | inl b ↦ ground (arith, found, b, h)
    | inr b ↦ ground (arith, b, every_entry-lookup bad k v m (ground (arith, found, b)) h)
  ]
