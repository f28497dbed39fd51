-- ===== src/Base/Table/Total.antt =====
-- Sums over the entries of a Go map, and what an assignment or a deletion does to them.
use mathlib.Core.List.{Permᴰ}
use mathlib.Core.Logic.{∥∥₁_elim}
use native.Mathlib.Nat.{ℕ_set}
use Prim.Native.Nat.{ℕ, ◌+◌}
use mathlib.Core.Path.{◌≡◌, refl, ◌∙◌, ap}
use mathlib.Core.Option.{Option, none, some}
use mathlib.Core.List.{List, [], ◌∷◌, ◌++◌, map, Perm}
use native.Mathlib.Omega.{arith}
use eupf.Base.Lists.{length}
use eupf.Base.Tests.{Eq, if◌then◌else◌}
use eupf.Base.Table.{Table, lookup, insert, remove, lookup-insert, lookup-remove}

-- How often `x` stands in a list.
module _ {A : Type 0} ⦃e : Eq A⦄ where
  abbrev pub one : A → A → ℕ
  one x y = if e.beq y x then 1 else 0

  unfoldable pub count : A → List A → ℕ
  count x [] = 0
  count x (y ∷ ys) = one x y + count x ys

  pub count-append : (x : A) (xs ys : List A) → count x (xs ++ ys) ≡ count x xs + count x ys
  unfolding count
  count-append x [] ys = omega arith
  count-append x (y ∷ xs) ys = omega (arith, count-append x xs ys)

-- What an entry that may be missing adds to a sum.
abbrev pub share : {V : Type 0} → (V → ℕ) → Option V → ℕ
share w none = 0
share w (some v) = w v

module _ {K V : Type 0} where
  unfoldable pub total : (V → ℕ) → Table K V → ℕ
  total w [] = 0
  total w (x ∷ m) = w x.1 + total w m

  pub length-total : (m : Table K V) → length m ≡ total (λ _. 1) m
  unfolding total
  length-total [] = refl
  length-total (x ∷ m) = omega (arith, length-total m)

  abbrev pub values : Table K V → List V
  values = map (λ entry. entry.1)

  totalᴰ : {m n : Table K V} (w : V → ℕ) → Permᴰ m n → total w m ≡ total w n
  unfolding total
  totalᴰ w Permᴰ.nil = refl
  totalᴰ w (Permᴰ.cons e p) = omega (arith, ap (λ x. w x.1) e, totalᴰ w p)
  totalᴰ w (Permᴰ.swap e f) = omega (arith, ap (λ x. w x.1) e, ap (λ x. w x.1) f)
  totalᴰ w (Permᴰ.trans p q) = totalᴰ w p ∙ totalᴰ w q

  pub total-perm : {m n : Table K V} (w : V → ℕ) → Perm m n → total w m ≡ total w n
  total-perm w p = ∥∥₁_elim p (ℕ_set _ _) (totalᴰ w)

module _ {K V : Type 0} ⦃e : Eq K⦄ where
  pub total-insert :
      (w : V → ℕ) (k : K) (v : V) (m : Table K V)
      → total w (insert k v m) + share w (lookup k m) ≡ total w m + w v
  unfolding total insert lookup
  total-insert w k v [] = omega arith
  total-insert w k v ((j, u) ∷ m) = ground (arith, total-insert w k v m)

  -- No key stands twice.
  abbrev pub UniqueKeys : Table K V → Type 0
  UniqueKeys [] = Unit {0}
  UniqueKeys ((k, v) ∷ m) = (lookup k m ≡ none) × UniqueKeys m

  remove_missing :
      (w : V → ℕ) (k : K) (m : Table K V) → lookup k m ≡ none → total w (remove k m) ≡ total w m
  unfolding total remove lookup
  remove_missing w k [] h = refl
  remove_missing w k ((j, u) ∷ m) h = ground (arith, remove_missing w k m)

  pub total-remove :
      (w : V → ℕ) (k : K) (m : Table K V)
      → UniqueKeys m
      → total w (remove k m) + share w (lookup k m) ≡ total w m
  unfolding total remove lookup
  total-remove w k [] u = omega arith
  total-remove w k ((j, v) ∷ m) u =
      ground (arith, total-remove w k m u.1, remove_missing w k m, e.beq_iff j k)

  pub remove-UniqueKeys : (k : K) (m : Table K V) → UniqueKeys m → UniqueKeys (remove k m)
  unfolding remove
  remove-UniqueKeys k [] u = tt
  remove-UniqueKeys k ((j, v) ∷ m) u =
      ground (arith, remove-UniqueKeys k m u.1, lookup-remove k j m)

  pub insert-UniqueKeys : (k : K) (v : V) (m : Table K V) → UniqueKeys m → UniqueKeys (insert k v m)
  unfolding insert lookup
  insert-UniqueKeys k v [] u = (refl, tt)
  insert-UniqueKeys k v ((j, w) ∷ m) u =
      ground
        (arith, insert-UniqueKeys k v m u.1, lookup-insert k j v m, e.beq_iff j k, e.beq_iff k j)

module _ {K V : Type 0} ⦃e : Eq V⦄ where
  pub count-values : (x : V) (m : Table K V) → count x (values m) ≡ total (one x) m
  unfolding count total
  count-values x [] = refl
  count-values x (y ∷ m) = omega (arith, count-values x m)
