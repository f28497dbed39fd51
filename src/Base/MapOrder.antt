-- ===== src/Base/MapOrder.antt =====
-- `for k, v := range m` over a Go map: every entry once, in an order that the language leaves open,
-- and that may be another one at every range, of the same map too.
use Prim.Native.Nat.{ℕ}
use mathlib.Core.List.Perm
use eupf.Base.Table.{Table}
use mathlib.Core.List.{Perm, List, ◌∷◌}

-- The orders of all the ranges of a computation: a range has a place of its own, [] for the only
-- one or for the first, and each part of the computation gets a branch of the places.
pub record MapOrder : Type 1 where
  pub visit : List ℕ → (K V : Type 0) → Table K V → Table K V
  pub visit-perm : (place : List ℕ) (K V : Type 0) (m : Table K V) → Perm (visit place K V m) m

-- The orders for part `n` of a computation.
abbrev pub branch : ℕ → MapOrder → MapOrder
branch n o = record {
  visit = λ place. o.visit (n ∷ place);
  visit-perm = λ place. o.visit-perm (n ∷ place);
}

-- Always the order in which the entries are kept.
abbrev pub kept_order : MapOrder
kept_order = record { visit = λ place K V m. m; visit-perm = λ place K V m. Perm.refl m }
