-- ===== src/Base/Outcome.antt =====
-- Results of Go's `(value, error)`, and state that stays changed when a step fails.
pub mod Pure
pub mod Fixes
pub mod Yields
pub mod Gives
pub mod Safe
pub mod Errs
use Prim.Native.Nat.{ℕ}
use mathlib.Core.Option.{Option, none, some}
use mathlib.Core.List.{List, [], ◌∷◌}

-- The errors that the code tells apart; `other` is an error value of a library.
pub data Error : Type 0 where
  mandatory_ie_missing no_established_association : Error
  unsupported_ie_type ipv6_not_supported : Error
  pdr_id_missing qer_id_missing urr_id_missing pdi_missing fteid_missing ue_ip_missing : Error
  pool_is_empty no_free_ip no_free_teid manager_is_nil no_resources_available : Error
  bad_format unsupported_protocol mask_after_any bad_ip bad_mask bad_port bad_port_range : Error
  lookup_failed invalid_ie invalid_type unexpected_echo bad_id bad_json : Error
  other : ℕ → Error

pub data Outcome {ℓ} (A : Type ℓ) : Type ℓ where
  ok : A → Outcome A
  err : Error → Outcome A
  -- A nil dereference or an index out of range: the Go program stops.
  panic : Outcome A

-- The value of a call, or the error that the caller returns at once.
abbrev pub and_then : {A B : Type 0} → Outcome A → (A → Outcome B) → Outcome B
and_then (ok a) f = f a
and_then (err e) f = err e
and_then panic f = panic

abbrev pub or_fail {ℓ} : {A : Type ℓ} → Error → Option A → Outcome A
or_fail e none = err e
or_fail e (some a) = ok a

-- A computation over a state that is kept when it fails: nothing is rolled back.
abbrev pub M : Type 0 → Type 0 → Type 0
M S A = S → Outcome A × S

module _ {S : Type 0} where
  abbrev pub pure : {A : Type 0} → A → M S A
  pure a s = (ok a, s)

  abbrev pub throw : {A : Type 0} → Error → M S A
  throw e s = (err e, s)

  abbrev pub crash : {A : Type 0} → M S A
  crash s = (panic, s)

  abbrev pub lift : {A : Type 0} → Outcome A → M S A
  lift r s = (r, s)

  abbrev pub modify : (S → S) → M S (Unit {0})
  modify f s = (ok tt, f s)

  abbrev pub gets : {A : Type 0} → (S → A) → M S A
  gets f s = (ok (f s), s)

abbrev pub bind_with : {S A B : Type 0} → (A → M S B) → Outcome A × S → Outcome B × S
bind_with f (ok a, s) = f a s
bind_with f (err e, s) = (err e, s)
bind_with f (panic, s) = (panic, s)

infixl 5 ◌>>=◌ ◌>>◌
abbrev pub ◌>>=◌ : {S A B : Type 0} → M S A → (A → M S B) → M S B
◌>>=◌ m f s = bind_with f (m s)

abbrev pub ◌>>◌ : {S B : Type 0} → M S (Unit {0}) → M S B → M S B
m >> k = m >>= λ _. k

-- `_ = m`: the error is dropped.
abbrev pub ignoring : {S : Type 0} → Outcome (Unit {0}) × S → Outcome (Unit {0}) × S
ignoring (err e, s) = (ok tt, s)
ignoring (ok u, s) = (ok u, s)
ignoring (panic, s) = (panic, s)

abbrev pub ignore : {S : Type 0} → M S (Unit {0}) → M S (Unit {0})
ignore m s = ignoring (m s)

-- Work on one part of the state.
abbrev pub put_back : {S T A : Type 0} → (T → S → S) → S → Outcome A × T → Outcome A × S
put_back put s (r, t) = (r, put t s)

abbrev pub zoom : {S T A : Type 0} → (S → T) → (T → S → S) → M T A → M S A
zoom get put m s = put_back put s (m (get s))

-- `for _, x := range xs { if err := f(x); err != nil { return err } }`.
unfoldable pub for_each : {S A : Type 0} → (A → M S (Unit {0})) → List A → M S (Unit {0})
for_each f [] = pure tt
for_each f (x ∷ xs) = do f x; for_each f xs
