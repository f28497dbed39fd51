-- ===== src/Base/Text/Digits.antt =====
-- Decimal numbers as text, as fmt prints them with %d, and what reading them back gives.
use Prim.Native.Nat.{ℕ, zero, suc, ◌+◌, ◌-◌, ◌*◌, ◌/◌, ◌%◌, ◌^◌, ◌<◌}
use mathlib.Core.Path.{◌≡◌, refl}
use mathlib.Core.Bool.{Bool, true, false}
use mathlib.Core.Option.{some}
use mathlib.Core.List.{[], ◌∷◌, ◌++◌}
use native.Mathlib.Omega.{arith}
use mathlib.Core.Logic.{inl, inr}
use eupf.Base.Tests.{Bool-cases, ltb, ◌==◌, if◌then◌else◌}
use eupf.Base.Lists.{All}
use eupf.Base.Text.{Text, is_digit, every, some_of, is_number, decimal, parse_uint}

-- The digits of `n`, the last one first found; `places` is at least their number.
unfoldable pub digits : ℕ → ℕ → Text
digits zero n = []
digits (suc places) n =
    let rest = digits places (n / 10) in
    if ltb n 10 then (48 + n) ∷ [] else rest ++ ((48 + n % 10) ∷ [])

abbrev pub IsDigits : Text → Type 0
IsDigits = All (λ c. is_digit c ≡ true)

decimal-snoc :
    (acc c : ℕ) (cs : Text) → decimal acc (cs ++ (c ∷ [])) ≡ decimal acc cs * 10 + (c - b'0')
unfolding decimal
decimal-snoc acc c [] = refl
decimal-snoc acc c (d ∷ cs) = decimal-snoc (acc * 10 + (d - b'0')) c cs

IsDigits-snoc : (c : ℕ) (cs : Text) → is_digit c ≡ true → IsDigits cs → IsDigits (cs ++ (c ∷ []))
IsDigits-snoc c [] h k = (h, tt)
IsDigits-snoc c (d ∷ cs) h k = (k.0, IsDigits-snoc c cs h k.1)

pub digits-IsDigits : (places n : ℕ) → IsDigits (digits places n)
unfolding digits
digits-IsDigits zero n = tt
digits-IsDigits (suc places) n = elim (Bool-cases (ltb n 10)) [
  | inl e ↦ rw e (ground (arith, e), tt)
  | inr e ↦ rw e (
      IsDigits-snoc (48 + n % 10) (digits places (n / 10)) (ground arith)
        (digits-IsDigits places (n / 10)))
]

pub decimal-digits : (places n : ℕ) → n < 10 ^ places → decimal 0 (digits places n) ≡ n
unfolding digits decimal
decimal-digits zero n h = omega (arith, h)
decimal-digits (suc places) n h = elim (Bool-cases (ltb n 10)) [
  | inl e ↦ rw e (omega arith)
  | inr e ↦
      rw (e, decimal-snoc 0 (48 + n % 10) (digits places (n / 10)))
        (omega (arith, decimal-digits places (n / 10) (omega (arith, h))))
]

-- The first digit is no zero, but for the number zero itself.
abbrev pub NoZero : Text → Type 0
NoZero [] = ⊥
NoZero (c ∷ cs) = (c == b'0') ≡ false

NoZero-snoc : (cs ds : Text) → NoZero cs → NoZero (cs ++ ds)
NoZero-snoc [] ds h = absurd h
NoZero-snoc (c ∷ cs) ds h = h

pub digits-NoZero : (places n : ℕ) → 0 < n → n < 10 ^ places → NoZero (digits places n)
unfolding digits
digits-NoZero zero n h k = omega (arith, h, k)
digits-NoZero (suc places) n h k = elim (Bool-cases (ltb n 10)) [
  | inl e ↦ rw e (ground (arith, h))
  | inr e ↦ rw e (
      NoZero-snoc (digits places (n / 10)) _
        (digits-NoZero places (n / 10) (ground (arith, e)) (omega (arith, k))))
]

pub every-IsDigits :
    (p : ℕ → Bool) (cs : Text)
    → ((c : ℕ) → is_digit c ≡ true → p c ≡ true)
    → IsDigits cs
    → every p cs ≡ true
unfolding every
every-IsDigits p [] h k = refl
every-IsDigits p (c ∷ cs) h k = ground (arith, h c k.0, every-IsDigits p cs h k.1)

-- A text that begins with a digit.
abbrev pub Begun : Text → Type 0
Begun [] = ⊥
Begun (c ∷ cs) = is_digit c ≡ true

Begun-snoc : (cs ds : Text) → Begun cs → Begun (cs ++ ds)
Begun-snoc [] ds h = absurd h
Begun-snoc (c ∷ cs) ds h = h

pub digits-Begun : (places n : ℕ) → n < 10 ^ suc places → Begun (digits (suc places) n)
unfolding digits
digits-Begun zero n h = ground (arith, h)
digits-Begun (suc places) n h = elim (Bool-cases (ltb n 10)) [
  | inl e ↦ rw e (ground (arith, e))
  | inr e ↦ rw e (
      Begun-snoc (digits (suc places) (n / 10)) _ (digits-Begun places (n / 10) (omega (arith, h))))
]

IsDigits-number : (cs : Text) → IsDigits cs → Begun cs → is_number cs ≡ true
unfolding is_number some_of
IsDigits-number [] h k = absurd k
IsDigits-number (c ∷ cs) h k = every-IsDigits is_digit (c ∷ cs) (λ d e. e) h

pub is_number-digits :
    (places n : ℕ) → n < 10 ^ suc places → is_number (digits (suc places) n) ≡ true
is_number-digits places n h =
    IsDigits-number (digits (suc places) n) (digits-IsDigits (suc places) n)
      (digits-Begun places n h)

pub parse_uint-digits :
    (places n : ℕ) → n < 10 ^ suc places → n < 2 ^ 64 → parse_uint (digits (suc places) n) ≡ some n
unfolding parse_uint
parse_uint-digits places n h k =
    rw (is_number-digits places n h, decimal-digits (suc places) n h) (ground (arith, k))
