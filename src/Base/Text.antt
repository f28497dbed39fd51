-- ===== src/Base/Text.antt =====
-- Text as the list of its bytes, with what the code takes from Go's regexp, strconv and strings.
pub mod Digits
pub mod Split
use Prim.Native.Nat.{ℕ, ◌+◌, ◌-◌, ◌*◌, ◌^◌}
use Prim.Native.Char.{code}
use Prim.Native.String.{String}
use mathlib.Core.Bool.{Bool, true, false, ◌&&◌, ◌||◌}
use mathlib.Core.Option.{Option, none, some}
use mathlib.Core.List.{List, [], ◌∷◌}
use eupf.Base.Tests.{ltb, leb, ◌==◌, if◌then◌else◌}

abbrev pub Text : Type 0
Text = List ℕ

abbrev pub codes : String → Text
codes String.[] = []
codes (String.◌∷◌ c s) = code c ∷ codes s

abbrev pub is_digit : ℕ → Bool
is_digit c = leb b'0' c && leb c b'9'

abbrev pub is_hex_letter : ℕ → Bool
is_hex_letter c = (leb b'a' c && leb c b'f') || (leb b'A' c && leb c b'F')

-- [p]*.
unfoldable pub every : (ℕ → Bool) → Text → Bool
every p [] = true
every p (c ∷ cs) = p c && every p cs

-- [p]+.
unfoldable pub some_of : (ℕ → Bool) → Text → Bool
unfolding every
some_of p [] = false
some_of p (c ∷ cs) = every p (c ∷ cs)

-- \d+.
unfoldable pub is_number : Text → Bool
unfolding some_of
is_number = some_of is_digit

abbrev pub push : ℕ → List Text → List Text
push c [] = (c ∷ []) ∷ []
push c (w ∷ ws) = (c ∷ w) ∷ ws

-- The parts between the separators.
unfoldable pub split_on : ℕ → Text → List Text
split_on sep [] = [] ∷ []
split_on sep (c ∷ cs) = let rest = split_on sep cs in if c == sep then [] ∷ rest else push c rest

abbrev pub extend : ℕ → Text × Option Text → Text × Option Text
extend c (w, rest) = (c ∷ w, rest)

-- What stands before the first separator, and what after it, if there is one.
unfoldable pub cut : ℕ → Text → Text × Option Text
cut sep [] = ([], none)
cut sep (c ∷ cs) = let rest = cut sep cs in if c == sep then ([], some cs) else extend c rest

-- The decimal number that digits stand for.
unfoldable pub decimal : ℕ → Text → ℕ
decimal acc [] = acc
decimal acc (c ∷ cs) = decimal (acc * 10 + (c - b'0')) cs

-- strconv.ParseUint(s, 10, 64); the code calls it on digits only.
unfoldable pub parse_uint : Text → Option ℕ
unfolding decimal is_number
parse_uint cs = if is_number cs && ltb (decimal 0 cs) (2 ^ 64) then some (decimal 0 cs) else none
