-- ===== src/Rest.antt =====
-- cmd/api/rest: the handlers of the REST interface. What gin gives a handler, its parameters and the
-- body that BindJSON reads, are arguments; what it writes is the result, less the text of errors.
pub mod Tables
pub mod Sessions
pub mod Display
use eupf.Base.{
  ℕ, ◌+◌, ◌-◌, ◌%◌, ◌^◌, Bool, true, false, ◌&&◌, Option, none, some, [], ◌∷◌, leb, ltb, ◌==◌,
  if◌then◌else◌,
}
use eupf.Base.Text.{Text, is_number, decimal}

-- The status and the JSON of the body; `fails` has an error text.
pub data HttpReply (A : Type 0) : Type 0 where
  answers : ℕ → A → HttpReply A
  fails : ℕ → HttpReply A

-- strconv.Atoi: whether the number is negative, and its magnitude.
unfoldable pub atoi : Text → Option (Bool × ℕ)
unfolding is_number decimal
atoi [] = none
atoi (c ∷ cs) =
    if c == b'-'
    then (if is_number cs && leb (decimal 0 cs) (2 ^ 63) then some (true, decimal 0 cs) else none)
    else if c == b'+'
    then (if is_number cs && ltb (decimal 0 cs) (2 ^ 63) then some (false, decimal 0 cs) else none)
    else if is_number (c ∷ cs) && ltb (decimal 0 (c ∷ cs)) (2 ^ 63)
    then some (false, decimal 0 (c ∷ cs))
    else none

-- The conversion of an int to a uint32.
abbrev pub to_uint32 : Bool × ℕ → ℕ
to_uint32 (true, n) = (2 ^ 32 - n % 2 ^ 32) % 2 ^ 32
to_uint32 (false, n) = n % 2 ^ 32
