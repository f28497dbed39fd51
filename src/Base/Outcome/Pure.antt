-- ===== src/Base/Outcome/Pure.antt =====
-- `do` over results alone, for code that changes no state.
use eupf.Base.Outcome.{Outcome, and_then}

infixl 5 ◌>>=◌
abbrev pub ◌>>=◌ : {A B : Type 0} → Outcome A → (A → Outcome B) → Outcome B
m >>= f = and_then m f
