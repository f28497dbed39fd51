-- ===== src/Base/Text/Split.antt =====
-- Texts put together with separators, and taken apart again.
use mathlib.Core.Path.{◌≡◌, refl}
use Prim.Native.Nat.{ℕ}
use mathlib.Core.Bool.{Bool, true, false}
use mathlib.Core.Option.{none, some}
use mathlib.Core.List.{List, [], ◌∷◌, ◌++◌}
use native.Mathlib.Omega.{arith}
use eupf.Base.Tests.{◌==◌}
use eupf.Base.Lists.{All}
use eupf.Base.Text.{Text, is_digit, every, split_on, cut}
use eupf.Base.Text.Digits.{IsDigits}

abbrev pub Lacks : ℕ → Text → Type 0
Lacks sep = All (λ c. (c == sep) ≡ false)

pub IsDigits-Lacks : (sep : ℕ) (cs : Text) → is_digit sep ≡ false → IsDigits cs → Lacks sep cs
IsDigits-Lacks sep [] h k = tt
IsDigits-Lacks sep (c ∷ cs) h k = (ground (arith, h, k.0), IsDigits-Lacks sep cs h k.1)

pub Lacks-append : (sep : ℕ) (xs ys : Text) → Lacks sep xs → Lacks sep ys → Lacks sep (xs ++ ys)
Lacks-append sep [] ys h k = k
Lacks-append sep (x ∷ xs) ys h k = (h.0, Lacks-append sep xs ys h.1 k)

pub split_on-first :
    (sep : ℕ) (w rest : Text)
    → Lacks sep w
    → split_on sep (w ++ (sep ∷ rest)) ≡ w ∷ split_on sep rest
unfolding split_on
split_on-first sep [] rest h = ground arith
split_on-first sep (c ∷ w) rest h = rw (h.0, split_on-first sep w rest h.1) refl

pub split_on-last : (sep : ℕ) (w : Text) → Lacks sep w → split_on sep w ≡ w ∷ []
unfolding split_on
split_on-last sep [] h = refl
split_on-last sep (c ∷ w) h = rw (h.0, split_on-last sep w h.1) refl

pub cut-first :
    (sep : ℕ) (w rest : Text) → Lacks sep w → cut sep (w ++ (sep ∷ rest)) ≡ (w, some rest)
unfolding cut
cut-first sep [] rest h = ground arith
cut-first sep (c ∷ w) rest h = rw (h.0, cut-first sep w rest h.1) refl

pub cut-last : (sep : ℕ) (w : Text) → Lacks sep w → cut sep w ≡ (w, none)
unfolding cut
cut-last sep [] h = refl
cut-last sep (c ∷ w) h = rw (h.0, cut-last sep w h.1) refl

abbrev pub join : ℕ → List Text → Text
join sep [] = []
join sep (w ∷ []) = w
join sep (w ∷ v ∷ ws) = w ++ (sep ∷ join sep (v ∷ ws))

pub split_on-join :
    (sep : ℕ) (w : Text) (ws : List Text)
    → All (Lacks sep) (w ∷ ws)
    → split_on sep (join sep (w ∷ ws)) ≡ w ∷ ws
split_on-join sep w [] h = split_on-last sep w h.0
split_on-join sep w (v ∷ ws) h =
    rw (split_on-first sep w (join sep (v ∷ ws)) h.0, split_on-join sep v ws h.1) refl

pub every-append :
    (p : ℕ → Bool) (xs ys : Text)
    → every p xs ≡ true
    → every p ys ≡ true
    → every p (xs ++ ys) ≡ true
unfolding every
every-append p [] ys h k = k
every-append p (x ∷ xs) ys h k = ground (arith, every-append p xs ys (ground (arith, h)) k, h)
