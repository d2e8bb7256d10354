-- ===== src/Base/Texts.antt =====
-- Two texts are told apart by their first characters.
use Prim.Native.Nat.{ℕ}
use Prim.Native.Char.{code}
use Prim.Native.String.{String, [], ◌∷◌, ◌++◌}
use mathlib.Core.Path.{◌≡◌, refl, ap}
use mathlib.Core.Logic.{◌≢◌}
use text.Mathlib.TextLemmas.{cons-append}

-- the code of the first character
abbrev pub first_code : String → ℕ
first_code [] = 0
first_code (c ∷ s) = code c

pub first_code-append : (s t : String) → s ≢ [] → first_code (s ++ t) ≡ first_code s
first_code-append [] t h = absurd (h refl)
first_code-append (c ∷ s) t h = ap first_code (cons-append c s t)
