-- ===== src/Prelude/Texts.antt =====
-- Texts as lists of code points, for code that walks them, and the texts that formatting makes.
use Prim.Native.Nat.{ℕ}
use Prim.Native.Char.{code}
use Prim.Native.String.{String, ◌++◌}
use mathlib.Core.Bool.{Bool, true, false, ◌&&◌}
use mathlib.Core.Path.{◌≡◌}
use mathlib.Core.Logic.{◌≢◌}
use native.Mathlib.Omega.{arith}
use text.Mathlib.Text.{◌==◌ as str_eq}
use text.Mathlib.TextEquality.{eq_iff}
use mathlib.Core.List.{List, [], ◌∷◌}

-- The code points of a text: its bytes, if it is ASCII.
abbrev pub codes : String → List ℕ
codes (String.◌∷◌ first others) = code first ∷ codes others
codes String.[] = []

abbrev pub all {ℓ} : {A : Type ℓ} → (A → Bool) → List A → Bool
all p [] = true
all p (x ∷ xs) = p x && all p xs

-- `%q`, with the quotation marks and without the escapes.
unfoldable pub quoted : String → String
quoted s = "\"" ++ s ++ "\""

pub no_text : (s t : String) → s ≢ t → str_eq s t ≡ false
no_text s t h = ground (arith, eq_iff s t)
