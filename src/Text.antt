-- ===== src/Text.antt =====
-- Byte strings: names, keys and messages, as lists of bytes.
pub mod Decimal
pub mod Names
use Prim.Native.String.{String}
use Prim.Native.Char.{code}
use work.Prelude.{ℕ, List, [], ◌∷◌, ℕ_discrete, Bool, true, false, ◌==◌, ◌&&◌}

abbrev pub Text : Type 0
Text = List ℕ

-- The bytes of a literal (all of the source's are ASCII).
abbrev pub text : String → Text
text String.[] = []
text (String.◌∷◌ c s) = code c ∷ text s

unfoldable pub Text-discrete : Discrete Text
unfolding ℕ_discrete
Text-discrete = hlevel ℕ_discrete

-- Equality as a test, which computes on literals.
abbrev pub same_text : Text → Text → Bool
same_text [] [] = true
same_text [] (d ∷ t) = false
same_text (c ∷ s) [] = false
same_text (c ∷ s) (d ∷ t) = c == d && same_text s t
