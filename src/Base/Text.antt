-- ===== src/Base/Text.antt =====
-- Text as a list of character codes, and strings in memory, which end at the first 0.
use Prim.Native.Char.{code}
use Prim.Native.Nat.{ℕ, ◌<◌}
use Prim.Native.String.{String}
use mathlib.Core.Path.{◌≡◌, refl}
use mathlib.Core.Bool.{Bool, true, false, ◌&&◌}
use mathlib.Core.List.{List, [], ◌∷◌, ◌++◌}
use native.Mathlib.Omega.{arith}
use school_system.Base.Tests.{◌==◌, if◌then◌else◌}
use school_system.Base.Lists.{All}

-- The code points of a text: its bytes, if it is ASCII.
abbrev pub codes : String → List ℕ
codes String.[] = []
codes (String.◌∷◌ c s) = code c ∷ codes s

-- The characters in front of the first 0, as `string(buf)` and `strlen` read them.
unfoldable pub c_string : List ℕ → List ℕ
c_string [] = []
c_string (c ∷ cs) = if c == 0 then [] else c ∷ c_string cs

-- What stands behind the first 0.
pub after_zero : List ℕ → List ℕ
after_zero [] = []
after_zero (c ∷ cs) = if c == 0 then cs else after_zero cs

-- No character is 0, so that the text can be held by a C string.
abbrev pub NulFree : List ℕ → Type 0
NulFree = All (λ c. 0 < c)

pub c_string_lem : (s rest : List ℕ) → NulFree s → c_string (s ++ 0 ∷ rest) ≡ s
unfolding c_string
c_string_lem [] rest h = refl
c_string_lem (c ∷ s) rest h = ground (arith, c_string_lem s rest h.1)

pub c_string_self : (s : List ℕ) → NulFree s → c_string s ≡ s
unfolding c_string
c_string_self [] h = refl
c_string_self (c ∷ s) h = ground (arith, c_string_self s h.1)

pub after_zero_lem : (s rest : List ℕ) → NulFree s → after_zero (s ++ 0 ∷ rest) ≡ rest
unfolding after_zero
after_zero_lem [] rest h = refl
after_zero_lem (c ∷ s) rest h = ground (arith, after_zero_lem s rest h.1)

-- Equality of texts.
abbrev pub text_eq : List ℕ → List ℕ → Bool
text_eq [] [] = true
text_eq [] (d ∷ ds) = false
text_eq (c ∷ cs) [] = false
text_eq (c ∷ cs) (d ∷ ds) = c == d && text_eq cs ds
