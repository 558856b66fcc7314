-- ===== src/Base/Word.antt =====
-- A 32-bit `int` is its bit pattern, a number below 2 ^ 32. The compilers that the project names
-- wrap on overflow, and the model does the same; comparisons are those of the signed values.
use Prim.Native.Nat.{ℕ, ◌+◌, ◌*◌, ◌/◌, ◌%◌, ◌<◌}
use mathlib.Core.Path.{◌≡◌}
use mathlib.Core.Bool.{Bool}
use mathlib.Core.List.{List, [], ◌∷◌, ◌++◌}
use mathlib.Core.Option.{Option, none, some}
use native.Mathlib.Omega.{arith}
use school_system.Base.Tests.{ltb, leb}

abbrev pub int_mod : ℕ
int_mod = 4294967296

abbrev pub int_limit : ℕ
int_limit = 2147483648

-- The pattern of -1.
abbrev pub minus_one : ℕ
minus_one = 4294967295

-- `n++` and the value of `n + 1`
abbrev pub next_int : ℕ → ℕ
next_int n = (n + 1) % int_mod

-- `a < b` on signed values
abbrev pub int_lt : ℕ → ℕ → Bool
int_lt a b = ltb ((a + int_limit) % int_mod) ((b + int_limit) % int_mod)

abbrev pub is_negative : ℕ → Bool
is_negative n = leb int_limit n

-- The four bytes of an `int` in memory, least significant first.
abbrev pub int_bytes : ℕ → List ℕ
int_bytes n = (n % 256) ∷ (n / 256 % 256) ∷ (n / 65536 % 256) ∷ (n / 16777216 % 256) ∷ []

-- The `int` at the front of a buffer, with the bytes behind it.
abbrev pub read_int : List ℕ → Option (ℕ × List ℕ)
read_int (a ∷ b ∷ c ∷ d ∷ rest) = some (a + 256 * b + 65536 * c + 16777216 * d, rest)
read_int _ = none

pub next_int_small : (n : ℕ) → n < int_limit → next_int n ≡ n + 1
next_int_small n h = omega arith

pub int_lt_small : (a b : ℕ) → a < int_limit → b < int_limit → int_lt a b ≡ ltb a b
int_lt_small a b ha hb = ground arith

pub read_int-int_bytes :
    (n : ℕ) (rest : List ℕ) → n < int_mod → read_int (int_bytes n ++ rest) ≡ some (n, rest)
read_int-int_bytes n rest h = ground arith
