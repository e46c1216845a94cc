-- ===== src/Base/Tables.antt =====
-- Checks of every value of a small range by evaluation, and texts as character codes.
use Prim.Native.Nat.{ℕ, zero, suc, ◌<◌}
use Prim.Native.Char.{code}
use Prim.Native.String.{String}
use mathlib.Core.Path.{◌≡◌}
use mathlib.Core.Bool.{Bool, true, ◌&&◌}
use mathlib.Core.List.{List, [], ◌∷◌}
use native.Mathlib.Omega.{arith}

-- The bytes of a literal of ASCII characters.
abbrev pub codes : String → List ℕ
codes String.[] = []
codes (String.◌∷◌ c s) = code c ∷ codes s

-- Does a test succeed at every number less than a bound?
unfoldable pub try_all : (ℕ → Bool) → ℕ → Bool
try_all test zero = true
try_all test (suc bound) = try_all test bound && test bound

pub try_all-lt :
    (test : ℕ → Bool) {bound x : ℕ} → x < bound → try_all test bound ≡ true → test x ≡ true
unfolding try_all
try_all-lt test {bound = zero} {x} small success = absurd (omega arith)
try_all-lt test {bound = suc bound} {x} small success =
    ground (arith, λ (less : x < bound). try_all-lt test less)
