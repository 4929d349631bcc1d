-- ===== src/Base/Text.antt =====
-- Texts: the code points of a `String`, and `str.upper`, `str.lower` on ASCII letters.
use Prim.Native.Nat.{ℕ, ◌+◌, ◌-◌}
use Prim.Native.Char.{code}
use Prim.Native.String.{String}
use mathlib.Core.Path.{◌≡◌}
use mathlib.Core.Logic.{◌↔◌}
use mathlib.Core.Bool.{Bool, true, ◌&&◌}
use mathlib.Core.List.{List, [], ◌∷◌, map}
use native.Mathlib.Omega.{arith}
use logquill_python.Base.Tests.{leb, if◌then◌else◌}
use logquill_python.Base.Equality.{Eq, nat_eq, ◌==◌}

abbrev pub codes : String → List ℕ
codes String.[] = []
codes (String.◌∷◌ c s) = code c ∷ codes s

unfoldable pub upper_code : ℕ → ℕ
upper_code c = if leb b'a' c && leb c b'z' then c - 32 else c

unfoldable pub lower_code : ℕ → ℕ
lower_code c = if leb b'A' c && leb c b'Z' then c + 32 else c

unfoldable pub upper : List ℕ → List ℕ
unfolding upper_code
upper = map upper_code

unfoldable pub lower : List ℕ → List ℕ
unfolding lower_code
lower = map lower_code

-- Equality of texts as lists of code points.
abbrev pub codes_beq : List ℕ → List ℕ → Bool
codes_beq [] [] = Bool.true
codes_beq (a ∷ s) (b ∷ t) = a == b && codes_beq s t
codes_beq _ _ = Bool.false

pub codes_beq_iff : (s t : List ℕ) → (codes_beq s t ≡ true) ↔ (s ≡ t)
codes_beq_iff [] [] = ground arith
codes_beq_iff [] (b ∷ t) = ground arith
codes_beq_iff (a ∷ s) [] = ground arith
codes_beq_iff (a ∷ s) (b ∷ t) = ground (arith, codes_beq_iff s t)

instance abbrev pub codes_eq : Eq (List ℕ)
codes_eq = record { same_iff = codes_beq_iff; same = codes_beq }
