-- ===== src/Level.antt =====
-- Log levels, `logquill/core/levels.py`, and the bridge's level map in `logquill/core/handler.py`.
pub mod Parse
pub mod Bridge
use logquill_python.Base
use logquill_python.Base.{
  ℕ, String, Bool, true, false, Option, none, some, List, [], ◌∷◌, ltb, leb, ◌==◌, string_eq,
  nat_eq, if◌then◌else◌, Result, ok, raise, value_error, type_error, key_error,
}
use logquill_python.Base.Int.{ℤ, pos, negsuc, leb_ℤ}
use logquill_python.Base.Text.{codes, upper, codes_beq}

pub data Level : Type 0 where
  trace debug info warn error fatal : Level

abbrev pub weight : Level → ℕ
weight trace = 5
weight debug = 10
weight info = 20
weight warn = 30
weight error = 40
weight fatal = 50

abbrev pub name : Level → String
name trace = "TRACE"
name debug = "DEBUG"
name info = "INFO"
name warn = "WARN"
name error = "ERROR"
name fatal = "FATAL"

-- `a < b`, by weight
abbrev pub below : Level → Level → Bool
below a b = ltb (weight a) (weight b)

-- `a >= b`, by weight
abbrev pub reaches : Level → Level → Bool
reaches a b = leb (weight b) (weight a)

abbrev pub members : List Level
members = trace ∷ debug ∷ info ∷ warn ∷ error ∷ fatal ∷ []

-- what `parse_level` is given
pub data LevelLike : Type 0 where
  level : Level → LevelLike
  text : String → LevelLike
  number : ℤ → LevelLike
  other : LevelLike

unfoldable pub find_named : List ℕ → List Level → Option Level
find_named s [] = none
find_named s (l ∷ ls) = if codes_beq s (codes (name l)) then some l else find_named s ls

is_weight : ℤ → Level → Bool
is_weight (pos n) l = n == weight l
is_weight (negsuc n) l = false

unfoldable pub find_weighing : ℤ → List Level → Option Level
unfolding is_weight
find_weighing n [] = none
find_weighing n (l ∷ ls) = if is_weight n l then some l else find_weighing n ls

abbrev pub or_raise {ℓ} : {A : Type ℓ} → Option A → Base.Error → Result A
or_raise none e = raise e
or_raise (some a) e = ok a

unfoldable pub parse_level : LevelLike → Result Level
unfolding find_named find_weighing upper
parse_level (level l) = ok l
parse_level (text s) = or_raise (find_named (upper (codes s)) members) value_error
parse_level (number n) = or_raise (find_weighing n members) value_error
parse_level other = raise type_error

-- `Level[s]`: exact, and `KeyError` on any other text
unfoldable pub lookup_name : String → Result Level
lookup_name s =
    if s == "TRACE"
    then ok trace
    else if s == "DEBUG"
    then ok debug
    else if s == "INFO"
    then ok info
    else if s == "WARN"
    then ok warn
    else if s == "ERROR"
    then ok error
    else if s == "FATAL"
    then ok fatal
    else raise key_error

-- `_map_level`: a stdlib level number onto a level
unfoldable pub map_level : ℤ → Level
map_level n =
    if leb_ℤ (pos 50) n
    then fatal
    else if leb_ℤ (pos 40) n
    then error
    else if leb_ℤ (pos 30) n
    then warn
    else if leb_ℤ (pos 20) n
    then info
    else if leb_ℤ (pos 10) n
    then debug
    else trace
