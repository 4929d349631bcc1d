-- ===== src/Toggle.antt =====
-- Turning loggers on and off by name, `logquill/runtime/toggle.py`. A name is its list of code
-- points; the module's `_rules` is passed and returned.
pub mod Names
pub mod Specific
use logquill_python.Base.{
  ℕ, zero, suc, Bool, true, false, ◌||◌, Option, none, some, List, [], ◌∷◌, length, ◌==◌, nat_eq,
  if◌then◌else◌,
}
use logquill_python.Base.Text.{codes_eq}
use logquill_python.Dict.{Dict, get, put}

abbrev pub Name : Type 0
Name = List ℕ

abbrev pub Rules : Type 0
Rules = Dict Name Bool

abbrev pub dot : ℕ
dot = b'.'

abbrev pub has_dot : Name → Bool
has_dot [] = false
has_dot (c ∷ s) = c == dot || has_dot s

-- `name.rpartition(".")[0]`
unfoldable pub parent : Name → Name
parent [] = []
parent (c ∷ s) = let rest = parent s in if has_dot s then c ∷ rest else []

-- the `while True` loop from `candidate`, for as many rounds as the fuel allows
unfoldable pub search_up : ℕ → Rules → Name → Option Bool
search_up zero rules candidate = none
search_up (suc fuel) rules candidate = elim (get rules candidate) [
  | some verdict ↦ some verdict
  | none ↦ elim candidate [ [] ↦ some true | c ∷ s ↦ search_up fuel rules (parent (c ∷ s)) ]
]

abbrev pub or_true : Option Bool → Bool
or_true none = true
or_true (some b) = b

-- `_is_enabled`; a name that is `n` long takes at most `n + 1` rounds
unfoldable pub is_enabled : Rules → Name → Bool
unfolding search_up parent
is_enabled [] name = true
is_enabled (r ∷ rules) name = or_true (search_up (suc (length name)) (r ∷ rules) name)

-- `_set`
unfoldable pub set_rule : Rules → Name → Bool → Rules
set_rule rules name enabled = put rules name enabled

unfoldable pub disable : Rules → Name → Rules
unfolding set_rule
disable rules name = set_rule rules name false

unfoldable pub enable : Rules → Name → Rules
unfolding set_rule
enable rules name = set_rule rules name true
