-- ===== src/Value.antt =====
-- Values of `meta`: JSON data, and other Python objects by their identity.
-- Floats are whole numbers of millionths.
use logquill_python.Base.{
  ℕ, zero, ◌+◌, ◌*◌, String, Bool, true, false, Option, none, some, [], ◌∷◌, ◌≡◌, refl,
}
use native.Mathlib.Decide.{ℕ_discrete}
use logquill_python.Base.{string_discrete, dec_beq, dec_beq_iff, Eq}
use logquill_python.Base.Int.{ℤ-discrete, ℤ, pos, negsuc}
use logquill_python.Dict.{Dict}

mutual
  pub data Value : Type 0 where
    null : Value
    bool : Bool → Value
    int : ℤ → Value
    float : ℤ → Value
    str : String → Value
    list : Items → Value
    dict : Fields → Value
    object : ℕ → Value

  pub data Items : Type 0 where
    nil : Items
    cons : Value → Items → Items

  pub data Fields : Type 0 where
    end : Fields
    field : String → Value → Fields → Fields

-- `meta`: `dict[str, Any]`
abbrev pub Meta : Type 0
Meta = Dict String Value

abbrev pub entries : Fields → Meta
entries end = []
entries (field k v fs) = (k, v) ∷ entries fs

abbrev pub of_entries : Meta → Fields
of_entries [] = end
of_entries ((k, v) ∷ d) = field k v (of_entries d)

pub entries-of_entries : (d : Meta) → entries (of_entries d) ≡ d
entries-of_entries [] = refl
entries-of_entries ((k, v) ∷ d) = λ i. (k, v) ∷ entries-of_entries d i

-- `isinstance(value, str)`
abbrev pub is_str : Option Value → Bool
is_str (some (str _)) = true
is_str _ = false

-- `meta.get(k)` is not `None`
unfoldable pub present : Option Value → Option Value
present none = none
present (some null) = none
present (some (bool b)) = some (bool b)
present (some (int n)) = some (int n)
present (some (float n)) = some (float n)
present (some (str s)) = some (str s)
present (some (list l)) = some (list l)
present (some (dict d)) = some (dict d)
present (some (object n)) = some (object n)

-- `isinstance(value, (int, float)) and not isinstance(value, bool)`, in millionths
abbrev pub millionths : ℤ → ℤ
millionths (pos n) = pos (n * 1_000_000)
millionths (negsuc n) = negsuc (n * 1_000_000 + 999_999)

abbrev pub as_number : Option Value → Option ℤ
as_number (some (int n)) = some (millionths n)
as_number (some (float n)) = some n
as_number _ = none

-- `isinstance(value, int) and not isinstance(value, bool)`
abbrev pub as_int : Option Value → Option ℤ
as_int (some (int n)) = some n
as_int _ = none

abbrev pub as_str : Option Value → Option String
as_str (some (str s)) = some s
as_str _ = none

-- `bool(value)` of the values that the sources test
abbrev pub truthy : Value → Bool
truthy null = false
truthy (bool b) = b
truthy (int (pos zero)) = false
truthy (float (pos zero)) = false
truthy (str Prim.Native.String.[]) = false
truthy (list nil) = false
truthy (dict end) = false
truthy _ = true

pub Value-discrete : Discrete Value
Value-discrete = hlevel (ℤ-discrete, ℕ_discrete, string_discrete)

-- Run and trace ids: the values themselves. (Python's `1 == True == 1.0` is not modelled.)
instance unfoldable pub value_eq : Eq Value
unfolding Value-discrete
value_eq = record { same_iff = dec_beq_iff Value-discrete; same = dec_beq Value-discrete }

-- whether `hash(value)` is there: lists and dicts have none
abbrev pub is_hashable : Value → Bool
is_hashable (list _) = false
is_hashable (dict _) = false
is_hashable _ = true
