-- ===== src/Tests/Json.antt =====
-- A small JSON in which an object tells its keys, and nothing is told of other values.
use Prim.Native.Char.{Char, code}
use logquill_python.Base.{
  String, string_eq, Bool, true, false, some, ◌≡◌, refl, ap, ◌∙◌, arith, ◌==◌, if◌then◌else◌,
}
use logquill_python.Dict.{get}
use logquill_python.Value.{Value, dict, Fields, end, field, entries}
use logquill_python.TamperEvident.Content.{text_of, TellsKeys}

abbrev key_onto : String → String → String
key_onto String.[] rest = String.◌∷◌ "k" rest
key_onto (String.◌∷◌ c key) rest = String.◌∷◌ "c" (String.◌∷◌ c (key_onto key rest))

abbrev mutual
  value_onto : Value → String → String
  value_onto (dict fs) rest = String.◌∷◌ "d" (fields_onto fs rest)
  value_onto v rest = String.◌∷◌ "v" rest

  fields_onto : Fields → String → String
  fields_onto end rest = String.◌∷◌ "e" rest
  fields_onto (field key v fs) rest =
      String.◌∷◌ "f" (key_onto key (value_onto v (fields_onto fs rest)))

abbrev pub small_json : Value → String
small_json v = value_onto v ""

abbrev first : String → Char
first String.[] = "x"
first (String.◌∷◌ c s) = c

abbrev behind : String → String
behind String.[] = ""
behind (String.◌∷◌ c s) = s

-- Texts that begin with different characters are different.
clash : {s t : String} → s ≡ t → code (first s) ≡ code (first t)
clash e = ap (λ u. code (first u)) e

key_tells : (j k s t : String) → key_onto j s ≡ key_onto k t → (j ≡ k) × (s ≡ t)
key_tells String.[] String.[] s t e = (refl, ap behind e)
key_tells String.[] (String.◌∷◌ d k) s t e = absurd (omega (arith, clash e))
key_tells (String.◌∷◌ c j) String.[] s t e = absurd (omega (arith, clash e))
key_tells (String.◌∷◌ c j) (String.◌∷◌ d k) s t e =
    let (same, rest) = key_tells j k s t (ap (λ u. behind (behind u)) e) in
    (ap (λ x. String.◌∷◌ x j) (ap (λ u. first (behind u)) e) ∙ ap (λ l. String.◌∷◌ d l) same, rest)

abbrev SameText : Value → Value → Type 0
SameText v w = (rest : String) → value_onto v rest ≡ value_onto w rest

abbrev SameKeys : Fields → Fields → Type 0
SameKeys fs gs =
    ((rest : String) → fields_onto fs rest ≡ fields_onto gs rest)
    × ((k : String)
        → text_of small_json (get (entries fs) k) ≡ text_of small_json (get (entries gs) k))

SameKeys-field :
    (j k : String) (v w : Value) (fs gs : Fields)
    → j ≡ k
    → SameText v w
    → SameKeys fs gs
    → SameKeys (field j v fs) (field k w gs)
unfolding get
SameKeys-field j k v w fs gs key value (text, keys) = (
  λ rest.
      ap (λ i. String.◌∷◌ "f" (key_onto i (value_onto v (fields_onto fs rest)))) key
      ∙ ap (λ u. String.◌∷◌ "f" (key_onto k u))
          (value (fields_onto fs rest) ∙ ap (value_onto w) (text rest)),
  λ i.
      ap (λ (x : String). text_of small_json (if x == i then some v else get (entries fs) i)) key
      ∙ in_both (k == i) i,
)
  where
    in_both :
        (b : Bool) (i : String)
        → text_of small_json (if b then some v else get (entries fs) i)
          ≡ text_of small_json (if b then some w else get (entries gs) i)
    in_both true i = ap some (value "")
    in_both false i = keys i

mutual
  value_tells :
      (v w : Value) (s t : String) → value_onto v s ≡ value_onto w t → SameText v w × (s ≡ t)
  value_tells (dict fs) (dict gs) s t e =
      let (same, rest) = fields_tell fs gs s t (ap behind e) in
      (λ u. ap (λ l. String.◌∷◌ "d" l) (same.0 u), rest)
  value_tells (dict fs) w s t e = absurd (omega (arith, clash e))
  value_tells v (dict gs) s t e = absurd (omega (arith, clash e))
  value_tells v w s t e = (λ u. refl, ap behind e)

  fields_tell :
      (fs gs : Fields) (s t : String)
      → fields_onto fs s ≡ fields_onto gs t
      → SameKeys fs gs × (s ≡ t)
  fields_tell end end s t e = ((λ u. refl, λ k. refl), ap behind e)
  fields_tell end (field k w gs) s t e = absurd (omega (arith, clash e))
  fields_tell (field j v fs) end s t e = absurd (omega (arith, clash e))
  fields_tell (field j v fs) (field k w gs) s t e =
      let (key, after_key) =
        key_tells j k (value_onto v (fields_onto fs s)) (value_onto w (fields_onto gs t))
          (ap behind e) in
      let (value, after) = value_tells v w (fields_onto fs s) (fields_onto gs t) after_key in
      let (same, rest) = fields_tell fs gs s t after in
      (SameKeys-field j k v w fs gs key value same, rest)

pub small_json-TellsKeys : TellsKeys small_json
small_json-TellsKeys c d e = (fields_tell c d "" "" (ap behind e)).0.1
