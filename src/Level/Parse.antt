-- ===== src/Level/Parse.antt =====
-- `parse_level` reads every spelling of a level, and nothing else.
use mathlib.Core.Option.{some-injective}
use logquill_python.Base.{
  Bool-cases, inl, inr, ◌∙◌, ℕ, String, Option, none, some, List, [], ◌∷◌, ◌≡◌, refl, ◌↔◌, nat_eq,
  string_eq, arith, eq_iff, ok, ap, Result, value_error,
}
use logquill_python.Base.Int.{ℤ, pos, negsuc}
use logquill_python.Base.Text.{codes, upper, codes_beq, codes_beq_iff}
use logquill_python.Level.{
  Level, trace, debug, info, warn, error, fatal, weight, name, members, text, number, find_named,
  or_raise, parse_level, lookup_name,
}

or_raise-eq-ok : {l : Level} (o : Option Level) → or_raise o value_error ≡ ok l → o ≡ some l
or_raise-eq-ok none h = absurd (ground arith)
or_raise-eq-ok (some m) h = ground arith

module _ (t : List ℕ) where
  abbrev read_name : Result Level
  read_name = or_raise (find_named t members) value_error

  found_in : (l : Level) (ls : List Level) → find_named t ls ≡ some l → t ≡ codes (name l)
  unfolding find_named
  found_in l [] h = absurd (ground arith)
  found_in l (m ∷ ls) h = elim (Bool-cases (codes_beq t (codes (name m)))) [
    | inl e ↦
        (codes_beq_iff t (codes (name m))).0 e
        ∙ ap (λ (x : Level). codes (name x)) (some-injective m l (rw e at h))
    | inr e ↦ found_in l ls (rw e at h)
  ]

  found_name : (l : Level) → read_name ≡ ok l → t ≡ codes (name l)
  found_name l h = found_in l members (or_raise-eq-ok (find_named t members) h)

  name_found : (l : Level) → t ≡ codes (name l) → read_name ≡ ok l
  unfolding find_named
  name_found trace e = rw e
  name_found debug e = rw e
  name_found info e = rw e
  name_found warn e = rw e
  name_found error e = rw e
  name_found fatal e = rw e

-- A text is read as the level `l` exactly when its upper case is the name of `l`.
pub parse_level-text :
    (s : String) (l : Level) → (parse_level (text s) ≡ ok l) ↔ (upper (codes s) ≡ codes (name l))
unfolding parse_level
parse_level-text s l = (found_name (upper (codes s)) l, name_found (upper (codes s)) l)

-- A number is read as the level `l` exactly when it is the weight of `l`.
pub parse_level-number :
    (n : ℤ) (l : Level) → (parse_level (number n) ≡ ok l) ↔ (n ≡ pos (weight l))
unfolding parse_level
parse_level-number (pos n) trace = ground arith
parse_level-number (pos n) debug = ground arith
parse_level-number (pos n) info = ground arith
parse_level-number (pos n) warn = ground arith
parse_level-number (pos n) error = ground arith
parse_level-number (pos n) fatal = ground arith
parse_level-number (negsuc n) l = ground arith

-- Every level is read back from its name.
pub lookup_name-name : (l : Level) → lookup_name (name l) ≡ ok l
unfolding lookup_name
lookup_name-name trace = refl
lookup_name-name debug = refl
lookup_name-name info = refl
lookup_name-name warn = refl
lookup_name-name error = refl
lookup_name-name fatal = refl

-- A text that names a level is that level's name.
pub name-lookup_name : (s : String) (l : Level) → lookup_name s ≡ ok l → s ≡ name l
unfolding lookup_name
name-lookup_name s l h = ground (
  arith,
  eq_iff s "TRACE",
  eq_iff s "DEBUG",
  eq_iff s "INFO",
  eq_iff s "WARN",
  eq_iff s "ERROR",
  eq_iff s "FATAL",
)
