-- ===== src/Stamps/Reads.antt =====
-- What can be read from `meta` after these plugins.
use logquill_python.Base.{
  ℕ, ◌+◌, String, string_eq, Option, none, some, List, [], ◌∷◌, ◌==◌, if◌then◌else◌, ◌≡◌, refl, ap,
  ◌∙◌, sym, arith, Bool-cases, inl, inr,
}
use logquill_python.Base.Int.{pos}
use logquill_python.Base.Text.{codes_eq}
use logquill_python.Dict.{get, put, set_default, update, IsDict}
use logquill_python.Dict.Laws.{get-put, get-set_default}
use logquill_python.Value.{Value, str, int, Meta}
use logquill_python.Records.{Record}
use logquill_python.Stamps.{
  Redact, redact_value, redact_meta, redact, add_context, Run, number, number_all,
}

abbrev pub redacted : Redact → String → Option Value → Option Value
redacted p key none = none
redacted p key (some value) = some (redact_value p key value)

redact_meta-get :
    (p : Redact) (meta : Meta) (key : String)
    → get (redact_meta p meta) key ≡ redacted p key (get meta key)
unfolding redact_meta get
redact_meta-get p [] key = refl
redact_meta-get p ((k, v) ∷ meta) key = elim (Bool-cases (k == key)) [
  | inl same ↦ rw same (ap (λ j. some (redact_value p j v)) ((string_eq.same_iff k key).0 same))
  | inr other ↦ rw other (redact_meta-get p meta key)
]

-- the value of a key in `{**d, **u}`
abbrev pub or_else : {A : Type 0} → Option A → Option A → Option A
or_else none o = o
or_else (some a) o = some a

get-update :
    (d u : Meta) (key : String) → IsDict u → get (update d u) key ≡ or_else (get u key) (get d key)
unfolding update get
get-update d [] key h = refl
get-update d ((k, v) ∷ u) key (fresh, h) = elim (Bool-cases (k == key)) [
  | inl same ↦
      let later = ap (λ j. get u j) (sym ((string_eq.same_iff k key).0 same)) ∙ fresh in
      get-update (put d k v) u key h ∙ rw (later, get-put d k key v, same) refl
  | inr other ↦ get-update (put d k v) u key h ∙ rw (get-put d k key v, other) refl
]

-- A key that is among the plugin's, whatever its case, keeps no value but the replacement, and every
-- other key keeps its value.
pub get-redact :
    (p : Redact) (r : Record) (key : String)
    → get (redact p r).meta key ≡ redacted p key (get r.meta key)
unfolding redact
get-redact p r key = redact_meta-get p r.meta key

-- A record's own `meta` wins over the fixed context, which is there for every other key.
pub get-add_context :
    (context : Meta) (r : Record) (key : String)
    → IsDict r.meta
    → get (add_context context r).meta key ≡ or_else (get r.meta key) (get context key)
unfolding add_context
get-add_context context r key h = get-update context r.meta key h

-- What the plugin leaves in a record as its `n`-th: its step, the run id unless it had one, and
-- every other key as it was.
abbrev pub numbered : String → ℕ → Record → String → Option Value
numbered run_id n r key =
    if key == "step"
    then some (int (pos n))
    else if key == "run_id"
    then or_else (get r.meta "run_id") (some (str run_id))
    else get r.meta key

abbrev pub IsNumbered : String → ℕ → Record → Record → Type 0
IsNumbered run_id n r r' = (key : String) → get r'.meta key ≡ numbered run_id n r key

abbrev pub AreNumbered : String → ℕ → List Record → List Record → Type 0
AreNumbered run_id n [] [] = Unit
AreNumbered run_id n (r ∷ rs) (r' ∷ rs') =
    IsNumbered run_id n r r' × AreNumbered run_id (n + 1) rs rs'
AreNumbered run_id n _ _ = ⊥

default_id :
    (o : Option Value) (v : Value) → elim o [ none ↦ some v | some w ↦ some w ] ≡ or_else o (some v)
default_id none v = refl
default_id (some w) v = refl

number-IsNumbered : (p : Run) (r : Record) → IsNumbered p.run_id p.next_step r (number p r).0
unfolding number
number-IsNumbered p r key =
    let id = str p.run_id in
    let with_id = set_default r.meta "run_id" id in
    let n = int (pos p.next_step) in
    ground (
      arith,
      get-put with_id "step" key n,
      get-set_default r.meta "run_id" key id,
      default_id (get r.meta "run_id") id,
      string_eq.same_iff "step" key,
      string_eq.same_iff key "step",
      string_eq.same_iff "run_id" key,
      string_eq.same_iff key "run_id",
    )

-- The records of one plugin are numbered one by one from its next step on; each gets the run's id
-- unless it came with one, and no other key changes.
pub number_all-AreNumbered :
    (p : Run) (rs : List Record) → AreNumbered p.run_id p.next_step rs (number_all p rs).0
unfolding number_all number
number_all-AreNumbered p [] = tt
number_all-AreNumbered p (r ∷ rs) =
    (number-IsNumbered p r, number_all-AreNumbered (record p { next_step = p.next_step + 1 }) rs)
