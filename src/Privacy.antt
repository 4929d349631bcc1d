-- ===== src/Privacy.antt =====
-- The content policy, `logquill/privacy/privacy.py`. `json.dumps` (with `str` where it fails) and the
-- hexadecimal SHA-256 of a text are parameters.
pub mod Fields
use Prim.Native.String.{count, ◌++◌ as ◌<>◌}
use logquill_python.Base.{
  ℕ, zero, suc, ◌+◌, ◌/◌, ◌%◌, String, string_eq, Bool, true, false, Option, none, some, List, [],
  ◌∷◌, leb, ltb, if◌then◌else◌, ◌==◌, Result, ok, raise, value_error,
}
use logquill_python.Dict.{Dict, get, put}
use logquill_python.Value.{Value, str, Meta}

pub data Policy : Type 0 where
  off hash truncate full : Policy

unfoldable pub parse_content_policy : String → Result Policy
parse_content_policy policy =
    if policy == "off"
    then ok off
    else if policy == "hash"
    then ok hash
    else if policy == "truncate"
    then ok truncate
    else if policy == "full"
    then ok full
    else raise value_error

pub data FieldClass : Type 0 where
  secret pii content : FieldClass

abbrev pub class_beq : FieldClass → FieldClass → Bool
class_beq secret secret = true
class_beq pii pii = true
class_beq content content = true
class_beq _ _ = false

abbrev pub field_classes : Dict String FieldClass
field_classes =
    ("password", secret)
    ∷ ("token", secret)
    ∷ ("secret", secret)
    ∷ ("api_key", secret)
    ∷ ("authorization", secret)
    ∷ ("email", pii)
    ∷ ("ssn", pii)
    ∷ ("phone", pii)
    ∷ ("input_messages", content)
    ∷ ("output_messages", content)
    ∷ ("system_instructions", content)
    ∷ ("tool_arguments", content)
    ∷ ("tool_result", content)
    ∷ ("state_diff", content)
    ∷ []

-- The keys of a class, in the order of the registry, in which each stands once.
abbrev pub keys_in_class : FieldClass → Dict String FieldClass → List String
keys_in_class c [] = []
keys_in_class c ((key, cls) ∷ registry) =
    let rest = keys_in_class c registry in if class_beq cls c then key ∷ rest else rest

abbrev pub content_fields : List String
content_fields = keys_in_class content field_classes

abbrev pub truncate_chars : ℕ
truncate_chars = 200

abbrev pub off_placeholder : String
off_placeholder = "<content capture is off — see Logger(content_policy=...)>"

-- `text[:n]`
abbrev pub prefix : ℕ → String → String
prefix zero text = ""
prefix (suc n) String.[] = ""
prefix (suc n) (String.◌∷◌ c text) = String.◌∷◌ c (prefix n text)

abbrev pub digit_texts : List String
digit_texts = "0" ∷ "1" ∷ "2" ∷ "3" ∷ "4" ∷ "5" ∷ "6" ∷ "7" ∷ "8" ∷ "9" ∷ []

abbrev pub text_at : List String → ℕ → String
text_at [] n = ""
text_at (s ∷ texts) zero = s
text_at (s ∷ texts) (suc n) = text_at texts n

-- the decimal digits of a number, before `rest`; a number has no more digits than it is large, or one
abbrev pub digits : ℕ → ℕ → String → String
digits zero n rest = rest
digits (suc fuel) n rest =
    let text = text_at digit_texts (n % 10) <> rest in
    let more = digits fuel (n / 10) text in if ltb n 10 then text else more

abbrev pub decimal : ℕ → String
decimal n = digits (suc n) n ""

module _ (to_text : Value → String) (hexdigest : String → String) where
  abbrev pub cut : String → String
  cut text =
      if leb (count text) truncate_chars
      then text
      else prefix truncate_chars text
        <> "...(truncated, "
        <> decimal (count text)
        <> " chars total)"

  -- `_apply_one`
  unfoldable pub apply_one : Policy → Value → Value
  apply_one off value = str off_placeholder
  apply_one hash value = str ("sha256:" <> hexdigest (to_text value))
  apply_one truncate value = str (cut (to_text value))
  apply_one full value = value

  -- one round of the loop
  unfoldable pub apply_found : Policy → Meta → String → Option Value → Meta
  apply_found policy meta field none = meta
  apply_found policy meta field (some value) = put meta field (apply_one policy value)

  -- the loop over `fields`
  unfoldable pub apply_fields : Policy → List String → Meta → Meta
  unfolding apply_found
  apply_fields policy [] meta = meta
  apply_fields policy (field ∷ fields) meta =
      apply_fields policy fields (apply_found policy meta field (get meta field))

  unfoldable pub apply_content_policy : Policy → List String → Meta → Meta
  unfolding apply_fields
  apply_content_policy full fields meta = meta
  apply_content_policy policy fields meta = apply_fields policy fields meta
