-- ===== src/SemConv.antt =====
-- Attribute names of spans, `logquill/tracing/semconv.py`. `json.dumps` and `str` are parameters, and
-- an attribute keeps the value that the record has.
pub mod OptIn
pub mod Specs
pub mod Names
pub mod Content
use logquill_python.Base.{
  ℕ, nat_eq, String, string_eq, Bool, true, false, not, ◌&&◌, ◌||◌, Option, none, some, List, [],
  ◌∷◌, ◌++◌, ◌==◌, Result, ok, raise, key_error, if◌then◌else◌,
}
use Prim.Native.Char.{code}
use Prim.Native.String.{◌++◌ as ◌++ₛ◌}
use logquill_python.Base.Int.{ℤ, pos, negsuc}
use logquill_python.Dict.{get, put}
use logquill_python.Value.{
  Value, bool, int, float, str, list, dict, nil, cons, Meta, as_number, millionths, of_entries,
}
use logquill_python.Records.{Record}
use logquill_python.Logfmt.Chars.{is_space}

-- LogQuill's own keys of `Convention.names`
pub data Key : Type 0 where
  operation : Key
  provider : Key
  request_model : Key
  response_model : Key
  input_tokens : Key
  output_tokens : Key
  finish_reasons : Key
  agent_name : Key
  agent_id : Key
  conversation_id : Key
  tool_name : Key
  tool_call_id : Key
  input_messages : Key
  output_messages : Key

-- `Convention`
pub record Convention : Type 0 where
  pub version : String
  pub names : Key → String

abbrev pub latest_name : Key → String
latest_name operation = "gen_ai.operation.name"
latest_name provider = "gen_ai.provider.name"
latest_name request_model = "gen_ai.request.model"
latest_name response_model = "gen_ai.response.model"
latest_name input_tokens = "gen_ai.usage.input_tokens"
latest_name output_tokens = "gen_ai.usage.output_tokens"
latest_name finish_reasons = "gen_ai.response.finish_reasons"
latest_name agent_name = "gen_ai.agent.name"
latest_name agent_id = "gen_ai.agent.id"
latest_name conversation_id = "gen_ai.conversation.id"
latest_name tool_name = "gen_ai.tool.name"
latest_name tool_call_id = "gen_ai.tool.call.id"
latest_name input_messages = "gen_ai.input.messages"
latest_name output_messages = "gen_ai.output.messages"

-- `_LATEST`
abbrev pub latest : Convention
latest = record { version = "1.44.0"; names = latest_name }

abbrev pub legacy_name : Key → String
legacy_name provider = "gen_ai.system"
legacy_name input_tokens = "gen_ai.usage.prompt_tokens"
legacy_name output_tokens = "gen_ai.usage.completion_tokens"
legacy_name key = latest_name key

-- `_LEGACY`
abbrev pub legacy : Convention
legacy = record { version = "legacy"; names = legacy_name }

-- `SpanKindName`
pub data SpanKind : Type 0 where
  client : SpanKind
  internal : SpanKind

-- `SpanSpec`
pub record SpanSpec : Type 0 where
  pub name : String
  pub kind : SpanKind
  pub attributes : Meta
  pub duration_ms : Option ℤ
  pub is_error : Bool
  pub events : List (String × Meta)

-- `_string`
abbrev pub string_of : Option Value → Option String
string_of (some (str String.[])) = none
string_of (some (str s)) = some s
string_of _ = none

-- `isinstance(value, int)`, which a `bool` passes: the value
abbrev pub int_of : Option Value → Option Value
int_of (some (int n)) = some (int n)
int_of (some (bool b)) = some (bool b)
int_of _ = none

-- `float(value)` of a value that `isinstance(value, (int, float))` lets pass
abbrev pub float_of : Option Value → Option Value
float_of (some (int n)) = some (float (millionths n))
float_of (some (float n)) = some (float n)
float_of (some (bool true)) = some (float (pos 1_000_000))
float_of (some (bool false)) = some (float (pos 0))
float_of _ = none

abbrev pub str_of : Option String → Option Value
str_of none = none
str_of (some s) = some (str s)

abbrev pub list_of : Option String → Option Value
list_of none = none
list_of (some s) = some (list (cons (str s) nil))

abbrev pub or_string : Option String → String → String
or_string none s = s
or_string (some s) t = s

abbrev pub equals : Option Value → String → Bool
equals (some (str s)) t = s == t
equals _ t = false

abbrev pub is_some {ℓ} : {A : Type ℓ} → Option A → Bool
is_some none = false
is_some (some a) = true

-- `error.split(":", 1)[0]`
unfoldable pub before_colon : String → String
before_colon String.[] = ""
before_colon (String.◌∷◌ c s) =
    let rest = before_colon s in if code c == b':' then "" else String.◌∷◌ c rest

unfoldable pub strip_left : String → String
unfolding is_space
strip_left String.[] = ""
strip_left (String.◌∷◌ c s) =
    let rest = strip_left s in if is_space (code c) then rest else String.◌∷◌ c s

unfoldable pub strip_right : String → String
unfolding is_space
strip_right String.[] = ""
strip_right (String.◌∷◌ c s) =
    let rest = strip_right s in if is_space (code c) && rest == "" then "" else String.◌∷◌ c rest

unfoldable pub strip : String → String
unfolding strip_left strip_right
strip s = strip_right (strip_left s)

unfoldable pub has_blank : String → Bool
has_blank String.[] = false
has_blank (String.◌∷◌ c s) = code c == b' ' || has_blank s

unfoldable pub error_name : String → String
unfolding has_blank
error_name head = if not (head == "") && not (has_blank head) then head else "_OTHER"

-- `_error_type`
unfoldable pub error_type : Meta → Option String
unfolding error_name before_colon strip
error_type meta = kind_of (string_of (get meta "error"))
  where
    kind_of : Option String → Option String
    kind_of none = none
    kind_of (some error) = some (error_name (strip (before_colon error)))

-- `is_span_record`
abbrev pub is_span_record : Record → Bool
is_span_record r = equals (get r.meta "kind") "span" && is_string (get r.meta "span_id")
  where
    is_string : Option Value → Bool
    is_string (some (str s)) = true
    is_string _ = false

-- `is_llm_record`
abbrev pub is_llm_record : Record → Bool
is_llm_record r = is_some r.llm

-- `is_tool_record`
abbrev pub is_tool_record : Record → Bool
is_tool_record r = equals (get r.meta "kind") "action" && is_some (string_of (get r.meta "tool"))

-- `attributes[k] = v` for each value that is there, one after the other
unfoldable pub set_all : Meta → List (String × Option Value) → Meta
set_all d [] = d
set_all d ((k, none) ∷ entries) = set_all d entries
set_all d ((k, some v) ∷ entries) = set_all (put d k v) entries

-- what `_common` sets
unfoldable pub common : Convention → Meta → List (String × Option Value)
unfolding error_type
common c meta =
    (c.names conversation_id, str_of (string_of (get meta "thread_id")))
    ∷ (c.names agent_name, str_of (string_of (get meta "agent_name")))
    ∷ ("logquill.run_id", str_of (string_of (get meta "run_id")))
    ∷ ("logquill.node_name", str_of (string_of (get meta "node_name")))
    ∷ ("logquill.retry_count", whole (get meta "retry_count"))
    ∷ ("error.type", str_of (error_type meta))
    ∷ []
  where
    -- an `int` that is no `bool`
    whole : Option Value → Option Value
    whole (some (int n)) = some (int n)
    whole _ = none
