-- ===== src/Logger/Prepare.antt =====
-- From a call to the record that the plugins see. The interpreter's part is the record `Python`:
-- calling a value, the frames of the caller and of a traceback (`caller_info`, `format_exc_info`).
use logquill_python.Base.{
  ℕ, String, string_eq, Bool, true, false, not, ◌&&◌, Option, none, some, List, [], ◌∷◌, ltb, ◌==◌,
  Result, ok, raise, Error, if◌then◌else◌,
}
use logquill_python.Base.Int.{pos}
use logquill_python.Dict.{get, put, remove, has, set_default, update}
use logquill_python.Value.{Value, bool, int, str, dict, Meta, of_entries, as_str, truthy, value_eq}
use logquill_python.Level.{Level, error, below}
use logquill_python.Records.{Record, create_record}
use logquill_python.Retry.{Tracker, opened, succeeded}
use logquill_python.Toggle.{Rules}
use logquill_python.Privacy.{Policy, apply_content_policy, content_fields}
use logquill_python.Logger.Interface.{PluginOps}

-- what the call reads from its surroundings
pub record Env : Type 0 where
  pub now : String
  pub span_id : Option String
  pub context : Meta
  pub rules : Rules
  pub caller : Option Meta

-- A value that is not callable has no `call`. `format_exc_info` gets the redactor with `diagnose`.
pub record Python (P : Type 0) : Type 0 where
  pub call : Value → Option (Result Value)
  pub lazy_text : Error → String
  pub format_exc_info : Value → Option (String → String → String) → Result (Option String)
  pub to_text : Value → String
  pub hexdigest : String → String

-- one value in `resolve_lazy`
abbrev pub resolved : {P : Type 0} → Python P → Value → Option (Result Value) → Value
resolved py value none = value
resolved py value (some (ok v)) = v
resolved py value (some (raise e)) = str (py.lazy_text e)

unfoldable pub resolve_lazy : {P : Type 0} → Python P → Meta → Meta
resolve_lazy py [] = []
resolve_lazy py ((k, v) ∷ meta) = (k, resolved py v (py.call v)) ∷ resolve_lazy py meta

abbrev pub is_text : Option Value → String → Bool
is_text (some (str s)) t = s == t
is_text _ t = false

abbrev pub with_count : ℕ → Meta → Meta
with_count n meta = if ltb 0 n then set_default meta "retry_count" (int (pos n)) else meta

-- `_track_retries` for a named tool
unfoldable pub track_tool : Option String → Level → Tracker → String → Meta → Tracker × Meta
unfolding opened succeeded set_default get has
track_tool span_id level t tool meta =
    let call_id = as_str (get meta "tool_call_id") in
    if is_text (get meta "kind") "action"
    then (let (n, t') = opened t span_id tool call_id in (t', with_count n meta))
    else if is_text (get meta "kind") "observation" && below level error && not (has meta "error")
    then (succeeded t span_id tool call_id, meta)
    else (t, meta)

unfoldable pub track_retries : Option String → Level → Tracker → Meta → Tracker × Meta
unfolding track_tool get
track_retries span_id level t meta = elim (as_str (get meta "tool")) [
  | none ↦ (t, meta)
  | some tool ↦ if tool == "" then (t, meta) else track_tool span_id level t tool meta
]

with_stack : Meta → Result (Option String) → Meta
with_stack meta (ok (some stack)) = put meta "stack" (str stack)
with_stack meta (ok none) = meta
with_stack meta (raise e) = meta

abbrev pub holds : Option Value → Bool
holds none = false
holds (some v) = truthy v

abbrev pub add_caller : Option Meta → Meta → Meta
add_caller none meta = meta
add_caller (some caller) meta = set_default meta "caller" (dict (of_entries caller))

-- `{**bound_context, **record["meta"]}`, if anything is bound
abbrev pub add_context : Meta → Meta → Meta
add_context [] meta = meta
add_context (x ∷ context) meta = update (x ∷ context) meta

abbrev pub add_parent : Option String → Meta → Meta
add_parent none meta = meta
add_parent (some span_id) meta = set_default meta "parent_span_id" (str span_id)

module _ {P : Type 0} ⦃p : PluginOps P⦄ where
  -- `_local_redactor`: the plugins' hooks in a row, and the mask as soon as one raises
  unfoldable pub redact_all : List P → String → String → String
  redact_all [] name text = text
  redact_all (plugin ∷ plugins) name text = elim (p.redact_local plugin name text) [
    | ok text' ↦ redact_all plugins name text'
    | raise e ↦ "<redaction failed>"
  ]

  -- `exc_info`, popped
  with_exc_info : Python P → List P → Bool → Meta → Option Value → Meta
  unfolding with_stack redact_all
  with_exc_info py plugins diagnose meta none = meta
  with_exc_info py plugins diagnose meta (some exc_info) =
      with_stack (remove meta "exc_info")
        (py.format_exc_info exc_info (if diagnose then some (redact_all plugins) else none))

  -- `diagnose` and `exc_info`
  unfoldable pub add_stack : Python P → List P → Meta → Meta
  unfolding with_exc_info
  add_stack py plugins meta =
      let diagnose = holds (get meta "diagnose") in
      let rest = remove meta "diagnose" in
      let asked = if diagnose then set_default rest "exc_info" (bool true) else rest in
      with_exc_info py plugins diagnose asked (get asked "exc_info")

  -- `meta` before `apply_content_policy`
  unfoldable pub gather : Python P → Env → Tracker → List P → Level → Meta → Bool → Tracker × Meta
  unfolding add_stack track_retries resolve_lazy
  gather py env t plugins level meta lazy =
      let asked = if lazy then resolve_lazy py meta else meta in
      let (t', tracked) = track_retries env.span_id level t asked in
      let full = add_stack py plugins (add_caller env.caller tracked) in
      (t', add_parent env.span_id (add_context env.context full))

  -- `_log` up to the plugins
  unfoldable pub prepare :
      Python P
      → Env
      → Tracker
      → List P
      → Policy
      → String
      → Level
      → String
      → Meta
      → Bool
      → Option Meta
      → Tracker × Record
  unfolding gather
  prepare py env t plugins policy name level message meta lazy llm =
      let (t', gathered) = gather py env t plugins level meta lazy in
      (
        t',
        create_record env.now level name message
            (apply_content_policy py.to_text py.hexdigest policy content_fields gathered) llm,
      )
