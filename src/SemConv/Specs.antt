-- ===== src/SemConv/Specs.antt =====
-- The spans and attributes of records, `logquill/tracing/semconv.py`.
use logquill_python.Base.{
  nat_eq, String, string_eq, Bool, true, false, ◌||◌, Option, none, some, List, [], ◌∷◌, ◌++◌, ◌==◌,
  Result, ok, raise, key_error, if◌then◌else◌,
}
use Prim.Native.String.{◌++◌ as ◌++ₛ◌}
use logquill_python.Dict.{get}
use logquill_python.Value.{Value, str, dict, Meta, as_number}
use logquill_python.Records.{Record}
use logquill_python.SemConv.{
  Convention, SpanSpec, string_of, int_of, float_of, str_of, list_of, or_string, equals, is_some,
  error_type, set_all, common, operation, provider, request_model, response_model, input_tokens,
  output_tokens, finish_reasons, agent_name, agent_id, tool_name, tool_call_id, input_messages,
  output_messages, client, internal,
}

abbrev pub llm_of : Option Meta → Meta
llm_of none = []
llm_of (some block) = block

abbrev pub is_failure : String → Bool
is_failure level = level == "ERROR" || level == "FATAL"

-- what an `llm` block tells of the call, in spans and in log records
unfoldable pub usage : Convention → Meta → List (String × Option Value)
usage c llm =
    (c.names input_tokens, int_of (get llm "tokens_in"))
    ∷ (c.names output_tokens, int_of (get llm "tokens_out"))
    ∷ (c.names finish_reasons, list_of (string_of (get llm "finish_reason")))
    ∷ ("logquill.cost_usd", float_of (get llm "cost_usd"))
    ∷ []

-- the attributes of a log record; none without an `llm` block
unfoldable pub log_entries : Convention → Option Meta → List (String × Option Value)
unfolding usage
log_entries c none = []
log_entries c (some llm) =
    (c.names operation, some (str "chat"))
    ∷ (c.names request_model, str_of (string_of (get llm "model")))
    ∷ usage c llm

-- `log_attributes`
unfoldable pub log_attributes : Record → Convention → Meta
unfolding set_all log_entries
log_attributes r c = set_all [] (log_entries c r.llm)

-- `f"{operation} {of}"`
abbrev pub named : String → Option String → String
named op none = op
named op (some of) = op ++ₛ " " ++ₛ of

module _ (json : Value → String) where
  -- `_events`
  unfoldable pub events_of : Meta → List (String × Meta)
  events_of meta = of_diff (get meta "state_diff")
    where
      of_diff : Option Value → List (String × Meta)
      of_diff (some (dict diff)) =
          ("logquill.state_diff", ("logquill.state", str (json (dict diff))) ∷ []) ∷ []
      of_diff _ = []

  -- prompts and completions
  abbrev pub message : Option Value → Option Value
  message none = none
  message (some Value.null) = none
  message (some v) = some (str (json v))

  unfoldable pub messages : Convention → Meta → Bool → List (String × Option Value)
  messages c meta false = []
  messages c meta true =
      (c.names input_messages, message (get meta "input_messages"))
      ∷ (c.names output_messages, message (get meta "output_messages"))
      ∷ []

  abbrev pub llm_operation : Meta → String
  llm_operation meta =
      if equals (get meta "operation") "text_completion" then "text_completion" else "chat"

  -- the attributes of an inference span, in the order in which they are set
  unfoldable pub llm_entries : Record → Convention → String → Bool → List (String × Option Value)
  unfolding messages usage common
  llm_entries r c default_provider capture_content =
      (c.names operation, some (str (llm_operation r.meta)))
        ∷ (
          c.names provider,
          some (str (or_string (string_of (get r.meta "provider")) default_provider)),
        )
        ∷ (c.names request_model, str_of (string_of (get (llm_of r.llm) "model")))
        ∷ (c.names response_model, str_of (string_of (get r.meta "response_model")))
        ∷ usage c (llm_of r.llm)
      ++ messages c r.meta capture_content
      ++ common c r.meta

  -- `llm_spec`
  unfoldable pub llm_spec : Record → Convention → String → Bool → SpanSpec
  unfolding set_all llm_entries error_type events_of
  llm_spec r c default_provider capture_content =
      let llm = llm_of r.llm in
      record {
        name = named (llm_operation r.meta) (string_of (get llm "model"));
        kind = client;
        attributes = set_all [] (llm_entries r c default_provider capture_content);
        duration_ms = as_number (get llm "latency_ms");
        is_error = is_some (error_type r.meta) || is_failure r.level;
        events = events_of r.meta;
      }

  -- the attributes of a tool call
  unfoldable pub tool_entries : Record → Convention → String → List (String × Option Value)
  unfolding common
  tool_entries r c tool =
      (c.names operation, some (str "execute_tool"))
      ∷ (c.names tool_name, some (str tool))
      ∷ (c.names tool_call_id, str_of (string_of (get r.meta "tool_call_id")))
      ∷ common c r.meta

  -- `tool_spec`; `meta["tool"]` raises if it is not there
  unfoldable pub tool_spec : (Value → String) → Record → Convention → Result SpanSpec
  unfolding set_all tool_entries error_type events_of
  tool_spec to_text r c = of_tool (get r.meta "tool")
    where
      of_tool : Option Value → Result SpanSpec
      of_tool none = raise key_error
      of_tool (some tool) = ok (record {
        name = named "execute_tool" (some (to_text tool));
        kind = internal;
        attributes = set_all [] (tool_entries r c (to_text tool));
        duration_ms = as_number (get r.meta "duration_ms");
        is_error = is_some (error_type r.meta);
        events = events_of r.meta;
      })

  abbrev pub is_agent_run : Meta → Bool
  is_agent_run meta =
      equals (get meta "operation") "invoke_agent" || is_some (string_of (get meta "agent_name"))

  abbrev pub agent_of : Record → String
  agent_of r = or_string (string_of (get r.meta "agent_name")) r.logger

  -- what an agent run sets besides
  abbrev pub agent_entries : Record → Convention → String → Bool → List (String × Option Value)
  agent_entries r c default_provider false = []
  agent_entries r c default_provider true =
      (c.names operation, some (str "invoke_agent"))
      ∷ (
        c.names provider,
        some (str (or_string (string_of (get r.meta "provider")) default_provider)),
      )
      ∷ (c.names agent_name, some (str (agent_of r)))
      ∷ (c.names agent_id, str_of (string_of (get r.meta "agent_id")))
      ∷ []

  -- `span_spec`
  unfoldable pub span_spec : Record → Convention → String → SpanSpec
  unfolding set_all common events_of
  span_spec r c default_provider =
      let agent = is_agent_run r.meta in
      record {
        name = if agent then named "invoke_agent" (some (agent_of r)) else r.message;
        kind = if agent then client else internal;
        attributes =
            set_all []
              (common c r.meta ++ agent_entries r c default_provider (is_agent_run r.meta));
        duration_ms = as_number (get r.meta "duration_ms");
        is_error = is_failure r.level;
        events = events_of r.meta;
      }
