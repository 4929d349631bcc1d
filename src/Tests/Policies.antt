-- ===== src/Tests/Policies.antt =====
-- Adaptive sampling, views, watched levels and trace headers, each at one input.
use logquill_python.Base.{
  string_eq, ◌+◌, ◌≤◌, none, some, List, [], ◌∷◌, ◌++◌, ◌≡◌, refl, arith, All-append,
}
use logquill_python.Base.Int.{pos}
use logquill_python.Base.Text.{codes}
use logquill_python.Level.{error}
use logquill_python.Records.{Record}
use logquill_python.Value.{Meta}
use logquill_python.Spans.{Vars, done, next, logs}
use logquill_python.Mcp.{Call as ServerCall, propagate, inbound}
use logquill_python.Adaptive.{Adaptive, Call, run}
use logquill_python.Adaptive.Budget.{IsValid, total_size, run-in_budget}
use logquill_python.TraceContext.{Text, is_hex, parse_trace_header, resolve_trace_id}
use logquill_python.TraceContext.Ids.{
  IsHex, IsHexText, traceparent, resolve_trace_id-IsHexText, parse_trace_header-traceparent,
}

abbrev plugin : Adaptive
plugin = record {
  rate = 100_000;
  min_rate = 10_000;
  max_rate = 1_000_000;
  keep_at = error;
  slow_ms = pos 1_000_000_000;
  max_bytes = 100;
  window = 1_000_000;
  window_start = 0;
  demand_bytes = 0;
  emitted_bytes = 0;
}

plugin-IsValid : IsValid plugin
plugin-IsValid = record {
  above = omega arith;
  below = omega arith;
  in_budget = omega arith;
  in_demand = omega arith;
}

abbrev entry : Record
entry = record {
  schema_version = "2.0";
  timestamp = "t";
  level = "INFO";
  logger = "app";
  message = "m";
  meta = [];
  llm = none;
}

abbrev calls : List (Call × Record)
calls =
    (record { now = 5; draw = 0; size = 60 }, entry)
    ∷ (record { now = 6; draw = 0; size = 60 }, entry)
    ∷ []

run-in_budget_example : plugin.emitted_bytes + total_size (run plugin calls).1 ≤ plugin.max_bytes
run-in_budget_example = run-in_budget plugin calls plugin-IsValid (omega arith, (omega arith, tt))

abbrev sixteen : Text
sixteen = codes "0123456789abcdef"

sixteen-IsHexText : IsHexText 16 sixteen
unfolding is_hex
sixteen-IsHexText = (
  refl,
  (
    refl,
    (
      refl,
      (
        refl,
        (
          refl,
          (
            refl,
            (
              refl,
              (refl, (refl, (refl, (refl, (refl, (refl, (refl, (refl, (refl, (refl, tt)))))))))),
            ),
          ),
        ),
      ),
    ),
  ),
)

abbrev id : Text
id = sixteen ++ sixteen

id-IsHexText : IsHexText 32 id
unfolding is_hex
id-IsHexText = (refl, All-append IsHex sixteen sixteen sixteen-IsHexText.1 sixteen-IsHexText.1)

two-IsHexText : IsHexText 2 (codes "0f")
unfolding is_hex
two-IsHexText = (refl, (refl, (refl, tt)))

resolve_trace_id-IsHexText_example :
    IsHexText 32 (resolve_trace_id none (some (codes "Root=1-x")) none id)
resolve_trace_id-IsHexText_example =
    resolve_trace_id-IsHexText none (some (codes "Root=1-x")) none id tt id-IsHexText

parse_trace_header-traceparent_example :
    parse_trace_header (traceparent (codes "0f") id sixteen (codes "0f")) ≡ some id
parse_trace_header-traceparent_example =
    parse_trace_header-traceparent (codes "0f") id sixteen (codes "0f") two-IsHexText id-IsHexText
      sixteen-IsHexText two-IsHexText

abbrev before_call : Vars
before_call = record { span_id = none; context = none }

abbrev request : Meta
request =
    propagate (some "0123456789abcdef0123456789abcdef") (some "run")
      "0123456789abcdef0123456789abcdef" ""

abbrev first_call : ServerCall
first_call = inbound none before_call (some request) "server" "tool" (next (logs []) done)

abbrev empty_call : ServerCall
empty_call = inbound none before_call (some request) "server" "tool" done
