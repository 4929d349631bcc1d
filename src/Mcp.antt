-- ===== src/Mcp.antt =====
-- Trace context over requests, `logquill/tracing/mcp.py`. What `generate_trace_id()` returns is given
-- with the call, and what is done inside `inbound` is a program of Spans.
pub mod Carries
use logquill_python.Base.{
  ℕ, zero, suc, String, string_eq, Bool, true, false, Option, none, some, [], ◌∷◌, ◌++◌,
}
use Prim.Native.String.{◌++◌ as ◌++ₛ◌}
use logquill_python.Base.Text.{codes}
use logquill_python.Dict.{Dict, get, put}
use logquill_python.Value.{Value, str, dict, Meta, of_entries}
use logquill_python.SemConv.{string_of, str_of, or_string}
use logquill_python.TraceContext.{Text, set_traceparent, reset_traceparent}
use logquill_python.Spans.{Vars, Blocks, binds, Outcome, run, put_some}

abbrev pub traceparent_key : String
traceparent_key = "logquill/traceparent"

abbrev pub run_id_key : String
run_id_key = "logquill/run-id"

-- `s[:n]`
unfoldable pub take_string : ℕ → String → String
take_string zero s = ""
take_string (suc n) String.[] = ""
take_string (suc n) (String.◌∷◌ c s) = String.◌∷◌ c (take_string n s)

-- an argument that is given and not empty
abbrev pub non_empty : Option String → Option String
non_empty none = none
non_empty (some s) = string_of (some (str s))

-- `f"00-{trace_id}-{span_id}-01"`
abbrev pub header_text : String → String → String
header_text trace_id span_id = "00-" ++ₛ trace_id ++ₛ "-" ++ₛ span_id ++ₛ "-01"

-- `propagate`, with the two fresh ids, the first of which the span's is cut from
unfoldable pub propagate : Option String → Option String → String → String → Meta
unfolding take_string put
propagate trace_id run_id fresh_span fresh_trace = put_some run_id_key (str_of (non_empty run_id)) (
    (
      traceparent_key,
      str (header_text (or_string (non_empty trace_id) fresh_trace) (take_string 16 fresh_span)),
    )
    ∷ [])

-- the header that a request's `_meta` carries, if it is a text
abbrev pub header_in : Option Value → Option Text
header_in (some (str s)) = some (codes s)
header_in _ = none

abbrev pub or_empty : Option Meta → Meta
or_empty none = []
or_empty (some meta) = meta

-- `mcp_context`
unfoldable pub mcp_context : String → String → Option Value → Meta
unfolding put
mcp_context server tool run_id =
    put_some "run_id" (str_of (string_of run_id)) (("server", str server) ∷ ("tool", str tool) ∷ [])

-- the bound header inside the block and after it, and what the block does
pub record Call : Type 0 where
  pub inside : Option Text
  pub outcome : Outcome
  pub after : Option Text

-- `inbound` around a block, from the bound header and the context variables before it
unfoldable pub inbound : Option Text → Vars → Option Meta → String → String → Blocks → Call
unfolding get mcp_context set_traceparent reset_traceparent run
inbound bound vars meta server tool body =
    let (token, inside) = set_traceparent bound (header_in (get (or_empty meta) traceparent_key)) in
    record {
      inside = inside;
      outcome =
          run
            (binds
              (("mcp", dict (of_entries (mcp_context server tool (get (or_empty meta) run_id_key))))
                ∷ [])
              body)
            vars;
      after = reset_traceparent inside token;
    }
