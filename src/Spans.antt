-- ===== src/Spans.antt =====
-- Spans and bound context: `logquill/tracing/span.py`, `logquill/core/context.py` and `Logger.span` of
-- `logquill/core/logger.py`. A program is a block of calls; the two context variables are state, and
-- what a block wrote before it is a list of the `meta`s that `_log` makes. Durations, in millionths,
-- and what a snapshot shows are given with the span. The level of the logger lets every record pass.
-- `_log` also adds what a retry, the caller and an exception put into `meta`: the `meta` of a call is the one
-- after these steps.
pub mod Scope
pub mod Metas
pub mod Ordered
pub mod Events
pub mod Documented
use logquill_python.Base.{
  String, string_eq, Bool, true, false, Option, none, some, List, [], ◌∷◌, ◌++◌, ◌==◌,
  if◌then◌else◌,
}
use logquill_python.Base.Int.{ℤ}
use logquill_python.Dict.{put, set_default, update}
use logquill_python.Value.{Value, str, float, Meta}
use logquill_python.Logger.Prepare.{add_context, add_parent}

-- `_current_span_id` and `_current_context`
pub record Vars : Type 0 where
  pub span_id : Option String
  pub context : Option Meta

-- `current_context`
abbrev pub current_context : Vars → Meta
current_context vars = elim vars.context [ none ↦ [] | some context ↦ context ]

-- `SpanContext`, entered and left
pub record Span : Type 0 where
  pub span_id : String
  pub explicit_parent : Option String
  pub meta : Meta
  pub duration : ℤ
  pub state_diff : Option Value

-- `self._span_id = span_id or new_span_id()`
unfoldable pub span_id_of : Option String → String → String
span_id_of none fresh = fresh
span_id_of (some given) fresh = if given == "" then fresh else given

abbrev pub put_some : String → Option Value → Meta → Meta
put_some key none meta = meta
put_some key (some value) meta = put meta key value

abbrev pub default_some : String → Option Value → Meta → Meta
default_some key none meta = meta
default_some key (some value) meta = set_default meta key value

abbrev pub as_value : Option String → Option Value
as_value none = none
as_value (some s) = some (str s)

-- the `meta` that `__exit__` hands to `_log`, with the text of what the block raised
unfoldable pub span_meta : Span → Option String → Meta
span_meta span raised = put_some "error" (as_value raised) (
    default_some "state_diff" span.state_diff (
      set_default
        (put_some "parent_span_id" (as_value span.explicit_parent) (
          update (("span_id", str span.span_id) ∷ ("duration_ms", float span.duration) ∷ [])
            span.meta))
        "kind" (str "span")))

-- what `_log` makes of a `meta` before the content policy and the plugins
unfoldable pub written : Vars → Meta → Meta
written vars meta = add_parent vars.span_id (add_context (current_context vars) meta)

-- `__enter__`: the token that it keeps, and the variables after it
unfoldable pub enter : Vars → Span → Option String × Vars
enter vars span = (vars.span_id, record vars { span_id = some span.span_id })

-- `_current_span_id.reset(token)`
unfoldable pub leave : Vars → Option String → Vars
leave vars token = record vars { span_id = token }

-- the start of `bind_context`, with its token
unfoldable pub bind : Vars → Meta → Option Meta × Vars
bind vars values =
    (vars.context, record vars { context = some (update (current_context vars) values) })

-- its `finally`
unfoldable pub unbind : Vars → Option Meta → Vars
unbind vars token = record vars { context = token }

mutual
  -- a call of a logger, a `with` of a span or of a context, an exception, and a `try` that catches
  pub data Block : Type 0 where
    logs : Meta → Block
    spans : Span → Blocks → Block
    binds : Meta → Blocks → Block
    throws : String → Block
    catches : Blocks → Block

  pub data Blocks : Type 0 where
    done : Blocks
    next : Block → Blocks → Blocks

pub record Outcome : Type 0 where
  pub vars : Vars
  pub records : List Meta
  pub raised : Option String

-- the end of a `with` of a span: reset, then one record
unfoldable pub exit_span : Span → Option String → Outcome → Outcome
unfolding leave written span_meta
exit_span span token inner =
    let outer = leave inner.vars token in
    record {
      vars = outer;
      records = inner.records ++ written outer (span_meta span inner.raised) ∷ [];
      raised = inner.raised;
    }

unfoldable pub exit_bind : Option Meta → Outcome → Outcome
unfolding unbind
exit_bind token inner = record inner { vars = unbind inner.vars token }

-- the rest of a block runs unless an exception is on its way
abbrev pub followed_by : Outcome → (Vars → Outcome) → Outcome
followed_by first rest = elim first.raised [
  | none ↦
      let second = rest first.vars in
      record {
        vars = second.vars;
        records = first.records ++ second.records;
        raised = second.raised;
      }
  | some error ↦ first
]

unfoldable mutual
  unfolding enter bind exit_span exit_bind written

  pub run : Block → Vars → Outcome
  run (logs meta) vars = record { vars = vars; records = written vars meta ∷ []; raised = none }
  run (spans span body) vars =
      let (token, inside) = enter vars span in exit_span span token (run_all body inside)
  run (binds values body) vars =
      let (token, inside) = bind vars values in exit_bind token (run_all body inside)
  run (throws error) vars = record { vars = vars; records = []; raised = some error }
  run (catches body) vars = record (run_all body vars) { raised = none }

  pub run_all : Blocks → Vars → Outcome
  run_all done vars = record { vars = vars; records = []; raised = none }
  run_all (next block rest) vars = followed_by (run block vars) (run_all rest)
