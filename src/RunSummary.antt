-- ===== src/RunSummary.antt =====
-- `RunSummaryPlugin`, `logquill/plugins/run_summary_plugin.py`. Costs and durations are whole
-- millionths. Writing to a transport is an event, as in `TailBuffer`.
pub mod Sums
pub mod Written
pub mod Totals
use logquill_python.Base.{
  ℕ, ◌+◌, String, string_eq, Bool, true, false, not, ◌&&◌, Option, none, some, List, [], ◌∷◌, ◌++◌,
  length, leb, ◌==◌, Result, ok, raise, Error, type_error, key_error, other_error, if◌then◌else◌,
}
use logquill_python.Base.Int.{ℤ, pos, ◌+ℤ◌}
use logquill_python.Dict.{Dict, get, put, remove, has, move_to_end, update}
use logquill_python.Value.{
  Value, str, int, float, Meta, of_entries, present, value_eq, is_hashable, as_int, as_number,
  is_str,
}
use logquill_python.Level.{Level, info, error, reaches, lookup_name}
use logquill_python.Records.{Record, create_record}
use logquill_python.TailBuffer.{write_all}

-- `_RunStats`, whose `_extra` nothing uses
pub record Stats : Type 0 where
  pub tokens_in : ℤ
  pub tokens_out : ℤ
  pub cost : ℤ
  pub tool_calls : ℕ
  pub retries : ℤ
  pub errors : ℕ
  pub record_count : ℕ
  pub root_span_id : Option Value
  pub duration : Option ℤ

abbrev pub no_stats : Stats
no_stats = record {
  tokens_in = pos 0;
  tokens_out = pos 0;
  cost = pos 0;
  tool_calls = 0;
  retries = pos 0;
  errors = 0;
  record_count = 0;
  root_span_id = none;
  duration = none;
}

pub record RunSummary : Type 0 where
  pub run_key : String
  pub logger_name : String
  pub max_runs : ℕ
  pub stats : Dict Value Stats

-- `+=` where there is a number
abbrev pub add_to : ℤ → Option ℤ → ℤ
add_to n none = n
add_to n (some m) = n +ℤ m

abbrev pub is_value : Option Value → String → Bool
is_value (some (str s)) t = s == t
is_value _ t = false

-- `record.get("llm")`, if it is there
abbrev pub llm_of : Option Meta → Meta
llm_of none = []
llm_of (some block) = block

abbrev pub is_root_span : Meta → Bool
is_root_span meta =
    is_value (get meta "kind") "span"
    && is_str (get meta "span_id")
    && not (has meta "parent_span_id")

-- one record more, once its level is known
unfoldable pub add_record : Stats → Record → Level → Stats
add_record s r level = record s {
  tokens_in = add_to s.tokens_in (as_int (get (llm_of r.llm) "tokens_in"));
  tokens_out = add_to s.tokens_out (as_int (get (llm_of r.llm) "tokens_out"));
  cost = add_to s.cost (as_number (get (llm_of r.llm) "cost_usd"));
  tool_calls =
      if is_value (get r.meta "kind") "action" && is_str (get r.meta "tool")
      then s.tool_calls + 1
      else s.tool_calls;
  retries = add_to s.retries (as_int (get r.meta "retry_count"));
  errors = if reaches level error then s.errors + 1 else s.errors;
  record_count = s.record_count + 1;
}

abbrev pub or_old : Option ℤ → Option ℤ → Option ℤ
or_old none old = old
or_old (some n) old = some n

-- what the outermost span adds
abbrev pub with_root : Stats → Meta → Stats
with_root s meta = record s {
  root_span_id = get meta "span_id";
  duration = or_old (as_number (get meta "duration_ms")) s.duration;
}

abbrev pub duration_entry : Option ℤ → Meta
duration_entry none = []
duration_entry (some n) = ("duration_ms", float n) ∷ []

abbrev pub parent_entry : Option Value → Meta
parent_entry none = []
parent_entry (some id) = ("parent_span_id", id) ∷ []

-- `summary_meta`: a dict display, in which a later key replaces an earlier one
unfoldable pub summary_meta : String → Value → Stats → Meta
summary_meta run_key run_id s = update [] (
    ("kind", str "run_summary")
      ∷ (run_key, run_id)
      ∷ ("tokens_in", int s.tokens_in)
      ∷ ("tokens_out", int s.tokens_out)
      ∷ ("cost_usd", float s.cost)
      ∷ ("tool_calls", int (pos s.tool_calls))
      ∷ ("retries", int s.retries)
      ∷ ("errors", int (pos s.errors))
      ∷ ("record_count", int (pos s.record_count))
      ∷ duration_entry s.duration
    ++ parent_entry s.root_span_id)

unfoldable pub summary : RunSummary → String → Value → Stats → Record
unfolding summary_meta
summary p now run_id s =
    create_record now info p.logger_name "run summary" (summary_meta p.run_key run_id s) none

module _ {T : Type 0} (fails : T → Record → Bool) (transports : List T) where
  -- what the hook leaves: what it raised, its writes and the plugin
  abbrev pub Hook : Type 0
  Hook = Option Error × List (T × Record) × RunSummary

  written : RunSummary → List (T × Record) × Bool → Hook
  written p (done, false) = (none, done, p)
  written p (done, true) = (some other_error, done, p)

  -- the totals `s` of the run with the record counted in, in `d`
  count : RunSummary → String → Record → Value → Dict Value Stats → Stats → Hook
  unfolding written
  count p now r run_id d s = elim (lookup_name r.level) [
    | raise e ↦ (
      some e,
      [],
      record p { stats = put d run_id (record s { record_count = s.record_count + 1 }) },
    )
    | ok level ↦
        let s' = add_record s r level in
        if is_root_span r.meta
        then written (record p { stats = remove d run_id })
            (write_all fails transports (summary p now run_id (with_root s' r.meta) ∷ []))
        else (none, [], record p { stats = put d run_id s' })
  ]

  -- a run that has no totals yet; `popitem` raises on an empty dict
  start : RunSummary → String → Record → Value → Dict Value Stats → Hook
  unfolding count
  start p now r run_id [] =
      if leb p.max_runs 0
      then (some key_error, [], p)
      else count p now r run_id (put [] run_id no_stats) no_stats
  start p now r run_id (oldest ∷ rest) =
      let d = if leb p.max_runs (length rest + 1) then rest else oldest ∷ rest in
      count p now r run_id (put d run_id no_stats) no_stats

  of_run : RunSummary → String → Record → Value → Option Stats → Hook
  unfolding start count
  of_run p now r run_id none = start p now r run_id p.stats
  of_run p now r run_id (some s) = count p now r run_id (move_to_end p.stats run_id) s

  -- `after_log` at the time `now`
  unfoldable pub after_log : RunSummary → String → Record → Hook
  unfolding of_run present
  after_log p now r = elim (present (get r.meta p.run_key)) [
    | none ↦ (none, [], p)
    | some run_id ↦
        if is_hashable run_id
        then of_run p now r run_id (get p.stats run_id)
        else (some type_error, [], p)
  ]

  -- records one after the other: what was raised and written, and the plugin at the end
  unfoldable pub run :
      RunSummary → String → List Record → List (Option Error) × List (T × Record) × RunSummary
  unfolding after_log
  run p now [] = ([], [], p)
  run p now (r ∷ rs) =
      let (e, w, p') = after_log p now r in
      let (es, ws, p'') = run p' now rs in (e ∷ es, w ++ ws, p'')
