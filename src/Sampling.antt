-- ===== src/Sampling.antt =====
-- `SamplingPlugin`, `logquill/plugins/sampling_plugin.py`. The draw of `rng()` is an argument; the
-- rate and the draws are whole millionths of 1. The buffer is `TailBuffer`.
pub mod Bounds
pub mod Elevation
use logquill_python.Base.{
  ℕ, String, string_eq, Bool, true, false, Option, none, some, List, [], ◌∷◌, ◌++◌, ltb, leb,
  Result, ok, raise, Error, type_error, other_error, value_error, if◌then◌else◌,
}
use logquill_python.Dict.{get, has}
use logquill_python.Value.{Value, present, value_eq, is_hashable}
use logquill_python.Level.{Level, reaches, lookup_name}
use logquill_python.Records.{Record}
use logquill_python.TailBuffer.{TailBuffer, buffer_record, take_run, write_all}
use logquill_python.FlightRecorder.{Decision, pass, drop, fail}

pub record Sampling (T : Type 0) : Type 0 where
  pub rate : ℕ
  pub trace_key : String
  pub elevate_at : Level
  pub transports : Option (List T)
  pub tail : TailBuffer Value

-- the constructor's test of `rate`
unfoldable pub new :
    {T : Type 0} → ℕ → String → Level → Option (List T) → ℕ → ℕ → Result (Sampling T)
new rate trace_key elevate_at transports max_buffered_records max_traces =
    if leb rate 1_000_000
    then ok (record {
      rate = rate;
      trace_key = trace_key;
      elevate_at = elevate_at;
      transports = transports;
      tail = record {
        max_buffered_records = max_buffered_records;
        max_runs = max_traces;
        buffer = [];
        buffered_count = 0;
        flushed = [];
      };
    })
    else raise value_error

-- `keep`
abbrev pub keeps : {T : Type 0} → Sampling T → ℕ → Bool
keeps p draw = ltb draw p.rate

module _ {T : Type 0} (fails : T → Record → Bool) where
  abbrev pub Hook : Type 0
  Hook = Decision × List (T × Record) × Sampling T

  written : Sampling T → List (T × Record) × Bool → Hook
  written p (done, false) = (pass, done, p)
  written p (done, true) = (fail other_error, done, p)

  -- `self._elevate(trace_id, transports); return record`
  elevate : Sampling T → List T → Value → Hook
  unfolding written
  elevate p transports trace_id =
      let (buffered, tail) = take_run p.tail trace_id in
      written (record p { tail = tail }) (write_all fails transports buffered)

  hold : Sampling T → Value → Record → Hook
  hold p trace_id r = elim (buffer_record p.tail trace_id r) [
    | ok tail ↦ (drop, [], record p { tail = tail })
    | raise e ↦ (fail e, [], p)
  ]

  -- no trace, or no transports: the rate alone; the level is read all the same
  untraced : Sampling T → Record → ℕ → Hook
  untraced p r draw = elim (lookup_name r.level) [
    | raise e ↦ (fail e, [], p)
    | ok _ ↦ if keeps p draw then (pass, [], p) else (drop, [], p)
  ]

  sample : Sampling T → List T → Value → Record → ℕ → Hook
  unfolding elevate hold
  sample p transports trace_id r draw = elim (lookup_name r.level) [
    | raise e ↦ (fail e, [], p)
    | ok level ↦
        if reaches level p.elevate_at
        then elevate p transports trace_id
        else if keeps p draw
        then (pass, [], p)
        else hold p trace_id r
  ]

  of_trace : Sampling T → List T → Value → Record → ℕ → Hook
  unfolding sample
  of_trace p transports trace_id r draw =
      if has p.tail.flushed trace_id then (pass, [], p) else sample p transports trace_id r draw

  traced : Sampling T → List T → Record → ℕ → Hook
  unfolding untraced of_trace present
  traced p transports r draw = elim (present (get r.meta p.trace_key)) [
    | none ↦ untraced p r draw
    | some trace_id ↦
        if is_hashable trace_id
        then of_trace p transports trace_id r draw
        else (fail type_error, [], p)
  ]

  -- the two modes: without `transports` and with them
  choose : Option (List T) → Sampling T → Record → ℕ → Hook
  choose none p r draw = untraced p r draw
  choose (some transports) p r draw = traced p transports r draw

  unfoldable pub before_log : Sampling T → Record → ℕ → Hook
  unfolding untraced traced choose
  before_log p r draw = choose p.transports p r draw

  -- records, each with its draw: the decisions, all writes, and the plugin at the end
  unfoldable pub run :
      Sampling T → List (Record × ℕ) → List Decision × List (T × Record) × Sampling T
  run p [] = ([], [], p)
  run p ((r, draw) ∷ rs) =
      let (d, w, p') = before_log p r draw in
      let (ds, ws, p'') = run p' rs in (d ∷ ds, w ++ ws, p'')
