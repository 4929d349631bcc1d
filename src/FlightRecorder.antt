-- ===== src/FlightRecorder.antt =====
-- `FlightRecorderPlugin`, `logquill/plugins/flight_recorder_plugin.py`. The buffer is `TailBuffer`.
pub mod Ships
use logquill_python.Base.{
  String, string_eq, Bool, true, false, Option, none, some, List, [], ◌∷◌, ◌++◌, Result, ok, raise,
  Error, type_error, other_error, if◌then◌else◌,
}
use logquill_python.Dict.{get, has}
use logquill_python.Value.{Value, present, value_eq, is_hashable}
use logquill_python.Level.{Level, reaches, lookup_name}
use logquill_python.Records.{Record}
use logquill_python.TailBuffer.{TailBuffer, buffer_record, take_run, write_all}

-- What a `before_log` hook does with a record: hand on the record, drop it, or raise.
pub data Decision : Type 0 where
  pass drop : Decision
  fail : Error → Decision

pub record FlightRecorder : Type 0 where
  pub run_key : String
  pub ship_at : Level
  pub flush_at : Level
  pub tail : TailBuffer Value

module _ {T : Type 0} (fails : T → Record → Bool) (transports : List T) where
  -- what a hook leaves: its decision, the writes that it made, and the plugin
  abbrev pub Hook : Type 0
  Hook = Decision × List (T × Record) × FlightRecorder

  written : FlightRecorder → List (T × Record) × Bool → Hook
  written p (done, false) = (pass, done, p)
  written p (done, true) = (fail other_error, done, p)

  -- `self._flush(run_id); return record`
  flush : FlightRecorder → Value → Hook
  unfolding written
  flush p run_id =
      let (buffered, tail) = take_run p.tail run_id in
      written (record p { tail = tail }) (write_all fails transports buffered)

  keep : FlightRecorder → Value → Record → Hook
  keep p run_id r = elim (buffer_record p.tail run_id r) [
    | ok tail ↦ (drop, [], record p { tail = tail })
    | raise e ↦ (fail e, [], p)
  ]

  at_level : FlightRecorder → Value → Record → Level → Hook
  unfolding flush keep
  at_level p run_id r level =
      if reaches level p.flush_at
      then flush p run_id
      else if reaches level p.ship_at
      then (pass, [], p)
      else keep p run_id r

  of_run : FlightRecorder → Value → Record → Hook
  unfolding at_level
  of_run p run_id r =
      if has p.tail.flushed run_id then (pass, [], p) else elim (lookup_name r.level) [
        | ok level ↦ at_level p run_id r level
        | raise e ↦ (fail e, [], p)
      ]

  unfoldable pub before_log : FlightRecorder → Record → Hook
  unfolding of_run present
  before_log p r = elim (present (get r.meta p.run_key)) [
    | none ↦ (pass, [], p)
    | some run_id ↦ if is_hashable run_id then of_run p run_id r else (fail type_error, [], p)
  ]

  -- records one after the other: the decisions, all writes, and the plugin at the end
  unfoldable pub run :
      FlightRecorder → List Record → List Decision × List (T × Record) × FlightRecorder
  run p [] = ([], [], p)
  run p (r ∷ rs) =
      let (d, w, p') = before_log p r in let (ds, ws, p'') = run p' rs in (d ∷ ds, w ++ ws, p'')
