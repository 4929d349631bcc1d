-- ===== src/Tests/Buffers.antt =====
-- Runs of the flight recorder and of sampling, with one transport that never fails.
use logquill_python.Base.{
  beq_self, ℕ, String, string_eq, Bool, true, false, none, some, List, [], ◌∷◌, ◌++◌, ◌≡◌, refl,
  arith, ok, map, inr,
}
use logquill_python.Dict.{get, has}
use logquill_python.Value.{Value, str, present, value_eq}
use logquill_python.Level.{debug, info, warn, error, lookup_name}
use logquill_python.Records.{Record}
use logquill_python.TailBuffer.{TailBuffer}
use logquill_python.TailBuffer.Bounds.{IsValid}
use logquill_python.TailBuffer.Trail.{HasRoom, trail, pairs}
use logquill_python.FlightRecorder.{FlightRecorder, Decision, pass, drop, fail}
use logquill_python.FlightRecorder
use logquill_python.FlightRecorder.Ships.{run-ships_trail}
use logquill_python.Sampling.{Sampling}
use logquill_python.Sampling
use logquill_python.Sampling.Elevation.{missed, verdict, run-elevates}

abbrev sink : String
sink = "sink"

abbrev works : String → Record → Bool
works t r = false

abbrev of_run : String → String → Record
of_run level message = record {
  schema_version = "2.0";
  timestamp = "2026-01-01T00:00:00+00:00";
  level = level;
  logger = "app";
  message = message;
  meta = ("run_id", str "r1") ∷ [];
  llm = none;
}

abbrev r1 : Value
r1 = str "r1"

abbrev empty_tail : TailBuffer Value
empty_tail = record {
  max_buffered_records = 10;
  max_runs = 2;
  buffer = [];
  buffered_count = 0;
  flushed = [];
}

abbrev recorder : FlightRecorder
recorder = record { run_key = "run_id"; ship_at = warn; flush_at = error; tail = empty_tail }

of_r1 : (level message : String) → present (get (of_run level message).meta "run_id") ≡ some r1
unfolding present get
of_r1 level message = refl

new_run : has empty_tail.flushed r1 ≡ false
unfolding has get
new_run = refl

no_trail : trail r1 empty_tail ≡ []
unfolding get
no_trail = refl

room : HasRoom r1 2 empty_tail
room = record { runs = inr (omega arith); records = omega arith }

debug_known : lookup_name "DEBUG" ≡ ok debug
unfolding lookup_name
debug_known = refl

info_known : lookup_name "INFO" ≡ ok info
unfolding lookup_name
info_known = refl

error_known : lookup_name "ERROR" ≡ ok error
unfolding lookup_name
error_known = refl

abbrev low_records : List Record
low_records = of_run "DEBUG" "a" ∷ of_run "INFO" "b" ∷ []

run-ships_trail_example :
    (p' : FlightRecorder) × (FlightRecorder.run works
        (sink ∷ [])
        recorder
        (low_records ++ of_run "ERROR" "c" ∷ [])
      ≡ (map (λ _. drop) low_records ++ pass ∷ [], pairs (sink ∷ []) low_records, p'))
    × (has p'.tail.flushed r1 ≡ true)
run-ships_trail_example =
    run-ships_trail works (sink ∷ []) (λ t r. refl) recorder r1 low_records (of_run "ERROR" "c")
      refl new_run no_trail room
      (
        (of_r1 "DEBUG" "a", (debug, debug_known, refl, refl)),
        ((of_r1 "INFO" "b", (info, info_known, refl, refl)), tt),
      )
      (of_r1 "ERROR" "c", (error, error_known, refl))

empty_tail-IsValid : IsValid empty_tail
empty_tail-IsValid = record {
  distinct = tt;
  counted = refl;
  runs = omega arith;
  records = omega arith;
}

abbrev sampling : Sampling String
sampling = record {
  rate = 500_000;
  trace_key = "run_id";
  elevate_at = error;
  transports = some (sink ∷ []);
  tail = empty_tail;
}

abbrev drawn : List (Record × ℕ)
drawn = (of_run "DEBUG" "a", 900_000) ∷ (of_run "INFO" "b", 100_000) ∷ []

run-elevates_example :
    (p' : Sampling String) × (Sampling.run works sampling
        (drawn ++ (of_run "ERROR" "c", 999_999) ∷ [])
      ≡ (
        map (verdict works (sink ∷ []) r1 sampling) drawn ++ pass ∷ [],
        pairs (sink ∷ []) (missed works (sink ∷ []) r1 500_000 drawn),
        p',
      ))
    × (has p'.tail.flushed r1 ≡ true)
run-elevates_example =
    run-elevates works (sink ∷ []) r1 (λ t r. refl) sampling drawn (of_run "ERROR" "c") 999_999
      (refl, refl, new_run) no_trail (record { runs = inr (omega arith); records = omega arith })
      (
        (of_r1 "DEBUG" "a", (debug, debug_known, refl)),
        ((of_r1 "INFO" "b", (info, info_known, refl)), tt),
      )
      (of_r1 "ERROR" "c", (error, error_known, refl))

abbrev after_flush : FlightRecorder
after_flush = record recorder { tail = record empty_tail { flushed = (r1, tt) ∷ [] } }

r1_flushed : has after_flush.tail.flushed r1 ≡ true
unfolding has get
r1_flushed = rw (beq_self r1, has) refl
