-- ===== src/Alerting.antt =====
-- `AlertingPlugin`, `logquill/plugins/alerting_plugin.py`. Its lock makes each method one step; a
-- timer is the later step `flush`, and `send_alert` on its thread is what the step puts out.
pub mod Bounds
use logquill_python.Base.{
  ℕ, ◌+◌, String, string_eq, Bool, true, false, ◌||◌, Option, none, some, List, [], ◌∷◌, ◌++◌,
  length, leb, Result, ok, raise, Error, if◌then◌else◌,
}
use logquill_python.Dict.{Dict, get, put, remove}
use logquill_python.Level.{Level, below, lookup_name}
use logquill_python.Records.{Record}

-- `_Window`, without its timer
pub record WindowOf : Type 0 where
  pub entry : Record
  pub count : ℕ

pub record Alerting : Type 0 where
  pub threshold : Level
  pub max_tracked_keys : ℕ
  pub windows : Dict String WindowOf

-- a call of `send_alert(record, occurrences)`
abbrev pub Alert : Type 0
Alert = Record × ℕ

unfoldable pub new : Level → ℕ → Alerting
new threshold max_tracked_keys = record {
  threshold = threshold;
  max_tracked_keys = max_tracked_keys;
  windows = [];
}

-- under the lock, for a key with this window
by_window : Alerting → String → Record → Option WindowOf → Alerting × List Alert
by_window a key r (some window) =
    (record a { windows = put a.windows key (record window { count = window.count + 1 }) }, [])
by_window a key r none =
    if leb a.max_tracked_keys (length a.windows)
    then (a, [])
    else (record a { windows = put a.windows key (record { entry = r; count = 1 }) }, (r, 1) ∷ [])

-- `after_log` at or above the threshold; `_dedupe_key`, which can be given, may raise
at_threshold : Alerting → Record → Result String → Result (Alerting × List Alert)
unfolding by_window
at_threshold a r (ok key) = ok (by_window a key r (get a.windows key))
at_threshold a r (raise e) = raise e

unfoldable pub after_log :
    (Record → Result String) → Alerting → Record → Result (Alerting × List Alert)
unfolding at_threshold
after_log dedupe_key a r = elim (lookup_name r.level) [
  | ok level ↦ if below level a.threshold then ok (a, []) else at_threshold a r (dedupe_key r)
  | raise e ↦ raise e
]

follow_up : Option WindowOf → List Alert
follow_up none = []
follow_up (some window) = if leb window.count 1 then [] else (window.entry, window.count) ∷ []

-- `_flush`, when the key's timer ends
unfoldable pub flush : Alerting → String → Alerting × List Alert
unfolding follow_up
flush a key = (record a { windows = remove a.windows key }, follow_up (get a.windows key))

unfoldable pub close : Alerting → Alerting
close a = record a { windows = [] }

pub data Event : Type 0 where
  logged : Record → Event
  timer_ended : String → Event
  closing : Event

-- what a raised exception leaves
abbrev pub or_same : Alerting → Result (Alerting × List Alert) → Alerting × List Alert
or_same a (ok left) = left
or_same a (raise e) = (a, [])

unfoldable pub step : (Record → Result String) → Alerting → Event → Alerting × List Alert
unfolding after_log flush close
step dedupe_key a (logged r) = or_same a (after_log dedupe_key a r)
step dedupe_key a (timer_ended key) = flush a key
step dedupe_key a closing = (close a, [])

unfoldable pub run : (Record → Result String) → Alerting → List Event → Alerting × List Alert
unfolding step
run dedupe_key a [] = (a, [])
run dedupe_key a (e ∷ events) =
    let (a', alerts) = step dedupe_key a e in
    let (a'', rest) = run dedupe_key a' events in (a'', alerts ++ rest)
