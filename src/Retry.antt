-- ===== src/Retry.antt =====
-- `RetryTracker`, `logquill/tracing/retry.py`. Its lock makes each method one step.
mod Key
pub mod Bounds
pub mod Counts
use logquill_python.Base.{
  ℕ, suc, ◌+◌, String, Bool, Option, none, some, List, [], ◌∷◌, ltb, if◌then◌else◌, Result, ok,
  raise, value_error,
}
unfoldable pub use Key.{CallKey, call_eq}
use logquill_python.Dict.{Dict, get, put, remove, move_to_end, trim}

pub record Tracker : Type 0 where
  pub max_entries : ℕ
  pub attempts : Dict CallKey ℕ

unfoldable pub new : ℕ → Result Tracker
new max_entries =
    if ltb max_entries 1
    then raise value_error
    else ok (record { max_entries = max_entries; attempts = [] })

-- `x or ""`
abbrev pub or_empty : Option String → String
or_empty none = ""
or_empty (some s) = s

abbrev pub call_key : Option String → String → Option String → CallKey
call_key span_id tool call_id = (or_empty span_id, (tool, or_empty call_id))

-- `self._attempts.get(key, -1) + 1`
abbrev pub next_count : Option ℕ → ℕ
next_count none = 0
next_count (some n) = n + 1

unfoldable pub opened_key : Tracker → CallKey → ℕ × Tracker
opened_key t key =
    let count = next_count (get t.attempts key) in
    let moved = move_to_end (put t.attempts key count) key in
    (count, record t { attempts = trim t.max_entries moved })

unfoldable pub opened : Tracker → Option String → String → Option String → ℕ × Tracker
unfolding opened_key
opened t span_id tool call_id = opened_key t (call_key span_id tool call_id)

unfoldable pub succeeded_key : Tracker → CallKey → Tracker
succeeded_key t key = record t { attempts = remove t.attempts key }

unfoldable pub succeeded : Tracker → Option String → String → Option String → Tracker
unfolding succeeded_key
succeeded t span_id tool call_id = succeeded_key t (call_key span_id tool call_id)

-- the calls of the two methods, in the order in which the lock lets them through
pub data Event : Type 0 where
  open_call : CallKey → Event
  close_call : CallKey → Event

abbrev pub subject : Event → CallKey
subject (open_call k) = k
subject (close_call k) = k

-- the counts returned by a sequence of calls, and the tracker after it
unfoldable pub run : Tracker → List Event → List ℕ × Tracker
unfolding opened_key succeeded_key
run t [] = ([], t)
run t (open_call k ∷ events) =
    let (n, t') = opened_key t k in let (ns, t'') = run t' events in (n ∷ ns, t'')
run t (close_call k ∷ events) = run (succeeded_key t k) events
