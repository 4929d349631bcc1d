-- ===== src/Worker.antt =====
-- `AsyncWorker`, `logquill/runtime/worker.py`. What runs under the condition's lock is one action;
-- an action that would wait is not enabled. Work items are values of any type `A`, and a clock
-- reading in whole seconds is given with each submission.
pub mod Steps
pub mod Queue
pub mod Drain
use logquill_python.Base.{
  ℕ, zero, suc, ◌+◌, ◌-◌, Bool, true, false, not, ◌&&◌, Option, none, some, List, [], ◌∷◌, ◌++◌,
  ltb, leb, length, if◌then◌else◌, Result, ok, raise, value_error,
}

pub data Backpressure : Type 0 where
  drop_oldest drop_newest block : Backpressure

-- where the daemon thread stands: waiting for an item, running one, or gone
pub data Thread (A : Type 0) : Type 0 where
  waiting : Thread A
  running : A → Thread A
  gone : Thread A

pub record Worker (A : Type 0) : Type 0 where
  pub max_queue_size : ℕ
  pub backpressure : Backpressure
  pub queue : List A
  pub pending : ℕ
  pub closed : Bool
  pub last_drop_warning : Option ℕ
  pub thread : Thread A

abbrev pub drop_warning_interval : ℕ
drop_warning_interval = 60

-- `backpressure` is one of the three by its type; the source tests the text
unfoldable pub new : {A : Type 0} → ℕ → Backpressure → Result (Worker A)
new max_queue_size backpressure =
    if ltb max_queue_size 1
    then raise value_error
    else ok (record {
      max_queue_size = max_queue_size;
      backpressure = backpressure;
      queue = [];
      pending = 0;
      closed = false;
      last_drop_warning = none;
      thread = waiting;
    })

-- how an item leaves the queue
pub data Leave (A : Type 0) : Type 0 where
  taken : A → Leave A
  evicted : A → Leave A

abbrev pub item_of : {A : Type 0} → Leave A → A
item_of (taken a) = a
item_of (evicted a) = a

-- what an action moves: items that enter the queue and items that leave it
pub record Moves (A : Type 0) : Type 0 where
  pub entered : List A
  pub left : List (Leave A)

abbrev pub none_moved : {A : Type 0} → Moves A
none_moved = record { entered = []; left = [] }

warning_due : Option ℕ → ℕ → Bool
warning_due none now = true
warning_due (some last) now = leb (last + drop_warning_interval) now

module _ {A : Type 0} where
  -- `_warn_dropping`: whether it warns, and the worker after it
  unfoldable pub warn_dropping : Worker A → ℕ → Bool × Worker A
  unfolding warning_due
  warn_dropping w now =
      if warning_due w.last_drop_warning now
      then (true, record w { last_drop_warning = some now })
      else (false, w)

  -- `self._queue.append(item); self._pending += 1`
  abbrev pub append : Worker A → A → Worker A
  append w a = record w { queue = w.queue ++ a ∷ []; pending = w.pending + 1 }

  -- the full queue under `drop_oldest`: `popleft` raises on an empty one, which is not full
  evict_and_append : Worker A → ℕ → A → List A → Moves A × Worker A
  unfolding warn_dropping
  evict_and_append w now a [] = (record { entered = a ∷ []; left = [] }, append w a)
  evict_and_append w now a (oldest ∷ rest) =
      let (_, w') = warn_dropping (record w { queue = rest; pending = w.pending - 1 }) now in
      (record { entered = a ∷ []; left = evicted oldest ∷ [] }, append w' a)

  -- the branches for a full queue; `none`: the submitter waits
  when_full : Backpressure → Worker A → ℕ → A → Option (Moves A × Worker A)
  unfolding evict_and_append
  when_full block w now a = none
  when_full drop_newest w now a = let (_, w') = warn_dropping w now in some (none_moved, w')
  when_full drop_oldest w now a = some (evict_and_append w now a w.queue)

  unfoldable pub submit : Worker A → ℕ → A → Option (Moves A × Worker A)
  unfolding when_full
  submit w now a =
      if w.closed
      then some (none_moved, w)
      else if leb w.max_queue_size (length w.queue)
      then when_full w.backpressure w now a
      else some (record { entered = a ∷ []; left = [] }, append w a)

  take_from : Worker A → List A → Option (Moves A × Worker A)
  take_from w [] = if w.closed then some (none_moved, record w { thread = gone }) else none
  take_from w (a ∷ rest) =
      some (
        record { entered = []; left = taken a ∷ [] },
        record w { queue = rest; thread = running a },
      )

  take_by : Thread A → Worker A → Option (Moves A × Worker A)
  unfolding take_from
  take_by waiting w = take_from w w.queue
  take_by _ w = none

  -- the locked half of a round of `_run`: the next item, or the end of the thread
  unfoldable pub take : Worker A → Option (Moves A × Worker A)
  unfolding take_by
  take w = take_by w.thread w

  finish_by : Thread A → Worker A → Option (Moves A × Worker A)
  finish_by (running a) w =
      some (none_moved, record w { pending = w.pending - 1; thread = waiting })
  finish_by _ w = none

  -- the `finally` of a round: the item has run, or has raised
  unfoldable pub finish : Worker A → Option (Moves A × Worker A)
  unfolding finish_by
  finish w = finish_by w.thread w

  -- the locked part of `close`
  unfoldable pub mark_closed : Worker A → Worker A
  mark_closed w = record w { closed = true }

  -- One test of the loop of `drain` at a time `now`: `some` is what it returns, `none` goes on
  -- waiting.
  unfoldable pub drain_test : Worker A → Option ℕ → ℕ → Option Bool
  drain_test w none now = if leb 1 w.pending then none else some true
  drain_test w (some deadline) now =
      if leb 1 w.pending
      then if leb deadline now then some (leb w.pending 0) else none
      else some true
