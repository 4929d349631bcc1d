-- ===== src/Logger/Lifecycle.antt =====
-- Loggers that share transports and a worker: `child`, `flush` and `close` of
-- `logquill/core/logger.py`, and `logquill/runtime/shutdown.py`. A logger, a transport and a worker
-- are references, by number. What the calls do to them is an event.
pub mod Closes
pub mod Exit
use logquill_python.Base.{
  ℕ, zero, suc, ◌+◌, String, Bool, true, false, not, ◌&&◌, Option, none, some, List, [], ◌∷◌, ◌++◌,
  contains, nat_eq, ◌==◌, length, if◌then◌else◌,
}
use logquill_python.Dict.{Dict, put}
use logquill_python.Value.{Meta}
use logquill_python.Level.{Level}
use logquill_python.Privacy.{Policy}
use Prim.Native.String.{◌++◌ as ◌<>◌}

-- what a logger object holds; `context` is that of the `ContextPlugin` that `child` adds
pub record Handle : Type 0 where
  pub name : String
  pub level : Level
  pub content_policy : Policy
  pub transports : List ℕ
  pub worker : Option ℕ
  pub context : Meta

-- a call that reaches a worker or a transport, and whether it returned
pub data Event : Type 0 where
  drained : ℕ → Event
  stopped : ℕ → Event
  flushed : ℕ → Bool → Event
  closed : ℕ → Bool → Event

-- `registered` is `_loggers`, `marked` is `_closed_transports`
pub record World : Type 0 where
  pub registered : List Handle
  pub marked : List ℕ
  pub hook_installed : Bool
  pub events : List Event

abbrev pub new : World
new = record { registered = []; marked = []; hook_installed = false; events = [] }

abbrev pub emit : World → Event → World
emit w e = record w { events = w.events ++ e ∷ [] }

-- `shutdown.register`
unfoldable pub register : World → Handle → World
register w lg = record w { registered = w.registered ++ lg ∷ []; hook_installed = true }

-- the end of `Logger.__init__`
unfoldable pub create : World → Handle → Bool → World
unfolding register
create w lg flush_at_exit = if flush_at_exit then register w lg else w

-- `child`: the new logger is registered by its `__init__`, whatever its parent was
unfoldable pub child_of : Handle → String → Meta → Handle
child_of lg name fixed_meta = record {
  name = lg.name <> "." <> name;
  level = lg.level;
  content_policy = lg.content_policy;
  transports = lg.transports;
  worker = lg.worker;
  context = fixed_meta;
}

unfoldable pub child : World → Handle → String → Meta → World × Handle
unfolding child_of create
child w lg name fixed_meta =
    (create w (child_of lg name fixed_meta) true, child_of lg name fixed_meta)

-- `shutdown.mark_closed`
unfoldable pub mark_closed : World → ℕ → World
mark_closed w t = record w { marked = if contains w.marked t then w.marked else t ∷ w.marked }

-- which calls of a transport raise
pub record Faults : Type 0 where
  pub flush_raises : ℕ → Bool
  pub close_raises : ℕ → Bool

abbrev pub to_worker : World → (ℕ → Event) → Option ℕ → World
to_worker w event none = w
to_worker w event (some worker) = emit w (event worker)

-- the loop of `flush` over the transports: what one raises leaves the rest unflushed
unfoldable pub flush_each : Faults → World → List ℕ → World
flush_each faults w [] = w
flush_each faults w (t ∷ transports) =
    let raised = faults.flush_raises t in
    let after = emit w (flushed t (not raised)) in
    let rest = flush_each faults after transports in if raised then after else rest

-- `flush`
unfoldable pub flush : Faults → World → Handle → World
unfolding flush_each
flush faults w lg = flush_each faults (to_worker w drained lg.worker) lg.transports

-- the loop of `close`
unfoldable pub close_each : Faults → World → List ℕ → World
unfolding mark_closed
close_each faults w [] = w
close_each faults w (t ∷ transports) =
    let raised = faults.close_raises t in
    let after = emit w (closed t (not raised)) in
    let rest = close_each faults (mark_closed after t) transports in if raised then after else rest

-- `close`
unfoldable pub close : Faults → World → Handle → World
unfolding close_each
close faults w lg = close_each faults (to_worker w stopped lg.worker) lg.transports

-- one logger in the loop of `shutdown` that gathers, by identity
unfoldable pub gather_worker : Dict ℕ ℕ → Option ℕ → Dict ℕ ℕ
gather_worker workers none = workers
gather_worker workers (some worker) = put workers worker worker

unfoldable pub gather_transports : List ℕ → Dict ℕ ℕ → List ℕ → Dict ℕ ℕ
gather_transports already transports [] = transports
gather_transports already transports (t ∷ rest) =
    gather_transports already (if contains already t then transports else put transports t t) rest

unfoldable pub all_workers : Dict ℕ ℕ → List Handle → Dict ℕ ℕ
unfolding gather_worker
all_workers workers [] = workers
all_workers workers (lg ∷ loggers) = all_workers (gather_worker workers lg.worker) loggers

unfoldable pub all_transports : List ℕ → Dict ℕ ℕ → List Handle → Dict ℕ ℕ
unfolding gather_transports
all_transports already transports [] = transports
all_transports already transports (lg ∷ loggers) =
    all_transports already (gather_transports already transports lg.transports) loggers

unfoldable pub stop_all : World → Dict ℕ ℕ → World
stop_all w [] = w
stop_all w ((_, worker) ∷ workers) = stop_all (emit w (stopped worker)) workers

-- what `close` raises is logged, and the transport is marked all the same
unfoldable pub close_all : Faults → World → Dict ℕ ℕ → World
unfolding mark_closed
close_all faults w [] = w
close_all faults w ((_, t) ∷ transports) =
    close_all faults (mark_closed (emit w (closed t (not (faults.close_raises t)))) t) transports

-- `shutdown`
unfoldable pub shutdown : Faults → World → World
unfolding all_workers all_transports stop_all close_all
shutdown faults w =
    close_all faults (stop_all w (all_workers [] w.registered))
      (all_transports w.marked [] w.registered)
