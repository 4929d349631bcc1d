-- ===== src/Logger/Pipeline.antt =====
-- What the loop over the plugins does, and what a call sends.
use logquill_python.Base.{
  String, Bool, not, ◌||◌, Option, none, some, List, [], ◌∷◌, ◌++◌, ◌≡◌, refl, ap, ◌∙◌, Error, ok,
  raise, Result-cases, ◌⊎◌, inl, inr, if_both,
}
use logquill_python.Base.Text.{codes}
use logquill_python.Value.{Meta}
use logquill_python.Level.{Level, below}
use logquill_python.Records.{Record}
use logquill_python.Retry.{Tracker}
use logquill_python.Toggle.{is_enabled}
use logquill_python.Logger.{
  Logger, first_of, on_answer, notify_error, before_all, write_one, write_all, dispatch, send,
  finish, log,
}
use logquill_python.Logger.Interface.{
  Answer, hands_on, drops, fails, PluginOps, TransportOps, WorkerOps,
}
use logquill_python.Logger.Prepare.{Env, Python, prepare}

module _ {P : Type 0} ⦃p : PluginOps P⦄ where
  -- The rest of the plugins, after some of them.
  abbrev pub and_then : List P → List P × Option Record → List P × Option Record
  and_then rest (plugins, none) = (plugins ++ rest, none)
  and_then rest (plugins, some r) = let (rest', o) = before_all rest r in (plugins ++ rest', o)

  and_then-first :
      (plugin : P) (rest : List P) (left : List P × Option Record)
      → first_of plugin (and_then rest left) ≡ and_then rest (first_of plugin left)
  unfolding first_of
  and_then-first plugin rest (plugins, none) = refl
  and_then-first plugin rest (plugins, some r) = refl

  on_answer-append :
      (plugin : P) (plugins rest : List P) (r : Record) (a : Answer)
      → before_all (plugins ++ rest) r ≡ and_then rest (before_all plugins r)
      → on_answer plugin (plugins ++ rest) r a (before_all (plugins ++ rest) r)
        ≡ and_then rest (on_answer plugin plugins r a (before_all plugins r))
  unfolding on_answer
  on_answer-append plugin plugins rest r hands_on ih =
      ap (first_of plugin) ih ∙ and_then-first plugin rest (before_all plugins r)
  on_answer-append plugin plugins rest r drops ih = refl
  on_answer-append plugin plugins rest r (fails e) ih =
      ap (first_of (notify_error plugin e r)) ih
      ∙ and_then-first (notify_error plugin e r) rest (before_all plugins r)

  -- The plugins run in order, each on the record that the one before hands on: a list of plugins in
  -- two parts runs as the first part and then, unless that dropped the record, the second; after a
  -- drop the plugins of the second part are not called.
  pub before_all-append :
      (plugins rest : List P) (r : Record)
      → before_all (plugins ++ rest) r ≡ and_then rest (before_all plugins r)
  unfolding before_all
  before_all-append [] rest r = refl
  before_all-append (plugin ∷ plugins) rest r =
      let (plugin', r', a) = p.before_log plugin r in
      on_answer-append plugin' plugins rest r' a (before_all-append plugins rest r')

  -- A plugin whose hook raises, without having changed the record, is as if it were not there: the
  -- record that the loop ends with, or its drop, is that of the other plugins.
  pub before_all-skips :
      (before : List P) (broken : P) (behind : List P) (r : Record)
      → ((u : Record) → (q : P) × (e : Error) × (p.before_log broken u ≡ (q, u, fails e)))
      → (before_all (before ++ broken ∷ behind) r).1 ≡ (before_all (before ++ behind) r).1
  unfolding before_all on_answer first_of
  before_all-skips [] broken behind r h = let (q, e, raised) = h r in rw raised refl
  before_all-skips (plugin ∷ before) broken behind r h =
      let (plugin', r', a) = p.before_log plugin r in
      same_answer plugin' r' a (before_all-skips before broken behind r' h)
    where
      same_answer :
          (q : P) (u : Record) (a : Answer)
          → (before_all (before ++ broken ∷ behind) u).1 ≡ (before_all (before ++ behind) u).1
          → (on_answer q
              (before ++ broken ∷ behind)
              u
              a
              (before_all (before ++ broken ∷ behind) u)).1
            ≡ (on_answer q (before ++ behind) u a (before_all (before ++ behind) u)).1
      same_answer q u hands_on e = e
      same_answer q u drops e = refl
      same_answer q u (fails x) e = e

module _ {T : Type 0} ⦃t : TransportOps T⦄ where
  -- What a transport is after one record reached it: the text that its own `format` makes is written
  -- with the record, once; where `format` raises it gets nothing.
  abbrev pub Got : Record → T → T → Type 0
  Got r sink sink' =
      ((line : String) × (t.format sink r ≡ ok line) × (sink' ≡ t.write sink line r))
      ⊎ ((e : Error) × (t.format sink r ≡ raise e) × (sink' ≡ sink))

  -- each of the transports, in order
  abbrev pub AllGot : Record → List T → List T → Type 0
  AllGot r [] [] = Unit
  AllGot r (sink ∷ sinks) (sink' ∷ sinks') = Got r sink sink' × AllGot r sinks sinks'
  AllGot r _ _ = ⊥

  Got-write_one : (r : Record) (sink : T) → Got r sink (write_one sink r)
  unfolding write_one
  Got-write_one r sink = elim (Result-cases (t.format sink r)) [
    | inl (line, e) ↦ inl (line, e, rw (e, write_one) refl)
    | inr (x, e) ↦ inr (x, e, rw (e, write_one) refl)
  ]

  AllGot-write_all : (r : Record) (sinks : List T) → AllGot r sinks (write_all sinks r)
  unfolding write_all
  AllGot-write_all r [] = tt
  AllGot-write_all r (sink ∷ sinks) = (Got-write_one r sink, AllGot-write_all r sinks)

module _ {P T W : Type 0} ⦃p : PluginOps P⦄ ⦃t : TransportOps T⦄ ⦃w : WorkerOps W⦄ where
  -- What leaves the logger: nothing without a record; else the record, once, to the worker or, if
  -- there is none, to each transport.
  abbrev pub IsSent : Option W → Logger P T W → Logger P T W → Option Record → Type 0
  IsSent worker lg lg' none = (lg'.transports ≡ lg.transports) × (lg'.worker ≡ lg.worker)
  IsSent none lg lg' (some r) = AllGot r lg.transports lg'.transports × (lg'.worker ≡ lg.worker)
  IsSent (some worker) lg lg' (some r) =
      (lg'.transports ≡ lg.transports) × (lg'.worker ≡ some (w.submit worker r))

  send-IsSent :
      (worker : Option W) (lg lg1 : Logger P T W) (r : Record)
      → lg1.transports ≡ lg.transports
      → lg1.worker ≡ lg.worker
      → IsSent worker lg (send worker lg1 r) (some r)
  unfolding send dispatch
  send-IsSent none lg lg1 r sinks queue = (rw sinks (AllGot-write_all r lg.transports), queue)
  send-IsSent (some worker) lg lg1 r sinks queue = (sinks, refl)

  finish-IsSent :
      (lg : Logger P T W) (retries : Tracker) (left : List P × Option Record)
      → let (lg', o) = finish (record lg { retries = retries }) left in IsSent lg.worker lg lg' o
  unfolding finish
  finish-IsSent lg retries (plugins, none) = (refl, refl)
  finish-IsSent lg retries (plugins, some r) =
      send-IsSent lg.worker lg (record lg { plugins = plugins; retries = retries }) r refl refl

  -- The record that a call returns is the one that leaves the logger: without a worker each transport
  -- writes it once, as the text of its own `format`, or nothing where `format` raises; with a worker it
  -- is submitted once and no transport is called. A call that returns `None` writes and queues nothing.
  pub log-IsSent :
      (py : Python P) (env : Env) (lg : Logger P T W) (level : Level) (message : String)
      (meta : Meta) (lazy : Bool) (llm : Option Meta)
      → let (lg', o) = log py env lg level message meta lazy llm in IsSent lg.worker lg lg' o
  unfolding log
  log-IsSent py env lg level message meta lazy llm =
      let (retries, r) =
        prepare py env lg.retries lg.plugins lg.content_policy lg.name level message meta lazy
          llm in
      if_both (λ (q : Logger P T W × Option Record). IsSent lg.worker lg q.0 q.1)
        (below level lg.level || not (is_enabled env.rules (codes lg.name))) (refl, refl)
        (finish-IsSent lg retries (before_all lg.plugins r))
