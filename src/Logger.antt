-- ===== src/Logger.antt =====
-- The logger, `logquill/core/logger.py`, with `resolve_lazy` of `logquill/core/opt.py`. Plugins and
-- transports are interfaces; a hook other than `before_log` does not change the record. A name is
-- its list of code points for `Toggle`, and a text elsewhere.
pub mod Interface
pub mod Prepare
pub mod Pipeline
pub mod Methods
pub mod Privacy
pub mod Lifecycle
pub mod Opt
use logquill_python.Base.{
  String, string_eq, Bool, true, false, not, ◌||◌, Option, none, some, List, [], ◌∷◌, ◌++◌, Result,
  ok, raise, Error, if◌then◌else◌,
}
use logquill_python.Base.Text.{codes}
use logquill_python.Value.{Meta}
use logquill_python.Level.{Level, LevelLike, parse_level, below}
use logquill_python.Records.{Record}
use logquill_python.Retry.{Tracker}
use logquill_python.Toggle.{is_enabled}
use logquill_python.Privacy.{Policy}
use Interface.{Answer, hands_on, drops, fails, PluginOps, TransportOps, WorkerOps}
use Prepare.{Env, Python, prepare}

pub record Logger (P T W : Type 0) : Type 0 where
  pub name : String
  pub level : Level
  pub content_policy : Policy
  pub transports : List T
  pub plugins : List P
  pub worker : Option W
  pub retries : Tracker

module _ {P : Type 0} ⦃p : PluginOps P⦄ where
  -- `_notify_error`: what `on_error` raises is suppressed
  unfoldable pub notify_error : P → Error → Record → P
  notify_error plugin e r = p.on_error plugin e r

  first_of : P → List P × Option Record → List P × Option Record
  first_of plugin (plugins, r) = (plugin ∷ plugins, r)

  -- after one hook: `left` is what the hooks behind it do
  on_answer : P → List P → Record → Answer → List P × Option Record → List P × Option Record
  unfolding first_of notify_error
  on_answer plugin plugins r hands_on left = first_of plugin left
  on_answer plugin plugins r drops left = (plugin ∷ plugins, none)
  on_answer plugin plugins r (fails e) left = first_of (notify_error plugin e r) left

  -- the loop over the `before_log` hooks: the plugins after it, and the record unless it is dropped
  unfoldable pub before_all : List P → Record → List P × Option Record
  unfolding on_answer
  before_all [] r = ([], some r)
  before_all (plugin ∷ plugins) r =
      let (plugin', r', answer) = p.before_log plugin r in
      on_answer plugin' plugins r' answer (before_all plugins r')

  unfoldable pub after_one : P → Record → P
  unfolding notify_error
  after_one plugin r =
      let (plugin', raised) = p.after_log plugin r in
      elim raised [ none ↦ plugin' | some e ↦ notify_error plugin' e r ]

  unfoldable pub after_all : List P → Record → List P
  unfolding after_one
  after_all [] r = []
  after_all (plugin ∷ plugins) r = after_one plugin r ∷ after_all plugins r

module _ {T : Type 0} ⦃t : TransportOps T⦄ where
  -- `transport.write(transport.format(record), record)`, with what it raises caught
  unfoldable pub write_one : T → Record → T
  write_one transport r = elim (t.format transport r) [
    | ok formatted ↦ t.write transport formatted r
    | raise e ↦ transport
  ]

  unfoldable pub write_all : List T → Record → List T
  unfolding write_one
  write_all [] r = []
  write_all (transport ∷ transports) r = write_one transport r ∷ write_all transports r

-- `set_level`
unfoldable pub set_level : {P T W : Type 0} → Logger P T W → LevelLike → Result (Logger P T W)
set_level lg given = elim (parse_level given) [
  | ok l ↦ ok (record lg { level = l })
  | raise e ↦ raise e
]

-- `use`
unfoldable pub add_plugin : {P T W : Type 0} → Logger P T W → P → Logger P T W
add_plugin lg plugin = record lg { plugins = lg.plugins ++ plugin ∷ [] }

module _ {P T W : Type 0} ⦃p : PluginOps P⦄ ⦃t : TransportOps T⦄ ⦃w : WorkerOps W⦄ where
  -- `_dispatch`
  unfoldable pub dispatch : Logger P T W → Record → Logger P T W
  unfolding write_all after_all
  dispatch lg r = record lg {
    transports = write_all lg.transports r;
    plugins = after_all lg.plugins r;
  }

  -- the end of `_log`: to the worker, if there is one
  unfoldable pub send : Option W → Logger P T W → Record → Logger P T W
  unfolding dispatch
  send none lg r = dispatch lg r
  send (some worker) lg r = record lg { worker = some (w.submit worker r) }

  -- after the `before_log` hooks
  unfoldable pub finish : Logger P T W → List P × Option Record → Logger P T W × Option Record
  unfolding send
  finish lg (plugins, none) = (record lg { plugins = plugins }, none)
  finish lg (plugins, some r) = (send lg.worker (record lg { plugins = plugins }) r, some r)

  -- `_log`
  unfoldable pub log :
      Python P
      → Env
      → Logger P T W
      → Level
      → String
      → Meta
      → Bool
      → Option Meta
      → Logger P T W × Option Record
  unfolding finish before_all prepare
  log py env lg level message meta lazy llm =
      if below level lg.level || not (is_enabled env.rules (codes lg.name))
      then (lg, none)
      else let (retries, r) =
          prepare py env lg.retries lg.plugins lg.content_policy lg.name level message meta lazy
            llm in
        finish (record lg { retries = retries }) (before_all lg.plugins r)
