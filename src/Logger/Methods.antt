-- ===== src/Logger/Methods.antt =====
-- The logging methods of `logquill/core/logger.py`, each a call of `_log`.
use logquill_python.Base.{String, string_eq, false, Option, none, [], ◌∷◌}
use logquill_python.Dict.{update}
use logquill_python.Value.{str, Meta}
use logquill_python.Level.{Level, info}
use logquill_python.Records.{Record}
use logquill_python.Records.Llm.{build_llm_block}
use logquill_python.Logger.{Logger, log}
use logquill_python.Logger.Interface.{PluginOps, TransportOps, WorkerOps}
use logquill_python.Logger.Prepare.{Env, Python}

-- `{"kind": kind, **meta}`
abbrev pub with_kind : String → Meta → Meta
with_kind kind meta = update (("kind", str kind) ∷ []) meta

module _ {P T W : Type 0} ⦃p : PluginOps P⦄ ⦃t : TransportOps T⦄ ⦃w : WorkerOps W⦄ where
  -- `trace`, `debug`, `info`, `warn`, `error` and `fatal`, by their level
  unfoldable pub log_at :
      Python P → Env → Logger P T W → Level → String → Meta → Logger P T W × Option Record
  unfolding log
  log_at py env lg level message meta = log py env lg level message meta false none

  -- `thought`, `action`, `observation` and `decision`, by their kind
  unfoldable pub log_kind :
      Python P → Env → Logger P T W → String → String → Meta → Logger P T W × Option Record
  unfolding log
  log_kind py env lg kind message meta = log py env lg info message (with_kind kind meta) false none

  unfoldable pub llm_call :
      Python P → Env → Logger P T W → String → Meta → Meta → Logger P T W × Option Record
  unfolding log build_llm_block
  llm_call py env lg message fields meta =
      log py env lg info message (with_kind "action" meta) false (build_llm_block fields)
