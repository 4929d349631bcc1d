-- ===== src/Logger/Interface.antt =====
-- What the logger calls: plugins (`logquill/plugins/plugin.py`), transports
-- (`logquill/transports/transport.py`) and the worker. A call returns the object after it.
use logquill_python.Base.{String, Option, Result, Error}
use logquill_python.Records.{Record}

-- what `before_log` does: it returns a record, returns `None`, or raises
pub data Answer : Type 0 where
  hands_on drops : Answer
  fails : Error → Answer

-- The record beside the answer is the one returned, or, if the hook raises, the record that it was
-- given, with the changes that it made in place.
pub record PluginOps (P : Type 0) : Type 0 where
  pub before_log : P → Record → P × Record × Answer
  pub after_log : P → Record → P × Option Error
  pub on_error : P → Error → Record → P
  pub redact_local : P → String → String → Result String

-- `write` that raises leaves what it leaves
pub record TransportOps (T : Type 0) : Type 0 where
  pub format : T → Record → Result String
  pub write : T → String → Record → T

pub record WorkerOps (W : Type 0) : Type 0 where
  pub submit : W → Record → W
