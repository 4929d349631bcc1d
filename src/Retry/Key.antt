-- ===== src/Retry/Key.antt =====
-- The identity of a tool call, `logquill/tracing/retry.py`.
use logquill_python.Base.{String, Eq, string_eq, pair_eq}

-- (enclosing span, tool name, tool call id)
abbrev pub CallKey : Type 0
CallKey = String × (String × String)

instance unfoldable pub call_eq : Eq CallKey
call_eq = pair_eq
