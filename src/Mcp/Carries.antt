-- ===== src/Mcp/Carries.antt =====
-- What a client's `propagate` brings to a server's `inbound`.
use logquill_python.Base.{String, string_eq, Option, none, some, [], ◌∷◌, ◌++◌}
use Prim.Native.String.{◌++◌ as ◌++ₛ◌}
use logquill_python.Value.{Value, str, Meta}
use logquill_python.TraceContext.{Text}

-- what `meta.mcp` is on the server's records
abbrev pub call_entries : String → String → Option String → Meta
call_entries server tool none = ("server", str server) ∷ ("tool", str tool) ∷ []
call_entries server tool (some run_id) =
    ("server", str server) ∷ ("tool", str tool) ∷ ("run_id", str run_id) ∷ []
