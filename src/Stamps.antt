-- ===== src/Stamps.antt =====
-- Plugins that write to `meta`: `logquill/plugins/redact_plugin.py`, `context_plugin.py` and
-- `run_plugin.py`. Keys are lowered as ASCII texts.
pub mod Reads
use logquill_python.Base.{
  ℕ, ◌+◌, String, string_eq, Bool, true, false, ◌||◌, Option, none, some, List, [], ◌∷◌, contains,
  ◌==◌, if◌then◌else◌,
}
use logquill_python.Base.Int.{pos}
use logquill_python.Base.Text.{codes, lower, codes_eq}
use logquill_python.Dict.{put, set_default, update}
use logquill_python.Value.{Value, str, int, Meta}
use logquill_python.Records.{Record}

-- `RedactPlugin`
pub record Redact : Type 0 where
  pub keys : List (List ℕ)
  pub replacement : String

abbrev pub lowered : List String → List (List ℕ)
lowered [] = []
lowered (k ∷ ks) = lower (codes k) ∷ lowered ks

-- `__init__`, for the keys of `keys` and of `classes` together
unfoldable pub new_redact : List String → String → Redact
new_redact keys replacement = record { keys = lowered keys; replacement = replacement }

unfoldable pub redact_value : Redact → String → Value → Value
redact_value p key value = if contains p.keys (lower (codes key)) then str p.replacement else value

unfoldable pub redact_meta : Redact → Meta → Meta
unfolding redact_value
redact_meta p [] = []
redact_meta p ((key, value) ∷ meta) = (key, redact_value p key value) ∷ redact_meta p meta

-- `RedactPlugin.before_log`
unfoldable pub redact : Redact → Record → Record
unfolding redact_meta
redact p r = record r { meta = redact_meta p r.meta }

-- `RedactPlugin.redact_local`
unfoldable pub redact_local : Redact → String → String → String
redact_local p name text = if contains p.keys (lower (codes name)) then p.replacement else text

-- `ContextPlugin.before_log`, with the `context` that the plugin holds
unfoldable pub add_context : Meta → Record → Record
add_context context r = record r { meta = update context r.meta }

-- `RunPlugin`
pub record Run : Type 0 where
  pub run_id : String
  pub next_step : ℕ

-- `__init__`, with the id that `uuid.uuid4().hex` gives
unfoldable pub new_run : Option String → String → Run
new_run none fresh = record { run_id = fresh; next_step = 0 }
new_run (some run_id) fresh = record {
  run_id = if run_id == "" then fresh else run_id;
  next_step = 0;
}

-- `RunPlugin.before_log`
unfoldable pub number : Run → Record → Record × Run
number p r = (
  record r {
    meta = put (set_default r.meta "run_id" (str p.run_id)) "step" (int (pos p.next_step));
  },
  record p { next_step = p.next_step + 1 },
)

unfoldable pub number_all : Run → List Record → List Record × Run
unfolding number
number_all p [] = ([], p)
number_all p (r ∷ rs) =
    let (r', p') = number p r in let (rs', p'') = number_all p' rs in (r' ∷ rs', p'')
