-- ===== src/Tests/Logging.antt =====
-- A logger whose plugins each give one answer and whose transports collect records.
use mathlib.Core.Logic.{◌⊎◌}
use logquill_python.Base.{
  string_eq, false, none, some, List, [], ◌∷◌, ◌++◌, ◌≡◌, refl, ok, raise, type_error,
}
use logquill_python.Dict.{get}
use logquill_python.Value.{str}
use logquill_python.Level.{info, debug}
use logquill_python.Records.{Record, create_record}
use logquill_python.Retry.{Tracker}
use logquill_python.Privacy.{off, off_placeholder}
use logquill_python.Logger.{Logger, before_all, log}
use logquill_python.Logger.Interface.{Answer, hands_on, fails, PluginOps, TransportOps, WorkerOps}
use logquill_python.Logger.Prepare.{Env, Python, prepare}
use logquill_python.Logger.Pipeline.{IsSent, before_all-skips, log-IsSent}
use logquill_python.Logger.Privacy.{prepare-hides_content}

instance abbrev answering : PluginOps Answer
answering = record {
  before_log = λ a r. (a, r, a);
  after_log = λ a r. (a, none);
  on_error = λ a e r. a;
  redact_local = λ a name text. raise type_error;
}

instance abbrev collecting : TransportOps (List Record)
collecting = record { format = λ sink r. ok "line"; write = λ sink line r. sink ++ r ∷ [] }

instance abbrev queueing : WorkerOps (List Record)
queueing = record { submit = λ queue r. queue ++ r ∷ [] }

abbrev python : Python Answer
python = record {
  call = λ v. none;
  lazy_text = λ e. "";
  format_exc_info = λ v redact. ok none;
  to_text = λ v. "text";
  hexdigest = λ s. "00";
}

abbrev env : Env
env = record {
  now = "t";
  span_id = some "s1";
  context = ("tool_result", str "x") ∷ [];
  rules = [];
  caller = none;
}

abbrev tracker : Tracker
tracker = record { max_entries = 10; attempts = [] }

abbrev logger : Logger Answer (List Record) (List Record)
logger = record {
  name = "app";
  level = debug;
  content_policy = off;
  transports = [] ∷ [];
  plugins = hands_on ∷ fails type_error ∷ [];
  worker = none;
  retries = tracker;
}

abbrev entry : Record
entry = create_record "t" info "app" "m" [] none

before_all-skips_example :
    (before_all (hands_on ∷ fails type_error ∷ hands_on ∷ []) entry).1
    ≡ (before_all (hands_on ∷ hands_on ∷ []) entry).1
before_all-skips_example =
    before_all-skips (hands_on ∷ []) (fails type_error) (hands_on ∷ []) entry
      (λ u. (fails type_error, type_error, refl))

log-IsSent_example :
    let (lg', o) = log python env logger info "m" [] false none in IsSent none logger lg' o
log-IsSent_example = log-IsSent python env logger info "m" [] false none

prepare-hides_content_example :
    let (_, r) = prepare python env tracker [] off "app" info "m" [] false none in
    (get r.meta "tool_result" ≡ none) ⊎ (get r.meta "tool_result" ≡ some (str off_placeholder))
prepare-hides_content_example =
    prepare-hides_content python env tracker [] "app" info "m" [] false none "tool_result" refl
