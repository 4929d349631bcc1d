-- ===== src/Tests/Summaries.antt =====
-- A run of one action and its span, for `logquill/plugins/run_summary_plugin.py`.
use logquill_python.Base.{
  String, string_eq, Bool, true, false, Option, none, some, [], ◌∷◌, ◌≡◌, refl, arith, ok,
}
use logquill_python.Base.Int.{pos}
use logquill_python.Dict.{get, has}
use logquill_python.Value.{str, int, float, Meta, present, value_eq}
use logquill_python.Level.{info, lookup_name}
use logquill_python.Records.{Record}
use logquill_python.TailBuffer.Trail.{pairs}
use logquill_python.RunSummary.{RunSummary, run}
use logquill_python.RunSummary.Totals.{IsOf, run-writes-IsSummary}
use logquill_python.RunSummary.Written.{IsSummary}

abbrev line : Meta → Option Meta → Record
line meta llm = record {
  schema_version = "2.0";
  timestamp = "t";
  level = "INFO";
  logger = "app";
  message = "m";
  meta = meta;
  llm = llm;
}

abbrev action : Record
action =
    line (("run_id", str "r1") ∷ ("kind", str "action") ∷ ("tool", str "search") ∷ [])
      (some (("tokens_in", int (pos 7)) ∷ []))

abbrev root : Record
root =
    line
      (("run_id", str "r1")
        ∷ ("kind", str "span")
        ∷ ("span_id", str "s1")
        ∷ ("duration_ms", float (pos 5))
        ∷ [])
      none

abbrev plugin : RunSummary
plugin = record { run_key = "run_id"; logger_name = "app.run_summary"; max_runs = 1; stats = [] }

abbrev works : String → Record → Bool
works t r = false

known : lookup_name "INFO" ≡ ok info
unfolding lookup_name
known = refl

action-IsOf : IsOf plugin (str "r1") false action
unfolding get present has
action-IsOf = (refl, refl, (info, known))

root-IsOf : IsOf plugin (str "r1") true root
unfolding get present has
root-IsOf = (refl, refl, (info, known))

run-writes-IsSummary_example :
    (u : Record) × (p' : RunSummary) × (run works ("sink" ∷ []) plugin "t" (action ∷ root ∷ [])
      ≡ (none ∷ none ∷ [], pairs ("sink" ∷ []) (u ∷ []), p'))
    × IsSummary plugin "t" (str "r1") (action ∷ []) root u
    × (get p'.stats (str "r1") ≡ none)
run-writes-IsSummary_example =
    run-writes-IsSummary works ("sink" ∷ []) "t" plugin (str "r1") (action ∷ []) root (λ t r. refl)
      refl (omega arith) refl (unfold get in refl) (action-IsOf, tt) root-IsOf
