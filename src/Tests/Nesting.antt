-- ===== src/Tests/Nesting.antt =====
-- Two spans, the inner of which raises, under a bound run id, for `logquill/tracing/span.py`.
use logquill_python.Base.{String, string_eq, none, List, [], ◌∷◌, ◌≡◌, refl}
use logquill_python.Base.Int.{pos}
use logquill_python.Dict.{get}
use logquill_python.Value.{str, int, dict, Meta, of_entries}
use logquill_python.TraceTree.Order.{InOrder}
use logquill_python.Spans.{
  Span, Block, logs, spans, binds, throws, catches, done, next, run, current_context,
}
use logquill_python.Spans.Scope.{scoped, restored, run-refines_scope}
use logquill_python.Spans.Ordered.{IsTidy}
use logquill_python.Spans.Documented.{outside, AreLines, run-InOrder}

abbrev span : String → Span
span id = record {
  span_id = id;
  explicit_parent = none;
  meta = [];
  duration = pos 5;
  state_diff = none;
}

abbrev program : Block
program = binds (("run_id", str "r") ∷ []) (
    next
      (catches (
        next
          (spans (span "a")
            (next (logs []) (next (spans (span "b") (next (throws "E: x") done)) done)))
          done))
      (next (logs []) done))

run-refines_scope_example :
    run program outside ≡ restored outside (scoped program none (current_context outside))
run-refines_scope_example = run-refines_scope program outside

program-IsTidy : IsTidy [] program
unfolding IsTidy get
program-IsTidy = (
  (refl, refl),
  (
    (
      (
        refl,
        refl,
        refl,
        (refl, refl),
        ((refl, refl), ((refl, refl, refl, (refl, refl), (tt, tt)), tt)),
      ),
      tt,
    ),
    ((refl, refl), tt),
  ),
)

-- the records of a file, with an LLM block of three tokens each
abbrev file_of : List Meta → List Meta
file_of [] = []
file_of (meta ∷ records) =
    (("meta", dict (of_entries meta))
      ∷ ("llm", dict (of_entries (("tokens_in", int (pos 3)) ∷ [])))
      ∷ [])
    ∷ file_of records

file-AreLines : (records : List Meta) → AreLines (file_of records) records
unfolding get
file-AreLines [] = tt
file-AreLines (meta ∷ records) = (refl, file-AreLines records)

run-InOrder_example : InOrder "r" [] (file_of (run program outside).records)
run-InOrder_example =
    run-InOrder program "r" (file_of (run program outside).records) program-IsTidy
      (file-AreLines (run program outside).records)
