-- ===== src/Tests/Traces.antt =====
-- A run of a span with an event in it, and one record of another run, for
-- `logquill/cli/trace_tree.py`.
use logquill_python.Base.{
  true, ◌+◌, string_eq, All, List, [], ◌∷◌, ◌≡◌, refl, none, length, arith, ltb, if◌then◌else◌,
}
use logquill_python.Base.Int.{pos}
use logquill_python.Dict.{get}
use logquill_python.Value.{str, int, dict, Meta, of_entries}
use logquill_python.TraceTree.{build_trace, rollup, belongs, span_id, parent_span_id}
use logquill_python.TraceTree.Place.{total, total_children}
use logquill_python.TraceTree.Kept.{kept, entries_of, is, build_trace-places_once}
use logquill_python.TraceTree.Order.{InOrder}
use logquill_python.TraceTree.Placing.{IsRoot, build_trace-IsFamily}
use logquill_python.TraceTree.Render.{Formats, line}
use logquill_python.TraceTree.Parents.{IsFamily}
use logquill_python.TraceTree.Totals.{sum_own, sum_roots, rollup-ends, build_trace-sum_roots}

abbrev event : Meta
event =
    ("meta", dict (of_entries (("run_id", str "r") ∷ ("parent_span_id", str "s") ∷ [])))
    ∷ ("llm", dict (of_entries (("tokens_in", int (pos 7)) ∷ [])))
    ∷ []

abbrev span : Meta
span = ("meta", dict (of_entries (("run_id", str "r") ∷ ("span_id", str "s") ∷ []))) ∷ []

abbrev other : Meta
other = ("meta", dict (of_entries (("run_id", str "q") ∷ []))) ∷ []

abbrev file : List Meta
file = event ∷ other ∷ span ∷ []

file-InOrder : InOrder "r" [] file
unfolding get belongs span_id parent_span_id
file-InOrder = (refl, (tt, tt))

build_trace-places_once_example :
    (entries_of (build_trace file "r").store ≡ kept "r" file)
    × ((build_trace file "r").pending ≡ [])
    × (total (is 0) (build_trace file "r").roots
          + total_children (is 0) (build_trace file "r").store
        ≡ (if ltb 0 (length (kept "r" file)) then 1 else 0))
build_trace-places_once_example = build_trace-places_once "r" file 0

rollup-ends_example :
    rollup 9 (build_trace file "r").store 1 ≡ rollup 1 (build_trace file "r").store 1
rollup-ends_example = rollup-ends "r" file 1 9 file-InOrder (omega arith)

build_trace-sum_roots_example :
    ((sum_roots (length (build_trace file "r").store) (build_trace file "r")).tokens_in
      ≡ (sum_own (kept "r" file)).tokens_in)
    × ((sum_roots (length (build_trace file "r").store) (build_trace file "r")).tokens_out
        ≡ (sum_own (kept "r" file)).tokens_out)
build_trace-sum_roots_example = build_trace-sum_roots "r" file file-InOrder

build_trace-IsFamily_example :
    All (IsFamily (entries_of (build_trace file "r").store)) (build_trace file "r").store
    × All (IsRoot (entries_of (build_trace file "r").store)) (build_trace file "r").roots
build_trace-IsFamily_example = build_trace-IsFamily "r" file

abbrev formats : Formats
formats = record {
  text = λ v. "text";
  tenths = λ n. "1.0";
  whole = λ n. "7";
  cost = λ n. "0.1";
  free = λ n. true;
}

test_line :
    line formats none (build_trace (event ∷ []) "r").store "│  " true 0 ≡ "│  └─ [?]   (7→7 tok)"
unfolding line build_trace get
test_line = refl
