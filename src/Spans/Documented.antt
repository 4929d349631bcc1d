-- ===== src/Spans/Documented.antt =====
-- The order of the records that a program of spans writes, and what it means for the trace tree.
use mathlib.Core.Path.{subst}
use logquill_python.Base.{
  String, string_eq, Option, none, some, List, [], ◌∷◌, ◌≡◌, refl, ap, ◌∙◌, arith, length,
  Bool-cases, inl, inr,
}
use logquill_python.Dict.{get}
use logquill_python.Value.{dict, Meta, of_entries, entries-of_entries}
use logquill_python.TraceTree.{
  dict_or_empty, meta_of, named, belongs, span_id, parent_span_id, build_trace,
}
use logquill_python.TraceTree.Order.{InOrder, IsOpen, saw}
use logquill_python.TraceTree.Kept.{kept}
use logquill_python.TraceTree.Totals.{sum_own, sum_roots, build_trace-sum_roots}
use logquill_python.Spans.{Vars, Block, Outcome, run}
use logquill_python.Spans.Scope.{scoped, run-refines_scope}
use logquill_python.Spans.Ordered.{marks, span_of, parent_of, AllInOrder, IsTidy, AreGiven}
use logquill_python.Spans.Events.{scoped-Emits}

-- The entries of a file have these `meta`s; the rest of each is what it is.
abbrev pub HasMeta : Meta → Meta → Type 0
HasMeta entry meta = get entry "meta" ≡ some (dict (of_entries meta))

abbrev pub AreLines : List Meta → List Meta → Type 0
AreLines [] [] = Unit
AreLines [] (_ ∷ _) = ⊥
AreLines (_ ∷ _) [] = ⊥
AreLines (entry ∷ file) (meta ∷ records) = HasMeta entry meta × AreLines file records

meta_of-line : (entry meta : Meta) → HasMeta entry meta → meta_of entry ≡ meta
meta_of-line entry meta h = ap dict_or_empty h ∙ entries-of_entries meta

span_id-line : (entry meta : Meta) → HasMeta entry meta → span_id entry ≡ span_of meta
unfolding span_id
span_id-line entry meta h = ap (λ (m : Meta). named (get m "span_id")) (meta_of-line entry meta h)

parent_span_id-line :
    (entry meta : Meta) → HasMeta entry meta → parent_span_id entry ≡ parent_of meta
unfolding parent_span_id
parent_span_id-line entry meta h =
    ap (λ (m : Meta). named (get m "parent_span_id")) (meta_of-line entry meta h)

IsOpen-fewer :
    (fewer seen : List String) (p : Option String)
    → AreGiven fewer seen
    → IsOpen seen p
    → IsOpen fewer p
IsOpen-fewer fewer seen none given h = tt
IsOpen-fewer fewer seen (some p) given h = ground (arith, given p, h)

given_saw :
    (fewer seen : List String) (o : Option String)
    → AreGiven fewer seen
    → AreGiven (saw fewer o) (saw seen o)
given_saw fewer seen none given x h = given x h
given_saw fewer seen (some s) given x h = ground (arith, given x, h)

given_skip :
    (fewer seen : List String) (o : Option String)
    → AreGiven fewer seen
    → AreGiven fewer (saw seen o)
given_skip fewer seen none given x h = given x h
given_skip fewer seen (some s) given x h = ground (arith, given x, h)

-- in the records of one run, which are some of those of the file
AreLines-InOrder :
    (run_id : String) (fewer seen : List String) (file records : List Meta)
    → AreLines file records
    → AreGiven fewer seen
    → AllInOrder seen (marks records)
    → InOrder run_id fewer file
AreLines-InOrder run_id fewer seen [] records l given a = tt
AreLines-InOrder run_id fewer seen (entry ∷ file) [] l given a = absurd l
AreLines-InOrder run_id fewer seen (entry ∷ file) (meta ∷ records) (h, l) given (first, more) =
    elim (Bool-cases (belongs run_id entry)) [
      | inl e ↦
          rw (e, span_id-line entry meta h, parent_span_id-line entry meta h)
            (
              IsOpen-fewer (saw fewer (span_of meta)) (saw seen (span_of meta)) (parent_of meta)
                  (given_saw fewer seen (span_of meta) given) first,
              AreLines-InOrder run_id (saw fewer (span_of meta)) (saw seen (span_of meta)) file
                  records l (given_saw fewer seen (span_of meta) given) more,
            )
      | inr e ↦ rw e (
          AreLines-InOrder run_id fewer (saw seen (span_of meta)) file records l
            (given_skip fewer seen (span_of meta) given) more)
    ]

abbrev pub outside : Vars
outside = record { span_id = none; context = none }

-- A program whose spans have different ids that are not empty, and whose calls and contexts name no
-- span and no parent themselves, writes its records in the order that the trace tree relies on, for
-- every run, also where blocks raise.
pub run-InOrder :
    (block : Block) (run_id : String) (file : List Meta)
    → IsTidy [] block
    → AreLines file (run block outside).records
    → InOrder run_id [] file
run-InOrder block run_id file tidy l =
    AreLines-InOrder run_id [] [] file (scoped block none []).records
      (subst (λ (o : Outcome). AreLines file o.records) (run-refines_scope block outside) l)
      (λ x h. h)
      (scoped-Emits block none [] [] [] (λ x h. h) tt (unfold get in (refl, refl)) tidy).ordered

-- If the `meta`s of a file are those that such a program wrote, one after the other, then the rollups
-- of the roots of each run's trace add up to the tokens of the run's records, each counted once.
pub run-sum_roots :
    (block : Block) (run_id : String) (file : List Meta)
    → IsTidy [] block
    → AreLines file (run block outside).records
    → let b = build_trace file run_id in
      let shown = sum_roots (length b.store) b in
      let own = sum_own (kept run_id file) in
      (shown.tokens_in ≡ own.tokens_in) × (shown.tokens_out ≡ own.tokens_out)
run-sum_roots block run_id file tidy l =
    build_trace-sum_roots run_id file (run-InOrder block run_id file tidy l)
