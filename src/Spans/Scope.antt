-- ===== src/Spans/Scope.antt =====
-- Lexical scope: what a block writes, as a function of the span and the context around it, with no
-- variable that is set and reset.
use logquill_python.Base.{
  String, string_eq, Option, none, some, List, [], ◌∷◌, ◌++◌, ◌≡◌, refl, ap, ◌∙◌,
}
use logquill_python.Dict.{update}
use logquill_python.Value.{Meta}
use logquill_python.Logger.Prepare.{add_context, add_parent}
use logquill_python.Spans.{
  Vars, current_context, span_meta, written, enter, leave, bind, unbind, Block, logs, spans, binds,
  throws, catches, Blocks, done, next, Outcome, exit_span, exit_bind, followed_by, run, run_all,
}

-- the records, and the exception that leaves the block
pub record Scoped : Type 0 where
  pub records : List Meta
  pub raised : Option String

-- a `meta` inside the span `parent` under the context
abbrev pub inside : Option String → Meta → Meta → Meta
inside parent context meta = add_parent parent (add_context context meta)

abbrev pub then_scoped : Scoped → Scoped → Scoped
then_scoped first rest = elim first.raised [
  | none ↦ record { records = first.records ++ rest.records; raised = rest.raised }
  | some error ↦ first
]

unfoldable mutual
  unfolding span_meta

  pub scoped : Block → Option String → Meta → Scoped
  scoped (logs meta) parent context = record {
    records = inside parent context meta ∷ [];
    raised = none;
  }
  scoped (spans span body) parent context =
      let inner = scoped_all body (some span.span_id) context in
      record inner {
        records = inner.records ++ inside parent context (span_meta span inner.raised) ∷ [];
      }
  scoped (binds values body) parent context = scoped_all body parent (update context values)
  scoped (throws error) parent context = record { records = []; raised = some error }
  scoped (catches body) parent context = record (scoped_all body parent context) { raised = none }

  pub scoped_all : Blocks → Option String → Meta → Scoped
  scoped_all done parent context = record { records = []; raised = none }
  scoped_all (next block rest) parent context =
      then_scoped (scoped block parent context) (scoped_all rest parent context)

-- with the variables as they were
abbrev pub restored : Vars → Scoped → Outcome
restored vars s = record { vars = vars; records = s.records; raised = s.raised }

abbrev scope_of : Vars → (Option String → Meta → Scoped) → Outcome
scope_of vars scope = restored vars (scope vars.span_id (current_context vars))

followed_by-restored :
    (vars : Vars) (first rest : Scoped) (run_rest : Vars → Outcome)
    → run_rest vars ≡ restored vars rest
    → followed_by (restored vars first) run_rest ≡ restored vars (then_scoped first rest)
followed_by-restored vars first rest run_rest e = by_raised first.records first.raised
  where
    by_raised :
        (records : List Meta) (raised : Option String)
        → followed_by (record { vars = vars; records = records; raised = raised }) run_rest
          ≡ restored vars (then_scoped (record { records = records; raised = raised }) rest)
    by_raised records none = rw e refl
    by_raised records (some error) = refl

mutual
  unfolding run scoped enter bind exit_span exit_bind leave unbind written

  run-scoped : (block : Block) (vars : Vars) → run block vars ≡ scope_of vars (scoped block)
  run-scoped (logs meta) vars = refl
  run-scoped (spans span body) vars =
      ap (exit_span span vars.span_id)
        (run_all-scoped body (record vars { span_id = some span.span_id }))
  run-scoped (binds values body) vars =
      ap (exit_bind vars.context) (
        run_all-scoped body (record vars { context = some (update (current_context vars) values) }))
  run-scoped (throws error) vars = refl
  run-scoped (catches body) vars =
      ap (λ (o : Outcome). record o { raised = none }) (run_all-scoped body vars)

  run_all-scoped :
      (body : Blocks) (vars : Vars) → run_all body vars ≡ scope_of vars (scoped_all body)
  run_all-scoped done vars = refl
  run_all-scoped (next block rest) vars =
      ap (λ (o : Outcome). followed_by o (run_all rest)) (run-scoped block vars)
      ∙ followed_by-restored vars (scoped block vars.span_id (current_context vars))
          (scoped_all rest vars.span_id (current_context vars)) (run_all rest)
          (run_all-scoped rest vars)

-- Setting and resetting the context variables implements lexical scope: whatever a block does, and
-- whether it ends or raises, it leaves the current span and the bound context as they were, and it
-- writes the records, and raises the exception, that the spans and contexts around each call give.
pub run-refines_scope :
    (block : Block) (vars : Vars)
    → run block vars ≡ restored vars (scoped block vars.span_id (current_context vars))
run-refines_scope block vars = run-scoped block vars
