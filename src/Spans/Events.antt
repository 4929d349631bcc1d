-- ===== src/Spans/Events.antt =====
-- The events of a program of spans, in the order of its records.
use mathlib.Core.Path.{subst}
use logquill_python.Base.{
  String, string_eq, false, Option, none, some, List, [], ◌∷◌, ◌++◌, ◌≡◌, refl, sym, ap, ◌∙◌, ◌==◌,
  contains, arith,
}
use logquill_python.Dict.{update}
use logquill_python.Dict.Updates.{get-update_absent}
use logquill_python.Value.{str, Meta}
use logquill_python.TraceTree.{named}
use logquill_python.Spans.{
  Span, span_meta, Block, logs, spans, binds, throws, catches, Blocks, done, next,
}
use logquill_python.Spans.Scope.{Scoped, inside, then_scoped, scoped, scoped_all}
use logquill_python.Spans.Metas.{
  IsPlain, span-inside_plain, parent-inside, parent-span_meta, span-inside_span,
}
use logquill_python.Spans.Ordered.{
  Mark, mark, marks, marks-append, saw_all, ids_of, ids_of_all, IsTidy, AreTidy, Emits, IsAround,
  AreGiven, named_value, nothing-Emits, event-Emits, append-Emits, short-Emits, span-Emits,
  contains-append,
}

then-Emits :
    (seen used ids more : List String) (first rest : Scoped)
    → Emits seen used ids (marks first.records)
    → Emits (saw_all seen (marks first.records)) (ids ++ used) more (marks rest.records)
    → Emits seen used (ids ++ more) (marks (then_scoped first rest).records)
then-Emits seen used ids more first rest a b = by_raised first.records first.raised a b
  where
    by_raised :
        (records : List Meta) (raised : Option String)
        → Emits seen used ids (marks records)
        → Emits (saw_all seen (marks records)) (ids ++ used) more (marks rest.records)
        → Emits seen used
            (ids ++ more)
            (marks (then_scoped (record { records = records; raised = raised }) rest).records)
    by_raised records none a b =
        subst (Emits seen used (ids ++ more)) (sym (marks-append records rest.records))
          (append-Emits seen used ids more (marks records) (marks rest.records) a b)
    by_raised records (some error) a b = short-Emits seen used ids more (marks records) a

mark-event :
    (seen used : List String) (p : Option String) (context meta : Meta)
    → IsAround seen used p
    → IsPlain context
    → IsPlain meta
    → mark (inside p context meta) ≡ (none, p)
mark-event seen used p context meta around c m = λ i. (
  ap named (span-inside_plain p context meta c m) i,
  (ap named (parent-inside p context meta c m.1) ∙ named_value seen used p around) i,
)

mark-span :
    (seen used : List String) (p : Option String) (context : Meta) (span : Span)
    (raised : Option String)
    → IsAround seen used p
    → IsPlain context
    → (span.span_id == "") ≡ false
    → span.explicit_parent ≡ none
    → IsPlain span.meta
    → mark (inside p context (span_meta span raised)) ≡ (some span.span_id, p)
mark-span seen used p context span raised around c nonempty own m = λ i. (
  (ap named (span-inside_span p context span raised own m) ∙ kept_name span.span_id nonempty) i,
  (ap named (parent-inside p context (span_meta span raised) c (parent-span_meta span raised own m))
        ∙ named_value seen used p around)
      i,
)
  where
    kept_name : (id : String) → (id == "") ≡ false → named (some (str id)) ≡ some id
    kept_name id h = rw h refl

update-IsPlain :
    (context values : Meta) → IsPlain context → IsPlain values → IsPlain (update context values)
update-IsPlain context values c v = (
  get-update_absent context values "span_id" v.0 ∙ c.0,
  get-update_absent context values "parent_span_id" v.1 ∙ c.1,
)

saw_all-given :
    (seen used ids : List String) (l : List Mark)
    → Emits seen used ids l
    → AreGiven (saw_all seen l) (ids ++ used)
saw_all-given seen used ids l a = a.within

IsAround-later :
    (seen used ids : List String) (l : List Mark) (p : Option String)
    → Emits seen used ids l
    → IsAround seen used p
    → IsAround (saw_all seen l) (ids ++ used) p
IsAround-later seen used ids l none a around = tt
IsAround-later seen used ids l (some p) a (nonempty, held, unseen) =
    (nonempty, ground (arith, held, contains-append ids used p), a.old_same p held ∙ unseen)

IsAround-inner :
    (seen used : List String) (id : String)
    → AreGiven seen used
    → (id == "") ≡ false
    → contains used id ≡ false
    → IsAround seen (id ∷ used) (some id)
IsAround-inner seen used id given nonempty fresh =
    (nonempty, ground (arith, string_eq.same_iff id id), ground (arith, given id, fresh))

given_inner :
    (seen used : List String) (id : String) → AreGiven seen used → AreGiven seen (id ∷ used)
given_inner seen used id given x h = ground (arith, given x h)

mutual
  unfolding scoped ids_of IsTidy

  pub scoped-Emits :
      (block : Block) (p : Option String) (context : Meta) (seen used : List String)
      → AreGiven seen used
      → IsAround seen used p
      → IsPlain context
      → IsTidy used block
      → Emits seen used (ids_of block) (marks (scoped block p context).records)
  scoped-Emits (logs meta) p context seen used given around c tidy =
      subst (λ (m : Mark). Emits seen used [] (m ∷ []))
        (sym (mark-event seen used p context meta around c tidy))
        (event-Emits seen used p given around)
  scoped-Emits (spans span body) p context seen used given around c
        (nonempty, fresh, own, m, tidy) =
      let id = span.span_id in
      let inner = scoped_all body (some id) context in
      let e = mark-span seen used p context span inner.raised around c nonempty own m in
      subst (Emits seen used (id ∷ ids_of_all body))
        (sym (
          marks-append inner.records (inside p context (span_meta span inner.raised) ∷ [])
          ∙ ap (λ (k : Mark). marks inner.records ++ k ∷ []) e))
        (span-Emits seen used (ids_of_all body) p id (marks inner.records) around fresh (
          scoped_all-Emits body (some id) context seen (id ∷ used) (given_inner seen used id given)
            (IsAround-inner seen used id given nonempty fresh) c tidy))
  scoped-Emits (binds values body) p context seen used given around c (v, tidy) =
      scoped_all-Emits body p (update context values) seen used given around
        (update-IsPlain context values c v) tidy
  scoped-Emits (throws error) p context seen used given around c tidy =
      nothing-Emits seen used given
  scoped-Emits (catches body) p context seen used given around c tidy =
      scoped_all-Emits body p context seen used given around c tidy

  scoped_all-Emits :
      (body : Blocks) (p : Option String) (context : Meta) (seen used : List String)
      → AreGiven seen used
      → IsAround seen used p
      → IsPlain context
      → AreTidy used body
      → Emits seen used (ids_of_all body) (marks (scoped_all body p context).records)
  scoped_all-Emits done p context seen used given around c tidy = nothing-Emits seen used given
  scoped_all-Emits (next block rest) p context seen used given around c (tidy, more) =
      let a = scoped-Emits block p context seen used given around c tidy in
      let here = marks (scoped block p context).records in
      then-Emits seen used (ids_of block) (ids_of_all rest) (scoped block p context)
        (scoped_all rest p context) a
        (scoped_all-Emits rest p context (saw_all seen here) (ids_of block ++ used) a.within
          (IsAround-later seen used (ids_of block) here p a around) c more)
