-- ===== src/Spans/Metas.antt =====
-- The ids in the `meta`s that a block writes, where the calls give none of their own.
use logquill_python.Base.{
  String, string_eq, false, Option, none, some, [], ◌∷◌, ◌≡◌, refl, ap, ◌∙◌, ◌==◌,
}
use logquill_python.Dict.{get, set_default, update, IsDict}
use logquill_python.Dict.Laws.{get-put, get-set_default}
use logquill_python.Dict.Size.{put-IsDict}
use logquill_python.Dict.Updates.{
  get-update_absent, get-update_present, update-IsDict, set_default-IsDict,
}
use logquill_python.Value.{Value, str, float, Meta}
use logquill_python.Logger.Prepare.{add_context, add_parent}
use logquill_python.Spans.{Span, span_meta, put_some, default_some, as_value}
use logquill_python.Spans.Scope.{inside}

-- a `meta` that names neither of the two ids
abbrev pub IsPlain : Meta → Type 0
IsPlain meta = (get meta "span_id" ≡ none) × (get meta "parent_span_id" ≡ none)

add_context_absent :
    (context meta : Meta) (k : String)
    → get context k ≡ none
    → get meta k ≡ none
    → get (add_context context meta) k ≡ none
add_context_absent [] meta k h g = g
add_context_absent (x ∷ context) meta k h g = get-update_absent (x ∷ context) meta k g ∙ h

add_context_present :
    (context meta : Meta) (k : String) (v : Value)
    → IsDict meta
    → get meta k ≡ some v
    → get (add_context context meta) k ≡ some v
add_context_present [] meta k v u g = g
add_context_present (x ∷ context) meta k v u g = get-update_present (x ∷ context) meta k v u g

parent-add_parent :
    (parent : Option String) (meta : Meta)
    → get meta "parent_span_id" ≡ none
    → get (add_parent parent meta) "parent_span_id" ≡ as_value parent
parent-add_parent none meta h = h
parent-add_parent (some p) meta h =
    get-set_default meta "parent_span_id" "parent_span_id" (str p) ∙ (rw h refl)

span-add_parent :
    (parent : Option String) (meta : Meta)
    → get (add_parent parent meta) "span_id" ≡ get meta "span_id"
span-add_parent none meta = refl
span-add_parent (some p) meta = get-set_default meta "parent_span_id" "span_id" (str p)

pub span-inside_plain :
    (parent : Option String) (context meta : Meta)
    → IsPlain context
    → IsPlain meta
    → get (inside parent context meta) "span_id" ≡ none
span-inside_plain parent context meta c m =
    span-add_parent parent (add_context context meta)
    ∙ add_context_absent context meta "span_id" c.0 m.0

pub parent-inside :
    (parent : Option String) (context meta : Meta)
    → IsPlain context
    → get meta "parent_span_id" ≡ none
    → get (inside parent context meta) "parent_span_id" ≡ as_value parent
parent-inside parent context meta c m =
    parent-add_parent parent (add_context context meta)
      (add_context_absent context meta "parent_span_id" c.1 m)

put_some_other :
    (key k : String) (o : Option Value) (meta : Meta)
    → (key == k) ≡ false
    → get (put_some key o meta) k ≡ get meta k
put_some_other key k none meta h = refl
put_some_other key k (some v) meta h = get-put meta key k v ∙ (rw h refl)

default_some_other :
    (key k : String) (o : Option Value) (meta : Meta)
    → (key == k) ≡ false
    → get (default_some key o meta) k ≡ get meta k
default_some_other key k none meta h = refl
default_some_other key k (some v) meta h = get-set_default meta key k v ∙ (rw h refl)

set_default_other :
    (key k : String) (v : Value) (meta : Meta)
    → (key == k) ≡ false
    → get (set_default meta key v) k ≡ get meta k
set_default_other key k v meta h = get-set_default meta key k v ∙ (rw h refl)

abbrev first_fields : Span → Meta
first_fields span = ("span_id", str span.span_id) ∷ ("duration_ms", float span.duration) ∷ []

get-span_meta :
    (span : Span) (raised : Option String) (k : String)
    → span.explicit_parent ≡ none
    → ("error" == k) ≡ false
    → ("state_diff" == k) ≡ false
    → ("kind" == k) ≡ false
    → get (span_meta span raised) k ≡ get (update (first_fields span) span.meta) k
unfolding span_meta
get-span_meta span raised k own e d n =
    let base = update (first_fields span) span.meta in
    let given = put_some "parent_span_id" (as_value span.explicit_parent) base in
    let kinded = set_default given "kind" (str "span") in
    put_some_other "error" k (as_value raised) (default_some "state_diff" span.state_diff kinded) e
    ∙ default_some_other "state_diff" k span.state_diff kinded d
    ∙ set_default_other "kind" k (str "span") given n
    ∙ ap (λ (o : Option String). get (put_some "parent_span_id" (as_value o) base) k) own

put_some-IsDict :
    (key : String) (o : Option Value) (meta : Meta) → IsDict meta → IsDict (put_some key o meta)
put_some-IsDict key none meta u = u
put_some-IsDict key (some v) meta u = put-IsDict meta key v u

default_some-IsDict :
    (key : String) (o : Option Value) (meta : Meta) → IsDict meta → IsDict (default_some key o meta)
default_some-IsDict key none meta u = u
default_some-IsDict key (some v) meta u = set_default-IsDict meta key v u

span_meta-IsDict : (span : Span) (raised : Option String) → IsDict (span_meta span raised)
unfolding span_meta
span_meta-IsDict span raised =
    let base = update (first_fields span) span.meta in
    let given = put_some "parent_span_id" (as_value span.explicit_parent) base in
    let kinded = set_default given "kind" (str "span") in
    put_some-IsDict "error" (as_value raised) (default_some "state_diff" span.state_diff kinded) (
      default_some-IsDict "state_diff" span.state_diff kinded (
        set_default-IsDict given "kind" (str "span") (
          put_some-IsDict "parent_span_id" (as_value span.explicit_parent) base
            (update-IsDict (first_fields span) span.meta (unfold get in (refl, (refl, tt)))))))

pub parent-span_meta :
    (span : Span) (raised : Option String)
    → span.explicit_parent ≡ none
    → IsPlain span.meta
    → get (span_meta span raised) "parent_span_id" ≡ none
parent-span_meta span raised own m =
    get-span_meta span raised "parent_span_id" own refl refl refl
    ∙ get-update_absent (first_fields span) span.meta "parent_span_id" m.1
    ∙ (unfold get in refl)

pub span-inside_span :
    (parent : Option String) (context : Meta) (span : Span) (raised : Option String)
    → span.explicit_parent ≡ none
    → IsPlain span.meta
    → get (inside parent context (span_meta span raised)) "span_id" ≡ some (str span.span_id)
span-inside_span parent context span raised own m =
    span-add_parent parent (add_context context (span_meta span raised))
    ∙ add_context_present context (span_meta span raised) "span_id" (str span.span_id)
        (span_meta-IsDict span raised)
        (get-span_meta span raised "span_id" own refl refl refl
          ∙ get-update_absent (first_fields span) span.meta "span_id" m.0
          ∙ first_is span)
  where
    first_is : (span : Span) → get (first_fields span) "span_id" ≡ some (str span.span_id)
    first_is span = unfold get in refl
