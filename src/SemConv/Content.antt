-- ===== src/SemConv/Content.antt =====
-- Prompts and completions: without capture, nothing of them is in the span.
use logquill_python.Base.{String, string_eq, false, ◌==◌, ◌≡◌, refl, ◌∙◌}
use logquill_python.Dict.{get, remove}
use logquill_python.Dict.Laws.{get-remove}
use logquill_python.Value.{Value, Meta}
use logquill_python.Records.{Record}
use logquill_python.SemConv.{Convention, common, error_type}
use logquill_python.SemConv.Specs.{llm_spec, llm_entries, messages, events_of}

-- a record's `meta` without prompts and completions
abbrev pub without_content : Meta → Meta
without_content meta = remove (remove meta "input_messages") "output_messages"

get-without_content :
    (meta : Meta) (k : String)
    → ("input_messages" == k) ≡ false
    → ("output_messages" == k) ≡ false
    → get (without_content meta) k ≡ get meta k
get-without_content meta k other_in other_out =
    get-remove (remove meta "input_messages") "output_messages" k
    ∙ rw other_out (get-remove meta "input_messages" k ∙ rw other_in refl)

common-without_content :
    (c : Convention) (meta : Meta) → common c (without_content meta) ≡ common c meta
unfolding common error_type
common-without_content c meta =
    rw
      (
        get-without_content meta "thread_id" refl refl,
        get-without_content meta "agent_name" refl refl,
        get-without_content meta "run_id" refl refl,
        get-without_content meta "node_name" refl refl,
        get-without_content meta "retry_count" refl refl,
        get-without_content meta "error" refl refl,
      )
      refl

-- The span of a record with an `llm` block is, where content is not captured, the same whatever
-- the record's prompts and completions are: it is the span of the record without them.
pub llm_spec-without_content :
    (json : Value → String) (r : Record) (c : Convention) (default_provider : String)
    → llm_spec json r c default_provider false
      ≡ llm_spec json (record r { meta = without_content r.meta }) c default_provider false
unfolding llm_spec llm_entries messages error_type events_of
llm_spec-without_content json r c default_provider =
    rw
      (
        common-without_content c r.meta,
        get-without_content r.meta "operation" refl refl,
        get-without_content r.meta "provider" refl refl,
        get-without_content r.meta "response_model" refl refl,
        get-without_content r.meta "error" refl refl,
        get-without_content r.meta "state_diff" refl refl,
      )
      refl
