-- ===== src/Tests/Spans.antt =====
-- The spans that records are exported as, each at one input.
use logquill_python.Base.{String, string_eq, false, some, [], ◌∷◌, ◌≡◌, refl}
use logquill_python.Base.Int.{pos}
use logquill_python.Dict.{get, put}
use logquill_python.Value.{Value, str, int}
use logquill_python.Records.{Record}
use logquill_python.SemConv.{latest, legacy, error_type}
use logquill_python.SemConv.Specs.{llm_spec}
use logquill_python.SemConv.Names.{IsForeign}
use logquill_python.SemConv.Content.{without_content, llm_spec-without_content}
use logquill_python.SemConv.OptIn.{split_commas, tokens_of, warn}

abbrev json : Value → String
json v = "json"

abbrev call : Record
call = record {
  schema_version = "2.0";
  timestamp = "t";
  level = "INFO";
  logger = "app";
  message = "m";
  meta =
      ("provider", str "acme")
      ∷ ("input_messages", str "a prompt")
      ∷ ("error", str "KeyError: x")
      ∷ [];
  llm = some (("model", str "m-1") ∷ ("tokens_in", int (pos 7)) ∷ []);
}

new_name_IsForeign : IsForeign legacy "gen_ai.provider.name"
new_name_IsForeign = record { unnamed = refl; unlisted = refl }

llm_spec-without_content_example :
    llm_spec json call latest "unknown" false
    ≡ llm_spec json (record call { meta = without_content call.meta }) latest "unknown" false
llm_spec-without_content_example = llm_spec-without_content json call latest "unknown"

test_model_name : (llm_spec json call latest "unknown" false).name ≡ "chat m-1"
unfolding llm_spec get
test_model_name = refl

test_old_provider :
    get (llm_spec json call legacy "unknown" false).attributes "gen_ai.system" ≡ some (str "acme")
unfolding llm_spec get put
test_old_provider = refl

test_error_type : error_type call.meta ≡ some "KeyError"
unfolding error_type get
test_error_type = refl

test_tokens : tokens_of (split_commas "a, b/dup ,,c") ≡ "a" ∷ "b/dup" ∷ "c" ∷ []
unfolding tokens_of split_commas
test_tokens = refl

test_warn : warn ("a" ∷ "b/dup" ∷ "b/dup" ∷ []) [] ≡ ("b/dup" ∷ [], "b/dup" ∷ [])
unfolding warn
test_warn = refl
