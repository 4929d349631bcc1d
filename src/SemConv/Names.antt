-- ===== src/SemConv/Names.antt =====
-- The names of attributes: each is of the one convention that was asked for, or an extension.
use logquill_python.Base.{
  String, string_eq, false, Option, List, [], ◌∷◌, ◌==◌, ◌≡◌, contains, All, Result, ok, raise,
}
use logquill_python.Value.{Value, Meta}
use logquill_python.SemConv.{
  operation, provider, request_model, response_model, input_tokens, output_tokens, finish_reasons,
  agent_name, agent_id, conversation_id, tool_name, tool_call_id, input_messages, output_messages,
  Convention, SpanSpec,
}

-- the names of a convention
abbrev pub names_of : Convention → List String
names_of c =
    c.names operation
    ∷ c.names provider
    ∷ c.names request_model
    ∷ c.names response_model
    ∷ c.names input_tokens
    ∷ c.names output_tokens
    ∷ c.names finish_reasons
    ∷ c.names agent_name
    ∷ c.names agent_id
    ∷ c.names conversation_id
    ∷ c.names tool_name
    ∷ c.names tool_call_id
    ∷ c.names input_messages
    ∷ c.names output_messages
    ∷ []

-- the attributes that no convention defines, and the error's
abbrev pub extensions : List String
extensions =
    "logquill.run_id" ∷ "logquill.node_name" ∷ "logquill.retry_count" ∷ "logquill.cost_usd"
    ∷ "error.type" ∷ []

-- No attribute that an entry list sets has the name `k`.
abbrev Lacks : String → List (String × Option Value) → Type 0
Lacks k = All (λ e. (e.0 == k) ≡ false)

-- A name that is neither `c`'s nor an extension.
pub record IsForeign (c : Convention) (k : String) : Type 0 where
  pub unnamed : contains (names_of c) k ≡ false
  pub unlisted : contains extensions k ≡ false

-- the attributes of a span that may not be there
abbrev pub attributes_of : Result SpanSpec → Meta
attributes_of (raise e) = []
attributes_of (ok spec) = spec.attributes
