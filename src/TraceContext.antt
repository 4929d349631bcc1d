-- ===== src/TraceContext.antt =====
-- `TraceContextPlugin` and `parse_trace_header`, `logquill/plugins/trace_context_plugin.py`. The three
-- patterns are written out; `\d` is that of Records/Version. A text is its list of code points; the id of an
-- active OpenTelemetry span, and a fresh id, are given with the call.
pub mod Ids
use logquill_python.Base.{
  ℕ, zero, suc, ◌+◌, Bool, true, false, ◌&&◌, ◌||◌, Option, none, some, List, [], ◌∷◌, ◌++◌, leb,
  ◌==◌, nat_eq, String, string_eq, if◌then◌else◌,
}
use logquill_python.Base.Text.{codes}
use logquill_python.Dict.{get, put}
use logquill_python.Value.{str, present}
use logquill_python.Records.{Record}
use logquill_python.Logfmt.Chars.{is_space}
use logquill_python.Records.Version.{is_digit}

module _ {A B : Type 0} where
  infixl 5 ◌>>=◌
  -- what follows where there is a match
  abbrev pub ◌>>=◌ : Option A → (A → Option B) → Option B
  none >>= next = none
  some a >>= next = next a

abbrev pub or_else : {A : Type 0} → Option A → Option A → Option A
or_else none other = other
or_else (some a) other = some a

abbrev pub Text : Type 0
Text = List ℕ

unfoldable pub strip_left : Text → Text
unfolding is_space
strip_left [] = []
strip_left (c ∷ text) = let rest = strip_left text in if is_space c then rest else c ∷ text

abbrev pub before_blank : Bool → ℕ → Text → Text
before_blank true c [] = []
before_blank blank c rest = c ∷ rest

unfoldable pub strip_right : Text → Text
unfolding is_space
strip_right [] = []
strip_right (c ∷ text) = before_blank (is_space c) c (strip_right text)

-- `header.strip()`
unfoldable pub strip : Text → Text
unfolding strip_left strip_right
strip text = strip_right (strip_left text)

-- `[0-9a-f]`
unfoldable pub is_hex : ℕ → Bool
is_hex c = (leb b'0' c && leb c b'9') || (leb b'a' c && leb c b'f')

abbrev pub before : ℕ → Option (Text × Text) → Option (Text × Text)
before c none = none
before c (some (run, rest)) = some (c ∷ run, rest)

-- `[0-9a-f]{n}`: the run, and what is left
unfoldable pub take_hex : ℕ → Text → Option (Text × Text)
unfolding is_hex
take_hex zero text = some ([], text)
take_hex (suc n) [] = none
take_hex (suc n) (c ∷ text) = let rest = take_hex n text in if is_hex c then before c rest else none

-- a literal text
unfoldable pub take_text : Text → Text → Option Text
take_text [] text = some text
take_text (k ∷ wanted) [] = none
take_text (k ∷ wanted) (c ∷ text) =
    let rest = take_text wanted text in if k == c then rest else none

-- `$`: at the end, or before a newline there
abbrev pub at_end : Text → Bool
at_end [] = true
at_end (c ∷ []) = c == 10
at_end _ = false

-- `_W3C_TRACEPARENT_RE.match(header)`, its trace id
unfoldable pub match_w3c : Text → Option Text
unfolding take_hex take_text
match_w3c text = do
  (version, rest1) ← take_hex 2 text
  rest2 ← take_text (codes "-") rest1
  (trace_id, rest3) ← take_hex 32 rest2
  rest4 ← take_text (codes "-") rest3
  (parent_id, rest5) ← take_hex 16 rest4
  rest6 ← take_text (codes "-") rest5
  (flags, rest7) ← take_hex 2 rest6
  if at_end rest7 then some trace_id else none

-- `_XRAY_ROOT_RE` at the start of a text, both groups together
unfoldable pub match_xray : Text → Option Text
unfolding take_hex take_text
match_xray text = do
  rest1 ← take_text (codes "Root=1-") text
  (time, rest2) ← take_hex 8 rest1
  rest3 ← take_text (codes "-") rest2
  (rand, rest4) ← take_hex 24 rest3
  some (time ++ rand)

-- `_XRAY_ROOT_RE.search(header)`: the first place where it matches
unfoldable pub search_xray : Text → Option Text
unfolding match_xray
search_xray [] = none
search_xray (c ∷ text) = or_else (match_xray (c ∷ text)) (search_xray text)

-- `\d+`, greedy, and what is left; the flag is set behind a digit
unfoldable pub skip_digits : Bool → Text → Option Text
skip_digits seen [] = if seen then some [] else none
skip_digits seen (c ∷ text) =
    let rest = skip_digits true text in
    if is_digit c then rest else if seen then some (c ∷ text) else none

-- `(;o=\d)?$`
abbrev pub is_option : Option Text → Bool
is_option none = false
is_option (some []) = false
is_option (some (c ∷ text)) = is_digit c && at_end text

-- `_GCP_TRACE_RE.match(header)`, its trace id
unfoldable pub match_gcp : Text → Option Text
unfolding take_hex take_text skip_digits
match_gcp text = do
  (trace_id, rest1) ← take_hex 32 text
  rest2 ← take_text (codes "/") rest1
  rest3 ← skip_digits false rest2
  if at_end rest3 || is_option (take_text (codes ";o=") rest3) then some trace_id else none

-- `parse_trace_header`
unfoldable pub parse_trace_header : Text → Option Text
unfolding strip match_w3c search_xray match_gcp
parse_trace_header header =
    let text = strip header in
    or_else (match_w3c text) (or_else (search_xray text) (match_gcp text))

-- `set_traceparent`: the token, and the bound header after it
unfoldable pub set_traceparent : Option Text → Option Text → Option Text × Option Text
set_traceparent bound value = (bound, value)

-- `reset_traceparent`
unfoldable pub reset_traceparent : Option Text → Option Text → Option Text
reset_traceparent bound token = token

-- the header that the plugin reads: its own if that is not empty, or else the bound one
abbrev pub header_of : Option Text → Option Text → Option Text
header_of none bound = bound
header_of (some []) bound = bound
header_of (some (c ∷ given)) bound = some (c ∷ given)

abbrev pub parse_some : Option Text → Option Text
parse_some none = none
parse_some (some header) = parse_trace_header header

abbrev pub or_fresh : Option Text → Text → Text
or_fresh none fresh = fresh
or_fresh (some id) fresh = id

-- `_resolve_trace_id`, with the id of an active span, the plugin's header, the bound one and a fresh id
unfoldable pub resolve_trace_id : Option Text → Option Text → Option Text → Text → Text
unfolding parse_trace_header
resolve_trace_id from_otel given bound fresh =
    or_fresh (or_else from_otel (parse_some (header_of given bound))) fresh

-- `before_log`, with what `_resolve_trace_id` returns
unfoldable pub stamp : String → String → Record → Record
stamp trace_key resolved r = elim (present (get r.meta trace_key)) [
  | none ↦ record r { meta = put r.meta trace_key (str resolved) }
  | some value ↦ r
]
