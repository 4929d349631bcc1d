-- ===== src/Logfmt/Read.antt =====
-- `parse_logfmt`, `logquill/parsing.py`. Its patterns are written out: both are decided by the next
-- character, so a scan from left to right finds what the backtracking matcher finds.
use logquill_python.Base.{
  ℕ, zero, suc, ◌+◌, ◌-◌, ◌*◌, Bool, true, false, ◌&&◌, Option, none, some, List, [], ◌∷◌, ◌++◌,
  leb, ◌==◌, nat_eq, length, if◌then◌else◌,
}
use logquill_python.Base.Text.{codes_eq}
use logquill_python.Dict.{Dict, update}
use logquill_python.Logfmt.Chars.{is_key_char, is_bare_char, is_hex}

abbrev pub Text : Type 0
Text = List ℕ

abbrev pub before : ℕ → Text × Text → Text × Text
before c (run, rest) = (c ∷ run, rest)

-- `[...]*`: the longest run of a class, and what is left
unfoldable pub span : (ℕ → Bool) → Text → Text × Text
span test [] = ([], [])
span test (c ∷ cs) = let more = span test cs in if test c then before c more else ([], c ∷ cs)

abbrev pub before_quoted : ℕ → Option (Text × Text) → Option (Text × Text)
before_quoted c none = none
before_quoted c (some (inner, rest)) = some (c ∷ inner, rest)

-- `(?:[^"\\]|\\.)*"` behind the opening quote: the text before the closing one, and what is left;
-- the flag is set behind a backslash
unfoldable pub quoted : Bool → Text → Option (Text × Text)
quoted escaped [] = none
quoted true (c ∷ cs) = let more = quoted false cs in if c == 10 then none else before_quoted c more
quoted false (c ∷ cs) =
    let plain = quoted false cs in
    let behind = quoted true cs in
    if c == b'"'
    then some ([], cs)
    else if c == b'\\'
    then before_quoted c behind
    else before_quoted c plain

abbrev pub with_quotes : Option (Text × Text) → Text × Text → Text × Text
with_quotes none bare = bare
with_quotes (some (inner, rest)) bare = (b'"' ∷ (inner ++ b'"' ∷ []), rest)

-- behind `=`: a quoted text, or a run without spaces and quotes
unfoldable pub read_value : Text → Text × Text
unfolding quoted span
read_value [] = ([], [])
read_value (c ∷ cs) =
    let bare = span is_bare_char (c ∷ cs) in
    if c == b'"' then with_quotes (quoted false cs) bare else bare

-- the group behind the key, if there is one
unfoldable pub read_group : Text → Text × Text
unfolding read_value
read_group [] = ([], [])
read_group (c ∷ cs) = if c == b'=' then read_value cs else ([], c ∷ cs)

-- `_LOGFMT_PAIR.findall`; each round takes a character at least
unfoldable pub find_pairs : ℕ → Text → List (Text × Text)
unfolding span read_group
find_pairs zero line = []
find_pairs (suc fuel) [] = []
find_pairs (suc fuel) (c ∷ cs) =
    let (key, rest) = span is_key_char (c ∷ cs) in
    let (value, rest') = read_group rest in
    let found = find_pairs fuel rest' in
    let skipped = find_pairs fuel cs in if is_key_char c then (key, value) ∷ found else skipped

-- `int(digit, 16)`
unfoldable pub hex_value : ℕ → ℕ
hex_value c = if leb c b'9' then c - b'0' else if leb b'a' c then c - b'a' + 10 else c - b'A' + 10

abbrev pub hex_code : ℕ → ℕ → ℕ → ℕ → ℕ
hex_code a b c d = hex_value a * 4096 + hex_value b * 256 + hex_value c * 16 + hex_value d

-- `_UNESCAPES.get(code, "\\" + code)`
unfoldable pub unescape_char : ℕ → Text
unescape_char c =
    if c == b'"'
    then b'"' ∷ []
    else if c == b'\\'
    then b'\\' ∷ []
    else if c == b'n'
    then 10 ∷ []
    else if c == b'r'
    then 13 ∷ []
    else if c == b't'
    then 9 ∷ []
    else b'\\' ∷ c ∷ []

-- `_ESCAPE` behind a backslash and `_unescape`: the text put in, and the length of group 1
unfoldable pub read_escape : Text → Text × ℕ
unfolding unescape_char hex_value
read_escape [] = (b'\\' ∷ [], 0)
read_escape (u ∷ a ∷ b ∷ c ∷ d ∷ cs) =
    if u == b'u' && is_hex a && is_hex b && is_hex c && is_hex d
    then (hex_code a b c d ∷ [], 5)
    else (unescape_char u, 1)
read_escape (u ∷ cs) = (unescape_char u, 1)

-- `_ESCAPE.sub(_unescape, text)`, with a number of characters that a match has taken
unfoldable pub unescape : ℕ → Text → Text
unfolding read_escape
unescape skip [] = []
unescape (suc skip) (c ∷ cs) = unescape skip cs
unescape zero (c ∷ cs) =
    let (out, taken) = read_escape cs in
    let behind = unescape taken cs in
    let plain = unescape zero cs in if c == b'\\' then out ++ behind else c ∷ plain

-- `value[:-1]` and whether its last character is a quote
abbrev pub init : Text → Text
init [] = []
init (c ∷ []) = []
init (c ∷ d ∷ cs) = c ∷ init (d ∷ cs)

abbrev pub ends_quote : Text → Bool
ends_quote [] = false
ends_quote (c ∷ []) = c == b'"'
ends_quote (c ∷ d ∷ cs) = ends_quote (d ∷ cs)

-- a value in quotes is unescaped
unfoldable pub unquote : Text → Text
unfolding unescape
unquote [] = []
unquote (c ∷ cs) =
    let inner = unescape 0 (init cs) in if c == b'"' && ends_quote cs then inner else c ∷ cs

abbrev pub unquote_all : List (Text × Text) → Dict Text Text
unquote_all [] = []
unquote_all ((key, value) ∷ pairs) = (key, unquote value) ∷ unquote_all pairs

-- `parse_logfmt`: the last value of a key wins
unfoldable pub parse_logfmt : Text → Dict Text Text
unfolding find_pairs unquote
parse_logfmt line = update [] (unquote_all (find_pairs (length line) line))
