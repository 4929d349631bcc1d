-- ===== src/Logfmt.antt =====
-- logfmt lines: `logquill/formatters/logfmt_formatter.py`. A text is its list of code points. JSON,
-- `str` of a float and of another object are parameters.
pub mod Chars
pub mod Read
pub mod Quoting
pub mod Words
pub mod Lines
pub mod Keys
pub mod Format
pub mod Shadow
use logquill_python.Base.{
  ℕ, zero, suc, ◌+◌, ◌-◌, ◌/◌, ◌%◌, String, Bool, true, false, not, ◌&&◌, ◌||◌, Option, none, some,
  List, [], ◌∷◌, ◌++◌, leb, ltb, ◌==◌, nat_eq, contains, if◌then◌else◌,
}
use logquill_python.Base.Int.{ℤ, pos, negsuc}
use logquill_python.Base.Text.{codes, codes_eq}
use logquill_python.Value.{
  Value, Fields, null, bool, int, float, str, list, dict, object, end, field, Meta, of_entries,
}
use logquill_python.Records.{Record}
use Chars.{is_control, is_special}

abbrev pub Text : Type 0
Text = List ℕ

-- what the formatter calls for values of other kinds
pub record Texts : Type 0 where
  pub json : Value → Text
  pub str_float : ℤ → Text
  pub str_object : ℕ → Text

-- `_NEEDS_QUOTES.search(text)`
unfoldable pub has_special : Text → Bool
has_special [] = false
has_special (c ∷ text) = let more = has_special text in is_special c || more

unfoldable pub needs_quotes : Text → Bool
unfolding has_special
needs_quotes [] = true
needs_quotes (c ∷ text) = has_special (c ∷ text)

-- `f"{d:x}"` of one digit
unfoldable pub hex_digit : ℕ → ℕ
hex_digit d = if ltb d 10 then d + b'0' else d - 10 + b'a'

-- `f"\\u{c:04x}"`, below 16 ** 4
unfoldable pub unicode_escape : ℕ → Text
unfolding hex_digit
unicode_escape c =
    b'\\'
    ∷ b'u'
    ∷ hex_digit (c / 4096 % 16)
    ∷ hex_digit (c / 256 % 16)
    ∷ hex_digit (c / 16 % 16)
    ∷ hex_digit (c % 16)
    ∷ []

-- a character in `_quote`
unfoldable pub escape_char : ℕ → Text
unfolding unicode_escape
escape_char c =
    if c == b'"'
    then b'\\' ∷ b'"' ∷ []
    else if c == b'\\'
    then b'\\' ∷ b'\\' ∷ []
    else if c == 10
    then b'\\' ∷ b'n' ∷ []
    else if c == 13
    then b'\\' ∷ b'r' ∷ []
    else if c == 9
    then b'\\' ∷ b't' ∷ []
    else if is_control c
    then unicode_escape c
    else c ∷ []

unfoldable pub escape : Text → Text
unfolding escape_char
escape [] = []
escape (c ∷ text) = escape_char c ++ escape text

-- `_quote`
unfoldable pub quote : Text → Text
unfolding needs_quotes escape
quote text = if needs_quotes text then b'"' ∷ (escape text ++ b'"' ∷ []) else text

unfoldable pub clean_key : Text → Text
clean_key [] = []
clean_key (c ∷ raw) = (if is_special c then b'_' else c) ∷ clean_key raw

-- `_key`
unfoldable pub key_of : Text → Text
unfolding clean_key
key_of [] = b'_' ∷ []
key_of (c ∷ raw) = clean_key (c ∷ raw)

-- the decimal digits of a number, before `rest`; a number has no more digits than it is large, or
-- one
unfoldable pub digits : ℕ → ℕ → Text → Text
digits zero n rest = rest
digits (suc fuel) n rest =
    let text = (n % 10 + b'0') ∷ rest in
    let more = digits fuel (n / 10) text in if ltb n 10 then text else more

-- `str` of an `int`
unfoldable pub str_int : ℤ → Text
unfolding digits
str_int (pos n) = digits (suc n) n []
str_int (negsuc n) = b'-' ∷ digits (suc (suc n)) (suc n) []

-- `_scalar`
unfoldable pub scalar : Texts → Value → Text
unfolding quote str_int
scalar texts null = codes "null"
scalar texts (bool true) = codes "true"
scalar texts (bool false) = codes "false"
scalar texts (int n) = str_int n
scalar texts (float n) = texts.str_float n
scalar texts (str s) = quote (codes s)
scalar texts (list l) = quote (texts.json (list l))
scalar texts (dict fs) = quote (texts.json (dict fs))
scalar texts (object n) = quote (texts.str_object n)

abbrev pub has_fields : Fields → Bool
has_fields end = false
has_fields (field _ _ _) = true

abbrev pub max_flatten_depth : ℕ
max_flatten_depth = 5

-- `f"{key}={text}"`
abbrev pub pair : Text → Text → Text
pair key text = key ++ b'=' ∷ text

-- `_flatten`: what it appends to `out`
unfoldable mutual
  unfolding scalar key_of

  pub flatten : Texts → Text → Value → ℕ → List Text
  flatten texts prefix (dict fs) depth =
      let inner = flatten_fields texts prefix fs (suc depth) in
      if has_fields fs && ltb depth max_flatten_depth
      then inner
      else pair prefix (scalar texts (dict fs)) ∷ []
  flatten texts prefix null depth = pair prefix (scalar texts null) ∷ []
  flatten texts prefix (bool b) depth = pair prefix (scalar texts (bool b)) ∷ []
  flatten texts prefix (int n) depth = pair prefix (scalar texts (int n)) ∷ []
  flatten texts prefix (float n) depth = pair prefix (scalar texts (float n)) ∷ []
  flatten texts prefix (str s) depth = pair prefix (scalar texts (str s)) ∷ []
  flatten texts prefix (list l) depth = pair prefix (scalar texts (list l)) ∷ []
  flatten texts prefix (object n) depth = pair prefix (scalar texts (object n)) ∷ []

  pub flatten_fields : Texts → Text → Fields → ℕ → List Text
  flatten_fields texts prefix end depth = []
  flatten_fields texts prefix (field k v fs) depth =
      flatten texts (prefix ++ b'.' ∷ key_of (codes k)) v depth
      ++ flatten_fields texts prefix fs depth

abbrev pub reserved_keys : List Text
reserved_keys = codes "timestamp" ∷ codes "level" ∷ codes "logger" ∷ codes "message" ∷ []

-- the key of an entry of `meta`
unfoldable pub meta_key : Text → Text
unfolding key_of
meta_key raw =
    let key = key_of raw in if contains reserved_keys key then codes "meta." ++ key else key

unfoldable pub meta_pairs : Texts → Meta → List Text
unfolding flatten meta_key
meta_pairs texts [] = []
meta_pairs texts ((k, v) ∷ meta) = flatten texts (meta_key (codes k)) v 1 ++ meta_pairs texts meta

-- `if llm: _flatten("llm", llm, 1, pairs)`
unfoldable pub llm_pairs : Texts → Option Meta → List Text
unfolding flatten
llm_pairs texts none = []
llm_pairs texts (some []) = []
llm_pairs texts (some (entry ∷ llm)) =
    flatten texts (codes "llm") (dict (of_entries (entry ∷ llm))) 1

abbrev pub join_after : List Text → Text
join_after [] = []
join_after (p ∷ pairs) = b' ' ∷ (p ++ join_after pairs)

-- `" ".join(pairs)`
abbrev pub join : List Text → Text
join [] = []
join (p ∷ pairs) = p ++ join_after pairs

-- `LogfmtFormatter.format`
unfoldable pub format : Texts → Record → Text
unfolding quote llm_pairs meta_pairs
format texts r = join (
    pair (codes "timestamp") (quote (codes r.timestamp))
    ∷ pair (codes "level") (quote (codes r.level))
    ∷ pair (codes "logger") (quote (codes r.logger))
    ∷ pair (codes "message") (quote (codes r.message))
    ∷ (llm_pairs texts r.llm ++ meta_pairs texts r.meta))
