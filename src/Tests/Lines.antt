-- ===== src/Tests/Lines.antt =====
-- A record whose message needs quotes and whose `meta` has the key `level`, for
-- `logquill/formatters/logfmt_formatter.py`.
use logquill_python.Base.{none, [], ◌∷◌, ◌≡◌, refl, All}
use logquill_python.Base.Int.{ℤ, pos}
use logquill_python.Base.Text.{codes, codes_eq}
use logquill_python.Dict.{get, update}
use logquill_python.Value.{str, int, dict, of_entries}
use logquill_python.Records.{Record}
use logquill_python.Logfmt.{Texts, format}
use logquill_python.Logfmt.Chars.{is_special, is_space, is_control}
use logquill_python.Logfmt.Read.{parse_logfmt}
use logquill_python.Logfmt.Words.{IsPlain, IsPrintable}
use logquill_python.Logfmt.Format.{fields_of_record, parse_logfmt-format, format-All-IsPrintable}
use logquill_python.Logfmt.Shadow.{own_fields, parse_logfmt-own_fields}

abbrev texts : Texts
texts = record {
  json = λ v. codes "[]";
  str_float = λ n. codes "0.5";
  str_object = λ n. codes "<object>";
}

IsPlain-floats : (n : ℤ) → All IsPlain (texts.str_float n)
unfolding is_special is_space is_control
IsPlain-floats n = (refl, (refl, (refl, tt)))

abbrev entry : Record
entry = record {
  schema_version = "2.0";
  timestamp = "t";
  level = "INFO";
  logger = "app";
  message = "a = \"b\"";
  meta =
      ("level", str "FATAL")
      ∷ ("http", dict (of_entries (("status", int (pos 200)) ∷ [])))
      ∷ ("no te", str "")
      ∷ [];
  llm = none;
}

parse_logfmt-format_example :
    parse_logfmt (format texts entry) ≡ update [] (fields_of_record texts entry)
parse_logfmt-format_example = parse_logfmt-format texts IsPlain-floats entry

format-All-IsPrintable_example : All IsPrintable (format texts entry)
format-All-IsPrintable_example = format-All-IsPrintable texts IsPlain-floats entry

parse_logfmt-own_fields_example :
    get (parse_logfmt (format texts entry)) (codes "level") ≡ get (own_fields entry) (codes "level")
parse_logfmt-own_fields_example =
    parse_logfmt-own_fields texts entry (codes "level") IsPlain-floats refl
