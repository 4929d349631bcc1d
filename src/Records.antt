-- ===== src/Records.antt =====
-- The record shape, `logquill/core/records.py`. The time of day is an argument.
pub mod Version
pub mod Numerals
pub mod Parse
pub mod Llm
use logquill_python.Base.{
  ℕ, String, Bool, true, false, not, ◌&&◌, ◌||◌, Option, none, some, List, [], ◌∷◌, ◌++◌, leb, ◌==◌,
  string_eq, nat_eq, if◌then◌else◌, Result, ok, raise, value_error, check, ◌>>=◌, ◌>>◌,
}
use logquill_python.Base.Int.{ℤ, is_non_negative}
use logquill_python.Base.Text.{codes}
use logquill_python.Dict.{Dict, get, put, set_default}
use logquill_python.Value.{
  Value, Fields, Meta, null, bool, int, float, str, list, dict, object, entries, of_entries, is_str,
  present, as_str,
}
use logquill_python.Level.{Level, lookup_name, name as level_name}
use Version.{read_major}

abbrev pub schema_version_now : String
schema_version_now = "2.0"

abbrev pub legacy_schema_version : String
legacy_schema_version = "1.0"

abbrev pub supported_major : ℕ
supported_major = 2

pub record Record : Type 0 where
  pub schema_version : String
  pub timestamp : String
  pub level : String
  pub logger : String
  pub message : String
  pub meta : Meta
  pub llm : Option Meta

-- `create_record(...)` at the time that `utc_timestamp()` shows
unfoldable pub create_record : String → Level → String → String → Meta → Option Meta → Record
create_record now level logger message meta llm = record {
  schema_version = schema_version_now;
  timestamp = now;
  level = level_name level;
  logger = logger;
  message = message;
  meta = meta;
  llm = llm;
}

abbrev pub llm_entry : Option Meta → Meta
llm_entry none = []
llm_entry (some block) = ("llm", dict (of_entries block)) ∷ []

-- `record["llm"]` is there only if it was given.
-- the record as the dict that it is in Python
abbrev pub as_dict : Record → Meta
as_dict r =
    ("schema_version", str r.schema_version)
    ∷ ("timestamp", str r.timestamp)
    ∷ ("level", str r.level)
    ∷ ("logger", str r.logger)
    ∷ ("message", str r.message)
    ∷ ("meta", dict (of_entries r.meta))
    ∷ llm_entry r.llm

-- the major version of a `schema_version` value
abbrev pub version_major : Option Value → Option ℕ
version_major (some (str v)) = read_major (codes v)
version_major _ = none

unfoldable pub check_version : Option ℕ → Result (Unit {0})
check_version none = raise value_error
check_version (some major) = check (leb major supported_major) value_error

unfoldable pub check_level : Option Value → Result (Unit {0})
check_level (some (str l)) = elim (lookup_name l) [ ok _ ↦ ok tt | raise _ ↦ raise value_error ]
check_level _ = raise value_error

unfoldable pub check_fields : Meta → List String → Result (Unit {0})
check_fields d [] = ok tt
check_fields d (field ∷ rest) = check (is_str (get d field)) value_error >> check_fields d rest

unfoldable pub check_meta : Option Value → Result (Unit {0})
check_meta (some (dict _)) = ok tt
check_meta _ = raise value_error

unfoldable pub check_llm : Option Value → Result (Unit {0})
check_llm none = ok tt
check_llm (some null) = ok tt
check_llm (some (dict _)) = ok tt
check_llm _ = raise value_error

abbrev pub required : List String
required = "timestamp" ∷ "level" ∷ "logger" ∷ "message" ∷ []

-- the body of `parse_record`, once `raw` is known to be a mapping
unfoldable pub parse_mapping : Meta → Result Meta
parse_mapping raw = do
  let labelled = set_default raw "schema_version" (str legacy_schema_version)
  check_version (version_major (get labelled "schema_version"))
  check_fields labelled required
  check_level (get labelled "level")
  let complete = set_default labelled "meta" (dict Fields.end)
  check_meta (get complete "meta")
  check_llm (get complete "llm")
  ok complete

unfoldable pub parse_record : Value → Result Meta
unfolding parse_mapping
parse_record (dict raw) = parse_mapping (entries raw)
parse_record _ = raise value_error
