-- ===== src/Tests/Reading.antt =====
-- Records, levels and `meta` read back.
use logquill_python.Base.{String, string_eq, true, none, some, [], ◌∷◌, ◌≡◌, refl, ◌↔◌, ok}
use logquill_python.Base.Int.{pos}
use logquill_python.Dict.{get, put, set_default, IsDict}
use logquill_python.Value.{str, int, bool, dict, Meta, of_entries}
use logquill_python.Level.{info, lookup_name}
use logquill_python.Records.{
  Record, create_record, as_dict, parse_mapping, parse_record, check_version, check_level,
  check_fields, check_meta, check_llm,
}
use logquill_python.Records.Version.{read_major}
use logquill_python.Records.Parse.{
  completed, IsRecord, parse_mapping-eq-ok_iff, parse_record-create_record,
}
use logquill_python.Stamps.{Run}

abbrev now : String
now = "2026-01-01T00:00:00+00:00"

parse_record-create_record_example :
    parse_record (dict (of_entries (as_dict (create_record now info "app" "m" [] none))))
    ≡ ok (as_dict (create_record now info "app" "m" [] none))
parse_record-create_record_example = parse_record-create_record now info "app" "m" [] none

-- a record of version 1.0, with a key that no version knows
abbrev raw : Meta
raw =
    ("timestamp", str now)
    ∷ ("level", str "INFO")
    ∷ ("logger", str "app")
    ∷ ("message", str "m")
    ∷ ("later", int (pos 1))
    ∷ []

parse_mapping-eq-ok_iff_example :
    (parse_mapping raw ≡ ok (completed raw))
    ↔ ((completed raw ≡ completed raw) × IsRecord (completed raw))
parse_mapping-eq-ok_iff_example = parse_mapping-eq-ok_iff raw (completed raw)

raw_parses : parse_mapping raw ≡ ok (completed raw)
unfolding parse_mapping set_default put get check_version read_major check_level check_fields
    check_meta check_llm lookup_name
raw_parses = refl

later_there : get raw "later" ≡ some (int (pos 1))
unfolding get
later_there = refl

abbrev arguments : Meta
arguments = ("model", str "m1") ∷ ("tokens_in", bool true) ∷ ("tokens_out", int (pos 7)) ∷ []

arguments-IsDict : IsDict arguments
unfolding get
arguments-IsDict = (refl, (refl, (refl, tt)))

abbrev entry : Record
entry = create_record now info "app" "m" (("Token", str "t") ∷ ("user", str "u") ∷ []) none

entry-IsDict : IsDict entry.meta
unfolding get create_record
entry-IsDict = (refl, (refl, tt))

abbrev context : Meta
context = ("user", str "x") ∷ ("env", str "prod") ∷ []

abbrev agent_run : Run
agent_run = record { run_id = "r1"; next_step = 0 }

abbrev prompt : Meta
prompt = ("user", str "u") ∷ ("input_messages", str "secret plan") ∷ []
