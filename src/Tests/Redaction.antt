-- ===== src/Tests/Redaction.antt =====
-- Two overlapping matches in a text of five characters, and a `meta` of two levels, for
-- `logquill/plugins/pii_redact_plugin.py`.
use logquill_python.Base.{String, true, none, List, [], ◌∷◌, ◌≡◌, arith, All}
use logquill_python.Value.{str, list, nil, cons, entries, of_entries}
use logquill_python.Records.{Record}
use logquill_python.Pii.{Match, Text, redact_text, before_log}
use logquill_python.Pii.Sweep.{covered, AreApart}
use logquill_python.Pii.Mask.{mask, chosen, redact_text-mask}
use logquill_python.Pii.Values.{height_fields, map_fields, before_log-map_texts}

abbrev text : Text
text = 1 ∷ 2 ∷ 3 ∷ 4 ∷ 5 ∷ []

abbrev find_all : Text → List Match
find_all t = (2, 4) ∷ (1, 3) ∷ []

redact_text-mask_example :
    (redact_text find_all (0 ∷ []) text ≡ mask (0 ∷ []) (chosen (find_all text)) 0 text)
    × AreApart 0 (chosen (find_all text))
    × All (λ (m : Match). covered (chosen (find_all text)) m.0 ≡ true) (find_all text)
redact_text-mask_example =
    redact_text-mask find_all (0 ∷ []) text
      ((omega arith, omega arith), ((omega arith, omega arith), tt))

abbrev entry : Record
entry = record {
  schema_version = "2.0";
  timestamp = "t";
  level = "INFO";
  logger = "app";
  message = "m";
  meta = ("to", list (cons (str "a@b.io") nil)) ∷ ("note", str "none") ∷ [];
  llm = none;
}

abbrev hide : String → String
hide s = "***"

before_log-map_texts_example :
    before_log hide entry
    ≡ record entry { meta = entries (map_fields hide (of_entries entry.meta)) }
before_log-map_texts_example = before_log-map_texts hide entry (unfold height_fields in omega arith)
