-- ===== src/Records/Parse.antt =====
-- What `parse_record` accepts, keeps and completes.
use logquill_python.Base.Text.{codes}
use logquill_python.Records.Version.{read_major}
use logquill_python.Records.Numerals.{IsVersion, read_major-IsVersion}
use logquill_python.Base.{
  Result-cases, ◌↔◌, le→leb, ap, ◌∙◌, ℕ, String, true, false, Option, none, some, ◌≡◌, refl, ◌==◌,
  string_eq, nat_eq, arith, ok, eq_iff, ◌≤◌, ◌⊎◌, inl, inr,
}
use logquill_python.Dict.{get, set_default}
use logquill_python.Dict.Laws.{get-set_default}
use logquill_python.Value.{
  Value, null, Fields, Meta, str, dict, of_entries, entries-of_entries, is_str,
}
use logquill_python.Level.{Level, lookup_name, name, trace, debug, info, warn, error, fatal}
use logquill_python.Level.Parse.{lookup_name-name, name-lookup_name}
use logquill_python.Records.{
  create_record, as_dict, version_major, check_version, check_level, check_fields, check_meta,
  check_llm, parse_mapping, parse_record, legacy_schema_version, supported_major,
}

record_fields :
    (now : String) (l : Level) (logger message : String) (meta : Meta) (llm : Option Meta)
    → parse_mapping (as_dict (create_record now l logger message meta llm))
      ≡ ok (as_dict (create_record now l logger message meta llm))
unfolding parse_mapping create_record read_major lookup_name check_version check_level check_fields
    check_meta check_llm set_default
record_fields now trace logger message meta none = refl
record_fields now debug logger message meta none = refl
record_fields now info logger message meta none = refl
record_fields now warn logger message meta none = refl
record_fields now error logger message meta none = refl
record_fields now fatal logger message meta none = refl
record_fields now l logger message meta llm = refl

-- A record that `create_record` built, written as a dict and read again, comes back unchanged.
pub parse_record-create_record :
    (now : String) (l : Level) (logger message : String) (meta : Meta) (llm : Option Meta)
    → parse_record (dict (of_entries (as_dict (create_record now l logger message meta llm))))
      ≡ ok (as_dict (create_record now l logger message meta llm))
unfolding parse_record
parse_record-create_record now l logger message meta llm =
    let r = as_dict (create_record now l logger message meta llm) in
    ap parse_mapping (entries-of_entries r) ∙ record_fields now l logger message meta llm

abbrev pub completed : Meta → Meta
completed raw =
    set_default (set_default raw "schema_version" (str legacy_schema_version)) "meta"
      (dict Fields.end)

parse_mapping-eq-completed : (raw d : Meta) → parse_mapping raw ≡ ok d → d ≡ completed raw
unfolding parse_mapping
parse_mapping-eq-completed raw d h = ground arith

-- `parse_record` loses nothing: a value that the raw record has under any key, known or not, is
-- there unchanged in the result.
pub parse_mapping-keeps :
    (raw d : Meta) (k : String) (v : Value)
    → parse_mapping raw ≡ ok d
    → get raw k ≡ some v
    → get d k ≡ some v
parse_mapping-keeps raw d k v h g = ground (
  arith,
  parse_mapping-eq-completed raw d h,
  get-set_default raw "schema_version" k (str legacy_schema_version),
  get-set_default (set_default raw "schema_version" (str legacy_schema_version)) "meta" k
      (dict Fields.end),
  eq_iff "schema_version" k,
  eq_iff "meta" k,
)

-- a text of two decimal numerals with a dot between, the first of which is 2 at most
abbrev pub IsSupported : Option Value → Type 0
IsSupported o = (s : String) × (n : ℕ) × (o ≡ some (str s)) × IsVersion (codes s) n × (n ≤ 2)

-- absent, null or an object
abbrev pub IsBlock : Option Value → Type 0
IsBlock o = (o ≡ none) ⊎ ((o ≡ some null) ⊎ ((fs : Fields) × (o ≡ some (dict fs))))

-- The shape that both packages agree on: the version is one that this package reads, the level is
-- the name of a level, `meta` is an object, and `llm` is an object, null or absent.
pub record IsRecord (d : Meta) : Type 0 where
  pub version : IsSupported (get d "schema_version")
  pub timestamp : (s : String) × (get d "timestamp" ≡ some (str s))
  pub level : (l : Level) × (get d "level" ≡ some (str (name l)))
  pub logger : (s : String) × (get d "logger" ≡ some (str s))
  pub message : (s : String) × (get d "message" ≡ some (str s))
  pub meta : (fs : Fields) × (get d "meta" ≡ some (dict fs))
  pub llm : IsBlock (get d "llm")

supported_lem :
    (o : Option ℕ) → check_version o ≡ ok tt → (n : ℕ) × (o ≡ some n) × (n ≤ supported_major)
unfolding check_version
supported_lem none h = absurd (ground arith)
supported_lem (some n) h = (n, refl, ground arith)

version_lem : (o : Option Value) → check_version (version_major o) ≡ ok tt → IsSupported o
version_lem (some (str s)) h =
    let (n, e, small) = supported_lem (read_major (codes s)) h in
    (s, n, refl, (read_major-IsVersion (codes s) n).0 e, small)
version_lem o h = let (n, e, small) = supported_lem none h in absurd (ground (arith, e))

block_lem : (o : Option Value) → check_llm o ≡ ok tt → IsBlock o
unfolding check_llm
block_lem none h = inl refl
block_lem (some null) h = inr (inl refl)
block_lem (some (dict fs)) h = inr (inr (fs, refl))
block_lem o h = absurd (ground arith)

block_passes : (o : Option Value) → IsBlock o → check_llm o ≡ ok tt
unfolding check_llm
block_passes o (inl e) = rw e refl
block_passes o (inr (inl e)) = rw e refl
block_passes o (inr (inr (fs, e))) = rw e refl

is_str_lem : (o : Option Value) → is_str o ≡ true → (s : String) × (o ≡ some (str s))
is_str_lem (some (str s)) h = (s, refl)
is_str_lem o h = absurd (ground arith)

meta_lem : (o : Option Value) → check_meta o ≡ ok tt → (fs : Fields) × (o ≡ some (dict fs))
unfolding check_meta
meta_lem (some (dict fs)) h = (fs, refl)
meta_lem o h = absurd (ground arith)

level_lem : (o : Option Value) → check_level o ≡ ok tt → (l : Level) × (o ≡ some (str (name l)))
unfolding check_level
level_lem (some (str s)) h = elim (Result-cases (lookup_name s)) [
  | inl (l, e) ↦ (l, ap (λ (t : String). some (str t)) (name-lookup_name s l e))
  | inr (x, e) ↦ absurd (ground arith)
]
level_lem o h = absurd (ground arith)

check_level-name : (l : Level) → check_level (some (str (name l))) ≡ ok tt
unfolding check_level
check_level-name l = rw (lookup_name-name l, check_level)

module _ (raw : Meta) where
  abbrev labelled : Meta
  labelled = set_default raw "schema_version" (str legacy_schema_version)

  -- apart from `meta`, the checks read what is returned
  get-completed : (k : String) → ("meta" == k) ≡ false → get (completed raw) k ≡ get labelled k
  get-completed k h = rw (get-set_default labelled "meta" k (dict Fields.end), h)

  checks_pass :
      (d : Meta)
      → parse_mapping raw ≡ ok d
      → (check_version (version_major (get labelled "schema_version")) ≡ ok tt)
        × (is_str (get labelled "timestamp") ≡ true)
        × (is_str (get labelled "logger") ≡ true)
        × (is_str (get labelled "message") ≡ true)
        × (check_level (get labelled "level") ≡ ok tt)
        × (check_meta (get (completed raw) "meta") ≡ ok tt)
        × (check_llm (get (completed raw) "llm") ≡ ok tt)
  unfolding parse_mapping check_fields
  checks_pass d h = ground arith

  completed-IsRecord : (d : Meta) → parse_mapping raw ≡ ok d → IsRecord (completed raw)
  completed-IsRecord d h =
      let (v, t, g, m, l, o, b) = checks_pass d h in
      record {
        version = version_lem _ (rw (get-completed "schema_version" refl) v);
        timestamp = is_str_lem _ (rw (get-completed "timestamp" refl) t);
        level = level_lem _ (rw (get-completed "level" refl) l);
        logger = is_str_lem _ (rw (get-completed "logger" refl) g);
        message = is_str_lem _ (rw (get-completed "message" refl) m);
        meta = meta_lem _ o;
        llm = block_lem _ b;
      }

  version_passes :
      IsRecord (completed raw)
      → check_version (version_major (get labelled "schema_version")) ≡ ok tt
  unfolding check_version
  version_passes r =
      let (s, n, e, v, small) = r.version in
      rw (
        ← get-completed "schema_version" refl,
        e,
        (read_major-IsVersion (codes s) n).1 v,
        le→leb n 2 small,
      )

  str_passes :
      (k : String)
      → ("meta" == k) ≡ false
      → ((s : String) × (get (completed raw) k ≡ some (str s)))
      → is_str (get labelled k) ≡ true
  str_passes k h (s, e) = rw (← get-completed k h, e)

  level_passes : IsRecord (completed raw) → check_level (get labelled "level") ≡ ok tt
  level_passes r = let (l, e) = r.level in rw (← get-completed "level" refl, e) (check_level-name l)

  level_is_str : IsRecord (completed raw) → is_str (get labelled "level") ≡ true
  level_is_str r = let (l, e) = r.level in str_passes "level" refl (name l, e)

  meta_passes : IsRecord (completed raw) → check_meta (get (completed raw) "meta") ≡ ok tt
  unfolding check_meta
  meta_passes r = let (fs, e) = r.meta in rw e

  IsRecord-parse : IsRecord (completed raw) → parse_mapping raw ≡ ok (completed raw)
  unfolding parse_mapping check_fields
  IsRecord-parse r = simp (
    version_passes r,
    str_passes "timestamp" refl r.timestamp,
    level_is_str r,
    str_passes "logger" refl r.logger,
    str_passes "message" refl r.message,
    level_passes r,
    meta_passes r,
    block_passes (get (completed raw) "llm") r.llm,
  )

-- `parse_record` accepts a mapping exactly when the mapping, completed by a missing
-- `schema_version` of "1.0" and a missing `meta` of `{}`, is a record; what it returns is that.
pub parse_mapping-eq-ok_iff :
    (raw d : Meta) → (parse_mapping raw ≡ ok d) ↔ ((d ≡ completed raw) × IsRecord d)
parse_mapping-eq-ok_iff raw d = (
  λ h. let e = parse_mapping-eq-completed raw d h in (e, rw e (completed-IsRecord raw d h)),
  λ h. rw h.0 (IsRecord-parse raw (rw h.0 at h.1)),
)
