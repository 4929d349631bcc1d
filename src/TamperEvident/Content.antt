-- ===== src/TamperEvident/Content.antt =====
-- What the hash of a record tells of it, where the text that is hashed is JSON.
use logquill_python.Base.{
  String, string_eq, false, Option, none, some, List, [], ◌∷◌, ◌++◌, map, ◌≡◌, refl, sym, ap, ◌∙◌,
  arith, ◌==◌, if◌then◌else◌, Bool-cases, inl, inr,
}
use logquill_python.Dict.{get}
use logquill_python.Value.{
  Value, Fields, str, dict, Meta, entries, of_entries, entries-of_entries, value_eq,
}
use logquill_python.Records.{Record, as_dict, legacy_schema_version}
use logquill_python.TamperEvident.{
  TamperEvident, or_null, is_chain_key, without_chain, content_of, version_entry, llm_part, stamp,
  before_log, compute_hash,
}
use logquill_python.TamperEvident.Chain.{stamped, same_content}
use logquill_python.TamperEvident.Forgery.{meta_entries, payload, payloads}

-- `json.dumps` of a dict, as a value
abbrev pub dumps_of : (Value → String) → Meta → String
dumps_of json d = json (dict (of_entries d))

abbrev pub text_of : (Value → String) → Option Value → Option String
text_of json none = none
text_of json (some v) = some (json v)

-- Two objects with one JSON text have the same keys, and values with one JSON text under each.
abbrev pub TellsKeys : (Value → String) → Type 0
TellsKeys json =
    (c d : Fields)
    → json (dict c) ≡ json (dict d)
    → (k : String) → text_of json (get (entries c) k) ≡ text_of json (get (entries d) k)

-- a record without `schema_version` is one of the version that had none
abbrev pub or_legacy : Option Value → Value
or_legacy none = str legacy_schema_version
or_legacy (some v) = v

-- Two records with the same JSON under every field and every key of `meta` but the chain's own.
pub record SameRecord (json : Value → String) (r u : Meta) : Type 0 where
  pub timestamp : json (or_null (get r "timestamp")) ≡ json (or_null (get u "timestamp"))
  pub level : json (or_null (get r "level")) ≡ json (or_null (get u "level"))
  pub logger : json (or_null (get r "logger")) ≡ json (or_null (get u "logger"))
  pub message : json (or_null (get r "message")) ≡ json (or_null (get u "message"))
  pub version :
      json (or_legacy (get r "schema_version")) ≡ json (or_legacy (get u "schema_version"))
  pub llm : text_of json (get r "llm") ≡ text_of json (get u "llm")
  pub meta :
      (k : String)
      → is_chain_key k ≡ false
      → text_of json (get (meta_entries (get r "meta")) k)
        ≡ text_of json (get (meta_entries (get u "meta")) k)

-- Two logs of as many records, each the same as the other's.
abbrev pub SameLog : (Value → String) → List Meta → List Meta → Type 0
SameLog json [] [] = Unit
SameLog json (r ∷ rs) (u ∷ us) = SameRecord json r u × SameLog json rs us
SameLog json _ _ = ⊥

some_inj : {s t : String} → some s ≡ some t → s ≡ t
some_inj e = ground (arith, e)

cons_inj : {s t : String} {l m : List String} → s ∷ l ≡ t ∷ m → (s ≡ t) × (l ≡ m)
cons_inj e = (ground (arith, e), ground (arith, e))

rev_onto : List String → List String → List String
rev_onto acc [] = acc
rev_onto acc (s ∷ l) = rev_onto (s ∷ acc) l

rev_onto-twice : (acc l : List String) → rev_onto [] (rev_onto acc l) ≡ rev_onto l acc
unfolding rev_onto
rev_onto-twice acc [] = refl
rev_onto-twice acc (s ∷ l) = rev_onto-twice (s ∷ acc) l

module _ (dumps : Meta → String) (sha256 : String → String) (genesis : String) where
  payloads-map :
      (acc : List String) (rs : List Meta)
      → payloads dumps sha256 genesis acc rs ≡ rev_onto acc (map (payload dumps sha256 genesis) rs)
  unfolding rev_onto
  payloads-map acc [] = refl
  payloads-map acc (r ∷ rs) = payloads-map (payload dumps sha256 genesis r ∷ acc) rs

  payloads-twice :
      (rs : List Meta)
      → rev_onto [] (payloads dumps sha256 genesis [] rs) ≡ map (payload dumps sha256 genesis) rs
  payloads-twice rs =
      ap (rev_onto []) (payloads-map [] rs)
      ∙ rev_onto-twice [] (map (payload dumps sha256 genesis) rs)
      ∙ (unfold rev_onto in refl)

get-without_chain :
    (meta : Meta) (k : String) → is_chain_key k ≡ false → get (without_chain meta) k ≡ get meta k
unfolding without_chain get
get-without_chain [] k h = refl
get-without_chain ((j, v) ∷ meta) k h = elim (Bool-cases (is_chain_key j)) [
  | inl chain ↦ elim (Bool-cases (j == k)) [
    | inl same ↦
        absurd (ground (arith, chain, h, ap is_chain_key ((string_eq.same_iff j k).0 same)))
    | inr other ↦ rw (chain, other) (get-without_chain meta k h)
  ]
  | inr kept ↦ elim (Bool-cases (j == k)) [
    | inl same ↦ rw (kept, same) refl
    | inr other ↦ rw (kept, other) (get-without_chain meta k h)
  ]
]

abbrev version_of : Option Value → Option Value
version_of none = none
version_of (some v) = if v == str legacy_schema_version then none else some v

get-versions :
    (o l : Option Value)
    → (get (version_entry o ++ llm_part l) "schema_version" ≡ version_of o)
      × (get (version_entry o ++ llm_part l) "llm" ≡ l)
unfolding get
get-versions none none = (refl, refl)
get-versions none (some b) = (refl, refl)
get-versions (some v) none = elim (Bool-cases (v == str legacy_schema_version)) [
  | inl e ↦ rw e (refl, refl)
  | inr e ↦ rw e (refl, refl)
]
get-versions (some v) (some b) = elim (Bool-cases (v == str legacy_schema_version)) [
  | inl e ↦ rw e (refl, refl)
  | inr e ↦ rw e (refl, refl)
]

module _ (json : Value → String) (sha256 : String → String) (genesis : String) where
  abbrev or_text : Option String → String
  or_text none = json (str legacy_schema_version)
  or_text (some text) = text

  legacy_text : (o : Option Value) → or_text (text_of json (version_of o)) ≡ json (or_legacy o)
  legacy_text none = refl
  legacy_text (some v) = elim (Bool-cases (v == str legacy_schema_version)) [
    | inl e ↦ rw e (ap json (sym ((value_eq.same_iff v (str legacy_schema_version)).0 e)))
    | inr e ↦ rw e refl
  ]

  module _ (tells : TellsKeys json) where
    content-tells :
        (c d : Meta)
        → dumps_of json c ≡ dumps_of json d
        → (k : String) → text_of json (get c k) ≡ text_of json (get d k)
    content-tells c d e k =
        ap (λ m. text_of json (get m k)) (sym (entries-of_entries c))
        ∙ tells (of_entries c) (of_entries d) e k
        ∙ ap (λ m. text_of json (get m k)) (entries-of_entries d)

    SameRecord-payload :
        (r u : Meta)
        → payload (dumps_of json) sha256 genesis r ≡ payload (dumps_of json) sha256 genesis u
        → SameRecord json r u
    unfolding content_of get
    SameRecord-payload r u e =
        let m = meta_entries (get r "meta") in
        let n = meta_entries (get u "meta") in
        let same = content-tells (content_of r m) (content_of u n) e in
        record {
          timestamp = some_inj (same "timestamp");
          level = some_inj (same "level");
          logger = some_inj (same "logger");
          message = some_inj (same "message");
          version =
              sym (legacy_text (get r "schema_version"))
              ∙ ap or_text (
                  ap (text_of json) (sym (get-versions (get r "schema_version") (get r "llm")).0)
                  ∙ same "schema_version"
                  ∙ ap (text_of json) (get-versions (get u "schema_version") (get u "llm")).0)
              ∙ legacy_text (get u "schema_version");
          llm =
              ap (text_of json) (sym (get-versions (get r "schema_version") (get r "llm")).1)
              ∙ same "llm"
              ∙ ap (text_of json) (get-versions (get u "schema_version") (get u "llm")).1;
          meta = λ k h.
              ap (text_of json) (sym (get-without_chain m k h))
              ∙ content-tells (without_chain m) (without_chain n) (some_inj (same "meta")) k
              ∙ ap (text_of json) (get-without_chain n k h);
        }

    SameLog-payloads :
        (rs us : List Meta)
        → map (payload (dumps_of json) sha256 genesis) rs
          ≡ map (payload (dumps_of json) sha256 genesis) us
        → SameLog json rs us
    SameLog-payloads [] [] e = tt
    SameLog-payloads [] (u ∷ us) e = absurd (ground (arith, e))
    SameLog-payloads (r ∷ rs) [] e = absurd (ground (arith, e))
    SameLog-payloads (r ∷ rs) (u ∷ us) e =
        let (first, rest) = cons_inj e in
        (SameRecord-payload r u first, SameLog-payloads rs us rest)

    -- `payloads` lists them from the last to the first
    pub SameLog-of :
        (rs us : List Meta)
        → payloads (dumps_of json) sha256 genesis [] rs
          ≡ payloads (dumps_of json) sha256 genesis [] us
        → SameLog json rs us
    SameLog-of rs us e = SameLog-payloads rs us (
        sym (payloads-twice (dumps_of json) sha256 genesis rs)
        ∙ ap (rev_onto []) e
        ∙ payloads-twice (dumps_of json) sha256 genesis us)

  payload-stamped :
      (r : Record) (prev digest : String)
      → let meta = stamped (dumps_of json) sha256 r.meta prev digest in
        payload (dumps_of json) sha256 genesis (as_dict (record r { meta = meta }))
        ≡ payload (dumps_of json) sha256 genesis (as_dict r)
  unfolding get
  payload-stamped r prev digest =
      let meta = stamped (dumps_of json) sha256 r.meta prev digest in
      ap (dumps_of json) (
        ap (content_of (as_dict (record r { meta = meta }))) (entries-of_entries meta)
        ∙ same_content (dumps_of json) sha256 r prev digest
        ∙ ap (content_of (as_dict r)) (sym (entries-of_entries r.meta)))

  -- A stamped record has the payload of the record that the plugin was given.
  pub payloads-stamp :
      (p : TamperEvident) (rs : List Record) (acc : List String)
      → payloads
          (dumps_of json)
          sha256
          genesis
          acc
          (map as_dict (stamp (dumps_of json) sha256 p rs).0)
        ≡ payloads (dumps_of json) sha256 genesis acc (map as_dict rs)
  unfolding stamp before_log
  payloads-stamp p [] acc = refl
  payloads-stamp p (r ∷ rs) acc =
      let digest = compute_hash (dumps_of json) sha256 (as_dict r) r.meta p.last_hash in
      let meta = stamped (dumps_of json) sha256 r.meta p.last_hash digest in
      payloads-stamp (record p { last_hash = digest }) rs
        (payload (dumps_of json) sha256 genesis (as_dict (record r { meta = meta })) ∷ acc)
      ∙ ap (λ text. payloads (dumps_of json) sha256 genesis (text ∷ acc) (map as_dict rs))
          (payload-stamped r p.last_hash digest)
