-- ===== src/TamperEvident.antt =====
-- The hash chain, `logquill/plugins/tamper_evident_plugin.py`. SHA-256 and HMAC-SHA-256 in
-- hexadecimal and `json.dumps(..., sort_keys=True, default=str)` are parameters.
pub mod Chain
pub mod Forgery
pub mod Content
pub mod Signed
use Prim.Native.String.{◌++◌ as ◌<>◌}
use mathlib.Core.Logic.{◌⊎◌, inl, inr}
use logquill_python.Base.{
  ℕ, zero, suc, ◌+◌, ◌<◌, String, string_eq, Bool, true, false, not, ◌&&◌, ◌||◌, Option, none, some,
  List, [], ◌∷◌, ◌++◌, leb, ltb, if◌then◌else◌, ◌==◌, Result, ok, raise, type_error, other_error,
  ◌>>=◌,
}
use logquill_python.Base.Text.{codes}
use logquill_python.Dict.{Dict, get, put}
use logquill_python.Value.{Value, null, str, dict, Meta, entries, of_entries, present, value_eq}
use logquill_python.Records.{Record, as_dict, legacy_schema_version}

-- `reason`: why a chain is broken
pub data Reason : Type 0 where
  no_hash other_prev other_content other_signature : Reason

pub record VerificationResult : Type 0 where
  pub is_ok : Bool
  pub records_checked : ℕ
  pub broken_at : Option ℕ
  pub reason : Option Reason
  pub head_hash : Option Value

-- `record.get(k)`, where a missing key gives `None`
abbrev pub or_null : Option Value → Value
or_null none = null
or_null (some v) = v

-- `record.get("meta", {})`; only a dict has the methods that follow
abbrev pub meta_of : Option Value → Result Meta
meta_of none = ok []
meta_of (some (dict d)) = ok (entries d)
meta_of (some _) = raise other_error

abbrev pub is_chain_key : String → Bool
is_chain_key k = k == "hash" || k == "prev_hash"

-- `{k: v for k, v in meta.items() if k not in ("hash", "prev_hash")}`
unfoldable pub without_chain : Meta → Meta
without_chain [] = []
without_chain ((k, v) ∷ meta) =
    let rest = without_chain meta in if is_chain_key k then rest else (k, v) ∷ rest

-- `schema_version` where it is there and not that of the records that had none
abbrev pub version_entry : Option Value → Meta
version_entry none = []
version_entry (some v) = if v == str legacy_schema_version then [] else ("schema_version", v) ∷ []

abbrev pub llm_part : Option Value → Meta
llm_part none = []
llm_part (some v) = ("llm", v) ∷ []

-- the `content` that is hashed
unfoldable pub content_of : Meta → Meta → Meta
unfolding without_chain
content_of r meta =
    ("timestamp", or_null (get r "timestamp"))
      ∷ ("level", or_null (get r "level"))
      ∷ ("logger", or_null (get r "logger"))
      ∷ ("message", or_null (get r "message"))
      ∷ ("meta", dict (of_entries (without_chain meta)))
      ∷ version_entry (get r "schema_version")
    ++ llm_part (get r "llm")

-- the plugin: `_genesis_hash` is read in `__init__` only
pub record TamperEvident : Type 0 where
  pub last_hash : String

abbrev pub genesis_hash : String
genesis_hash = "0000000000000000000000000000000000000000000000000000000000000000"

unfoldable pub new : String → TamperEvident
new genesis = record { last_hash = genesis }

module _ (dumps : Meta → String) (sha256 : String → String) where
  -- the text under the hash, `f"{prev_hash}{payload}"`
  unfoldable pub hash_input : Meta → Meta → String → String
  unfolding content_of
  hash_input r meta prev_hash = prev_hash <> dumps (content_of r meta)

  -- `_compute_hash` of a record and its `meta`
  unfoldable pub compute_hash : Meta → Meta → String → String
  unfolding hash_input
  compute_hash r meta prev_hash = sha256 (hash_input r meta prev_hash)

  unfoldable pub before_log : TamperEvident → Record → Record × TamperEvident
  unfolding compute_hash
  before_log p r =
      let digest = compute_hash (as_dict r) r.meta p.last_hash in
      (
        record r { meta = put (put r.meta "prev_hash" (str p.last_hash)) "hash" (str digest) },
        record p { last_hash = digest },
      )

  -- the records of one plugin, one after the other
  unfoldable pub stamp : TamperEvident → List Record → List Record × TamperEvident
  unfolding before_log
  stamp p [] = ([], p)
  stamp p (r ∷ rs) =
      let (r', p') = before_log p r in let (rs', p'') = stamp p' rs in (r' ∷ rs', p'')

  -- `VerificationResult(False, checked, checked, reason, head_hash)`
  abbrev pub broken : ℕ → Reason → Option Value → VerificationResult
  broken checked why head = record {
    is_ok = false;
    records_checked = checked;
    broken_at = some checked;
    reason = some why;
    head_hash = head;
  }

  abbrev pub intact : ℕ → String → VerificationResult
  intact checked head = record {
    is_ok = true;
    records_checked = checked;
    broken_at = none;
    reason = none;
    head_hash = some (str head);
  }

  -- One record: the hash that the next one has to name, or what ends the loop. `prev_hash` is a text,
  -- since it is either the first one or equal to a computed hash.
  abbrev pub Found : Type 0
  Found = String ⊎ VerificationResult

  check_content : Meta → Meta → String → ℕ → Value → Found
  unfolding compute_hash
  check_content r meta prev_hash checked stored =
      let digest = compute_hash r meta prev_hash in
      if str digest == stored
      then inl digest
      else inr (broken checked other_content (some (str prev_hash)))

  check_stored : Meta → Meta → String → ℕ → Option Value → Found
  unfolding check_content
  check_stored r meta prev_hash checked none =
      inr (broken checked no_hash (if ltb 1 checked then some (str prev_hash) else none))
  check_stored r meta prev_hash checked (some stored) =
      if or_null (get meta "prev_hash") == str prev_hash
      then check_content r meta prev_hash checked stored
      else inr (broken checked other_prev (some (str prev_hash)))

  unfoldable pub check_record : Meta → String → ℕ → Result Found
  unfolding check_stored present
  check_record r prev_hash checked = do
    meta ← meta_of (get r "meta")
    ok (check_stored r meta prev_hash checked (present (get meta "hash")))

  -- the loop of `verify_chain_detailed`, after `checked` records
  unfoldable pub verify_from : String → ℕ → List Meta → Result VerificationResult
  unfolding check_record
  verify_from prev_hash checked [] = ok (intact checked prev_hash)
  verify_from prev_hash checked (r ∷ records) = check_record r prev_hash (checked + 1) >>= λ found.
      elim found [ inl digest ↦ verify_from digest (checked + 1) records | inr result ↦ ok result ]

  unfoldable pub verify_chain_detailed : String → List Meta → Result VerificationResult
  unfolding verify_from
  verify_chain_detailed genesis records = verify_from genesis 0 records

abbrev pub all_ascii : List ℕ → Bool
all_ascii [] = true
all_ascii (c ∷ s) = ltb c 128 && all_ascii s

abbrev pub is_ascii : String → Bool
is_ascii s = all_ascii (codes s)

-- `sign_head` is HMAC-SHA-256, a parameter; `compare_digest` takes texts of ASCII characters only.
module _ (dumps : Meta → String) (sha256 : String → String) (hmac : String → String → String) where
  unfoldable pub verify_head_signature : String → String → String → Result Bool
  verify_head_signature head key signature =
      if is_ascii signature then ok (hmac key head == signature) else raise type_error

  -- what `verify_signed_chain` returns for the result of `verify_chain_detailed`
  unfoldable pub check_signature :
      String → String → VerificationResult → Option Value → Result VerificationResult
  unfolding verify_head_signature
  check_signature key signature result (some (str head)) = do
    same ← verify_head_signature head key signature
    ok (
        if same then result else record {
          is_ok = false;
          records_checked = result.records_checked;
          broken_at = some result.records_checked;
          reason = some other_signature;
          head_hash = result.head_hash;
        })
  check_signature key signature result _ = ok (record {
    is_ok = false;
    records_checked = result.records_checked;
    broken_at = some result.records_checked;
    reason = some other_signature;
    head_hash = result.head_hash;
  })

  unfoldable pub verify_signed_chain :
      String → String → String → List Meta → Result VerificationResult
  unfolding check_signature verify_chain_detailed
  verify_signed_chain key signature genesis records = do
    result ← verify_chain_detailed dumps sha256 genesis records
    if result.is_ok then check_signature key signature result result.head_hash else ok result
