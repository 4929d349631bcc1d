-- ===== src/TamperEvident/Signed.antt =====
-- A log that verifies under the signature of the plugin's head.
use mathlib.Core.Path.{subst}
use Prim.Native.String.{count}
use mathlib.Core.Logic.{◌⊎◌, inl, inr}
use logquill_python.Base.{
  String, string_eq, Bool, true, false, Option, some, List, [], map, ◌≡◌, refl, ap, ◌∙◌, sym,
  if◌then◌else◌, ◌==◌, Result, ok, raise, type_error, ◌>>=◌, Bool-cases, ◌≢◌, false≢true,
  string_discrete,
}
use logquill_python.Value.{Value, str, Meta}
use logquill_python.Records.{Record, as_dict}
use logquill_python.TamperEvident.{
  new, stamp, intact, verify_chain_detailed, VerificationResult, verify_signed_chain,
  verify_head_signature, check_signature, is_ascii, other_signature,
}
use logquill_python.TamperEvident.Chain.{verify_chain_detailed-stamp}
use logquill_python.TamperEvident.Content.{dumps_of, TellsKeys, SameLog, SameLog-of, payloads-stamp}
use logquill_python.TamperEvident.Forgery.{
  payloads, head_after, Attack, heads-agree, Intact, verify_from-Intact,
}

text_of : Option Value → String
text_of (some (str s)) = s
text_of _ = ""

Ok-of : {A : Type 0} → A → Result A → A
Ok-of a (ok b) = b
Ok-of a (raise e) = a

ok_inj : {A : Type 0} {a b : A} → ok a ≡ ok b → a ≡ b
ok_inj {a = a} e = unfold Ok-of in ap (λ r. Ok-of a r) e

same-signature :
    (c s : Bool) (result broken v : VerificationResult)
    → (if c then ok s else raise type_error) >>= (λ same. ok (if same then result else broken))
      ≡ ok v
    → v.is_ok ≡ true
    → broken.is_ok ≡ false
    → s ≡ true
same-signature true true result broken v h good bad = refl
same-signature true false result broken v h good bad =
    absurd (false≢true (sym bad ∙ ap (λ (r : VerificationResult). r.is_ok) (ok_inj h) ∙ good))
same-signature false s result broken v h good bad = cc

module _ (dumps : Meta → String) (sha256 : String → String) (hmac : String → String → String)
    (key : String) where
  -- These two heads differ and have one signature.
  abbrev pub Forged : String → String → Type 0
  Forged h h' = (h ≢ h') × (hmac key h ≡ hmac key h')

  signed-head :
      (signature head : String) (result v : VerificationResult)
      → check_signature dumps sha256 hmac key signature result (some (str head)) ≡ ok v
      → v.is_ok ≡ true
      → hmac key head ≡ signature
  unfolding check_signature verify_head_signature
  signed-head signature head result v h good = (string_eq.same_iff (hmac key head) signature).0 (
      same-signature (is_ascii signature) (hmac key head == signature) result
        (record {
          is_ok = false;
          records_checked = result.records_checked;
          broken_at = some result.records_checked;
          reason = some other_signature;
          head_hash = result.head_hash;
        })
        v h good refl)

  -- the part of `verify_signed_chain` after the chain is checked
  Signs : String → List String → String → Result VerificationResult → Type 0
  Signs genesis ps signature out =
      (v : VerificationResult)
      → (out >>= λ result.
          if result.is_ok
          then check_signature dumps sha256 hmac key signature result result.head_hash
          else ok result)
        ≡ ok v
      → v.is_ok ≡ true
      → hmac key (head_after dumps sha256 genesis ps) ≡ signature

  Intact-Signs :
      (genesis signature : String) (ps : List String) (out : Result VerificationResult)
      → Intact dumps sha256 genesis ps out
      → Signs genesis ps signature out
  unfolding Signs
  Intact-Signs genesis signature ps (raise e) intact v h good = cc
  Intact-Signs genesis signature ps (ok result) intact v h good = elim (Bool-cases result.is_ok) [
    | inl sound ↦
        signed-head signature (head_after dumps sha256 genesis ps) result v
          (sym (
              ap
                (λ b.
                  if b
                  then check_signature dumps sha256 hmac key signature result result.head_hash
                  else ok result)
                sound
              ∙ ap (λ o. check_signature dumps sha256 hmac key signature result o) (intact sound))
            ∙ h)
          good
    | inr broken ↦ absurd (
        false≢true (
          sym broken
          ∙ ap (λ (r : VerificationResult). r.is_ok)
              (ok_inj (
                sym (
                  ap
                    (λ b.
                      if b
                      then check_signature dumps sha256 hmac key signature result result.head_hash
                      else ok result)
                    broken)
                ∙ h))
          ∙ good))
  ]

  text_inj : {s t : String} → some (str s) ≡ some (str t) → s ≡ t
  text_inj e = unfold text_of in ap text_of e

module _ (json : Value → String) (sha256 : String → String) (hmac : String → String → String)
    (key : String) where
  -- When `verify_signed_chain` accepts a log under the signature of the head that the plugin
  -- reached, the log is, record for record, what the plugin was given (`SameLog`): the same JSON under
  -- the timestamp, the level, the logger, the message, the version, `llm` and every key of `meta` but
  -- the chain's own. No record was edited, removed, added or reordered, unless the two logs
  -- themselves break the hash, with a hashed text of each that differ and have one hash or with one
  -- whose hash is the first `prev_hash`, or the signature, with two heads that differ. All hashes
  -- have the length of the first `prev_hash`, and the JSON text of an object tells its keys and the
  -- JSON text under each.
  pub verify_signed_chain-authentic :
      (genesis : String)
      → ((s : String) → count (sha256 s) ≡ count genesis)
      → TellsKeys json
      → (rs : List Record) (records : List Meta) (v : VerificationResult)
      → let dumps = dumps_of json in
        let (written, p) = stamp dumps sha256 (new genesis) rs in
        let seen = payloads dumps sha256 genesis [] records in
        let given = payloads dumps sha256 genesis [] (map as_dict rs) in
        verify_signed_chain dumps sha256 hmac key (hmac key p.last_hash) genesis records ≡ ok v
        → v.is_ok ≡ true
        → SameLog json records (map as_dict rs)
          ⊎ (Attack dumps sha256 genesis seen given
              ⊎ Forged dumps sha256 hmac key (head_after dumps sha256 genesis seen) p.last_hash)
  unfolding verify_signed_chain verify_chain_detailed Signs
  verify_signed_chain-authentic genesis fixed tells rs records v h good =
      let dumps = dumps_of json in
      let (written, p) = stamp dumps sha256 (new genesis) rs in
      let seen = payloads dumps sha256 genesis [] records in
      let wrote = payloads dumps sha256 genesis [] (map as_dict written) in
      let given = payloads dumps sha256 genesis [] (map as_dict rs) in
      let signs =
        Intact-Signs dumps sha256 hmac key genesis (hmac key p.last_hash) seen
          (verify_chain_detailed dumps sha256 genesis records)
          (verify_from-Intact dumps sha256 genesis [] records 0) v h good in
      let reached : head_after dumps sha256 genesis wrote ≡ p.last_hash =
        text_inj dumps sha256 hmac key (
          sym (
            subst (Intact dumps sha256 genesis wrote)
              (verify_chain_detailed-stamp dumps sha256 genesis rs)
              (verify_from-Intact dumps sha256 genesis [] (map as_dict written) 0) refl)) in
      let same_head : head_after dumps sha256 genesis given ≡ p.last_hash =
        ap (head_after dumps sha256 genesis)
          (sym (payloads-stamp json sha256 genesis (new genesis) rs []))
        ∙ reached in
      elim (string_discrete (head_after dumps sha256 genesis seen) p.last_hash) [
        | no other ↦ inr (inr (other, signs))
        | yes same ↦
            elim (heads-agree dumps sha256 genesis fixed seen given (same ∙ sym same_head)) [
              | inl all ↦ inl (SameLog-of json sha256 genesis tells records (map as_dict rs) all)
              | inr attack ↦ inr (inl attack)
            ]
      ]
