-- ===== src/Tests/Chains.antt =====
-- A chain of two records, with a hash of one character and a signature that begins with the key.
use mathlib.Core.Path.{subst}
use Prim.Native.Char.{code}
use Prim.Native.String.{count, ◌++◌ as ◌<>◌}
use mathlib.Core.Logic.{◌⊎◌}
use logquill_python.Base.{
  ◌%◌, nat_eq, String, string_eq, Bool, true, false, not, some, none, sym, List, [], ◌∷◌, map, ◌≡◌,
  refl, ok, ◌==◌, if◌then◌else◌,
}
use logquill_python.Value.{Meta, str}
use logquill_python.Level.{info}
use logquill_python.Records.{Record, create_record, as_dict}
use logquill_python.TamperEvident.{
  check_signature, verify_head_signature, before_log, compute_hash, VerificationResult, new, stamp,
  intact, verify_chain_detailed, verify_signed_chain,
}
use logquill_python.TamperEvident.Chain.{verify_chain_detailed-stamp}
use logquill_python.TamperEvident.Content.{dumps_of, SameLog}
use logquill_python.TamperEvident.Forgery.{payloads, head_after, Attack}
use logquill_python.TamperEvident.Signed.{Forged, verify_signed_chain-authentic}
use logquill_python.Tests.Json.{small_json, small_json-TellsKeys}

abbrev dumps : Meta → String
dumps = dumps_of small_json

-- whether the code points of a text add up to an odd number
abbrev odd : String → Bool
odd String.[] = false
odd (String.◌∷◌ c s) = let rest = odd s in if code c % 2 == 1 then not rest else rest

abbrev digit : Bool → String
digit true = "1"
digit false = "0"

abbrev sha256 : String → String
sha256 s = digit (odd s)

abbrev hmac : String → String → String
hmac key head = key <> head

abbrev entries : List Record
entries =
    create_record "t" info "app" "one" [] none ∷ create_record "t" info "app" "two" [] none ∷ []

abbrev written : List Meta
written = map as_dict (stamp dumps sha256 (new "0") entries).0

abbrev head : String
head = (stamp dumps sha256 (new "0") entries).1.last_hash

verify_chain_detailed-stamp_example :
    verify_chain_detailed dumps sha256 "0" written ≡ ok (intact dumps sha256 2 head)
verify_chain_detailed-stamp_example = verify_chain_detailed-stamp dumps sha256 "0" entries

digit_length : (b : Bool) → count (digit b) ≡ count "0"
digit_length true = refl
digit_length false = refl

one_long : (s : String) → count (sha256 s) ≡ count "0"
one_long s = digit_length (odd s)

signs :
    (b : Bool) (result : VerificationResult)
    → check_signature dumps sha256 hmac "key" (hmac "key" (digit b)) result (some (str (digit b)))
      ≡ ok result
unfolding check_signature verify_head_signature
signs true result = refl
signs false result = refl

head-digit : (b : Bool) × (head ≡ digit b)
unfolding stamp new before_log compute_hash
head-digit = (_, refl)

signs_head :
    (result : VerificationResult)
    → check_signature dumps sha256 hmac "key" (hmac "key" head) result (some (str head)) ≡ ok result
signs_head result =
    let (b, e) = head-digit in
    subst
      (λ h.
        check_signature dumps sha256 hmac "key" (hmac "key" h) result (some (str h)) ≡ ok result)
      (sym e) (signs b result)

accepted :
    verify_signed_chain dumps sha256 hmac "key" (hmac "key" head) "0" written
    ≡ ok (intact dumps sha256 2 head)
unfolding verify_signed_chain
accepted =
    rw (verify_chain_detailed-stamp dumps sha256 "0" entries, verify_signed_chain)
      (signs_head (intact dumps sha256 2 head))

verify_signed_chain-authentic_example :
    SameLog small_json written (map as_dict entries)
    ⊎ (Attack dumps sha256 "0"
          (payloads dumps sha256 "0" [] written)
          (payloads dumps sha256 "0" [] (map as_dict entries))
        ⊎ Forged dumps sha256 hmac "key"
            (head_after dumps sha256 "0" (payloads dumps sha256 "0" [] written))
            head)
verify_signed_chain-authentic_example =
    verify_signed_chain-authentic small_json sha256 hmac "key" "0" one_long small_json-TellsKeys
      entries written (intact dumps sha256 2 head) accepted refl
