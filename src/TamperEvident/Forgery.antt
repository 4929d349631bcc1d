-- ===== src/TamperEvident/Forgery.antt =====
-- What it takes to change a signed log unseen.
use Prim.Native.String.{◌++◌ as ◌<>◌, count}
use Prim.Native.String.append.{nil, cons}
use Prim.Native.String.count.{nil as count-nil, cons as count-cons}
use Prim.Native.Char.{Char}
use mathlib.Core.Logic.{◌⊎◌, inl, inr}
use mathlib.Core.Path.{subst}
use logquill_python.Base.{
  ℕ, ◌+◌, String, string_eq, true, false, Option, none, some, List, [], ◌∷◌, ◌≡◌, refl, ap, ◌∙◌,
  sym, arith, ◌==◌, Result, ok, raise, ◌>>=◌, Bool-cases, ◌≢◌, ◌++◌, contains, beq_self,
  string_discrete, false≢true,
}
use logquill_python.Dict.{get}
use logquill_python.Value.{Value, str, dict, Meta, entries, value_eq, present}
use logquill_python.TamperEvident.{
  Found, meta_of, or_null, content_of, hash_input, compute_hash, check_record, check_stored,
  check_content, verify_from, VerificationResult,
}

first : String → Char → Char
first String.[] d = d
first (String.◌∷◌ c s) d = c

rest : String → String
rest String.[] = ""
rest (String.◌∷◌ c s) = s

-- Texts with prefixes of one length are equal in both parts.
append_inj : (p q s t : String) → count p ≡ count q → p <> s ≡ q <> t → (p ≡ q) × (s ≡ t)
append_inj String.[] String.[] s t n e = (refl, sym (nil s) ∙ e ∙ nil t)
append_inj String.[] (String.◌∷◌ d q) s t n e = absurd (omega (arith, count-nil, count-cons d q, n))
append_inj (String.◌∷◌ c p) String.[] s t n e = absurd (omega (arith, count-nil, count-cons c p, n))
append_inj (String.◌∷◌ c p) (String.◌∷◌ d q) s t n e =
    let opened = sym (cons c p s) ∙ e ∙ cons d q t in
    let (same, left) =
      append_inj p q s t (omega (arith, n, count-cons c p, count-cons d q))
        (unfold rest in ap rest opened) in
    let head : c ≡ d = unfold first in ap (λ u. first u c) opened in (cc (head, same), left)

-- `record["meta"]`, if it is a dict
abbrev pub meta_entries : Option Value → Meta
meta_entries (some (dict d)) = entries d
meta_entries _ = []

module _ (dumps : Meta → String) (sha256 : String → String) (genesis : String) where
  -- what the hash of a record covers
  abbrev pub payload : Meta → String
  payload r = dumps (content_of r (meta_entries (get r "meta")))

  -- the payloads of a log, the last record first, before `acc`
  abbrev pub payloads : List String → List Meta → List String
  payloads acc [] = acc
  payloads acc (r ∷ records) = payloads (payload r ∷ acc) records

  -- the head of a chain over these payloads, the last one first
  abbrev pub head_after : List String → String
  head_after [] = genesis
  head_after (p ∷ ps) = sha256 (head_after ps <> p)

  -- the texts that are hashed for the chain over these payloads
  abbrev pub inputs : List String → List String
  inputs [] = []
  inputs (p ∷ ps) = (head_after ps <> p) ∷ inputs ps

  -- An attack on the hash with the texts of two logs: one of each log that differ and have one hash,
  -- or one whose hash is the first `prev_hash`.
  pub data Attack (ps qs : List String) : Type 0 where
    collision :
        (s t : String)
        → contains (inputs ps) s ≡ true
        → contains (inputs qs) t ≡ true
        → s ≢ t
        → sha256 s ≡ sha256 t
        → Attack ps qs
    preimage :
        (s : String)
        → contains (inputs ps ++ inputs qs) s ≡ true
        → sha256 s ≡ genesis
        → Attack ps qs

  found_first : (s : String) (l : List String) → contains (s ∷ l) s ≡ true
  found_first s l = ground (arith, beq_self s)

  found_later : (s t : String) (l : List String) → contains l s ≡ true → contains (t ∷ l) s ≡ true
  found_later s t l h = ground (arith, h)

  found_in :
      (s t : String) (l m : List String)
      → contains (l ++ m) s ≡ true
      → contains (l ++ t ∷ m) s ≡ true
  found_in s t [] m h = found_later s t m h
  found_in s t (u ∷ l) m h = elim (Bool-cases (u == s)) [
    | inl here ↦ rw here refl
    | inr there ↦ rw there (found_in s t l m (sym (rw there refl) ∙ h))
  ]

  later : (p q : String) (ps qs : List String) → Attack ps qs → Attack (p ∷ ps) (q ∷ qs)
  later p q ps qs (collision s t a b other e) =
      collision s t (found_later s _ (inputs ps) a) (found_later t _ (inputs qs) b) other e
  later p q ps qs (preimage s a e) =
      preimage s
        (found_later s _ (inputs ps ++ _ ∷ inputs qs)
          (found_in s (head_after qs <> q) (inputs ps) (inputs qs) a))
        e

  module _ (fixed_length : (s : String) → count (sha256 s) ≡ count genesis) where
    count-head_after : (ps : List String) → count (head_after ps) ≡ count genesis
    count-head_after [] = refl
    count-head_after (p ∷ ps) = fixed_length (head_after ps <> p)

    pub heads-agree :
        (ps qs : List String) → head_after ps ≡ head_after qs → (ps ≡ qs) ⊎ Attack ps qs
    heads-agree [] [] e = inl refl
    heads-agree [] (q ∷ qs) e =
        inr (preimage (head_after qs <> q) (found_first (head_after qs <> q) (inputs qs)) (sym e))
    heads-agree (p ∷ ps) [] e =
        inr (preimage (head_after ps <> p) (found_first (head_after ps <> p) (inputs ps ++ [])) e)
    heads-agree (p ∷ ps) (q ∷ qs) e =
        elim (string_discrete (head_after ps <> p) (head_after qs <> q)) [
          | no other ↦ inr (
              collision (head_after ps <> p) (head_after qs <> q)
                (found_first (head_after ps <> p) (inputs ps))
                (found_first (head_after qs <> q) (inputs qs)) other e)
          | yes same ↦
              let (before, last) =
                append_inj (head_after ps) (head_after qs) p q
                  (count-head_after ps ∙ sym (count-head_after qs)) same in
              elim (heads-agree ps qs before) [
                | inl all ↦ inl (cc (all, last))
                | inr attack ↦ inr (later p q ps qs attack)
              ]
        ]

-- The result of a chain that is intact.
module _ (dumps : Meta → String) (sha256 : String → String) (genesis : String) where
  -- The hash that a record hands on is that of its payload.
  abbrev pub Intact : List String → Result VerificationResult → Type 0
  Intact ps (raise e) = Unit
  Intact ps (ok v) = v.is_ok ≡ true → v.head_hash ≡ some (str (head_after dumps sha256 genesis ps))

  -- What the check of one record finds: the hash of the record's payload, or a break.
  Finds : String → Meta → Result (Found dumps sha256) → Type 0
  Finds prev r (raise e) = Unit
  Finds prev r (ok (inl digest)) = digest ≡ sha256 (prev <> payload dumps sha256 genesis r)
  Finds prev r (ok (inr v)) = v.is_ok ≡ false

  module _ (r : Meta) (prev : String) (checked : ℕ) where
    content-Finds :
        (meta : Meta) (stored : Value)
        → meta ≡ meta_entries (get r "meta")
        → Finds prev r (ok (check_content dumps sha256 r meta prev checked stored))
    unfolding Finds check_content compute_hash hash_input
    content-Finds meta stored e =
        let digest = compute_hash dumps sha256 r meta prev in
        elim (Bool-cases (str digest == stored)) [
          | inl same ↦ rw same (ap (λ m. sha256 (prev <> dumps (content_of r m))) e)
          | inr other ↦ rw other refl
        ]

    stored-Finds :
        (meta : Meta) (o : Option Value)
        → meta ≡ meta_entries (get r "meta")
        → Finds prev r (ok (check_stored dumps sha256 r meta prev checked o))
    unfolding Finds check_stored
    stored-Finds meta none e = refl
    stored-Finds meta (some stored) e =
        elim (Bool-cases (or_null (get meta "prev_hash") == str prev)) [
          | inl same ↦ rw same (content-Finds meta stored e)
          | inr other ↦ rw other refl
        ]

    record-Finds :
        (o : Option Value)
        → get r "meta" ≡ o
        → Finds prev r (
            meta_of o >>= λ meta.
            ok (check_stored dumps sha256 r meta prev checked (present (get meta "hash"))))
    unfolding Finds
    record-Finds none e = stored-Finds [] (present (get [] "hash")) (sym (ap meta_entries e))
    record-Finds (some (dict d)) e =
        stored-Finds (entries d) (present (get (entries d) "hash")) (sym (ap meta_entries e))
    record-Finds (some _) e = tt

  next-Intact :
      (ps : List String) (r : Meta) (records : List Meta) (checked : ℕ)
      (f : Result (Found dumps sha256))
      → Finds (head_after dumps sha256 genesis ps) r f
      → Intact (payloads dumps sha256 genesis ps (r ∷ records)) (
          verify_from dumps sha256
            (head_after dumps sha256 genesis (payload dumps sha256 genesis r ∷ ps))
            (checked + 1)
            records)
      → Intact (payloads dumps sha256 genesis ps (r ∷ records)) (
          f >>= λ found. elim found [
            | inl digest ↦ verify_from dumps sha256 digest (checked + 1) records
            | inr result ↦ ok result
          ])
  unfolding Finds
  next-Intact ps r records checked (raise e) found ih = tt
  next-Intact ps r records checked (ok (inl digest)) found ih =
      subst
        (λ d.
          Intact (payloads dumps sha256 genesis ps (r ∷ records))
            (verify_from dumps sha256 d (checked + 1) records))
        (sym found) ih
  next-Intact ps r records checked (ok (inr v)) found ih = λ h. absurd (false≢true (sym found ∙ h))

  pub verify_from-Intact :
      (ps : List String) (records : List Meta) (checked : ℕ)
      → Intact
          (payloads dumps sha256 genesis ps records)
          (verify_from dumps sha256 (head_after dumps sha256 genesis ps) checked records)
  unfolding verify_from check_record
  verify_from-Intact ps [] checked = λ h. refl
  verify_from-Intact ps (r ∷ records) checked =
      next-Intact ps r records checked
        (check_record dumps sha256 r (head_after dumps sha256 genesis ps) (checked + 1))
        (record-Finds r (head_after dumps sha256 genesis ps) (checked + 1) (get r "meta") refl)
        (verify_from-Intact (payload dumps sha256 genesis r ∷ ps) records (checked + 1))
