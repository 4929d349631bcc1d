-- ===== src/Logfmt/Format.antt =====
-- That `parse_logfmt` reads back what `LogfmtFormatter.format` writes.
use logquill_python.Base.{
  ℕ, suc, true, false, ◌&&◌, Option, none, some, List, [], ◌∷◌, ◌++◌, ◌≡◌, refl, ltb, nat_eq, All,
  if◌then◌else◌, Bool-cases, inl, inr,
}
use logquill_python.Base.Int.{ℤ}
use logquill_python.Base.Text.{codes, codes_eq}
use logquill_python.Dict.{update}
use logquill_python.Value.{
  Value, Fields, null, bool, int, float, str, list, dict, object, end, field, Meta, of_entries,
}
use logquill_python.Records.{Record}
use logquill_python.Logfmt.{
  Text, Texts, has_special, needs_quotes, quote, key_of, str_int, scalar, has_fields,
  max_flatten_depth, pair, flatten, flatten_fields, meta_key, meta_pairs, llm_pairs, format,
}
use logquill_python.Logfmt.Chars.{is_special, is_space, is_control}
use logquill_python.Logfmt.Read.{parse_logfmt}
use logquill_python.Logfmt.Words.{
  IsPlain, IsPrintable, Reads, has_special-All, plain-Reads, quote-Reads,
}
use logquill_python.Logfmt.Lines.{join-All, IsKey, AreWritten, parse_logfmt-join}
use logquill_python.Logfmt.Keys.{test-IsKey, str_int-All, dotted-IsKey, meta_key-IsKey}

-- the text that a value stands for
abbrev pub text_of : Texts → Value → Text
text_of texts null = codes "null"
text_of texts (bool true) = codes "true"
text_of texts (bool false) = codes "false"
text_of texts (int n) = str_int n
text_of texts (float n) = texts.str_float n
text_of texts (str s) = codes s
text_of texts (list l) = texts.json (list l)
text_of texts (dict fs) = texts.json (dict fs)
text_of texts (object n) = texts.str_object n

-- the entries that a value stands for
unfoldable mutual
  pub fields_of : Texts → Text → Value → ℕ → List (Text × Text)
  fields_of texts prefix (dict fs) depth =
      let inner = fields_inside texts prefix fs (suc depth) in
      if has_fields fs && ltb depth max_flatten_depth
      then inner
      else (prefix, text_of texts (dict fs)) ∷ []
  fields_of texts prefix null depth = (prefix, text_of texts null) ∷ []
  fields_of texts prefix (bool b) depth = (prefix, text_of texts (bool b)) ∷ []
  fields_of texts prefix (int n) depth = (prefix, text_of texts (int n)) ∷ []
  fields_of texts prefix (float n) depth = (prefix, text_of texts (float n)) ∷ []
  fields_of texts prefix (str s) depth = (prefix, text_of texts (str s)) ∷ []
  fields_of texts prefix (list l) depth = (prefix, text_of texts (list l)) ∷ []
  fields_of texts prefix (object n) depth = (prefix, text_of texts (object n)) ∷ []

  pub fields_inside : Texts → Text → Fields → ℕ → List (Text × Text)
  fields_inside texts prefix end depth = []
  fields_inside texts prefix (field k v fs) depth =
      fields_of texts (prefix ++ b'.' ∷ key_of (codes k)) v depth
      ++ fields_inside texts prefix fs depth

abbrev pub fields_of_meta : Texts → Meta → List (Text × Text)
fields_of_meta texts [] = []
fields_of_meta texts ((k, v) ∷ meta) =
    fields_of texts (meta_key (codes k)) v 1 ++ fields_of_meta texts meta

abbrev pub fields_of_llm : Texts → Option Meta → List (Text × Text)
fields_of_llm texts none = []
fields_of_llm texts (some []) = []
fields_of_llm texts (some (entry ∷ llm)) =
    fields_of texts (codes "llm") (dict (of_entries (entry ∷ llm))) 1

-- beside the four fields of its own
abbrev pub more_fields : Texts → Record → List (Text × Text)
more_fields texts r = fields_of_llm texts r.llm ++ fields_of_meta texts r.meta

abbrev pub fields_of_record : Texts → Record → List (Text × Text)
fields_of_record texts r =
    (codes "timestamp", codes r.timestamp)
    ∷ (codes "level", codes r.level)
    ∷ (codes "logger", codes r.logger)
    ∷ (codes "message", codes r.message)
    ∷ more_fields texts r

-- the texts that `format` joins
abbrev pairs_of : Texts → Record → List Text
pairs_of texts r =
    pair (codes "timestamp") (quote (codes r.timestamp))
    ∷ pair (codes "level") (quote (codes r.level))
    ∷ pair (codes "logger") (quote (codes r.logger))
    ∷ pair (codes "message") (quote (codes r.message))
    ∷ (llm_pairs texts r.llm ++ meta_pairs texts r.meta)

AreWritten-append :
    (ps qs : List Text) (fs gs : List (Text × Text))
    → AreWritten ps fs
    → AreWritten qs gs
    → AreWritten (ps ++ qs) (fs ++ gs)
AreWritten-append [] qs [] gs w v = v
AreWritten-append [] qs (f ∷ fs) gs w v = absurd w
AreWritten-append (p ∷ ps) qs [] gs w v = absurd w
AreWritten-append (p ∷ ps) qs ((k, t) ∷ fs) gs (first, more) v =
    (first, AreWritten-append ps qs fs gs more v)

-- `str` of a float has no character that needs quotes.
module _ (texts : Texts) (plain_floats : (n : ℤ) → All IsPlain (texts.str_float n)) where
  scalar-Reads : (v : Value) → Reads (scalar texts v) (text_of texts v)
  unfolding scalar has_special is_special is_space is_control
  scalar-Reads null = plain-Reads (codes "null") (has_special-All (codes "null") refl)
  scalar-Reads (bool true) = plain-Reads (codes "true") (has_special-All (codes "true") refl)
  scalar-Reads (bool false) = plain-Reads (codes "false") (has_special-All (codes "false") refl)
  scalar-Reads (int n) = plain-Reads (str_int n) (str_int-All n)
  scalar-Reads (float n) = plain-Reads (texts.str_float n) (plain_floats n)
  scalar-Reads (str s) = quote-Reads (codes s)
  scalar-Reads (list l) = quote-Reads (texts.json (list l))
  scalar-Reads (dict fs) = quote-Reads (texts.json (dict fs))
  scalar-Reads (object n) = quote-Reads (texts.str_object n)

  one_written :
      (prefix : Text) (v : Value)
      → IsKey prefix
      → AreWritten (pair prefix (scalar texts v) ∷ []) ((prefix, text_of texts v) ∷ [])
  one_written prefix v k = ((k, scalar texts v, refl, scalar-Reads v), tt)

  mutual
    unfolding flatten fields_of

    flatten-AreWritten :
        (prefix : Text) (v : Value) (depth : ℕ)
        → IsKey prefix
        → AreWritten (flatten texts prefix v depth) (fields_of texts prefix v depth)
    flatten-AreWritten prefix (dict fs) depth k =
        let inner = flatten_fields-AreWritten prefix fs (suc depth) k in
        elim (Bool-cases (has_fields fs && ltb depth max_flatten_depth)) [
          | inl e ↦ rw e inner
          | inr e ↦ rw e (one_written prefix (dict fs) k)
        ]
    flatten-AreWritten prefix null depth k = one_written prefix null k
    flatten-AreWritten prefix (bool b) depth k = one_written prefix (bool b) k
    flatten-AreWritten prefix (int n) depth k = one_written prefix (int n) k
    flatten-AreWritten prefix (float n) depth k = one_written prefix (float n) k
    flatten-AreWritten prefix (str s) depth k = one_written prefix (str s) k
    flatten-AreWritten prefix (list l) depth k = one_written prefix (list l) k
    flatten-AreWritten prefix (object n) depth k = one_written prefix (object n) k

    flatten_fields-AreWritten :
        (prefix : Text) (fs : Fields) (depth : ℕ)
        → IsKey prefix
        → AreWritten (flatten_fields texts prefix fs depth) (fields_inside texts prefix fs depth)
    flatten_fields-AreWritten prefix end depth k = tt
    flatten_fields-AreWritten prefix (field key v fs) depth k =
        AreWritten-append (flatten texts (prefix ++ b'.' ∷ key_of (codes key)) v depth)
          (flatten_fields texts prefix fs depth)
          (fields_of texts (prefix ++ b'.' ∷ key_of (codes key)) v depth)
          (fields_inside texts prefix fs depth)
          (flatten-AreWritten (prefix ++ b'.' ∷ key_of (codes key)) v depth
            (dotted-IsKey prefix (codes key) k))
          (flatten_fields-AreWritten prefix fs depth k)

  meta_pairs-AreWritten :
      (meta : Meta) → AreWritten (meta_pairs texts meta) (fields_of_meta texts meta)
  unfolding meta_pairs
  meta_pairs-AreWritten [] = tt
  meta_pairs-AreWritten ((k, v) ∷ meta) =
      AreWritten-append (flatten texts (meta_key (codes k)) v 1) (meta_pairs texts meta)
        (fields_of texts (meta_key (codes k)) v 1) (fields_of_meta texts meta)
        (flatten-AreWritten (meta_key (codes k)) v 1 (meta_key-IsKey (codes k)))
        (meta_pairs-AreWritten meta)

  llm_pairs-AreWritten :
      (llm : Option Meta) → AreWritten (llm_pairs texts llm) (fields_of_llm texts llm)
  unfolding llm_pairs needs_quotes has_special is_special is_space is_control
  llm_pairs-AreWritten none = tt
  llm_pairs-AreWritten (some []) = tt
  llm_pairs-AreWritten (some (entry ∷ llm)) =
      flatten-AreWritten (codes "llm") (dict (of_entries (entry ∷ llm))) 1
        (test-IsKey (codes "llm") refl)

  pairs_of-AreWritten : (r : Record) → AreWritten (pairs_of texts r) (fields_of_record texts r)
  unfolding needs_quotes has_special is_special is_space is_control
  pairs_of-AreWritten r = (
    own_field (codes "timestamp") (codes r.timestamp) refl,
    (
      own_field (codes "level") (codes r.level) refl,
      (
        own_field (codes "logger") (codes r.logger) refl,
        (
          own_field (codes "message") (codes r.message) refl,
          AreWritten-append (llm_pairs texts r.llm) (meta_pairs texts r.meta)
              (fields_of_llm texts r.llm) (fields_of_meta texts r.meta) (llm_pairs-AreWritten r.llm)
              (meta_pairs-AreWritten r.meta),
        ),
      ),
    ),
  )
    where
      own_field :
          (key value : Text)
          → needs_quotes key ≡ false
          → IsKey key × (word : Text) × (pair key (quote value) ≡ pair key word) × Reads word value
      own_field key value e = (test-IsKey key e, quote value, refl, quote-Reads value)

  -- If `str` of a float has no special character, `parse_logfmt` of the line that `format` writes
  -- gives the entries of the record: its four fields, those of the LLM block and of `meta`, nested
  -- dicts under dotted keys, each value as its text, unchanged by the quoting.
  pub parse_logfmt-format :
      (r : Record) → parse_logfmt (format texts r) ≡ update [] (fields_of_record texts r)
  unfolding format
  parse_logfmt-format r =
      parse_logfmt-join (pairs_of texts r) (fields_of_record texts r) (pairs_of-AreWritten r)

  -- If `str` of a float has no special character, the formatted record has no C0 control character
  -- and none of U+007F, U+0085, U+2028 and U+2029, whatever texts it holds: no line feed, and nothing
  -- else at which Python's `splitlines` ends a line.
  pub format-All-IsPrintable : (r : Record) → All IsPrintable (format texts r)
  unfolding format
  format-All-IsPrintable r =
      join-All (pairs_of texts r) (fields_of_record texts r) (pairs_of-AreWritten r)
