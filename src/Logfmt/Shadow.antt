-- ===== src/Logfmt/Shadow.antt =====
-- What a line of `LogfmtFormatter` keeps of a record, whatever its `meta` holds: the four fields of
-- its own, and the line itself.
use logquill_python.Base.{
  ℕ, suc, Bool, true, false, ◌&&◌, ◌||◌, Option, none, some, List, [], ◌∷◌, ◌++◌, ◌≡◌, refl, ap,
  ◌∙◌, arith, ltb, ◌==◌, contains, nat_eq, All, All-append, if_both, Bool-cases, inl, inr,
}
use logquill_python.Base.Int.{ℤ}
use logquill_python.Base.Text.{codes, codes_eq}
use logquill_python.Dict.{Dict, get, put, update}
use logquill_python.Dict.Laws.{get-put}
use logquill_python.Value.{
  Value, Fields, null, bool, int, float, str, list, dict, object, end, field, Meta, of_entries,
}
use logquill_python.Records.{Record}
use logquill_python.Logfmt.{
  Text, Texts, key_of, has_fields, max_flatten_depth, reserved_keys, meta_key, format,
}
use logquill_python.Logfmt.Read.{parse_logfmt}
use logquill_python.Logfmt.Words.{IsPlain}
use logquill_python.Logfmt.Format.{
  fields_of, fields_inside, fields_of_meta, fields_of_llm, more_fields, parse_logfmt-format,
}

abbrev has_dot : Text → Bool
has_dot [] = false
has_dot (c ∷ t) = let more = has_dot t in c == b'.' || more

has_dot-append : (t more : Text) → has_dot (t ++ b'.' ∷ more) ≡ true
has_dot-append [] more = refl
has_dot-append (c ∷ t) more = ground (arith, has_dot-append t more)

contains-has_dot :
    (keys : List Text) (key : Text)
    → All (λ k. has_dot k ≡ false) keys
    → has_dot key ≡ true
    → contains keys key ≡ false
contains-has_dot [] key a h = refl
contains-has_dot (k ∷ keys) key (first, more) h =
    ground (arith, contains-has_dot keys key more h, codes_eq.same_iff k key)

abbrev IsFree : Text → Type 0
IsFree key = contains reserved_keys key ≡ false

dotted-IsFree : (t more : Text) → IsFree (t ++ b'.' ∷ more)
dotted-IsFree t more =
    contains-has_dot reserved_keys (t ++ b'.' ∷ more) (refl, (refl, (refl, (refl, tt))))
      (has_dot-append t more)

meta_key-IsFree : (raw : Text) → IsFree (meta_key raw)
unfolding meta_key
meta_key-IsFree raw = elim (Bool-cases (contains reserved_keys (key_of raw))) [
  | inl e ↦ rw e (dotted-IsFree (codes "meta") (key_of raw))
  | inr e ↦ rw e e
]

abbrev AreFree : List (Text × Text) → Type 0
AreFree = All (λ (f : Text × Text). IsFree f.0)

module _ (texts : Texts) where
  mutual
    unfolding fields_of

    fields_of-AreFree :
        (prefix : Text) (v : Value) (depth : ℕ)
        → IsFree prefix
        → AreFree (fields_of texts prefix v depth)
    fields_of-AreFree prefix (dict fs) depth free =
        if_both AreFree (has_fields fs && ltb depth max_flatten_depth)
          (fields_inside-AreFree prefix fs (suc depth)) (free, tt)
    fields_of-AreFree prefix null depth free = (free, tt)
    fields_of-AreFree prefix (bool b) depth free = (free, tt)
    fields_of-AreFree prefix (int n) depth free = (free, tt)
    fields_of-AreFree prefix (float n) depth free = (free, tt)
    fields_of-AreFree prefix (str s) depth free = (free, tt)
    fields_of-AreFree prefix (list l) depth free = (free, tt)
    fields_of-AreFree prefix (object n) depth free = (free, tt)

    fields_inside-AreFree :
        (prefix : Text) (fs : Fields) (depth : ℕ) → AreFree (fields_inside texts prefix fs depth)
    fields_inside-AreFree prefix end depth = tt
    fields_inside-AreFree prefix (field k v fs) depth =
        All-append (λ (f : Text × Text). IsFree f.0)
          (fields_of texts (prefix ++ b'.' ∷ key_of (codes k)) v depth)
          (fields_inside texts prefix fs depth)
          (fields_of-AreFree (prefix ++ b'.' ∷ key_of (codes k)) v depth
            (dotted-IsFree prefix (key_of (codes k))))
          (fields_inside-AreFree prefix fs depth)

  fields_of_meta-AreFree : (meta : Meta) → AreFree (fields_of_meta texts meta)
  fields_of_meta-AreFree [] = tt
  fields_of_meta-AreFree ((k, v) ∷ meta) =
      All-append (λ (f : Text × Text). IsFree f.0) (fields_of texts (meta_key (codes k)) v 1)
        (fields_of_meta texts meta)
        (fields_of-AreFree (meta_key (codes k)) v 1 (meta_key-IsFree (codes k)))
        (fields_of_meta-AreFree meta)

  fields_of_llm-AreFree : (llm : Option Meta) → AreFree (fields_of_llm texts llm)
  fields_of_llm-AreFree none = tt
  fields_of_llm-AreFree (some []) = tt
  fields_of_llm-AreFree (some (entry ∷ llm)) =
      fields_of-AreFree (codes "llm") (dict (of_entries (entry ∷ llm))) 1 refl

-- entries with other keys leave what a key holds
get-update_other :
    (d u : Dict Text Text) (k : Text)
    → contains reserved_keys k ≡ true
    → AreFree u
    → get (update d u) k ≡ get d k
unfolding update
get-update_other d [] k h a = refl
get-update_other d ((j, v) ∷ u) k h (first, more) =
    get-update_other (put d j v) u k h more ∙ get-put d j k v ∙ (rw (other j k first h) refl)
  where
    other : (j k : Text) → IsFree j → contains reserved_keys k ≡ true → codes_eq.same j k ≡ false
    other j k free held = ground (arith, codes_eq.same_iff j k)

-- the fields that a record holds by itself
abbrev pub own_fields : Record → Dict Text Text
own_fields r =
    (codes "timestamp", codes r.timestamp)
    ∷ (codes "level", codes r.level)
    ∷ (codes "logger", codes r.logger)
    ∷ (codes "message", codes r.message)
    ∷ []

-- If `str` of a float has no special character: no entry of `meta` and no field of the LLM block
-- changes what a reader of the line finds under `timestamp`, `level`, `logger` and `message`, which
-- is what the record holds, whatever the keys and values are.
pub parse_logfmt-own_fields :
    (texts : Texts) (r : Record) (k : Text)
    → ((n : ℤ) → All IsPlain (texts.str_float n))
    → contains reserved_keys k ≡ true
    → get (parse_logfmt (format texts r)) k ≡ get (own_fields r) k
parse_logfmt-own_fields texts r k plain_floats h =
    ap (λ (d : Dict Text Text). get d k) (parse_logfmt-format texts plain_floats r)
    ∙ (unfold update put in
        get-update_other (own_fields r) (more_fields texts r) k h (
          All-append (λ (f : Text × Text). IsFree f.0) (fields_of_llm texts r.llm)
            (fields_of_meta texts r.meta) (fields_of_llm-AreFree texts r.llm)
            (fields_of_meta-AreFree texts r.meta)))
