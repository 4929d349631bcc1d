-- ===== src/Pii/Values.antt =====
-- Redaction of values: every text in a value that is not too deep.
use Prim.Native.Nat.{max}
use logquill_python.Base.{ℕ, suc, ◌+◌, ◌≤◌, false, ◌≡◌, refl, ap, ltb, String, arith}
use logquill_python.Value.{
  Value, Items, Fields, null, bool, int, float, str, list, dict, object, nil, cons, end, field,
  of_entries, entries,
}
use logquill_python.Records.{Record}
use logquill_python.Pii.{max_depth, redact_value, redact_items, redact_fields, before_log}

-- how deep a value nests
unfoldable mutual
  pub height : Value → ℕ
  height (list l) = suc (height_items l)
  height (dict fs) = suc (height_fields fs)
  height null = 0
  height (bool b) = 0
  height (int n) = 0
  height (float n) = 0
  height (str s) = 0
  height (object n) = 0

  pub height_items : Items → ℕ
  height_items nil = 0
  height_items (cons v l) = max (height v) (height_items l)

  pub height_fields : Fields → ℕ
  height_fields end = 0
  height_fields (field k v fs) = max (height v) (height_fields fs)

module _ (redact : String → String) where
  -- the value with every text replaced, and keys and all else as they were
  unfoldable mutual
    pub map_texts : Value → Value
    map_texts (str s) = str (redact s)
    map_texts (list l) = list (map_items l)
    map_texts (dict fs) = dict (map_fields fs)
    map_texts null = null
    map_texts (bool b) = bool b
    map_texts (int n) = int n
    map_texts (float n) = float n
    map_texts (object n) = object n

    pub map_items : Items → Items
    map_items nil = nil
    map_items (cons v l) = cons (map_texts v) (map_items l)

    pub map_fields : Fields → Fields
    map_fields end = end
    map_fields (field k v fs) = field k (map_texts v) (map_fields fs)

  in_reach : (depth : ℕ) → depth ≤ max_depth → ltb max_depth depth ≡ false
  in_reach depth h = ground arith

  mutual
    unfolding redact_value height map_texts

    redact_value-map_texts :
        (v : Value) (depth : ℕ)
        → depth + height v ≤ max_depth
        → redact_value redact v depth ≡ map_texts v
    redact_value-map_texts (str s) depth h = rw (in_reach depth (omega (arith, h))) refl
    redact_value-map_texts (list l) depth h =
        rw (in_reach depth (omega (arith, h)))
          (ap list (redact_items-map_items l (suc depth) (omega (arith, h))))
    redact_value-map_texts (dict fs) depth h =
        rw (in_reach depth (omega (arith, h)))
          (ap dict (redact_fields-map_fields fs (suc depth) (omega (arith, h))))
    redact_value-map_texts null depth h = refl
    redact_value-map_texts (bool b) depth h = refl
    redact_value-map_texts (int n) depth h = refl
    redact_value-map_texts (float n) depth h = refl
    redact_value-map_texts (object n) depth h = refl

    redact_items-map_items :
        (l : Items) (depth : ℕ)
        → depth + height_items l ≤ max_depth
        → redact_items redact l depth ≡ map_items l
    redact_items-map_items nil depth h = refl
    redact_items-map_items (cons v l) depth h = λ i.
        cons (redact_value-map_texts v depth (omega (arith, h)) i)
          (redact_items-map_items l depth (omega (arith, h)) i)

    redact_fields-map_fields :
        (fs : Fields) (depth : ℕ)
        → depth + height_fields fs ≤ max_depth
        → redact_fields redact fs depth ≡ map_fields fs
    redact_fields-map_fields end depth h = refl
    redact_fields-map_fields (field k v fs) depth h = λ i.
        field k (redact_value-map_texts v depth (omega (arith, h)) i)
          (redact_fields-map_fields fs depth (omega (arith, h)) i)

  -- If `meta` nests at most 49 levels below its own entries: every text in it, at whatever place, is
  -- replaced by its redacted text, and the keys, all other values and the rest of the record stay.
  pub before_log-map_texts :
      (r : Record)
      → suc (height_fields (of_entries r.meta)) ≤ max_depth
      → before_log redact r ≡ record r { meta = entries (map_fields (of_entries r.meta)) }
  unfolding before_log
  before_log-map_texts r h =
      ap (λ (fs : Fields). record r { meta = entries fs })
        (redact_fields-map_fields (of_entries r.meta) 1 (omega (arith, h)))
