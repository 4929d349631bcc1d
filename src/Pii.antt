-- ===== src/Pii.antt =====
-- `PIIRedactPlugin`, `logquill/plugins/pii_redact_plugin.py`, with the patterns of regular
-- expressions as a parameter. A text is its list of code points. A list and a tuple are both lists,
-- and no value holds itself.
pub mod Sweep
pub mod Mask
pub mod Values
use logquill_python.Base.{
  ℕ, zero, suc, ◌+◌, ◌-◌, Bool, true, false, not, ◌&&◌, ◌||◌, List, [], ◌∷◌, ◌++◌, leb, ltb, ◌==◌,
  nat_eq, take, String, if◌then◌else◌,
}
use logquill_python.Value.{
  Value, Items, Fields, null, bool, int, float, str, list, dict, object, nil, cons, end, field,
  Meta, of_entries, entries,
}
use logquill_python.Records.{Record}

abbrev pub Text : Type 0
Text = List ℕ

-- `(match.start(), match.end())`
abbrev pub Match : Type 0
Match = ℕ × ℕ

-- `a` is not after `b` under the key `(start, -end)`
unfoldable pub leb_match : Match → Match → Bool
leb_match (s, e) (t, f) = ltb s t || (s == t && leb f e)

unfoldable pub insert_match : Match → List Match → List Match
unfolding leb_match
insert_match m [] = m ∷ []
insert_match m (n ∷ spans) =
    let rest = insert_match m spans in if leb_match m n then m ∷ n ∷ spans else n ∷ rest

-- `spans.sort(key=...)`, which keeps the order of equal keys
unfoldable pub sort_matches : List Match → List Match
unfolding insert_match
sort_matches [] = []
sort_matches (m ∷ spans) = insert_match m (sort_matches spans)

-- the loop that chooses; no match starts before 0, so a `last_end` of 0 acts as the -1 of the source
unfoldable pub choose : ℕ → List Match → List Match
choose last_end [] = []
choose last_end ((start, end') ∷ spans) =
    let taken = choose end' spans in
    let passed = choose last_end spans in
    if leb last_end start then (start, end') ∷ taken else passed

abbrev pub drop : ℕ → Text → Text
drop zero text = text
drop (suc n) [] = []
drop (suc n) (c ∷ text) = drop n text

-- `text[start:stop]`
abbrev pub slice : Text → ℕ → ℕ → Text
slice text start stop = take (stop - start) (drop start text)

-- `"".join(pieces)` of the last loop, from the cursor on
unfoldable pub pieces : Text → Text → ℕ → List Match → Text
pieces replacement text cursor [] = drop cursor text
pieces replacement text cursor ((start, end') ∷ chosen) =
    slice text cursor start ++ (replacement ++ pieces replacement text end' chosen)

unfoldable pub redact_spans : Text → Text → List Match → Text
unfolding sort_matches choose pieces
redact_spans replacement text [] = text
redact_spans replacement text (m ∷ spans) =
    pieces replacement text 0 (choose 0 (sort_matches (m ∷ spans)))

abbrev pub max_depth : ℕ
max_depth = 50

-- `_redact_text` without Presidio, for what the patterns find in a text
module _ (find_all : Text → List Match) (replacement : Text) where
  unfoldable pub redact_text : Text → Text
  unfolding redact_spans
  redact_text text = redact_spans replacement text (find_all text)

-- `_redact_value`, for a function on texts
module _ (redact : String → String) where
  unfoldable mutual
    pub redact_value : Value → ℕ → Value
    redact_value (str s) depth = if ltb max_depth depth then str s else str (redact s)
    redact_value (list l) depth =
        let inner = redact_items l (suc depth) in if ltb max_depth depth then list l else list inner
    redact_value (dict fs) depth =
        let inner = redact_fields fs (suc depth) in
        if ltb max_depth depth then dict fs else dict inner
    redact_value null depth = null
    redact_value (bool b) depth = bool b
    redact_value (int n) depth = int n
    redact_value (float n) depth = float n
    redact_value (object n) depth = object n

    pub redact_items : Items → ℕ → Items
    redact_items nil depth = nil
    redact_items (cons v l) depth = cons (redact_value v depth) (redact_items l depth)

    pub redact_fields : Fields → ℕ → Fields
    redact_fields end depth = end
    redact_fields (field k v fs) depth = field k (redact_value v depth) (redact_fields fs depth)

  -- `before_log`: `meta` is the dict at depth 0
  unfoldable pub before_log : Record → Record
  unfolding redact_value
  before_log r = record r { meta = entries (redact_fields (of_entries r.meta) 1) }
