-- ===== src/Records/Llm.antt =====
-- `build_llm_block` of `logquill/core/records.py`.
use logquill_python.Base.{
  ◌⊎◌, ◌≢◌, String, Bool, true, false, ◌||◌, Option, none, some, [], ◌∷◌, ◌≡◌, refl, ◌==◌,
  string_eq, if◌then◌else◌, arith, eq_iff, inr,
}
use logquill_python.Base.Int.{is_non_negative}
use logquill_python.Dict.{get, put, IsDict}
use logquill_python.Dict.Laws.{get-put, get-nil}
use logquill_python.Value.{Value, Meta, null, int, float, str}

is_int_field : String → Bool
is_int_field k = k == "tokens_in" || k == "tokens_out"

is_number_field : String → Bool
is_number_field k = k == "cost_usd" || k == "latency_ms"

is_str_field : String → Bool
is_str_field k = k == "model" || k == "finish_reason"

fits_int : Value → Bool
fits_int (int n) = is_non_negative n
fits_int _ = false

fits_number : Value → Bool
fits_number (int n) = is_non_negative n
fits_number (float n) = is_non_negative n
fits_number _ = false

fits_str : Value → Bool
fits_str (str _) = true
fits_str _ = false

-- the value of `valid`
unfoldable pub fits : String → Value → Bool
unfolding is_int_field is_number_field is_str_field fits_int fits_number fits_str
fits k v =
    if is_int_field k
    then fits_int v
    else if is_number_field k
    then fits_number v
    else if is_str_field k
    then fits_str v
    else false

abbrev pub keep_field : Meta → String → Value → Meta
keep_field block k null = block
keep_field block k v = if fits k v then put block k v else block

unfoldable pub fill_block : Meta → Meta → Meta
unfolding fits put
fill_block block [] = block
fill_block block ((k, v) ∷ fields) = fill_block (keep_field block k v) fields

abbrev pub none_if_empty : Meta → Option Meta
none_if_empty [] = none
none_if_empty (x ∷ d) = some (x ∷ d)

-- the warnings that are logged for the fields left out are not modelled
unfoldable pub build_llm_block : Meta → Option Meta
unfolding fill_block
build_llm_block fields = none_if_empty (fill_block [] fields)

-- what the block holds of a keyword argument
abbrev pub usable : String → Option Value → Option Value
usable k none = none
usable k (some null) = none
usable k (some v) = if fits k v then some v else none

fits_null : (k : String) → fits k null ≡ false
unfolding fits
fits_null k = ground arith

-- one keyword argument: what the block holds under each key after it
get-keep_field :
    (block : Meta) (k j : String) (v : Value)
    → get block k ≡ none
    → get (keep_field block k v) j ≡ (if k == j then usable k (some v) else get block j)
get-keep_field block k j null h = ground (arith, eq_iff k j)
get-keep_field block k j v h = ground (arith, eq_iff k j, get-put block k j v)

abbrev Apart : Meta → Meta → Type 0
Apart block fields = (k : String) → (get fields k ≡ none) ⊎ (get block k ≡ none)

get-fill_block :
    (block fields : Meta) (j : String)
    → IsDict fields
    → Apart block fields
    → get (fill_block block fields) j
      ≡ elim (get fields j) [ none ↦ get block j | some v ↦ usable j (some v) ]
unfolding fill_block get
get-fill_block block [] j u apart = refl
get-fill_block block ((k, v) ∷ fields) j u apart =
    let free : get block k ≡ none = ground (arith, apart k, eq_iff k k) in
    let step : Apart (keep_field block k v) fields =
      λ i. ground (arith, apart i, eq_iff k i, u.0, get-keep_field block k i v free) in
    ground (
      arith,
      get-fill_block (keep_field block k v) fields j u.1 step,
      get-keep_field block k j v free,
      eq_iff k j,
      u.0,
      apart j,
    )

-- what a record without the block, or with it, holds
abbrev pub llm_value : Option Meta → String → Option Value
llm_value none j = none
llm_value (some block) j = get block j

get-none_if_empty : (d : Meta) (j : String) → llm_value (none_if_empty d) j ≡ get d j
unfolding get
get-none_if_empty [] j = refl
get-none_if_empty (x ∷ d) j = refl

none_if_empty-ne : (d : Meta) → none_if_empty d ≢ some []
none_if_empty-ne [] h = absurd (ground arith)
none_if_empty-ne (x ∷ d) h = absurd (ground arith)

-- The block that `build_llm_block` returns holds under each key exactly the argument given for it
-- that is not `None` and fits the field, and nothing else; and a block is never empty. The
-- arguments are keyword arguments, so no name stands twice.
pub get-build_llm_block :
    (fields : Meta) (j : String)
    → IsDict fields
    → (llm_value (build_llm_block fields) j ≡ usable j (get fields j))
      × (build_llm_block fields ≢ some [])
unfolding build_llm_block
get-build_llm_block fields j u = (
  ground (
    arith,
    get-none_if_empty (fill_block [] fields) j,
    get-fill_block [] fields j u (λ k. inr (get-nil k)),
    get-nil {V = Value} j,
  ),
  none_if_empty-ne (fill_block [] fields),
)
