-- ===== src/TraceTree/Render.antt =====
-- `render_tree` of `logquill/cli/trace_tree.py`. How numbers and values are shown is a parameter.
use logquill_python.Base.{
  ℕ, zero, suc, String, string_eq, Bool, true, false, ◌&&◌, Option, none, some, List, [], ◌∷◌, ◌++◌,
  length, if◌then◌else◌,
}
use Prim.Native.String.{◌++◌ as ◌++ₛ◌}
use logquill_python.Base.Int.{ℤ, pos}
use logquill_python.Dict.{get}
use logquill_python.Value.{Value}
use logquill_python.TraceTree.{Node, Sum, Rollup, node_at, rollup, duration_ms}

-- `str(value)`, `f"{ms:,.1f}"`, `f"{tokens}"`, `f"{cost:,.4f}"`, and whether a cost is 0
pub record Formats : Type 0 where
  pub text : Value → String
  pub tenths : ℤ → String
  pub whole : ℤ → String
  pub cost : Sum → String
  pub free : Sum → Bool

abbrev pub is_zero : ℤ → Bool
is_zero (pos zero) = true
is_zero _ = false

-- `separator.join(parts)`
unfoldable pub join : String → List String → String
join separator [] = ""
join separator (part ∷ []) = part
join separator (part ∷ next ∷ parts) = part ++ₛ separator ++ₛ join separator (next ∷ parts)

abbrev pub text_or : Formats → Option Value → String → String
text_or formats none default = default
text_or formats (some v) default = formats.text v

module _ (formats : Formats) (colorize : Option (String → String → String))
    (store : List Node) where
  abbrev pub duration_part : Option ℤ → List String
  duration_part none = []
  duration_part (some ms) = (formats.tenths ms ++ₛ "ms") ∷ []

  abbrev pub token_part : Rollup → List String
  token_part r =
      if is_zero r.tokens_in && is_zero r.tokens_out
      then []
      else (formats.whole r.tokens_in ++ₛ "→" ++ₛ formats.whole r.tokens_out ++ₛ " tok") ∷ []

  abbrev pub cost_part : Rollup → List String
  cost_part r = if formats.free r.cost_usd then [] else ("$" ++ₛ formats.cost r.cost_usd) ∷ []

  abbrev pub in_brackets : List String → String
  in_brackets [] = ""
  in_brackets (part ∷ parts) = "  (" ++ₛ join ", " (part ∷ parts) ++ₛ ")"

  -- `_annotations`
  unfoldable pub annotations : ℕ → String
  unfolding join rollup duration_ms node_at
  annotations i =
      let total = rollup (length store) store i in
      in_brackets
        (duration_part (duration_ms (node_at store i).entry) ++ token_part total ++ cost_part total)

  -- `_label`
  unfoldable pub label : ℕ → String
  unfolding annotations
  label i =
      let entry = (node_at store i).entry in
      "["
      ++ₛ text_or formats (get entry "level") "?"
      ++ₛ "] "
      ++ₛ text_or formats (get entry "message") ""
      ++ₛ annotations i

  abbrev pub colored : Option (String → String → String) → String → String → String
  colored none text level = text
  colored (some color) text level = color text level

  -- the line of a node
  unfoldable pub line : String → Bool → ℕ → String
  unfolding label
  line prefix is_last i =
      prefix
      ++ₛ (if is_last then "└─ " else "├─ ")
      ++ₛ colored colorize (label i) (text_or formats (get (node_at store i).entry "level") "")

  abbrev pub is_nil : List ℕ → Bool
  is_nil [] = true
  is_nil (c ∷ l) = false

  -- the loop over the nodes of a list, with what `walk` gives for one
  unfoldable pub walk_each : (Bool → ℕ → List String) → List ℕ → List String
  walk_each walk_one [] = []
  walk_each walk_one (c ∷ rest) = walk_one (is_nil rest) c ++ walk_each walk_one rest

  -- `walk`, to a depth, as `rollup`: the lines that it appends
  unfoldable pub walk : ℕ → String → Bool → ℕ → List String
  unfolding line walk_each
  walk zero prefix is_last i = line prefix is_last i ∷ []
  walk (suc depth) prefix is_last i =
      line prefix is_last i
      ∷ walk_each (walk depth (prefix ++ₛ (if is_last then "   " else "│  ")))
          (node_at store i).children

  unfoldable pub render_lines : List ℕ → List String
  unfolding walk walk_each
  render_lines roots = walk_each (walk (length store) "") roots

  -- `render_tree`
  unfoldable pub render_tree : List ℕ → String
  unfolding render_lines join
  render_tree roots = join "\n" (render_lines roots)
