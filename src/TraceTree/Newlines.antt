-- ===== src/TraceTree/Newlines.antt =====
-- The line feeds in a text, and in what `render_tree` of `logquill/cli/trace_tree.py` puts together.
use logquill_python.Base.{
  ℕ, ◌+◌, String, string_eq, nat_eq, Bool, true, false, ◌&&◌, Option, none, some, List, [], ◌∷◌,
  ◌++◌, ◌≡◌, refl, ap, ◌∙◌, arith, length, ◌==◌, if◌then◌else◌, if_both,
}
use Prim.Native.Char.{code}
use Prim.Native.String.{◌++◌ as ◌++ₛ◌}
use text.Mathlib.TextLemmas.{nil-append, cons-append}
use logquill_python.Base.Int.{ℤ}
use logquill_python.Dict.{get}
use logquill_python.Value.{Meta}
use logquill_python.TraceTree.{Node, Rollup, node_at, rollup, duration_ms}
use logquill_python.TraceTree.Render.{
  Formats, is_zero, text_or, join, duration_part, token_part, cost_part, in_brackets, annotations,
  label, colored, line,
}

-- how many line feeds a text has
unfoldable pub newlines : String → ℕ
newlines String.[] = 0
newlines (String.◌∷◌ c s) = (if code c == 10 then 1 else 0) + newlines s

pub newlines-append : (s t : String) → newlines (s ++ₛ t) ≡ newlines s + newlines t
unfolding newlines
newlines-append String.[] t = ap newlines (nil-append t) ∙ omega arith
newlines-append (String.◌∷◌ c s) t =
    ap newlines (cons-append c s t) ∙ omega (arith, newlines-append s t)

-- the lines of texts that stand on lines of their own
abbrev pub lines_of : List String → ℕ
lines_of [] = 0
lines_of (part ∷ parts) = 1 + newlines part + lines_of parts

pub lines_of-append : (l m : List String) → lines_of (l ++ m) ≡ lines_of l + lines_of m
lines_of-append [] m = omega arith
lines_of-append (part ∷ l) m = omega (arith, lines_of-append l m)

pub newlines-join :
    (part : String) (parts : List String)
    → 1 + newlines (join "\n" (part ∷ parts)) ≡ lines_of (part ∷ parts)
unfolding join newlines
newlines-join part [] = omega arith
newlines-join part (next ∷ parts) = omega (
  arith,
  newlines-append part ("\n" ++ₛ join "\n" (next ∷ parts)),
  newlines-append "\n" (join "\n" (next ∷ parts)),
  newlines-join next parts,
)

-- No number is shown with a line feed in it.
pub record ShowsOnLine (formats : Formats) : Type 0 where
  pub tenths : (n : ℤ) → newlines (formats.tenths n) ≡ 0
  pub whole : (n : ℤ) → newlines (formats.whole n) ≡ 0
  pub cost : (r : Rollup) → newlines (formats.cost r.cost_usd) ≡ 0

-- The colors add no line feed and take none away.
abbrev pub KeepsLines : Option (String → String → String) → Type 0
KeepsLines none = Unit
KeepsLines (some color) = (text level : String) → newlines (color text level) ≡ newlines text

-- the lines that a record takes: one, and one more for each line feed in its level and its message
abbrev pub lines_for : Formats → Meta → ℕ
lines_for formats entry =
    1
    + newlines (text_or formats (get entry "level") "?")
    + newlines (text_or formats (get entry "message") "")

abbrev feeds : List String → ℕ
feeds [] = 0
feeds (part ∷ parts) = newlines part + feeds parts

feeds-append : (l m : List String) → feeds (l ++ m) ≡ feeds l + feeds m
feeds-append [] m = omega arith
feeds-append (part ∷ l) m = omega (arith, feeds-append l m)

feeds_three :
    (a b c : List String) → feeds a ≡ 0 → feeds b ≡ 0 → feeds c ≡ 0 → feeds (a ++ b ++ c) ≡ 0
feeds_three a b c first second third =
    omega (arith, feeds-append (a ++ b) c, feeds-append a b, first, second, third)

connector-on_line : (last : Bool) → newlines (if last then "└─ " else "├─ ") ≡ 0
unfolding newlines
connector-on_line true = refl
connector-on_line false = refl

pub indent-on_line : (last : Bool) → newlines (if last then "   " else "│  ") ≡ 0
unfolding newlines
indent-on_line true = refl
indent-on_line false = refl

commas : (parts : List String) → newlines (join ", " parts) ≡ feeds parts
unfolding join newlines
commas [] = refl
commas (part ∷ []) = omega arith
commas (part ∷ next ∷ parts) = omega (
  arith,
  newlines-append part (", " ++ₛ join ", " (next ∷ parts)),
  newlines-append ", " (join ", " (next ∷ parts)),
  commas (next ∷ parts),
)

module _ (formats : Formats) (colorize : Option (String → String → String)) (store : List Node)
    (on_line : ShowsOnLine formats) (keeps : KeepsLines colorize) where
  duration-on_line : (o : Option ℤ) → feeds (duration_part formats colorize store o) ≡ 0
  unfolding newlines
  duration-on_line none = refl
  duration-on_line (some n) =
      omega (arith, newlines-append (formats.tenths n) "ms", on_line.tenths n)

  brackets-on_line :
      (parts : List String)
      → feeds parts ≡ 0
      → newlines (in_brackets formats colorize store parts) ≡ 0
  unfolding newlines
  brackets-on_line [] h = refl
  brackets-on_line (part ∷ parts) h = omega (
    arith,
    newlines-append "  (" (join ", " (part ∷ parts) ++ₛ ")"),
    newlines-append (join ", " (part ∷ parts)) ")",
    commas (part ∷ parts),
    h,
  )

  tokens-on_line : (r : Rollup) → feeds (token_part formats colorize store r) ≡ 0
  unfolding newlines
  tokens-on_line r =
      if_both (λ parts. feeds parts ≡ 0) (is_zero r.tokens_in && is_zero r.tokens_out) refl
        (omega (
          arith,
          newlines-append (formats.whole r.tokens_in)
              ("→" ++ₛ formats.whole r.tokens_out ++ₛ " tok"),
          newlines-append "→" (formats.whole r.tokens_out ++ₛ " tok"),
          newlines-append (formats.whole r.tokens_out) " tok",
          on_line.whole r.tokens_in,
          on_line.whole r.tokens_out,
        ))

  cost-on_line : (r : Rollup) → feeds (cost_part formats colorize store r) ≡ 0
  unfolding newlines
  cost-on_line r =
      if_both (λ parts. feeds parts ≡ 0) (formats.free r.cost_usd) refl
        (omega (arith, newlines-append "$" (formats.cost r.cost_usd), on_line.cost r))

  annotations-on_line : (i : ℕ) → newlines (annotations formats colorize store i) ≡ 0
  unfolding annotations
  annotations-on_line i =
      let total = rollup (length store) store i in
      brackets-on_line _ (
        feeds_three (duration_part formats colorize store (duration_ms (node_at store i).entry))
          (token_part formats colorize store total) (cost_part formats colorize store total)
          (duration-on_line (duration_ms (node_at store i).entry)) (tokens-on_line total)
          (cost-on_line total))

  newlines-label :
      (i : ℕ)
      → 1 + newlines (label formats colorize store i) ≡ lines_for formats (node_at store i).entry
  unfolding label newlines
  newlines-label i =
      let entry = (node_at store i).entry in
      let level = text_or formats (get entry "level") "?" in
      let message = text_or formats (get entry "message") "" in
      let notes = annotations formats colorize store i in
      omega (
        arith,
        newlines-append "[" (level ++ₛ "] " ++ₛ message ++ₛ notes),
        newlines-append level ("] " ++ₛ message ++ₛ notes),
        newlines-append "] " (message ++ₛ notes),
        newlines-append message notes,
        annotations-on_line i,
      )

  newlines-colored :
      (o : Option (String → String → String)) (text level : String)
      → KeepsLines o
      → newlines (colored formats colorize store o text level) ≡ newlines text
  newlines-colored none text level k = refl
  newlines-colored (some color) text level k = k text level

  pub newlines-line :
      (prefix : String) (last : Bool) (i : ℕ)
      → newlines prefix ≡ 0
      → 1 + newlines (line formats colorize store prefix last i)
        ≡ lines_for formats (node_at store i).entry
  unfolding line newlines
  newlines-line prefix last i h =
      let level = text_or formats (get (node_at store i).entry "level") "" in
      let shown = colored formats colorize store colorize (label formats colorize store i) level in
      let connector : String = if last then "└─ " else "├─ " in
      omega (
        arith,
        newlines-append prefix (connector ++ₛ shown),
        newlines-append connector shown,
        connector-on_line last,
        newlines-colored colorize (label formats colorize store i) level keeps,
        newlines-label i,
        h,
      )
