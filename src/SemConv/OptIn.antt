-- ===== src/SemConv/OptIn.antt =====
-- The choice of a convention, `resolve_convention` and `capture_content_enabled` in
-- `logquill/tracing/semconv.py`. The environment is a dict of texts; `_warned_opt_in` is a list.
use logquill_python.Base.{
  nat_eq, String, string_eq, Bool, true, false, not, ◌&&◌, Option, none, some, List, [], ◌∷◌, ◌==◌,
  ◌≡◌, refl, sym, ap, arith, contains, All, Result, ok, raise, value_error, Bool-cases, inl, inr,
  if◌then◌else◌,
}
use mathlib.Core.Path.{subst}
use Prim.Native.Char.{code}
use logquill_python.Base.Text.{codes, codes_eq, lower}
use logquill_python.Dict.{Dict, get}
use logquill_python.SemConv.{Convention, latest, legacy, strip, or_string}

abbrev opt_in_env : String
opt_in_env = "OTEL_SEMCONV_STABILITY_OPT_IN"

abbrev opt_in_latest : String
opt_in_latest = "gen_ai_latest_experimental"

abbrev capture_content_env : String
capture_content_env = "OTEL_INSTRUMENTATION_GENAI_CAPTURE_MESSAGE_CONTENT"

-- the first part with one character more
abbrev pub onto_first : Prim.Native.Char.Char → List String → List String
onto_first c [] = []
onto_first c (part ∷ parts) = String.◌∷◌ c part ∷ parts

-- `text.split(",")`
unfoldable pub split_commas : String → List String
split_commas String.[] = "" ∷ []
split_commas (String.◌∷◌ c s) =
    let parts = split_commas s in if code c == b',' then "" ∷ parts else onto_first c parts

-- `[token.strip() for token in parts if token.strip()]`
unfoldable pub tokens_of : List String → List String
unfolding strip
tokens_of [] = []
tokens_of (part ∷ parts) =
    let rest = tokens_of parts in if strip part == "" then rest else strip part ∷ rest

-- `token.endswith("/dup")`
unfoldable pub ends_dup : String → Bool
ends_dup String.[] = false
ends_dup (String.◌∷◌ c s) =
    let later = ends_dup s in if String.◌∷◌ c s == "/dup" then true else later

-- The tokens that the loop warns of, and `_warned_opt_in` after it.
unfoldable pub warn : List String → List String → List String × List String
unfolding ends_dup
warn [] warned = ([], warned)
warn (token ∷ tokens) warned =
    let known = warn tokens warned in
    let (later, all) = warn tokens (token ∷ warned) in
    if ends_dup token && not (contains warned token) then (token ∷ later, all) else known

-- `_DEFAULT`
abbrev default_convention : Convention
default_convention = latest

abbrev pub named_convention : String → Result Convention
named_convention explicit =
    if explicit == "latest"
    then ok latest
    else if explicit == "legacy"
    then ok legacy
    else raise value_error

-- `resolve_convention`: the convention, the tokens warned of, and `_warned_opt_in`
unfoldable pub resolve_convention :
    Option String → Dict String String → List String → Result Convention × List String × List String
unfolding warn tokens_of split_commas get
resolve_convention (some explicit) env warned = (named_convention explicit, [], warned)
resolve_convention none env warned =
    let tokens = tokens_of (split_commas (or_string (get env opt_in_env) "")) in
    let (told, warned') = warn tokens warned in
    (ok (if contains tokens opt_in_latest then latest else default_convention), told, warned')

-- `capture_content_enabled`
unfoldable pub capture_content_enabled : Dict String String → Bool
unfolding strip lower get
capture_content_enabled env =
    lower (codes (strip (or_string (get env capture_content_env) ""))) == codes "true"

abbrev IsTold : List String → String → Type 0
IsTold warned token = (ends_dup token && not (contains warned token)) ≡ false

IsTold-more : (warned : List String) (t u : String) → IsTold warned t → IsTold (u ∷ warned) t
IsTold-more warned t u h = ground (arith, h)

IsTold-itself : (warned : List String) (t : String) → IsTold (t ∷ warned) t
IsTold-itself warned t = ground (arith, string_eq.same_iff t t)

warn-IsTold :
    (tokens warned : List String) (t : String) → IsTold warned t → IsTold ((warn tokens warned).1) t
unfolding warn
warn-IsTold [] warned t h = h
warn-IsTold (u ∷ tokens) warned t h = elim (Bool-cases (ends_dup u && not (contains warned u))) [
  | inl e ↦ rw e (warn-IsTold tokens (u ∷ warned) t (IsTold-more warned t u h))
  | inr e ↦ rw e (warn-IsTold tokens warned t h)
]

warn-All : (tokens warned : List String) → All (IsTold ((warn tokens warned).1)) tokens
unfolding warn
warn-All [] warned = tt
warn-All (u ∷ tokens) warned = elim (Bool-cases (ends_dup u && not (contains warned u))) [
  | inl e ↦
      subst (λ (all : List String). All (IsTold all) (u ∷ tokens)) (sym (rw e refl))
        (warn-IsTold tokens (u ∷ warned) u (IsTold-itself warned u), warn-All tokens (u ∷ warned))
  | inr e ↦
      subst (λ (all : List String). All (IsTold all) (u ∷ tokens)) (sym (rw e refl))
        (warn-IsTold tokens warned u e, warn-All tokens warned)
]

warn-told :
    (tokens warned : List String) → All (IsTold warned) tokens → warn tokens warned ≡ ([], warned)
unfolding warn
warn-told [] warned h = refl
warn-told (u ∷ tokens) warned (first, rest) = rw (first, warn-told tokens warned rest) refl

-- a second call: what the first one resolved to, nothing to warn of, and `_warned_opt_in` as it is
pub resolve_convention-again :
    (explicit : Option String) (env : Dict String String) (warned : List String)
    → let (c, told, warned') = resolve_convention explicit env warned in
      resolve_convention explicit env warned' ≡ (c, [], warned')
unfolding resolve_convention
resolve_convention-again none env warned =
    let tokens = tokens_of (split_commas (or_string (get env opt_in_env) "")) in
    let (told, warned') = warn tokens warned in
    ap
      (λ (w : List String × List String).
        (ok (if contains tokens opt_in_latest then latest else default_convention), w.0, w.1))
      (warn-told tokens warned' (warn-All tokens warned))
resolve_convention-again (some explicit) env warned = refl
