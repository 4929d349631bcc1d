-- ===== src/TraceContext/Ids.antt =====
-- That a header gives a trace id of the shape that all services use, or none.
use logquill_python.Base.{
  ℕ, zero, suc, true, false, ◌||◌, Option, none, some, [], ◌∷◌, ◌++◌, ◌≡◌, refl, sym, ap, ◌∙◌,
  nat_eq, length, length-append, All, All-append, arith, append-nil, if_both, Bool-cases, inl, inr,
}
use logquill_python.Base.Text.{codes}
use logquill_python.Logfmt.Chars.{is_space}
use logquill_python.TraceContext.{
  ◌>>=◌, or_else, Text, strip_left, strip_right, strip, is_hex, before, take_hex, take_text, at_end,
  match_w3c, match_xray, search_xray, skip_digits, is_option, match_gcp, parse_trace_header,
  header_of, parse_some, or_fresh, resolve_trace_id,
}

abbrev pub IsHex : ℕ → Type 0
IsHex c = is_hex c ≡ true

-- `n` hexadecimal digits, in lower case
abbrev pub IsHexText : ℕ → Text → Type 0
IsHexText n text = (length text ≡ n) × All IsHex text

-- what holds of a value that is there
abbrev pub Where : {A : Type 0} → (A → Type 0) → Option A → Type 0
Where Q none = Unit
Where Q (some a) = Q a

Where-or_else :
    {A : Type 0} (Q : A → Type 0) (o other : Option A)
    → Where Q o
    → Where Q other
    → Where Q (or_else o other)
Where-or_else Q none other h k = k
Where-or_else Q (some a) other h k = h

Where-bind :
    {A B : Type 0} (P : A → Type 0) (Q : B → Type 0) (o : Option A) (next : A → Option B)
    → Where P o
    → ((a : A) → P a → Where Q (next a))
    → Where Q (o >>= next)
Where-bind P Q none next h k = tt
Where-bind P Q (some a) next h k = k a h

Where-any : {A : Type 0} (o : Option A) → Where (λ a. Unit {0}) o
Where-any none = tt
Where-any (some a) = tt

abbrev IsRun : ℕ → Text × Text → Type 0
IsRun n (run, rest) = IsHexText n run

take_hex-IsRun : (n : ℕ) (text : Text) → Where (IsRun n) (take_hex n text)
unfolding take_hex
take_hex-IsRun zero text = (refl, tt)
take_hex-IsRun (suc n) [] = tt
take_hex-IsRun (suc n) (c ∷ text) = elim (Bool-cases (is_hex c)) [
  | inl e ↦ rw e (longer c (take_hex n text) e (take_hex-IsRun n text))
  | inr e ↦ rw e tt
]
  where
    longer :
        (c : ℕ) (o : Option (Text × Text))
        → is_hex c ≡ true
        → Where (IsRun n) o
        → Where (IsRun (suc n)) (before c o)
    longer c none e h = tt
    longer c (some (run, rest)) e (count, digits) = (omega (arith, count), (e, digits))

pub match_w3c-IsHexText : (text : Text) → Where (IsHexText 32) (match_w3c text)
unfolding match_w3c
match_w3c-IsHexText text =
    Where-bind (IsRun 2) (IsHexText 32) (take_hex 2 text) _ (take_hex-IsRun 2 text) (λ a h.
      Where-bind (λ r. Unit {0}) (IsHexText 32) (take_text (codes "-") a.1) _ (Where-any _)
        (λ b u.
          Where-bind (IsRun 32) (IsHexText 32) (take_hex 32 b) _ (take_hex-IsRun 32 b) (λ c id.
            Where-bind (λ r. Unit {0}) (IsHexText 32) (take_text (codes "-") c.1) _ (Where-any _)
              (λ d u.
                Where-bind (IsRun 16) (IsHexText 32) (take_hex 16 d) _ (take_hex-IsRun 16 d) (λ e h.
                  Where-bind (λ r. Unit {0}) (IsHexText 32) (take_text (codes "-") e.1) _
                    (Where-any _)
                    (λ f u.
                      Where-bind (IsRun 2) (IsHexText 32) (take_hex 2 f) _ (take_hex-IsRun 2 f)
                        (λ g h. if_both (Where (IsHexText 32)) (at_end g.1) id tt)))))))

match_xray-IsHexText : (text : Text) → Where (IsHexText 32) (match_xray text)
unfolding match_xray
match_xray-IsHexText text =
    Where-bind (λ r. Unit {0}) (IsHexText 32) (take_text (codes "Root=1-") text) _ (Where-any _)
      (λ a u. Where-bind (IsRun 8) (IsHexText 32) (take_hex 8 a) _ (take_hex-IsRun 8 a) (λ b time.
        Where-bind (λ r. Unit {0}) (IsHexText 32) (take_text (codes "-") b.1) _ (Where-any _)
          (λ c u.
            Where-bind (IsRun 24) (IsHexText 32) (take_hex 24 c) _ (take_hex-IsRun 24 c) (λ d rand.
              (
                omega (arith, length-append {0} b.0 d.0, time.0, rand.0),
                All-append IsHex b.0 d.0 time.1 rand.1,
              )))))

search_xray-IsHexText : (text : Text) → Where (IsHexText 32) (search_xray text)
unfolding search_xray
search_xray-IsHexText [] = tt
search_xray-IsHexText (c ∷ text) =
    Where-or_else (IsHexText 32) (match_xray (c ∷ text)) (search_xray text)
      (match_xray-IsHexText (c ∷ text)) (search_xray-IsHexText text)

match_gcp-IsHexText : (text : Text) → Where (IsHexText 32) (match_gcp text)
unfolding match_gcp
match_gcp-IsHexText text =
    Where-bind (IsRun 32) (IsHexText 32) (take_hex 32 text) _ (take_hex-IsRun 32 text) (λ a id.
      Where-bind (λ r. Unit {0}) (IsHexText 32) (take_text (codes "/") a.1) _ (Where-any _)
        (λ b u.
          Where-bind (λ r. Unit {0}) (IsHexText 32) (skip_digits false b) _ (Where-any _)
            (λ c u.
              if_both (Where (IsHexText 32)) (at_end c || is_option (take_text (codes ";o=") c)) id
                tt)))

pub parse_trace_header-IsHexText :
    (header : Text) → Where (IsHexText 32) (parse_trace_header header)
unfolding parse_trace_header
parse_trace_header-IsHexText header =
    let text = strip header in
    Where-or_else (IsHexText 32) (match_w3c text) (or_else (search_xray text) (match_gcp text))
      (match_w3c-IsHexText text)
      (Where-or_else (IsHexText 32) (search_xray text) (match_gcp text) (search_xray-IsHexText text)
        (match_gcp-IsHexText text))

-- If the id of an active span and a fresh id have 32 hexadecimal digits in lower case, then so has the
-- id that the plugin resolves, whatever its own header and the bound one are.
pub resolve_trace_id-IsHexText :
    (from_otel given bound : Option Text) (fresh : Text)
    → Where (IsHexText 32) from_otel
    → IsHexText 32 fresh
    → IsHexText 32 (resolve_trace_id from_otel given bound fresh)
unfolding resolve_trace_id
resolve_trace_id-IsHexText from_otel given bound fresh otel new_id =
    by_case (or_else from_otel (parse_some (header_of given bound))) (
      Where-or_else (IsHexText 32) from_otel (parse_some (header_of given bound)) otel
        (parsed (header_of given bound)))
  where
    parsed : (o : Option Text) → Where (IsHexText 32) (parse_some o)
    parsed none = tt
    parsed (some header) = parse_trace_header-IsHexText header

    by_case : (o : Option Text) → Where (IsHexText 32) o → IsHexText 32 (or_fresh o fresh)
    by_case none h = new_id
    by_case (some id) h = h

-- a `traceparent` header of these parts
abbrev pub traceparent : Text → Text → Text → Text → Text
traceparent version trace_id parent_id flags =
    version ++ b'-' ∷ (trace_id ++ b'-' ∷ (parent_id ++ b'-' ∷ flags))

take_hex-append :
    (n : ℕ) (run rest : Text) → IsHexText n run → take_hex n (run ++ rest) ≡ some (run, rest)
unfolding take_hex
take_hex-append zero [] rest h = refl
take_hex-append zero (c ∷ run) rest h = absurd (omega (arith, h.0))
take_hex-append (suc n) [] rest h = absurd (omega (arith, h.0))
take_hex-append (suc n) (c ∷ run) rest (count, (first, more)) =
    rw (first, take_hex-append n run rest (omega (arith, count), more)) refl

match_w3c-traceparent :
    (version trace_id parent_id flags : Text)
    → IsHexText 2 version
    → IsHexText 32 trace_id
    → IsHexText 16 parent_id
    → IsHexText 2 flags
    → match_w3c (traceparent version trace_id parent_id flags) ≡ some trace_id
unfolding match_w3c
match_w3c-traceparent version trace_id parent_id flags v t p f =
    rw
      (
        take_hex-append 2 version (b'-' ∷ (trace_id ++ b'-' ∷ (parent_id ++ b'-' ∷ flags))) v,
        take_hex-append 32 trace_id (b'-' ∷ (parent_id ++ b'-' ∷ flags)) t,
        take_hex-append 16 parent_id (b'-' ∷ flags) p,
        ap (take_hex 2) (sym (append-nil flags)) ∙ take_hex-append 2 flags [] f,
      )
      refl

abbrev IsInk : ℕ → Type 0
IsInk c = is_space c ≡ false

hex-IsInk : (c : ℕ) → IsHex c → IsInk c
unfolding is_hex is_space
hex-IsInk c h = ground arith

hex-IsInk_all : (text : Text) → All IsHex text → All IsInk text
hex-IsInk_all [] a = tt
hex-IsInk_all (c ∷ text) (first, more) = (hex-IsInk c first, hex-IsInk_all text more)

strip_right-ink : (text : Text) → All IsInk text → strip_right text ≡ text
unfolding strip_right
strip_right-ink [] a = refl
strip_right-ink (c ∷ text) (first, more) = rw (first, strip_right-ink text more) refl

strip_left-ink : (text : Text) → All IsInk text → strip_left text ≡ text
unfolding strip_left
strip_left-ink [] a = refl
strip_left-ink (c ∷ text) (first, more) = rw first refl

strip-ink : (text : Text) → All IsInk text → strip text ≡ text
unfolding strip
strip-ink text a = ap strip_right (strip_left-ink text a) ∙ strip_right-ink text a

traceparent-IsInk :
    (version trace_id parent_id flags : Text)
    → All IsHex version
    → All IsHex trace_id
    → All IsHex parent_id
    → All IsHex flags
    → All IsInk (traceparent version trace_id parent_id flags)
unfolding is_space
traceparent-IsInk version trace_id parent_id flags v t p f =
    All-append IsInk version (b'-' ∷ (trace_id ++ b'-' ∷ (parent_id ++ b'-' ∷ flags)))
      (hex-IsInk_all version v)
      (
        refl,
        All-append IsInk trace_id (b'-' ∷ (parent_id ++ b'-' ∷ flags)) (hex-IsInk_all trace_id t) (
          refl,
          All-append IsInk parent_id (b'-' ∷ flags) (hex-IsInk_all parent_id p)
              (refl, hex-IsInk_all flags f),
        ),
      )

-- A W3C header of a version, a trace id, a parent id and flags, each of its number of hexadecimal
-- digits in lower case, gives back its trace id.
pub parse_trace_header-traceparent :
    (version trace_id parent_id flags : Text)
    → IsHexText 2 version
    → IsHexText 32 trace_id
    → IsHexText 16 parent_id
    → IsHexText 2 flags
    → parse_trace_header (traceparent version trace_id parent_id flags) ≡ some trace_id
unfolding parse_trace_header
parse_trace_header-traceparent version trace_id parent_id flags v t p f =
    rw
      (
        strip-ink (traceparent version trace_id parent_id flags)
            (traceparent-IsInk version trace_id parent_id flags v.1 t.1 p.1 f.1),
        match_w3c-traceparent version trace_id parent_id flags v t p f,
      )
      refl
