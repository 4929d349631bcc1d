-- ===== src/Logfmt/Quoting.antt =====
-- That a quoted value reads back: `_quote`, and the patterns of `parse_logfmt`.
use mathlib.Core.Path.{subst}
use logquill_python.Base.{
  ℕ, ◌/◌, ◌%◌, ◌<◌, true, false, Option, some, [], ◌∷◌, ◌++◌, ◌≡◌, refl, sym, ap, ◌∙◌, append-nil,
  append_assoc, arith, ◌==◌, nat_eq, Bool-cases, inl, inr,
}
use logquill_python.Logfmt.{Text, hex_digit, unicode_escape, escape_char, escape}
use logquill_python.Logfmt.Chars.{is_control, is_hex}
use logquill_python.Logfmt.Read.{
  before_quoted, quoted, hex_value, hex_code, unescape_char, read_escape, unescape, init,
  ends_quote,
}

is_hex-hex_digit : (d : ℕ) → d < 16 → is_hex (hex_digit d) ≡ true
unfolding is_hex hex_digit
is_hex-hex_digit d h = ground arith

hex_value-hex_digit : (d : ℕ) → d < 16 → hex_value (hex_digit d) ≡ d
unfolding hex_value hex_digit
hex_value-hex_digit d h = ground arith

is_control-lt : (c : ℕ) → is_control c ≡ true → c < 65_536
unfolding is_control
is_control-lt c h = ground arith

hex_code-digits :
    (c : ℕ)
    → c < 65_536
    → hex_code
        (hex_digit (c / 4096 % 16))
        (hex_digit (c / 256 % 16))
        (hex_digit (c / 16 % 16))
        (hex_digit (c % 16))
      ≡ c
hex_code-digits c h =
    rw
      (
        hex_value-hex_digit (c / 4096 % 16) (omega arith),
        hex_value-hex_digit (c / 256 % 16) (omega arith),
        hex_value-hex_digit (c / 16 % 16) (omega arith),
        hex_value-hex_digit (c % 16) (omega arith),
      )
      (omega (arith, h))

-- the three forms in which a character stands between quotes
data EscapeOf (c : ℕ) : Type 0 where
  by_letter :
      (k : ℕ)
      → escape_char c ≡ b'\\' ∷ k ∷ []
      → unescape_char k ≡ c ∷ []
      → (k == b'u') ≡ false
      → (k == 10) ≡ false
      → EscapeOf c
  by_code : escape_char c ≡ unicode_escape c → c < 65_536 → EscapeOf c
  as_is : escape_char c ≡ c ∷ [] → (c == b'\\') ≡ false → (c == b'"') ≡ false → EscapeOf c

named_letter :
    (c k : ℕ)
    → unescape_char k ≡ c ∷ []
    → (k == b'u') ≡ false
    → (k == 10) ≡ false
    → (c' : ℕ) → (c' == c) ≡ true
    → escape_char c ≡ b'\\' ∷ k ∷ []
    → EscapeOf c'
named_letter c k read not_u not_newline c' e written =
    subst EscapeOf (sym ((nat_eq.same_iff c' c).0 e)) (by_letter k written read not_u not_newline)

escape_char-EscapeOf : (c : ℕ) → EscapeOf c
unfolding escape_char unescape_char
escape_char-EscapeOf c = elim (Bool-cases (c == b'"')) [
  | inl e ↦ named_letter b'"' b'"' refl refl refl c e refl
  | inr quote_no ↦ elim (Bool-cases (c == b'\\')) [
    | inl e ↦ named_letter b'\\' b'\\' refl refl refl c e refl
    | inr slash_no ↦ elim (Bool-cases (c == 10)) [
      | inl e ↦ named_letter 10 b'n' refl refl refl c e refl
      | inr newline_no ↦ elim (Bool-cases (c == 13)) [
        | inl e ↦ named_letter 13 b'r' refl refl refl c e refl
        | inr return_no ↦ elim (Bool-cases (c == 9)) [
          | inl e ↦ named_letter 9 b't' refl refl refl c e refl
          | inr tab_no ↦ elim (Bool-cases (is_control c)) [
            | inl e ↦
                by_code (rw (quote_no, slash_no, newline_no, return_no, tab_no, e) refl)
                  (is_control-lt c e)
            | inr e ↦
                as_is (rw (quote_no, slash_no, newline_no, return_no, tab_no, e) refl) slash_no
                  quote_no
          ]
        ]
      ]
    ]
  ]
]

read_escape_letter :
    (k : ℕ) (t : Text) → (k == b'u') ≡ false → read_escape (k ∷ t) ≡ (unescape_char k, 1)
unfolding read_escape
read_escape_letter k [] h = refl
read_escape_letter k (a ∷ []) h = refl
read_escape_letter k (a ∷ b ∷ []) h = refl
read_escape_letter k (a ∷ b ∷ c ∷ []) h = refl
read_escape_letter k (a ∷ b ∷ c ∷ d ∷ t) h = rw h refl

read_escape_code :
    (c : ℕ) (t : Text)
    → c < 65_536
    → read_escape (
        b'u'
        ∷ hex_digit (c / 4096 % 16)
        ∷ hex_digit (c / 256 % 16)
        ∷ hex_digit (c / 16 % 16)
        ∷ hex_digit (c % 16)
        ∷ t)
      ≡ (c ∷ [], 5)
unfolding read_escape
read_escape_code c t h =
    rw
      (
        is_hex-hex_digit (c / 4096 % 16) (omega arith),
        is_hex-hex_digit (c / 256 % 16) (omega arith),
        is_hex-hex_digit (c / 16 % 16) (omega arith),
        is_hex-hex_digit (c % 16) (omega arith),
      )
      (ap (λ (n : ℕ). (n ∷ [], 5)) (hex_code-digits c h))

unescape-escape_char : (c : ℕ) (t : Text) → unescape 0 (escape_char c ++ t) ≡ c ∷ unescape 0 t
unfolding unescape
unescape-escape_char c t = elim (escape_char-EscapeOf c) [
  | by_letter k written read not_u not_newline ↦
      rw (written, read_escape_letter k t not_u, read) refl
  | by_code written small ↦
      rw written (unfold unicode_escape in rw (read_escape_code c t small) refl)
  | as_is written not_slash not_quote ↦ rw (written, not_slash) refl
]

pub unescape-escape : (t : Text) → unescape 0 (escape t) ≡ t
unfolding escape
unescape-escape [] = unfold unescape in refl
unescape-escape (c ∷ t) =
    unescape-escape_char c (escape t) ∙ ap (λ (l : Text). c ∷ l) (unescape-escape t)

-- more text before the closing quote
abbrev before_all : Text → Option (Text × Text) → Option (Text × Text)
before_all [] o = o
before_all (c ∷ t) o = before_quoted c (before_all t o)

quoted_plain :
    (c : ℕ) (t : Text)
    → (c == b'"') ≡ false
    → (c == b'\\') ≡ false
    → quoted false (c ∷ t) ≡ before_quoted c (quoted false t)
unfolding quoted
quoted_plain c t not_quote not_slash = rw (not_quote, not_slash) refl

quoted_behind :
    (k : ℕ) (t : Text)
    → (k == 10) ≡ false
    → quoted false (b'\\' ∷ k ∷ t) ≡ before_quoted b'\\' (before_quoted k (quoted false t))
unfolding quoted
quoted_behind k t not_newline = rw not_newline refl

quoted_hex :
    (d : ℕ) (t : Text)
    → d < 16
    → quoted false (hex_digit d ∷ t) ≡ before_quoted (hex_digit d) (quoted false t)
quoted_hex d t h = quoted_plain (hex_digit d) t (not_quote d h) (not_slash d h)
  where
    not_quote : (d : ℕ) → d < 16 → (hex_digit d == b'"') ≡ false
    not_quote d h = unfold hex_digit in ground arith

    not_slash : (d : ℕ) → d < 16 → (hex_digit d == b'\\') ≡ false
    not_slash d h = unfold hex_digit in ground arith

quoted-escape_char :
    (c : ℕ) (t : Text)
    → quoted false (escape_char c ++ t) ≡ before_all (escape_char c) (quoted false t)
quoted-escape_char c t = elim (escape_char-EscapeOf c) [
  | by_letter k written read not_u not_newline ↦ rw written (quoted_behind k t not_newline)
  | by_code written small ↦ rw written (
      unfold unicode_escape in
      rw
        (
          quoted_behind b'u'
              (hex_digit (c / 4096 % 16)
                ∷ hex_digit (c / 256 % 16)
                ∷ hex_digit (c / 16 % 16)
                ∷ hex_digit (c % 16)
                ∷ t)
              refl,
          quoted_hex (c / 4096 % 16)
              (hex_digit (c / 256 % 16) ∷ hex_digit (c / 16 % 16) ∷ hex_digit (c % 16) ∷ t)
              (omega arith),
          quoted_hex (c / 256 % 16) (hex_digit (c / 16 % 16) ∷ hex_digit (c % 16) ∷ t)
              (omega arith),
          quoted_hex (c / 16 % 16) (hex_digit (c % 16) ∷ t) (omega arith),
          quoted_hex (c % 16) t (omega arith),
        )
        refl)
  | as_is written not_slash not_quote ↦ rw written (quoted_plain c t not_quote not_slash)
]

before_all-append :
    (s t : Text) (o : Option (Text × Text)) → before_all (s ++ t) o ≡ before_all s (before_all t o)
before_all-append [] t o = refl
before_all-append (c ∷ s) t o = ap (before_quoted c) (before_all-append s t o)

quoted-escape_end :
    (t rest : Text) → quoted false (escape t ++ rest) ≡ before_all (escape t) (quoted false rest)
unfolding escape
quoted-escape_end [] rest = refl
quoted-escape_end (c ∷ t) rest =
    rw
      (
        append_assoc (escape_char c) (escape t) rest,
        quoted-escape_char c (escape t ++ rest),
        before_all-append (escape_char c) (escape t) (quoted false rest),
      )
      (ap (before_all (escape_char c)) (quoted-escape_end t rest))

before_all-some : (s t rest : Text) → before_all s (some (t, rest)) ≡ some (s ++ t, rest)
before_all-some [] t rest = refl
before_all-some (c ∷ s) t rest = ap (before_quoted c) (before_all-some s t rest)

quoted_close : (rest : Text) → quoted false (b'"' ∷ rest) ≡ some ([], rest)
unfolding quoted
quoted_close rest = refl

-- the closing quote is found
pub quoted-escape : (t rest : Text) → quoted false (escape t ++ b'"' ∷ rest) ≡ some (escape t, rest)
quoted-escape t rest =
    quoted-escape_end t (b'"' ∷ rest)
    ∙ ap (before_all (escape t)) (quoted_close rest)
    ∙ before_all-some (escape t) [] rest
    ∙ ap (λ (s : Text). some (s, rest)) (append-nil (escape t))

pub init-append : (t : Text) (c : ℕ) → init (t ++ c ∷ []) ≡ t
init-append [] c = refl
init-append (a ∷ []) c = refl
init-append (a ∷ b ∷ t) c = ap (λ (s : Text). a ∷ s) (init-append (b ∷ t) c)

pub ends_quote-append : (t : Text) → ends_quote (t ++ b'"' ∷ []) ≡ true
ends_quote-append [] = refl
ends_quote-append (a ∷ []) = refl
ends_quote-append (a ∷ b ∷ t) = ends_quote-append (b ∷ t)
