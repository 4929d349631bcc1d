-- ===== src/Logfmt/Words.antt =====
-- Words of a line: what the reader takes from a bare value and from a quoted one.
use logquill_python.Base.{
  ℕ, ◌/◌, ◌%◌, ◌<◌, Bool, true, false, [], ◌∷◌, ◌++◌, ◌≡◌, ◌≢◌, refl, append_assoc, arith, ◌==◌,
  nat_eq, All, All-append, if◌then◌else◌, if_both, Bool-cases, inl, inr,
}
use logquill_python.Base.Text.{codes_eq}
use logquill_python.Logfmt.{
  Text, has_special, needs_quotes, hex_digit, unicode_escape, escape_char, escape, quote,
}
use logquill_python.Logfmt.Chars.{is_space, is_control, is_special, is_key_char, is_bare_char}
use logquill_python.Logfmt.Read.{span, read_value, unquote}
use logquill_python.Logfmt.Quoting.{unescape-escape, quoted-escape, init-append, ends_quote-append}

-- where a value ends: the line does, or a space follows
abbrev pub IsEnd : Text → Type 0
IsEnd [] = Unit
IsEnd (c ∷ rest) = c ≡ b' '

abbrev pub IsOf : (ℕ → Bool) → ℕ → Type 0
IsOf test c = test c ≡ true

pub span-All :
    (test : ℕ → Bool) (t rest : Text)
    → All (IsOf test) t
    → span test rest ≡ ([], rest)
    → span test (t ++ rest) ≡ (t, rest)
unfolding span
span-All test [] rest a h = h
span-All test (c ∷ t) rest (first, more) h = rw (first, span-All test t rest more h) refl

span-stop :
    (test : ℕ → Bool) (c : ℕ) (rest : Text) → test c ≡ false → span test (c ∷ rest) ≡ ([], c ∷ rest)
unfolding span
span-stop test c rest h = rw h refl

span-end : (rest : Text) → IsEnd rest → span is_bare_char rest ≡ ([], rest)
unfolding span is_bare_char is_space
span-end [] h = refl
span-end (c ∷ rest) h = rw h refl

-- a code point that no reader of lines takes for the end of one: no C0 control character, and none
-- of U+007F, U+0085, U+2028 and U+2029
pub record IsPrintable (c : ℕ) : Type 0 where
  pub no_c0 : 31 < c
  pub no_delete : c ≢ 127
  pub no_next_line : c ≢ 133
  pub no_line_separator : c ≢ 8_232
  pub no_paragraph_separator : c ≢ 8_233

pub printable : (c : ℕ) → is_control c ≡ false → IsPrintable c
unfolding is_control
printable c h = record {
  no_c0 = ground (arith, h);
  no_delete = λ e. ground (arith, h, e);
  no_next_line = λ e. ground (arith, h, e);
  no_line_separator = λ e. ground (arith, h, e);
  no_paragraph_separator = λ e. ground (arith, h, e);
}

-- a text that stands for a value: it is read up to its end, and read back, and breaks no line
pub record Reads (word value : Text) : Type 0 where
  pub read_to_end : (rest : Text) → IsEnd rest → read_value (word ++ rest) ≡ (word, rest)
  pub read_back : unquote word ≡ value
  pub on_line : All IsPrintable word

special-bare : (c : ℕ) → is_special c ≡ false → is_bare_char c ≡ true
unfolding is_special is_bare_char
special-bare c h = ground arith

special-quote : (c : ℕ) → is_special c ≡ false → (c == b'"') ≡ false
unfolding is_special
special-quote c h = ground arith

pub special-key : (c : ℕ) → is_special c ≡ false → is_key_char c ≡ true
unfolding is_special is_key_char
special-key c h = ground arith

abbrev pub IsPlain : ℕ → Type 0
IsPlain c = is_special c ≡ false

pub has_special-All : (t : Text) → has_special t ≡ false → All IsPlain t
unfolding has_special
has_special-All [] h = tt
has_special-All (c ∷ t) h = (ground arith, has_special-All t (ground arith))

special-control : (c : ℕ) → is_special c ≡ false → is_control c ≡ false
unfolding is_special
special-control c h = ground arith

pub plain-All : (t : Text) → All IsPlain t → All IsPrintable t
plain-All [] a = tt
plain-All (c ∷ t) (first, more) = (printable c (special-control c first), plain-All t more)

abbrev IsQuiet : ℕ → Type 0
IsQuiet c = is_control c ≡ false

quiet-All : (t : Text) → All IsQuiet t → All IsPrintable t
quiet-All [] a = tt
quiet-All (c ∷ t) (first, more) = (printable c first, quiet-All t more)

hex-printable : (d : ℕ) → d < 16 → is_control (hex_digit d) ≡ false
unfolding is_control hex_digit
hex-printable d h = ground arith

escape_char-All : (c : ℕ) → All IsQuiet (escape_char c)
unfolding escape_char unicode_escape is_control
escape_char-All c =
    if_both (All IsQuiet) (c == b'"') (refl, (refl, tt))
      (if_both (All IsQuiet) (c == b'\\') (refl, (refl, tt))
        (if_both (All IsQuiet) (c == 10) (refl, (refl, tt))
          (if_both (All IsQuiet) (c == 13) (refl, (refl, tt))
            (if_both (All IsQuiet) (c == 9) (refl, (refl, tt)) (last_test c)))))
  where
    last_test : (c : ℕ) → All IsQuiet (if is_control c then unicode_escape c else c ∷ [])
    last_test c = elim (Bool-cases (is_control c)) [
      | inl e ↦ rw e (
        refl,
        (
          refl,
          (
            hex-printable (c / 4096 % 16) (omega arith),
            (
              hex-printable (c / 256 % 16) (omega arith),
              (
                hex-printable (c / 16 % 16) (omega arith),
                (hex-printable (c % 16) (omega arith), tt),
              ),
            ),
          ),
        ),
      )
      | inr e ↦ rw e (e, tt)
    ]

escape-All : (t : Text) → All IsQuiet (escape t)
unfolding escape
escape-All [] = tt
escape-All (c ∷ t) =
    All-append IsQuiet (escape_char c) (escape t) (escape_char-All c) (escape-All t)

abbrev bare_all : (t : Text) → All IsPlain t → All (IsOf is_bare_char) t
bare_all [] a = tt
bare_all (c ∷ t) (first, more) = (special-bare c first, bare_all t more)

-- a text without special characters stands for itself
pub plain-Reads : (t : Text) → All IsPlain t → Reads t t
unfolding read_value unquote
plain-Reads [] a = record {
  read_to_end = λ rest h. end_value rest h;
  read_back = refl;
  on_line = tt;
}
  where
    end_value : (rest : Text) → IsEnd rest → read_value rest ≡ ([], rest)
    end_value [] h = refl
    end_value (c ∷ rest) h = rw h (span-end (b' ' ∷ rest) refl)
plain-Reads (c ∷ t) (first, more) = record {
  read_to_end = λ rest h.
      rw (special-quote c first)
        (span-All is_bare_char (c ∷ t) rest (bare_all (c ∷ t) (first, more)) (span-end rest h));
  read_back = rw (special-quote c first) refl;
  on_line = plain-All (c ∷ t) (first, more);
}

no_quotes : (t : Text) → needs_quotes t ≡ false → All IsPlain t
unfolding needs_quotes
no_quotes [] h = tt
no_quotes (c ∷ t) h = has_special-All (c ∷ t) h

-- `_quote` of any text stands for that text
pub quote-Reads : (t : Text) → Reads (quote t) t
unfolding quote
quote-Reads t = elim (Bool-cases (needs_quotes t)) [
  | inl e ↦ rw e (record {
    read_to_end = λ rest h.
        unfold read_value in
        rw (append_assoc (escape t) (b'"' ∷ []) rest, quoted-escape t rest) refl;
    read_back =
        unfold unquote in
        rw (ends_quote-append (escape t), init-append (escape t) b'"') (unescape-escape t);
    on_line = quiet-All (b'"' ∷ (escape t ++ b'"' ∷ [])) (
      unfold is_control in refl,
      All-append IsQuiet (escape t) (b'"' ∷ []) (escape-All t) (unfold is_control in refl, tt),
    );
  })
  | inr e ↦ rw e (plain-Reads t (no_quotes t e))
]
