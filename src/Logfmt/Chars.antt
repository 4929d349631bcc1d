-- ===== src/Logfmt/Chars.antt =====
-- The character classes of `logquill/formatters/logfmt_formatter.py` and `logquill/parsing.py`.
use logquill_python.Base.{ℕ, Bool, not, ◌&&◌, ◌||◌, leb, ◌==◌, nat_eq}

-- `\s` of a text pattern
unfoldable pub is_space : ℕ → Bool
is_space c =
    (leb 9 c && leb c 13)
    || (leb 28 c && leb c 32)
    || c == 133
    || c == 160
    || c == 5760
    || (leb 8192 c && leb c 8202)
    || c == 8232
    || c == 8233
    || c == 8239
    || c == 8287
    || c == 12288

-- `_CONTROL_CHAR`
unfoldable pub is_control : ℕ → Bool
is_control c = leb c 31 || c == 127 || c == 133 || c == 8232 || c == 8233

-- the class of `_NEEDS_QUOTES`, and `_BAD_KEY_CHARS`
unfoldable pub is_special : ℕ → Bool
unfolding is_space is_control
is_special c = is_space c || c == b'"' || c == b'=' || c == b'\\' || is_control c

-- `[^\s="]`
unfoldable pub is_key_char : ℕ → Bool
unfolding is_space
is_key_char c = not (is_space c || c == b'=' || c == b'"')

-- `[^\s"]`
unfoldable pub is_bare_char : ℕ → Bool
unfolding is_space
is_bare_char c = not (is_space c || c == b'"')

-- `[0-9a-fA-F]`
unfoldable pub is_hex : ℕ → Bool
is_hex c = (leb b'0' c && leb c b'9') || (leb b'a' c && leb c b'f') || (leb b'A' c && leb c b'F')
