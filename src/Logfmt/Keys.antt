-- ===== src/Logfmt/Keys.antt =====
-- The keys of a line, and the digits of its numbers, hold no character that needs quotes.
use logquill_python.Base.{
  ℕ, zero, suc, ◌+◌, ◌<◌, ◌%◌, ◌/◌, false, [], ◌∷◌, ◌++◌, ◌≡◌, refl, arith, ltb, contains, nat_eq,
  All, All-append, if◌then◌else◌, if_both, Bool-cases, inl, inr,
}
use logquill_python.Base.Int.{ℤ, pos, negsuc}
use logquill_python.Base.Text.{codes, codes_eq}
use logquill_python.Logfmt.{
  Text, has_special, needs_quotes, clean_key, key_of, digits, str_int, reserved_keys, meta_key,
}
use logquill_python.Logfmt.Chars.{is_special, is_space, is_control}
use logquill_python.Logfmt.Words.{IsPlain, has_special-All}
use logquill_python.Logfmt.Lines.{IsKey}

-- by evaluation, for a key of the sources
pub test-IsKey : (key : Text) → needs_quotes key ≡ false → IsKey key
unfolding needs_quotes
test-IsKey [] h = absurd (ground arith)
test-IsKey (c ∷ key) h = has_special-All (c ∷ key) h

digit-IsPlain : (d : ℕ) → d < 10 → IsPlain (d + b'0')
unfolding is_special is_space is_control
digit-IsPlain d h = ground arith

digits-All : (fuel n : ℕ) (rest : Text) → All IsPlain rest → All IsPlain (digits fuel n rest)
unfolding digits
digits-All zero n rest a = a
digits-All (suc fuel) n rest a =
    if_both (All IsPlain) (ltb n 10) longer
      (digits-All fuel (n / 10) ((n % 10 + b'0') ∷ rest) longer)
  where
    longer : All IsPlain ((n % 10 + b'0') ∷ rest)
    longer = (digit-IsPlain (n % 10) (omega arith), a)

pub str_int-All : (n : ℤ) → All IsPlain (str_int n)
unfolding str_int is_special is_space is_control
str_int-All (pos n) = digits-All (suc n) n [] tt
str_int-All (negsuc n) = (refl, digits-All (suc (suc n)) (suc n) [] tt)

clean_char-IsPlain : (c : ℕ) → IsPlain (if is_special c then b'_' else c)
clean_char-IsPlain c = elim (Bool-cases (is_special c)) [
  | inl e ↦ rw e (unfold is_special is_space is_control in refl)
  | inr e ↦ rw e e
]

clean_key-All : (raw : Text) → All IsPlain (clean_key raw)
unfolding clean_key
clean_key-All [] = tt
clean_key-All (c ∷ raw) = (clean_char-IsPlain c, clean_key-All raw)

key_of-All : (raw : Text) → All IsPlain (key_of raw)
unfolding key_of is_special is_space is_control
key_of-All [] = (refl, tt)
key_of-All (c ∷ raw) = clean_key-All (c ∷ raw)

key_of-IsKey : (raw : Text) → IsKey (key_of raw)
unfolding key_of clean_key is_special is_space is_control
key_of-IsKey [] = (refl, tt)
key_of-IsKey (c ∷ raw) = clean_key-All (c ∷ raw)

append-IsKey : (key more : Text) → IsKey key → All IsPlain more → IsKey (key ++ more)
append-IsKey [] more k a = absurd k
append-IsKey (c ∷ key) more k a = All-append IsPlain (c ∷ key) more k a

pub dotted-IsKey : (prefix raw : Text) → IsKey prefix → IsKey (prefix ++ b'.' ∷ key_of raw)
unfolding is_special is_space is_control
dotted-IsKey prefix raw k = append-IsKey prefix (b'.' ∷ key_of raw) k (refl, key_of-All raw)

pub meta_key-IsKey : (raw : Text) → IsKey (meta_key raw)
unfolding meta_key needs_quotes has_special is_special is_space is_control
meta_key-IsKey raw =
    if_both IsKey (contains reserved_keys (key_of raw))
      (append-IsKey (codes "meta.") (key_of raw) (test-IsKey (codes "meta.") refl) (key_of-All raw))
      (key_of-IsKey raw)
