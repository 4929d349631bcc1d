-- ===== src/Logfmt/Lines.antt =====
-- Lines of pairs: what `parse_logfmt` finds in a line that joins `key=value` texts.
use logquill_python.Base.{
  ℕ, zero, suc, ◌<◌, ◌≤◌, List, [], ◌∷◌, ◌++◌, ◌≡◌, refl, sym, ap, ◌∙◌, append_assoc, arith, nat_eq,
  length, length-append, All, All-append,
}
use logquill_python.Base.Text.{codes_eq}
use logquill_python.Dict.{update}
use logquill_python.Logfmt.{Text, pair, join, join_after}
use logquill_python.Logfmt.Chars.{is_space, is_control, is_key_char}
use logquill_python.Logfmt.Read.{span, read_group, find_pairs, unquote_all, parse_logfmt}
use logquill_python.Logfmt.Words.{
  printable, Reads, IsEnd, IsOf, span-All, IsPrintable, special-key, IsPlain, plain-All,
}

-- a key of a line: a character at least, and each fit for the pattern's first group
abbrev pub IsKey : Text → Type 0
IsKey [] = ⊥
IsKey (c ∷ key) = All IsPlain (c ∷ key)

-- the texts of a line, and the entries that they stand for
abbrev pub AreWritten : List Text → List (Text × Text) → Type 0
AreWritten [] [] = Unit
AreWritten [] (_ ∷ _) = ⊥
AreWritten (_ ∷ _) [] = ⊥
AreWritten (p ∷ pairs) ((key, value) ∷ fields) =
    (IsKey key × (word : Text) × (p ≡ pair key word) × Reads word value) × AreWritten pairs fields

join_after-IsEnd : (pairs : List Text) → IsEnd (join_after pairs)
join_after-IsEnd [] = tt
join_after-IsEnd (p ∷ pairs) = refl

read_group-pair :
    (word value rest : Text)
    → Reads word value
    → IsEnd rest
    → read_group (b'=' ∷ (word ++ rest)) ≡ (word, rest)
unfolding read_group
read_group-pair word value rest r h = r.read_to_end rest h

key_all : (key : Text) → All IsPlain key → All (IsOf is_key_char) key
key_all [] a = tt
key_all (c ∷ key) (first, more) = (special-key c first, key_all key more)

span-equals : (rest : Text) → span is_key_char (b'=' ∷ rest) ≡ ([], b'=' ∷ rest)
unfolding span is_key_char is_space
span-equals rest = refl

find_pairs-pair :
    (n : ℕ) (key word value rest : Text)
    → IsKey key
    → Reads word value
    → IsEnd rest
    → find_pairs (suc n) (pair key word ++ rest) ≡ (key, word) ∷ find_pairs n rest
unfolding find_pairs
find_pairs-pair n [] word value rest k r h = absurd k
find_pairs-pair n (c ∷ key) word value rest k r h =
    rw
      (
        append_assoc key (b'=' ∷ word) rest,
        span-All is_key_char (c ∷ key) (b'=' ∷ (word ++ rest)) (key_all (c ∷ key) k)
            (span-equals (word ++ rest)),
        read_group-pair word value rest r h,
        special-key c k.0,
      )
      refl

find_pairs-space : (n : ℕ) (rest : Text) → find_pairs (suc n) (b' ' ∷ rest) ≡ find_pairs n rest
unfolding find_pairs is_key_char is_space
find_pairs-space n rest = refl

length-pair-lt : (key word rest : Text) → IsKey key → length rest < length (pair key word ++ rest)
length-pair-lt [] word rest k = absurd k
length-pair-lt (c ∷ key) word rest k =
    omega (arith, length-append {0} (pair (c ∷ key) word) rest, length-append {0} key (b'=' ∷ word))

find_pairs-join_after :
    (n : ℕ) (pairs : List Text) (fields : List (Text × Text))
    → AreWritten pairs fields
    → length (join_after pairs) ≤ n
    → unquote_all (find_pairs n (join_after pairs)) ≡ fields
find_pairs-join_after n [] [] w h = nothing n
  where
    nothing : (n : ℕ) → unquote_all (find_pairs n []) ≡ []
    nothing zero = unfold find_pairs in refl
    nothing (suc n) = unfold find_pairs in refl
find_pairs-join_after n [] (f ∷ fields) w h = absurd w
find_pairs-join_after n (p ∷ pairs) [] w h = absurd w
find_pairs-join_after zero (p ∷ pairs) ((key, value) ∷ fields) w h = absurd (omega (arith, h))
find_pairs-join_after (suc zero) (p ∷ pairs) ((key, value) ∷ fields) ((k, word, e, r), more) h =
    absurd (
      omega (
        arith,
        h,
        ap (λ (q : Text). length (q ++ join_after pairs)) e,
        length-pair-lt key word (join_after pairs) k,
      ))
find_pairs-join_after (suc (suc n)) (p ∷ pairs) ((key, value) ∷ fields) ((k, word, e, r), more) h =
    rw
      (
        find_pairs-space (suc n) (p ++ join_after pairs),
        e,
        find_pairs-pair n key word value (join_after pairs) k r (join_after-IsEnd pairs),
        r.read_back,
      )
      (ap (λ (rest : List (Text × Text)). (key, value) ∷ rest)
        (find_pairs-join_after n pairs fields more (
          omega (
            arith,
            h,
            ap (λ (q : Text). length (q ++ join_after pairs)) e,
            length-pair-lt key word (join_after pairs) k,
          ))))

-- Fuel for a line without the leading space of `join_after`.
find_pairs-join :
    (n : ℕ) (pairs : List Text) (fields : List (Text × Text))
    → AreWritten pairs fields
    → length (join pairs) ≤ n
    → unquote_all (find_pairs n (join pairs)) ≡ fields
find_pairs-join n [] fields w h = find_pairs-join_after n [] fields w h
find_pairs-join n (p ∷ pairs) fields w h =
    ap unquote_all (sym (find_pairs-space n (p ++ join_after pairs)))
    ∙ find_pairs-join_after (suc n) (p ∷ pairs) fields w (omega (arith, h))

-- What `parse_logfmt` returns for a line of pairs is the dict of what they stand for.
pub parse_logfmt-join :
    (pairs : List Text) (fields : List (Text × Text))
    → AreWritten pairs fields
    → parse_logfmt (join pairs) ≡ update [] fields
unfolding parse_logfmt
parse_logfmt-join pairs fields w =
    ap (update []) (find_pairs-join (length (join pairs)) pairs fields w (omega arith))

IsKey-All : (key : Text) → IsKey key → All IsPrintable key
IsKey-All [] k = absurd k
IsKey-All (c ∷ key) k = plain-All (c ∷ key) k

pair-All : (key word value : Text) → IsKey key → Reads word value → All IsPrintable (pair key word)
unfolding is_control
pair-All key word value k r =
    All-append IsPrintable key (b'=' ∷ word) (IsKey-All key k) (printable b'=' refl, r.on_line)

join_after-All :
    (pairs : List Text) (fields : List (Text × Text))
    → AreWritten pairs fields
    → All IsPrintable (join_after pairs)
unfolding is_control
join_after-All [] fields w = tt
join_after-All (p ∷ pairs) [] w = absurd w
join_after-All (p ∷ pairs) ((key, value) ∷ fields) ((k, word, e, r), more) = (
  printable b' ' refl,
  All-append IsPrintable p (join_after pairs) (rw e (pair-All key word value k r))
      (join_after-All pairs fields more),
)

-- a line of pairs breaks nowhere
pub join-All :
    (pairs : List Text) (fields : List (Text × Text))
    → AreWritten pairs fields
    → All IsPrintable (join pairs)
join-All [] fields w = tt
join-All (p ∷ pairs) fields w = (join_after-All (p ∷ pairs) fields w).1
