-- ===== src/Records/Numerals.antt =====
-- What `_VERSION_PATTERN` of `logquill/core/records.py` matches: two numerals with a dot between.
use logquill_python.Base.{
  ℕ, ◌+◌, ◌*◌, ◌≤◌, Bool, true, false, ◌&&◌, Option, none, some, List, [], ◌∷◌, ◌++◌, ◌≡◌, refl,
  sym, ap, ◌∙◌, arith, length, nat_eq, ◌==◌, Option-cases, ◌⊎◌, inl, inr, ◌↔◌, if◌then◌else◌,
  false≢true,
}
use logquill_python.Records.Version.{digit_value, at_end, minor_ends, major_from, read_major}

-- the number that digits stand for, behind `acc`
abbrev pub number_from : ℕ → List ℕ → Option ℕ
number_from acc [] = some acc
number_from acc (c ∷ cs) = elim (digit_value c) [
  | none ↦ none
  | some d ↦ number_from (acc * 10 + d) cs
]

-- the text of a version with the major number `n`; a newline may follow
pub record IsVersion (text : List ℕ) (n : ℕ) : Type 0 where
  pub major : List ℕ
  pub minor : List ℕ
  pub behind : List ℕ
  pub parts : text ≡ major ++ (b'.' ∷ (minor ++ behind))
  pub major_digits : 1 ≤ length major
  pub major_number : number_from 0 major ≡ some n
  pub minor_digits : 1 ≤ length minor
  pub minor_number : (m : ℕ) × (number_from 0 minor ≡ some m)
  pub ends : (behind ≡ []) ⊎ (behind ≡ 10 ∷ [])

number_from-digit :
    (acc c d : ℕ) (cs : List ℕ)
    → digit_value c ≡ some d
    → number_from acc (c ∷ cs) ≡ number_from (acc * 10 + d) cs
number_from-digit acc c d cs e = rw (e, number_from) refl

number_from-none :
    (acc c : ℕ) (cs : List ℕ) → digit_value c ≡ none → number_from acc (c ∷ cs) ≡ none
number_from-none acc c cs e = rw (e, number_from) refl

minor_ends-digit :
    (seen : Bool) (c d : ℕ) (cs : List ℕ)
    → digit_value c ≡ some d
    → minor_ends seen (c ∷ cs) ≡ minor_ends true cs
unfolding minor_ends
minor_ends-digit seen c d cs e = rw (e, minor_ends) refl

minor_ends-other :
    (seen : Bool) (c : ℕ) (cs : List ℕ)
    → digit_value c ≡ none
    → minor_ends seen (c ∷ cs) ≡ (seen && c == 10 && at_end cs)
unfolding minor_ends
minor_ends-other seen c cs e = rw (e, minor_ends) refl

major_from-digit :
    (seen : Bool) (acc c d : ℕ) (cs : List ℕ)
    → digit_value c ≡ some d
    → major_from seen acc (c ∷ cs) ≡ major_from true (acc * 10 + d) cs
unfolding major_from
major_from-digit seen acc c d cs e = rw (e, major_from) refl

major_from-other :
    (seen : Bool) (acc c : ℕ) (cs : List ℕ)
    → digit_value c ≡ none
    → major_from seen acc (c ∷ cs)
      ≡ (if seen && c == b'.' && minor_ends false cs then some acc else none)
unfolding major_from
major_from-other seen acc c cs e = rw (e, major_from) refl

-- the rest of a numeral and what may follow it; `seen` once a digit has been read
record Ending (seen : Bool) (text : List ℕ) : Type 0 where
  minor : List ℕ
  behind : List ℕ
  parts : text ≡ minor ++ behind
  digits : (seen ≡ true) ⊎ (1 ≤ length minor)
  number : (acc : ℕ) → (m : ℕ) × (number_from acc minor ≡ some m)
  ends : (behind ≡ []) ⊎ (behind ≡ 10 ∷ [])

at_end_lem : (cs : List ℕ) → at_end cs ≡ true → cs ≡ []
at_end_lem [] h = refl
at_end_lem (c ∷ cs) h = absurd (false≢true h)

Ending-of : (seen : Bool) (text : List ℕ) → minor_ends seen text ≡ true → Ending seen text
unfolding minor_ends
Ending-of seen [] h = record {
  minor = [];
  behind = [];
  parts = refl;
  digits = inl h;
  number = λ acc. (acc, refl);
  ends = inl refl;
}
Ending-of seen (c ∷ cs) h = elim (Option-cases (digit_value c)) [
  | inl e ↦
      let all : (seen && c == 10 && at_end cs) ≡ true = sym (minor_ends-other seen c cs e) ∙ h in
      let line_feed : c ≡ 10 = ground (arith, all, nat_eq.same_iff c 10) in
      let over : at_end cs ≡ true = ground (arith, all) in
      record {
        minor = [];
        behind = c ∷ cs;
        parts = refl;
        digits = inl (ground (arith, all));
        number = λ acc. (acc, refl);
        ends = inr (rw (line_feed, at_end_lem cs over) refl);
      }
  | inr (d, e) ↦
      let rest : Ending true cs = Ending-of true cs (sym (minor_ends-digit seen c d cs e) ∙ h) in
      record {
        minor = c ∷ rest.minor;
        behind = rest.behind;
        parts = ap (λ l. c ∷ l) rest.parts;
        digits = inr (omega arith);
        number = λ acc.
            let (m, q) = rest.number (acc * 10 + d) in
            (m, number_from-digit acc c d rest.minor e ∙ q);
        ends = rest.ends;
      }
]

-- a version, of which `acc` is already read if `seen`
record From (seen : Bool) (acc : ℕ) (text : List ℕ) (n : ℕ) : Type 0 where
  major : List ℕ
  rest : List ℕ
  parts : text ≡ major ++ b'.' ∷ rest
  digits : (seen ≡ true) ⊎ (1 ≤ length major)
  number : number_from acc major ≡ some n
  ending : Ending false rest

taken : (t : Bool) (acc n : ℕ) → (if t then some acc else none) ≡ some n → (t ≡ true) × (acc ≡ n)
taken true acc n h = (refl, ground (arith, h))
taken false acc n h = absurd (ground (arith, h))

From-of :
    (seen : Bool) (acc n : ℕ) (text : List ℕ)
    → major_from seen acc text ≡ some n
    → From seen acc text n
unfolding major_from
From-of seen acc n [] h = absurd (ground (arith, h))
From-of seen acc n (c ∷ cs) h = elim (Option-cases (digit_value c)) [
  | inl e ↦
      let (all, same) =
        taken (seen && c == b'.' && minor_ends false cs) acc n
          (sym (major_from-other seen acc c cs e) ∙ h) in
      let dot : c ≡ b'.' = ground (arith, all, nat_eq.same_iff c b'.') in
      let after : minor_ends false cs ≡ true = ground (arith, all) in
      record {
        major = [];
        rest = cs;
        parts = ap (λ x. x ∷ cs) dot;
        digits = inl (ground (arith, all));
        number = ap some same;
        ending = Ending-of false cs after;
      }
  | inr (d, e) ↦
      let more : From true (acc * 10 + d) cs n =
        From-of true (acc * 10 + d) n cs (sym (major_from-digit seen acc c d cs e) ∙ h) in
      record {
        major = c ∷ more.major;
        rest = more.rest;
        parts = ap (λ l. c ∷ l) more.parts;
        digits = inr (omega arith);
        number = number_from-digit acc c d more.major e ∙ more.number;
        ending = more.ending;
      }
]

dot_digit : digit_value b'.' ≡ none
unfolding digit_value
dot_digit = refl

feed_digit : digit_value 10 ≡ none
unfolding digit_value
feed_digit = refl

some≢none : {A : Type 0} {a : A} → some a ≡ none → ⊥
some≢none e = ground (arith, e)

minor_ends-numeral :
    (seen : Bool) (acc m : ℕ) (minor behind : List ℕ)
    → number_from acc minor ≡ some m
    → (seen ≡ true) ⊎ (1 ≤ length minor)
    → (behind ≡ []) ⊎ (behind ≡ 10 ∷ [])
    → minor_ends seen (minor ++ behind) ≡ true
unfolding minor_ends
minor_ends-numeral seen acc m [] behind q (inl s) (inl e) = rw e s
minor_ends-numeral seen acc m [] behind q (inl s) (inr e) =
    rw e (minor_ends-other seen 10 [] feed_digit ∙ rw s refl)
minor_ends-numeral seen acc m [] behind q (inr h) e = absurd (omega (arith, h))
minor_ends-numeral seen acc m (c ∷ minor) behind q h e = elim (Option-cases (digit_value c)) [
  | inl bad ↦ absurd (some≢none (sym q ∙ number_from-none acc c minor bad))
  | inr (d, good) ↦
      minor_ends-digit seen c d (minor ++ behind) good
      ∙ minor_ends-numeral true (acc * 10 + d) m minor behind
          (sym (number_from-digit acc c d minor good) ∙ q) (inl refl) e
]

major_from-numeral :
    (seen : Bool) (acc n : ℕ) (major rest : List ℕ)
    → number_from acc major ≡ some n
    → (seen ≡ true) ⊎ (1 ≤ length major)
    → minor_ends false rest ≡ true
    → major_from seen acc (major ++ b'.' ∷ rest) ≡ some n
major_from-numeral seen acc n [] rest q (inl s) h =
    major_from-other seen acc b'.' rest dot_digit ∙ rw (s, h) q
major_from-numeral seen acc n [] rest q (inr s) h = absurd (omega (arith, s))
major_from-numeral seen acc n (c ∷ major) rest q s h = elim (Option-cases (digit_value c)) [
  | inl bad ↦ absurd (some≢none (sym q ∙ number_from-none acc c major bad))
  | inr (d, good) ↦
      major_from-digit seen acc c d (major ++ b'.' ∷ rest) good
      ∙ major_from-numeral true (acc * 10 + d) n major rest
          (sym (number_from-digit acc c d major good) ∙ q) (inl refl) h
]

some_digits : (major : List ℕ) → (false ≡ true) ⊎ (1 ≤ length major) → 1 ≤ length major
some_digits major (inl h) = absurd (false≢true h)
some_digits major (inr h) = h

pub read_major-IsVersion : (text : List ℕ) (n : ℕ) → (read_major text ≡ some n) ↔ IsVersion text n
unfolding read_major
read_major-IsVersion text n = (
  λ h.
      let v : From false 0 text n = From-of false 0 n text h in
      let w : Ending false v.rest = v.ending in
      record {
        major = v.major;
        minor = w.minor;
        behind = w.behind;
        parts = v.parts ∙ ap (λ l. v.major ++ b'.' ∷ l) w.parts;
        major_digits = some_digits v.major v.digits;
        major_number = v.number;
        minor_digits = some_digits w.minor w.digits;
        minor_number = w.number 0;
        ends = w.ends;
      },
  λ v.
      let (m, q) = v.minor_number in
      rw v.parts (
        major_from-numeral false 0 n v.major (v.minor ++ v.behind) v.major_number
          (inr v.major_digits)
          (minor_ends-numeral false 0 m v.minor v.behind q (inr v.minor_digits) v.ends)),
)
