-- ===== src/Records/Version.antt =====
-- `_VERSION_PATTERN` of `logquill/core/records.py`: `^(\d+)\.(\d+)$`. `\d` is a decimal digit of
-- Unicode 14, and `int` reads it. `$` also matches before a newline at the end.
use logquill_python.Base.{
  ℕ, ◌+◌, ◌-◌, ◌*◌, Bool, true, false, ◌&&◌, Option, none, some, List, [], ◌∷◌, leb, ◌==◌, nat_eq,
  if◌then◌else◌,
}

-- the code points of the digits zero
abbrev pub digit_zeros : List ℕ
digit_zeros =
    48 ∷ 1_632 ∷ 1_776 ∷ 1_984 ∷ 2_406 ∷ 2_534 ∷ 2_662 ∷ 2_790 ∷ 2_918 ∷ 3_046 ∷ 3_174 ∷ 3_302
    ∷ 3_430 ∷ 3_558 ∷ 3_664 ∷ 3_792 ∷ 3_872 ∷ 4_160 ∷ 4_240 ∷ 6_112 ∷ 6_160 ∷ 6_470 ∷ 6_608 ∷ 6_784
    ∷ 6_800 ∷ 6_992 ∷ 7_088 ∷ 7_232 ∷ 7_248 ∷ 42_528 ∷ 43_216 ∷ 43_264 ∷ 43_472 ∷ 43_504 ∷ 43_600
    ∷ 44_016 ∷ 65_296 ∷ 66_720 ∷ 68_912 ∷ 69_734 ∷ 69_872 ∷ 69_942 ∷ 70_096 ∷ 70_384 ∷ 70_736
    ∷ 70_864 ∷ 71_248 ∷ 71_360 ∷ 71_472 ∷ 71_904 ∷ 72_016 ∷ 72_784 ∷ 73_040 ∷ 73_120 ∷ 92_768
    ∷ 92_864 ∷ 93_008 ∷ 120_782 ∷ 120_792 ∷ 120_802 ∷ 120_812 ∷ 120_822 ∷ 123_200 ∷ 123_632
    ∷ 125_264 ∷ 130_032 ∷ []

abbrev pub digit_in : List ℕ → ℕ → Option ℕ
digit_in [] c = none
digit_in (first ∷ zeros) c =
    let rest = digit_in zeros c in
    if leb first c && leb c (first + 9) then some (c - first) else rest

-- the value of a character that `\d` matches
unfoldable pub digit_value : ℕ → Option ℕ
digit_value c = digit_in digit_zeros c

-- `\d`
unfoldable pub is_digit : ℕ → Bool
unfolding digit_value
is_digit c = elim (digit_value c) [ none ↦ false | some d ↦ true ]

abbrev pub at_end : List ℕ → Bool
at_end [] = true
at_end (_ ∷ _) = false

-- `(\d+)$`, `seen` once a digit has been read
unfoldable pub minor_ends : Bool → List ℕ → Bool
unfolding digit_value
minor_ends seen [] = seen
minor_ends seen (c ∷ cs) = elim (digit_value c) [
  | some d ↦ minor_ends true cs
  | none ↦ seen && c == 10 && at_end cs
]

-- the value of group 1, if the text matches
unfoldable pub major_from : Bool → ℕ → List ℕ → Option ℕ
unfolding minor_ends digit_value
major_from seen acc [] = none
major_from seen acc (c ∷ cs) = elim (digit_value c) [
  | some d ↦ major_from true (acc * 10 + d) cs
  | none ↦ if seen && c == b'.' && minor_ends false cs then some acc else none
]

unfoldable pub read_major : List ℕ → Option ℕ
unfolding major_from
read_major = major_from false 0
