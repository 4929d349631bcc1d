-- ===== src/Pii/Mask.antt =====
-- That the pieces which `_redact_text` joins are the text with the chosen matches masked.
use logquill_python.Base.{
  ℕ, zero, suc, ◌+◌, ◌-◌, ◌≤◌, ◌<◌, Bool, true, false, ◌&&◌, ◌||◌, List, [], ◌∷◌, ◌++◌, ◌≡◌, refl,
  sym, ap, ◌∙◌, leb, ltb, ◌==◌, nat_eq, All, arith, length, take, if◌then◌else◌,
}
use logquill_python.Pii.{
  Text, Match, sort_matches, choose, drop, slice, pieces, redact_spans, redact_text,
}
use logquill_python.Pii.Sweep.{
  covered, AreApart, sort_matches-All, choose-All, choose-AreApart, choose-covers,
}

-- a match of the list starts at the place `i`
abbrev pub starts : List Match → ℕ → Bool
starts [] i = false
starts ((s, e) ∷ spans) i = let more = starts spans i in s == i || more

-- A text, whose first character is at the place `i`, character by character: the replacement where a
-- match starts, and what no match holds.
abbrev pub mask : Text → List Match → ℕ → Text → Text
mask replacement spans i [] = []
mask replacement spans i (c ∷ text) =
    (if starts spans i then replacement else [])
    ++ ((if covered spans i then [] else c ∷ []) ++ mask replacement spans (suc i) text)

abbrev pub IsWithin : ℕ → Match → Type 0
IsWithin n m = (m.0 < m.1) × (m.1 ≤ n)

length-drop : (n : ℕ) (t : Text) → n ≤ length t → length (drop n t) + n ≡ length t
length-drop zero t h = omega arith
length-drop (suc n) [] h = absurd (omega (arith, h))
length-drop (suc n) (c ∷ t) h = omega (arith, length-drop n t (omega (arith, h)))

drop-nil : (n : ℕ) → drop n [] ≡ []
drop-nil zero = refl
drop-nil (suc n) = refl

drop-drop : (m n : ℕ) (t : Text) → drop n (drop m t) ≡ drop (m + n) t
drop-drop zero n t = ap (λ (k : ℕ). drop k t) (omega arith)
drop-drop (suc m) n [] = drop-nil n ∙ sym (drop-nil (suc m + n))
drop-drop (suc m) n (c ∷ t) =
    let e : suc (m + n) ≡ suc m + n = omega arith in
    drop-drop m n t ∙ ap (λ (k : ℕ). drop k (c ∷ t)) e

-- matches that start later neither start nor hold
later_free :
    (from i : ℕ) (l : List Match)
    → i < from
    → AreApart from l
    → All (λ (m : Match). m.0 < m.1) l
    → (starts l i ≡ false) × (covered l i ≡ false)
later_free from i [] h a nonempty = (refl, refl)
later_free from i ((s, e) ∷ l) h (first, more) (here, there) =
    let (no_start, no_cover) = later_free e i l (omega (arith, h, first, here)) more there in
    (ground arith, ground arith)

module _ (replacement : Text) where
  -- behind a match, it does not matter
  mask_behind :
      (s e i : ℕ) (l : List Match) (t : Text)
      → s < e
      → e ≤ i
      → mask replacement ((s, e) ∷ l) i t ≡ mask replacement l i t
  mask_behind s e i l [] h k = refl
  mask_behind s e i l (c ∷ t) h k =
      let not_start : (s == i) ≡ false = ground arith in
      let not_held : (leb s i && ltb i e) ≡ false = ground arith in
      rw (not_start, not_held)
        (ap
          (λ (more : Text).
            (if starts l i then replacement else [])
            ++ ((if covered l i then [] else c ∷ []) ++ more))
          (mask_behind s e (suc i) l t h (omega (arith, k))))

  -- inside a match, up to its end
  mask_inside :
      (n s e i : ℕ) (l : List Match) (t : Text)
      → s < i
      → i + n ≡ e
      → AreApart e l
      → All (λ (m : Match). m.0 < m.1) l
      → mask replacement ((s, e) ∷ l) i t ≡ mask replacement l e (drop n t)
  mask_inside zero s e i l t h k apart nonempty =
      mask_behind s e i l t (omega (arith, h, k)) (omega (arith, k))
      ∙ ap (λ (j : ℕ). mask replacement l j t) (omega (arith, k))
  mask_inside (suc n) s e i l [] h k apart nonempty = refl
  mask_inside (suc n) s e i l (c ∷ t) h k apart nonempty =
      let (free, _) = later_free e i l (omega (arith, k)) apart nonempty in
      let not_start : (s == i) ≡ false = ground arith in
      let held : (leb s i && ltb i e) ≡ true = ground arith in
      rw (not_start, held, free)
        (mask_inside n s e (suc i) l t (omega (arith, h)) (omega (arith, k)) apart nonempty)

  -- at the start of a match
  mask_start :
      (n s e : ℕ) (l : List Match) (t : Text)
      → s + n ≡ e
      → s < e
      → n ≤ length t
      → AreApart e l
      → All (λ (m : Match). m.0 < m.1) l
      → mask replacement ((s, e) ∷ l) s t ≡ replacement ++ mask replacement l e (drop n t)
  mask_start zero s e l t k h len apart nonempty = absurd (omega (arith, k, h))
  mask_start (suc n) s e l [] k h len apart nonempty = absurd (omega (arith, len))
  mask_start (suc n) s e l (c ∷ t) k h len apart nonempty =
      let start : (s == s) ≡ true = ground arith in
      let held : (leb s s && ltb s e) ≡ true = ground arith in
      rw (start, held)
        (ap (λ (more : Text). replacement ++ more)
          (mask_inside n s e (suc s) l t (omega arith) (omega (arith, k)) apart nonempty))

  -- in front of a match
  mask_front :
      (n s e i : ℕ) (l : List Match) (t : Text)
      → i + n ≡ s
      → s < e
      → n ≤ length t
      → AreApart e l
      → All (λ (m : Match). m.0 < m.1) l
      → mask replacement ((s, e) ∷ l) i t ≡ take n t ++ mask replacement ((s, e) ∷ l) s (drop n t)
  mask_front zero s e i l t k h len apart nonempty =
      ap (λ (j : ℕ). mask replacement ((s, e) ∷ l) j t) (omega (arith, k))
  mask_front (suc n) s e i l [] k h len apart nonempty = absurd (omega (arith, len))
  mask_front (suc n) s e i l (c ∷ t) k h len apart nonempty =
      let (free, clear) = later_free e i l (omega (arith, k, h)) apart nonempty in
      let not_start : (s == i) ≡ false = ground arith in
      let not_held : (leb s i && ltb i e) ≡ false = ground arith in
      rw (not_start, not_held, free, clear)
        (ap (λ (more : Text). c ∷ more)
          (mask_front n s e (suc i) l t (omega (arith, k)) h (omega (arith, len)) apart nonempty))

  mask-nil : (i : ℕ) (t : Text) → mask replacement [] i t ≡ t
  mask-nil i [] = refl
  mask-nil i (c ∷ t) = ap (λ (more : Text). c ∷ more) (mask-nil (suc i) t)

  pieces-mask :
      (text : Text) (cursor : ℕ) (l : List Match)
      → AreApart cursor l
      → All (IsWithin (length text)) l
      → pieces replacement text cursor l ≡ mask replacement l cursor (drop cursor text)
  unfolding pieces
  pieces-mask text cursor [] apart within = sym (mask-nil cursor (drop cursor text))
  pieces-mask text cursor ((s, e) ∷ l) (first, apart) ((nonempty, fits), within) =
      let before = drop cursor text in
      let short : s - cursor ≤ length before =
        omega (arith, length-drop cursor text (omega (arith, first, nonempty, fits))) in
      let rest : length (drop (s - cursor) before) + (s - cursor) ≡ length before =
        length-drop (s - cursor) before short in
      ap (λ (more : Text). slice text cursor s ++ (replacement ++ more))
        (pieces-mask text e l apart within
          ∙ ap (mask replacement l e) (sym (behind before short rest)))
      ∙ sym (
          mask_front (s - cursor) s e cursor l before (omega (arith, first)) nonempty short apart
            (nonempty_all l within)
          ∙ ap (λ (more : Text). take (s - cursor) before ++ more)
              (mask_start (e - s) s e l (drop (s - cursor) before) (omega (arith, nonempty))
                nonempty
                (omega (
                  arith,
                  rest,
                  first,
                  nonempty,
                  fits,
                  length-drop cursor text (omega (arith, first, nonempty, fits)),
                ))
                apart (nonempty_all l within)))
    where
      behind :
          (before : Text)
          → s - cursor ≤ length before
          → length (drop (s - cursor) before) + (s - cursor) ≡ length before
          → drop (e - s) (drop (s - cursor) (drop cursor text)) ≡ drop e text
      behind before short rest =
          ap (drop (e - s)) (drop-drop cursor (s - cursor) text)
          ∙ drop-drop (cursor + (s - cursor)) (e - s) text
          ∙ ap (λ (k : ℕ). drop k text) (omega (arith, first, nonempty))

      nonempty_all :
          (l : List Match) → All (IsWithin (length text)) l → All (λ (m : Match). m.0 < m.1) l
      nonempty_all [] a = tt
      nonempty_all (m ∷ l) (here, more) = (here.0, nonempty_all l more)

-- what `_redact_text` chooses
abbrev pub chosen : List Match → List Match
chosen found = choose 0 (sort_matches found)

-- If no match is empty or reaches past the end of the text: the redacted text is the text, character
-- by character, with the replacement once for each chosen match and without what the chosen matches
-- hold; they do not overlap; and the first character of every match that a pattern finds is among
-- what is left out.
pub redact_text-mask :
    (find_all : Text → List Match) (replacement text : Text)
    → All (IsWithin (length text)) (find_all text)
    → (redact_text find_all replacement text ≡ mask replacement (chosen (find_all text)) 0 text)
      × AreApart 0 (chosen (find_all text))
      × All (λ (m : Match). covered (chosen (find_all text)) m.0 ≡ true) (find_all text)
unfolding redact_text
redact_text-mask find_all replacement text within = (
  masked (find_all text) within,
  choose-AreApart 0 (sort_matches (find_all text)),
  all_hit (find_all text) (find_all text) within (choose-covers (find_all text)),
)
  where
    masked :
        (found : List Match)
        → All (IsWithin (length text)) found
        → redact_spans replacement text found ≡ mask replacement (chosen found) 0 text
    masked [] a = unfold redact_spans sort_matches choose in sym (mask-nil replacement 0 text)
    masked (m ∷ found) a =
        unfold redact_spans in
        pieces-mask replacement text 0 (chosen (m ∷ found))
          (choose-AreApart 0 (sort_matches (m ∷ found)))
          (choose-All (IsWithin (length text)) 0 (sort_matches (m ∷ found))
            (sort_matches-All (IsWithin (length text)) (m ∷ found) a))

    all_hit :
        (found l : List Match)
        → All (IsWithin (length text)) l
        → All (λ (m : Match). m.0 < m.1 → covered (chosen found) m.0 ≡ true) l
        → All (λ (m : Match). covered (chosen found) m.0 ≡ true) l
    all_hit found [] a h = tt
    all_hit found (m ∷ l) (here, more) (first, rest) = (first here.0, all_hit found l more rest)
