-- ===== src/Pii/Sweep.antt =====
-- The sweep over overlapping matches: what it chooses, and what that covers.
use mathlib.Core.Path.{subst}
use logquill_python.Base.{
  ℕ, ◌≤◌, ◌<◌, Bool, true, false, ◌&&◌, ◌||◌, List, [], ◌∷◌, ◌≡◌, refl, sym, leb, ltb, nat_eq, All,
  arith, if_both, Bool-cases, inl, inr,
}
use logquill_python.Pii.{Match, leb_match, insert_match, sort_matches, choose}

-- some match of the list holds the place `i`
abbrev pub covered : List Match → ℕ → Bool
covered [] i = false
covered ((s, e) ∷ spans) i = let more = covered spans i in (leb s i && ltb i e) || more

-- No match of the list starts before `from`, or before the end of the one in front of it.
abbrev pub AreApart : ℕ → List Match → Type 0
AreApart from [] = Unit
AreApart from ((s, e) ∷ spans) = (from ≤ s) × AreApart e spans

-- the order of the starts
abbrev StartsFrom : ℕ → List Match → Type 0
StartsFrom n [] = Unit
StartsFrom n ((s, e) ∷ spans) = (n ≤ s) × StartsFrom s spans

StartsFrom-mono : (m n : ℕ) (l : List Match) → m ≤ n → StartsFrom n l → StartsFrom m l
StartsFrom-mono m n [] h a = tt
StartsFrom-mono m n ((s, e) ∷ l) h (first, more) = (omega arith, more)

insert_match-StartsFrom :
    (n : ℕ) (m : Match) (l : List Match)
    → n ≤ m.0
    → StartsFrom n l
    → StartsFrom n (insert_match m l)
unfolding insert_match
insert_match-StartsFrom n (s, e) [] h a = (h, tt)
insert_match-StartsFrom n (s, e) ((t, f) ∷ l) h (first, more) =
    elim (Bool-cases (leb_match (s, e) (t, f))) [
      | inl q ↦ rw q (h, (start_le s e t f q, more))
      | inr q ↦ rw q (first, insert_match-StartsFrom t (s, e) l (start_ge s e t f q) more)
    ]
  where
    start_le : (s e t f : ℕ) → leb_match (s, e) (t, f) ≡ true → s ≤ t
    start_le s e t f q = unfold leb_match in ground arith

    start_ge : (s e t f : ℕ) → leb_match (s, e) (t, f) ≡ false → t ≤ s
    start_ge s e t f q = unfold leb_match in ground arith

sort_matches-StartsFrom : (l : List Match) → StartsFrom 0 (sort_matches l)
unfolding sort_matches
sort_matches-StartsFrom [] = tt
sort_matches-StartsFrom (m ∷ l) =
    insert_match-StartsFrom 0 m (sort_matches l) (omega arith) (sort_matches-StartsFrom l)

-- sorting keeps the members
module _ (Q : Match → Type 0) where
  insert_match-All : (m : Match) (l : List Match) → Q m → All Q l → All Q (insert_match m l)
  unfolding insert_match
  insert_match-All m [] q a = (q, tt)
  insert_match-All m (n ∷ l) q (first, more) =
      if_both (All Q) (leb_match m n) (q, (first, more)) (first, insert_match-All m l q more)

  insert_match-All_back : (m : Match) (l : List Match) → All Q (insert_match m l) → Q m × All Q l
  unfolding insert_match
  insert_match-All_back m [] a = a
  insert_match-All_back m (n ∷ l) a = elim (Bool-cases (leb_match m n)) [
    | inl e ↦ rw e at a
    | inr e ↦
        let b : All Q (n ∷ insert_match m l) = rw e at a in
        let (q, more) = insert_match-All_back m l b.1 in (q, (b.0, more))
  ]

  pub sort_matches-All : (l : List Match) → All Q l → All Q (sort_matches l)
  unfolding sort_matches
  sort_matches-All [] a = tt
  sort_matches-All (m ∷ l) (first, more) =
      insert_match-All m (sort_matches l) first (sort_matches-All l more)

  sort_matches-All_back : (l : List Match) → All Q (sort_matches l) → All Q l
  unfolding sort_matches
  sort_matches-All_back [] a = tt
  sort_matches-All_back (m ∷ l) a =
      let (q, more) = insert_match-All_back m (sort_matches l) a in
      (q, sort_matches-All_back l more)

  pub choose-All : (last_end : ℕ) (l : List Match) → All Q l → All Q (choose last_end l)
  unfolding choose
  choose-All last_end [] a = tt
  choose-All last_end ((s, e) ∷ l) (first, more) =
      if_both (All Q) (leb last_end s) (first, choose-All e l more) (choose-All last_end l more)

pub choose-AreApart : (last_end : ℕ) (l : List Match) → AreApart last_end (choose last_end l)
unfolding choose
choose-AreApart last_end [] = tt
choose-AreApart last_end ((s, e) ∷ l) = elim (Bool-cases (leb last_end s)) [
  | inl q ↦ rw q (ground arith, choose-AreApart e l)
  | inr q ↦ rw q (choose-AreApart last_end l)
]

-- where a match starts before `last_end` or inside a chosen one
abbrev IsHit : ℕ → List Match → Match → Type 0
IsHit last_end chosen m = m.0 < m.1 → (ltb m.0 last_end || covered chosen m.0) ≡ true

IsHit-more :
    (last_end s e : ℕ) (chosen l : List Match)
    → last_end ≤ s
    → StartsFrom s l
    → All (IsHit e chosen) l
    → All (IsHit last_end ((s, e) ∷ chosen)) l
IsHit-more last_end s e chosen [] h starts a = tt
IsHit-more last_end s e chosen ((t, f) ∷ l) h (later, starts) (first, more) = (
  λ nonempty. one (first nonempty),
  IsHit-more last_end s e chosen l h (StartsFrom-mono s t l later starts) more,
)
  where
    one :
        (ltb t e || covered chosen t) ≡ true
        → (ltb t last_end || covered ((s, e) ∷ chosen) t) ≡ true
    one q = ground arith

choose_taken :
    (last_end s e : ℕ) (l : List Match)
    → leb last_end s ≡ true
    → choose last_end ((s, e) ∷ l) ≡ (s, e) ∷ choose e l
unfolding choose
choose_taken last_end s e l q = rw q refl

choose_passed :
    (last_end s e : ℕ) (l : List Match)
    → leb last_end s ≡ false
    → choose last_end ((s, e) ∷ l) ≡ choose last_end l
unfolding choose
choose_passed last_end s e l q = rw q refl

choose-hits :
    (last_end from : ℕ) (l : List Match)
    → StartsFrom from l
    → All (IsHit last_end (choose last_end l)) l
choose-hits last_end from [] starts = tt
choose-hits last_end from ((s, e) ∷ l) (h, starts) = elim (Bool-cases (leb last_end s)) [
  | inl q ↦
      subst (λ (chosen : List Match). All (IsHit last_end chosen) ((s, e) ∷ l))
        (sym (choose_taken last_end s e l q))
        (
          λ nonempty. ground arith,
          IsHit-more last_end s e (choose e l) l (ground arith) starts (choose-hits e s l starts),
        )
  | inr q ↦
      subst (λ (chosen : List Match). All (IsHit last_end chosen) ((s, e) ∷ l))
        (sym (choose_passed last_end s e l q))
        (λ nonempty. ground arith, choose-hits last_end s l starts)
]

-- The first character of every match that is not empty lies in a match that the sweep chooses.
pub choose-covers :
    (l : List Match)
    → All (λ (m : Match). m.0 < m.1 → covered (choose 0 (sort_matches l)) m.0 ≡ true) l
choose-covers l =
    sort_matches-All_back
      (λ (m : Match). m.0 < m.1 → covered (choose 0 (sort_matches l)) m.0 ≡ true) l
      (from_zero (choose 0 (sort_matches l)) (sort_matches l)
        (choose-hits 0 0 (sort_matches l) (sort_matches-StartsFrom l)))
  where
    from_zero :
        (chosen l : List Match)
        → All (IsHit 0 chosen) l
        → All (λ (m : Match). m.0 < m.1 → covered chosen m.0 ≡ true) l
    from_zero chosen [] a = tt
    from_zero chosen ((t, f) ∷ l) (first, more) =
        (λ nonempty. no_earlier chosen t (first nonempty), from_zero chosen l more)
      where
        no_earlier :
            (chosen : List Match) (t : ℕ)
            → (ltb t 0 || covered chosen t) ≡ true
            → covered chosen t ≡ true
        no_earlier chosen t q = ground arith
