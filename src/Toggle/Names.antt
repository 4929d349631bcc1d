-- ===== src/Toggle/Names.antt =====
-- Names and the names that cover them.
use mathlib.Core.Path.{subst}
use logquill_python.Base.{
  append_assoc, ℕ, ◌≤◌, true, false, [], ◌∷◌, ◌++◌, ◌≡◌, refl, ap, ◌∙◌, sym, ◌⊎◌, inl, inr, length,
  length-append, arith, nat_eq, if◌then◌else◌, Bool-cases,
}
use logquill_python.Toggle.{Name, dot, has_dot, parent}

-- `""` covers every name; else a name covers itself and what is nested under it.
pub data Covers : Name → Name → Type 0 where
  everything : {name : Name} → Covers [] name
  itself : {name : Name} → Covers name name
  nested : {name : Name} (above rest : Name) → name ≡ above ++ dot ∷ rest → Covers above name

pub length-parent-lt : (c : ℕ) (s : Name) → length (parent (c ∷ s)) ≤ length s
unfolding parent
length-parent-lt c [] = ground arith
length-parent-lt c (d ∷ s) = ground (arith, length-parent-lt d s)

has_dot-append : (q rest : Name) → has_dot (q ++ dot ∷ rest) ≡ true
has_dot-append [] rest = refl
has_dot-append (c ∷ q) rest = ground (arith, has_dot-append q rest)

parent-append :
    (q rest : Name)
    → parent (q ++ dot ∷ rest) ≡ (if has_dot rest then q ++ dot ∷ parent rest else q)
unfolding parent
parent-append [] rest = refl
parent-append (c ∷ q) rest = rw (has_dot-append q rest, parent-append q rest) (ground arith)

-- A name that covers another one covers its parent too, unless the two are the same.
pub Covers-parent : {q name : Name} → Covers q name → (q ≡ name) ⊎ Covers q (parent name)
Covers-parent everything = inr everything
Covers-parent itself = inl refl
Covers-parent {q} (nested {name} above rest e) =
    let step = ap parent e ∙ parent-append q rest in
    elim (Bool-cases (has_dot rest)) [
      | inl more ↦ inr (nested q (parent rest) (step ∙ rw more))
      | inr last ↦ inr (subst (λ n. Covers q n) (sym (step ∙ rw last)) itself)
    ]

Covers-trans : {r q name : Name} → Covers r q → Covers q name → Covers r name
Covers-trans everything h = everything
Covers-trans itself h = h
Covers-trans (nested above rest e) everything = absurd (not_nil above rest e)
  where
    not_nil : (above rest : Name) → [] ≡ above ++ dot ∷ rest → ⊥
    not_nil [] rest e = cc
    not_nil (c ∷ above) rest e = cc
Covers-trans (nested above rest e) itself = nested above rest e
Covers-trans {q = q} (nested above rest e) (nested below tail d) =
    nested above (rest ++ dot ∷ tail)
      (d ∙ ap (λ (n : Name). n ++ dot ∷ tail) e ∙ append_assoc above (dot ∷ rest) (dot ∷ tail))

-- the parent covers
parent_of_dot : (c : ℕ) (s : Name) → has_dot s ≡ true → (rest : Name) × (s ≡ parent s ++ dot ∷ rest)
unfolding parent
parent_of_dot c [] h = absurd (ground arith)
parent_of_dot c (d ∷ s) h = elim (Bool-cases (has_dot s)) [
  | inl more ↦ let (rest, e) = parent_of_dot d s more in (rest, rw more (ap (◌∷◌ d) e))
  | inr last ↦ (s, ground (arith, last))
]

parent-Covers : (name : Name) → Covers (parent name) name
parent-Covers name = elim (Bool-cases (has_dot name)) [
  | inl some_dot ↦ let (rest, e) = parent_of_dot 0 name some_dot in nested (parent name) rest e
  | inr no_dot ↦ subst (λ n. Covers n name) (sym (parent_of_no_dot name no_dot)) everything
]
  where
    parent_of_no_dot : (s : Name) → has_dot s ≡ false → parent s ≡ []
    parent_of_no_dot [] h = unfold parent in refl
    parent_of_no_dot (c ∷ s) h = unfold parent in (ground arith)

-- What covers the parent covers the name.
pub Covers-of_parent : {q name : Name} → Covers q (parent name) → Covers q name
Covers-of_parent {q} {name} h = Covers-trans h (parent-Covers name)

pub Covers-length-le : {q name : Name} → Covers q name → length q ≤ length name
Covers-length-le everything = omega arith
Covers-length-le itself = omega arith
Covers-length-le (nested above rest e) =
    omega (arith, ap (λ (n : Name). length n) e, length-append {0} above (dot ∷ rest))

pub Covers-nil : {q : Name} → Covers q [] → q ≡ []
Covers-nil everything = refl
Covers-nil itself = refl
Covers-nil (nested above rest e) =
    absurd (omega (arith, ap (λ (n : Name). length n) e, length-append {0} above (dot ∷ rest)))
