-- ===== src/Toggle/Specific.antt =====
-- The most specific rule decides.
use mathlib.Core.Path.{subst}
use logquill_python.Base.{
  ℕ, zero, suc, ◌<◌, Bool, true, none, some, [], ◌∷◌, ◌≡◌, refl, ap, ◌∙◌, sym, ◌⊎◌, inl, inr,
  length, arith, Option-cases,
}
use logquill_python.Base.Text.{codes_eq}
use logquill_python.Dict.{get}
use logquill_python.Dict.Laws.{get-nil}
use logquill_python.Toggle.{Name, Rules, parent, search_up, is_enabled, or_true}
use logquill_python.Toggle.Names.{
  Covers, itself, length-parent-lt, Covers-parent, Covers-of_parent, Covers-length-le, Covers-nil,
}

-- Which value the rules give to a name: that of the longest rule covering it, or `True` if no rule
-- covers it.
pub data Verdict (rules : Rules) (name : Name) : Bool → Type 0 where
  ruled :
      {b : Bool} (r : Name)
      → Covers r name
      → get rules r ≡ some b
      → ((q : Name) → Covers q name → length r < length q → get rules q ≡ none)
      → Verdict rules name b
  default : ((q : Name) → Covers q name → get rules q ≡ none) → Verdict rules name true

module _ (rules : Rules) where
  only_itself :
      (name : Name)
      → get rules name ≡ none
      → {q : Name} → (q ≡ name) ⊎ Covers q (parent name)
      → ((p : Name) → Covers p (parent name) → get rules p ≡ none)
      → get rules q ≡ none
  only_itself name absent (inl e) rest = ap (λ (n : Name). get rules n) e ∙ absent
  only_itself name absent {q} (inr c) rest = rest q c

  Verdict-of_parent :
      (name : Name) {b : Bool}
      → get rules name ≡ none
      → Verdict rules (parent name) b
      → Verdict rules name b
  Verdict-of_parent name absent (ruled r c g longest) =
      ruled r (Covers-of_parent c) g λ q d more. by_cases q (Covers-parent d) more
    where
      by_cases :
          (q : Name)
          → (q ≡ name) ⊎ Covers q (parent name)
          → length r < length q
          → get rules q ≡ none
      by_cases q (inl e) more = ap (λ (n : Name). get rules n) e ∙ absent
      by_cases q (inr d) more = longest q d more
  Verdict-of_parent name absent (default rest) =
      default (λ q c. only_itself name absent (Covers-parent c) rest)

  Decided : ℕ → Name → Type 0
  Decided fuel name = (b : Bool) × (search_up fuel rules name ≡ some b) × Verdict rules name b

  Decided-here :
      (fuel : ℕ) (name : Name) (b : Bool) → get rules name ≡ some b → Decided (suc fuel) name
  unfolding search_up Decided
  Decided-here fuel name b e = (
    b,
    rw (e, search_up) refl,
    ruled name itself e λ q c more. absurd (omega (arith, Covers-length-le c)),
  )

  Decided-by_default : (fuel : ℕ) → get rules [] ≡ none → Decided (suc fuel) []
  unfolding search_up Decided
  Decided-by_default fuel e = (
    true,
    rw (e, search_up) refl,
    default (λ q c. ap (λ (n : Name). get rules n) (Covers-nil c) ∙ e),
  )

  Decided-above :
      (fuel : ℕ) (c : ℕ) (s : Name)
      → get rules (c ∷ s) ≡ none
      → Decided fuel (parent (c ∷ s))
      → Decided (suc fuel) (c ∷ s)
  unfolding search_up Decided
  Decided-above fuel c s e (b, found, verdict) =
      (b, rw (e, search_up) found, Verdict-of_parent (c ∷ s) e verdict)

  search_up-Decided : (fuel : ℕ) (name : Name) → length name < fuel → Decided fuel name
  search_up-Decided zero name h = absurd (omega arith)
  search_up-Decided (suc fuel) [] h = elim (Option-cases (get rules [])) [
    | inl e ↦ Decided-by_default fuel e
    | inr (b, e) ↦ Decided-here fuel [] b e
  ]
  search_up-Decided (suc fuel) (c ∷ s) h = elim (Option-cases (get rules (c ∷ s))) [
    | inl e ↦
        Decided-above fuel c s e
          (search_up-Decided fuel (parent (c ∷ s)) (omega (arith, length-parent-lt c s)))
    | inr (b, e) ↦ Decided-here fuel (c ∷ s) b e
  ]

-- The rules give a name the value of the longest rule that covers it, and `True` to a name that no
-- rule covers; the fuel of one round more than the name is long is enough.
pub is_enabled-Verdict : (rules : Rules) (name : Name) → Verdict rules name (is_enabled rules name)
unfolding is_enabled Decided
is_enabled-Verdict [] name = default (λ q c. get-nil q)
is_enabled-Verdict (r ∷ rules) name =
    let (b, found, verdict) =
      search_up-Decided (r ∷ rules) (suc (length name)) name (omega arith) in
    subst (Verdict (r ∷ rules) name) (sym (ap or_true found)) verdict
