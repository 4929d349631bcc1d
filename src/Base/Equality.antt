-- ===== src/Base/Equality.antt =====
-- Equality tests as an interface: Python's `==` on the keys of a dict.
use text.Mathlib.TextEquality.{eq_iff}
use Prim.Native.String.{String}
use text.Mathlib.Text.{◌==◌ as str_eq}
use Prim.Native.Nat.{ℕ}
use mathlib.Core.Path.{◌≡◌, refl, sym, ◌∙◌}
use mathlib.Core.Logic.{◌↔◌, ◌≢◌}
use mathlib.Core.Bool.{false≢true, Bool, true, false, ◌&&◌, ◌||◌}
use mathlib.Core.List.{List, [], ◌∷◌}
use native.Mathlib.Omega.{arith}
use logquill_python.Base.Tests.{nat_beq, nat_beq_iff}

-- A type with a test, and what the test says.
pub record Eq {ℓ} (A : Type ℓ) : Type ℓ where
  pub same : A → A → Bool
  pub same_iff : (x y : A) → (same x y ≡ true) ↔ (x ≡ y)

module _ {ℓ} {A : Type ℓ} ⦃e : Eq A⦄ where
  infix 50 ◌==◌
  abbrev pub ◌==◌ : A → A → Bool
  x == y = e.same x y

  pub beq_self : (x : A) → (x == x) ≡ true
  beq_self x = (e.same_iff x x).1 refl

  pub beq_ne : (x y : A) → x ≢ y → (x == y) ≡ false
  beq_ne x y h = ground (arith, e.same_iff x y)

  -- `k in l`
  abbrev pub contains : List A → A → Bool
  contains [] k = false
  contains (j ∷ l) k = let rest = contains l k in j == k || rest

instance abbrev pub nat_eq : Eq ℕ
nat_eq = record { same_iff = nat_beq_iff; same = nat_beq }

instance abbrev pub string_eq : Eq String
string_eq = record { same_iff = eq_iff; same = str_eq }

abbrev pair_beq {ℓ κ} : {A : Type ℓ} {B : Type κ} ⦃e : Eq A⦄ ⦃f : Eq B⦄ → A × B → A × B → Bool
pair_beq p q = p.0 == q.0 && p.1 == q.1

pub pair_beq_iff {ℓ κ} :
    {A : Type ℓ} {B : Type κ} ⦃e : Eq A⦄ ⦃f : Eq B⦄ (p q : A × B) → (pair_beq p q ≡ true) ↔ (p ≡ q)
pair_beq_iff ⦃e⦄ ⦃f⦄ p q = ground (arith, e.same_iff p.0 q.0, f.same_iff p.1 q.1)

instance abbrev pub pair_eq {ℓ κ} : {A : Type ℓ} {B : Type κ} ⦃e : Eq A⦄ ⦃f : Eq B⦄ → Eq (A × B)
pair_eq = record { same_iff = pair_beq_iff; same = pair_beq }

-- The test that a decision gives.
abbrev pub dec_beq {ℓ} : {A : Type ℓ} → Discrete A → A → A → Bool
dec_beq dec a b = elim (dec a b) [ yes _ ↦ true | no _ ↦ false ]

pub dec_beq_iff {ℓ} : {A : Type ℓ} (dec : Discrete A) (a b : A) → (dec_beq dec a b ≡ true) ↔ (a ≡ b)
dec_beq_iff dec a b = ground arith

decide_by : {s t : String} (b : Bool) → str_eq s t ≡ b → Dec (s ≡ t)
decide_by {s} {t} true h = yes ((eq_iff s t).0 h)
decide_by {s} {t} false h = no (λ e. false≢true (sym h ∙ (eq_iff s t).1 e))

pub string_discrete : Discrete String
unfolding decide_by
string_discrete s t = decide_by (str_eq s t) refl
