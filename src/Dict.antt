-- ===== src/Dict.antt =====
-- Python's `dict` and `OrderedDict`: entries in insertion order, each key once.
-- The sources use `d.get`, `d[k] = v`, `d.pop(k, None)`, `move_to_end` and `popitem(last=False)`.
pub mod Laws
pub mod Size
pub mod Trim
pub mod Updates
use logquill_python.Base.{
  leb, length, ℕ, Bool, true, false, Option, none, some, List, [], ◌∷◌, ◌++◌, ◌≡◌, Eq, ◌==◌,
  if◌then◌else◌,
}

abbrev pub Dict {ℓ κ} : Type ℓ → Type κ → Type (ℓ ⊔ κ)
Dict K V = List (K × V)

module _ {ℓ κ} {K : Type ℓ} {V : Type κ} ⦃e : Eq K⦄ where
  -- `d.get(k)`
  unfoldable pub get : Dict K V → K → Option V
  get [] k = none
  get ((j, v) ∷ d) k = if j == k then some v else get d k

  -- `d[k] = v`: in place if the key is there, else at the end
  unfoldable pub put : Dict K V → K → V → Dict K V
  put [] k v = (k, v) ∷ []
  put ((j, w) ∷ d) k v = let rest = put d k v in if j == k then (j, v) ∷ d else (j, w) ∷ rest

  -- `d.pop(k, None)`
  unfoldable pub remove : Dict K V → K → Dict K V
  remove [] k = []
  remove ((j, w) ∷ d) k = let rest = remove d k in if j == k then rest else (j, w) ∷ rest

  -- `k in d`
  unfoldable pub has : Dict K V → K → Bool
  unfolding get
  has d k = elim (get d k) [ none ↦ false | some _ ↦ true ]

  unfoldable pub back : Dict K V → K → Option V → Dict K V
  unfolding remove
  back d k none = d
  back d k (some v) = remove d k ++ (k, v) ∷ []

  -- `d.move_to_end(k)`
  unfoldable pub move_to_end : Dict K V → K → Dict K V
  unfolding back get
  move_to_end d k = back d k (get d k)

  -- `d.setdefault(k, v)`, without its result
  unfoldable pub set_default : Dict K V → K → V → Dict K V
  unfolding get put
  set_default d k v = elim (get d k) [ none ↦ put d k v | some _ ↦ d ]

  -- `{**d, **u}`
  unfoldable pub update : Dict K V → Dict K V → Dict K V
  unfolding put
  update d [] = d
  update d ((k, v) ∷ u) = update (put d k v) u

-- `d.popitem(last=False)`: what is left (Python raises on an empty dict)
abbrev pub drop_first {ℓ κ} : {K : Type ℓ} {V : Type κ} → Dict K V → Dict K V
drop_first [] = []
drop_first (x ∷ d) = d

-- No key stands twice.
abbrev pub IsDict {ℓ κ} : {K : Type ℓ} {V : Type κ} ⦃e : Eq K⦄ → Dict K V → Type κ
IsDict [] = Unit
IsDict ((k, v) ∷ d) = (get d k ≡ none) × IsDict d

-- `while len(d) > n: d.popitem(last=False)`
unfoldable pub trim {ℓ κ} : {K : Type ℓ} {V : Type κ} → ℕ → Dict K V → Dict K V
trim n [] = []
trim n (x ∷ d) = let rest = trim n d in if leb (length (x ∷ d)) n then x ∷ d else rest
