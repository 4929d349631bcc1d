-- ===== src/Dict/Laws.antt =====
-- What `get` returns after each operation of a dict.
use logquill_python.Base.{
  Option, none, some, [], ◌∷◌, ◌++◌, ◌≡◌, refl, Eq, ◌==◌, arith, if◌then◌else◌,
}
use logquill_python.Dict.{Dict, get, put, remove, back, move_to_end, set_default}

module _ {ℓ κ} {K : Type ℓ} {V : Type κ} ⦃e : Eq K⦄ where
  pub get-nil : (k : K) → get {V = V} [] k ≡ none
  unfolding get
  get-nil k = refl

  pub get-cons :
      (k j : K) (v : V) (d : Dict K V) → get ((k, v) ∷ d) j ≡ (if k == j then some v else get d j)
  unfolding get
  get-cons k j v d = refl

  pub get-put :
      (d : Dict K V) (k j : K) (v : V) → get (put d k v) j ≡ (if k == j then some v else get d j)
  unfolding get put
  get-put [] k j v = refl
  get-put ((i, w) ∷ d) k j v =
      ground (arith, get-put d k j v, e.same_iff i k, e.same_iff i j, e.same_iff k j)

  pub get-put_self : (d : Dict K V) (k : K) (v : V) → get (put d k v) k ≡ some v
  get-put_self d k v = ground (arith, get-put d k k v, e.same_iff k k)

  pub get-remove :
      (d : Dict K V) (k j : K) → get (remove d k) j ≡ (if k == j then none else get d j)
  unfolding get remove
  get-remove [] k j = ground arith
  get-remove ((i, w) ∷ d) k j =
      ground (arith, get-remove d k j, e.same_iff i k, e.same_iff i j, e.same_iff k j)

  pub get-append :
      (d u : Dict K V) (k : K)
      → get (d ++ u) k ≡ elim (get d k) [ none ↦ get u k | some v ↦ some v ]
  unfolding get
  get-append [] u k = refl
  get-append ((i, w) ∷ d) u k = ground (arith, get-append d u k)

  get-back : (d : Dict K V) (k j : K) (o : Option V) → get d k ≡ o → get (back d k o) j ≡ get d j
  unfolding back
  get-back d k j none h = refl
  get-back d k j (some v) h = ground (
    arith,
    get-append (remove d k) ((k, v) ∷ []) j,
    get-remove d k j,
    get-cons k j v [],
    get-nil j,
    e.same_iff k j,
  )

  -- moving an entry to the end changes nothing that can be read
  pub get-move_to_end : (d : Dict K V) (k j : K) → get (move_to_end d k) j ≡ get d j
  unfolding move_to_end
  get-move_to_end d k j = get-back d k j (get d k) refl

  pub get-set_default :
      (d : Dict K V) (k j : K) (v : V)
      → get (set_default d k v) j
        ≡ (if k == j then elim (get d k) [ none ↦ some v | some w ↦ some w ] else get d j)
  unfolding set_default
  get-set_default d k j v = ground (arith, get-put d k j v, e.same_iff k j)
