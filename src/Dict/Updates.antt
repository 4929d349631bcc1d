-- ===== src/Dict/Updates.antt =====
-- What `{**d, **u}` and `setdefault` hold.
use mathlib.Core.Path.{subst}
use logquill_python.Base.{
  true, false, none, some, [], ◌∷◌, ◌≡◌, refl, sym, ap, ◌∙◌, Eq, ◌==◌, arith, if◌then◌else◌,
  Bool-cases, Option-cases, inl, inr,
}
use logquill_python.Dict.{Dict, get, put, update, set_default, IsDict}
use logquill_python.Dict.Laws.{get-put}
use logquill_python.Dict.Size.{put-IsDict}

module _ {ℓ κ} {K : Type ℓ} {V : Type κ} ⦃e : Eq K⦄ where
  -- a key that only the first dict may have
  pub get-update_absent : (d u : Dict K V) (k : K) → get u k ≡ none → get (update d u) k ≡ get d k
  unfolding update get
  get-update_absent d [] k h = refl
  get-update_absent d ((j, v) ∷ u) k h = elim (Bool-cases (j == k)) [
    | inl q ↦ absurd (clash j k u v q h)
    | inr q ↦ get-update_absent (put d j v) u k (later j k u v q h) ∙ get-put d j k v ∙ (rw q refl)
  ]
    where
      clash :
          (j k : K) (u : Dict K V) (v : V)
          → (j == k) ≡ true
          → (if j == k then some v else get u k) ≡ none
          → ⊥
      clash j k u v q h = ground arith

      later :
          (j k : K) (u : Dict K V) (v : V)
          → (j == k) ≡ false
          → (if j == k then some v else get u k) ≡ none
          → get u k ≡ none
      later j k u v q h = ground arith

  -- a key that the second dict has
  pub get-update_present :
      (d u : Dict K V) (k : K) (v : V) → IsDict u → get u k ≡ some v → get (update d u) k ≡ some v
  unfolding update get
  get-update_present d [] k v u h = absurd (ground arith)
  get-update_present d ((j, w) ∷ u) k v (fresh, more) h = elim (Bool-cases (j == k)) [
    | inl q ↦
        let same : j ≡ k = (e.same_iff j k).0 q in
        get-update_absent (put d j w) u k (ap (get u) (sym same) ∙ fresh)
        ∙ get-put d j k w
        ∙ (rw q (ground arith))
    | inr q ↦ get-update_present (put d j w) u k v more (ground arith)
  ]

  pub update-IsDict : (d u : Dict K V) → IsDict d → IsDict (update d u)
  unfolding update
  update-IsDict d [] h = h
  update-IsDict d ((j, v) ∷ u) h = update-IsDict (put d j v) u (put-IsDict d j v h)

  set_default_absent :
      (d : Dict K V) (k : K) (v : V) → get d k ≡ none → set_default d k v ≡ put d k v
  unfolding set_default
  set_default_absent d k v h = rw (h, set_default) refl

  set_default_present : (d : Dict K V) (k : K) (v w : V) → get d k ≡ some w → set_default d k v ≡ d
  unfolding set_default
  set_default_present d k v w h = rw (h, set_default) refl

  pub set_default-IsDict : (d : Dict K V) (k : K) (v : V) → IsDict d → IsDict (set_default d k v)
  set_default-IsDict d k v h = elim (Option-cases (get d k)) [
    | inl q ↦ subst IsDict (sym (set_default_absent d k v q)) (put-IsDict d k v h)
    | inr (w, q) ↦ subst IsDict (sym (set_default_present d k v w q)) h
  ]
