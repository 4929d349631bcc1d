-- ===== src/Dict/Trim.antt =====
-- Evicting the oldest entries down to a bound, and counting distinct keys.
use logquill_python.Base.{
  ℕ, ◌+◌, ◌-◌, ◌≤◌, false, Option, none, some, List, [], ◌∷◌, ◌++◌, ◌≡◌, refl, Eq, arith, length,
  contains, length-append,
}
use logquill_python.Dict.{Dict, get, remove, move_to_end, back, IsDict, trim}
use logquill_python.Dict.Laws.{get-remove, get-append, get-cons}
use logquill_python.Dict.Size.{length-remove, remove_absent, remove-IsDict}

module _ {ℓ κ} {K : Type ℓ} {V : Type κ} where
  pub length-trim-le : (n : ℕ) (d : Dict K V) → length (trim n d) ≤ n
  unfolding trim
  length-trim-le n [] = omega arith
  length-trim-le n (x ∷ d) = ground (arith, length-trim-le n d)

  pub trim_of_length-le : (n : ℕ) (d : Dict K V) → length d ≤ n → trim n d ≡ d
  unfolding trim
  trim_of_length-le n [] h = refl
  trim_of_length-le n (x ∷ d) h = ground arith

  length-trim_of_le : (n : ℕ) (d : Dict K V) → n ≤ length d → length (trim n d) ≡ n
  unfolding trim
  length-trim_of_le n [] h = omega arith
  length-trim_of_le n (x ∷ d) h = ground (arith, length-trim_of_le n d)

  -- one entry too many: the first goes
  trim_one : (n : ℕ) (x : K × V) (d : Dict K V) → length d ≡ n → trim n (x ∷ d) ≡ d
  unfolding trim
  trim_one n x d h = ground (arith, trim_of_length-le n d)

  -- an entry at the end stays
  trim-append :
      (n : ℕ) (d : Dict K V) (x : K × V) → 1 ≤ n → trim n (d ++ x ∷ []) ≡ trim (n - 1) d ++ x ∷ []
  unfolding trim
  trim-append n [] x h = ground arith
  trim-append n (y ∷ d) x h = ground (arith, trim-append n d x h, length-append {ℓ ⊔ κ} d (x ∷ []))

module _ {ℓ κ} {K : Type ℓ} {V : Type κ} ⦃e : Eq K⦄ where
  pub get-trim :
      (n : ℕ) (d : Dict K V) (k : K) (v : V)
      → IsDict d
      → get (trim n d) k ≡ some v
      → get d k ≡ some v
  unfolding trim get
  get-trim n [] k v u h = h
  get-trim n ((j, w) ∷ d) k v u h = ground (arith, get-trim n d k v u.1, e.same_iff j k, u.0)

  get-trim-none : (n : ℕ) (d : Dict K V) (k : K) → get d k ≡ none → get (trim n d) k ≡ none
  unfolding trim get
  get-trim-none n [] k h = h
  get-trim-none n ((j, w) ∷ d) k h = ground (arith, get-trim-none n d k)

  pub trim-IsDict : (n : ℕ) (d : Dict K V) → IsDict d → IsDict (trim n d)
  unfolding trim
  trim-IsDict n [] u = tt
  trim-IsDict n (x ∷ d) u = ground (arith, trim-IsDict n d u.1)

  -- An entry that was just moved to the end survives.
  pub get-trim-move_to_end :
      (n : ℕ) (d : Dict K V) (k : K) (v : V)
      → 1 ≤ n
      → IsDict d
      → get d k ≡ some v
      → get (trim n (move_to_end d k)) k ≡ some v
  unfolding move_to_end
  get-trim-move_to_end n d k v h u g =
      rw (g, back, trim-append n (remove d k) (k, v) h)
        (ground (
          arith,
          get-append (trim (n - 1) (remove d k)) ((k, v) ∷ []) k,
          get-trim-none (n - 1) (remove d k) k,
          get-remove d k k,
          get-cons k k v [],
          e.same_iff k k,
        ))

  nil_of_get : (d : Dict K V) → ((k : K) → get d k ≡ none) → length d ≡ 0
  unfolding get
  nil_of_get [] h = refl
  nil_of_get ((k, v) ∷ d) h = absurd (ground (arith, h k, e.same_iff k k))

  length-of_remove : (d : Dict K V) (k : K) → IsDict d → length d ≤ length (remove d k) + 1
  length-of_remove d k u = go (get d k) refl
    where
      go : (o : Option V) → get d k ≡ o → length d ≤ length (remove d k) + 1
      go none h = rw (remove_absent d k h) (omega arith)
      go (some v) h = omega (arith, length-remove d k v u h)

  -- A dict whose keys all stand in a list is no longer than the list.
  pub length-le_of_keys :
      (ks : List K) (d : Dict K V)
      → IsDict d
      → ((k : K) → contains ks k ≡ false → get d k ≡ none)
      → length d ≤ length ks
  length-le_of_keys [] d u h = omega (arith, nil_of_get d (λ k. h k refl))
  length-le_of_keys (j ∷ ks) d u h =
      let rest : length (remove d j) ≤ length ks =
        length-le_of_keys ks (remove d j) (remove-IsDict d j u)
          (λ k c. ground (arith, h k, get-remove d j k, e.same_iff j k)) in
      omega (arith, rest, length-of_remove d j u)
