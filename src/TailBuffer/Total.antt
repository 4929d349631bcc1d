-- ===== src/TailBuffer/Total.antt =====
-- How many records the buffer holds.
use logquill_python.Base.{
  ℕ, ◌+◌, ◌-◌, ◌≤◌, Option, none, some, List, [], ◌∷◌, ◌++◌, ◌≡◌, refl, ap, arith, length, Eq,
}
use logquill_python.Dict.{Dict, get, put, remove, move_to_end, IsDict, back}
use logquill_python.Dict.Size.{remove_absent}
use logquill_python.Records.{Record}
use logquill_python.TailBuffer.{shrink, or_nil}

-- all records in the buffer
abbrev pub total : {K : Type 0} → Dict K (List Record) → ℕ
total [] = 0
total ((_, rs) ∷ d) = length rs + total d

total-append : {K : Type 0} (d u : Dict K (List Record)) → total (d ++ u) ≡ total d + total u
total-append [] u = omega arith
total-append ((k, rs) ∷ d) u = omega (arith, total-append d u)

module _ {K : Type 0} where
  pub total-shrink :
      (n : ℕ) (d : Dict K (List Record)) → (shrink n d (total d)).1 ≡ total (shrink n d (total d)).0
  unfolding shrink
  total-shrink n [] = refl
  total-shrink n ((k, rs) ∷ d) =
      let back : length rs + total d - length rs ≡ total d = omega arith in
      ground (arith, ap (λ (c : ℕ). shrink n d c) back, total-shrink n d)

  pub shrink-le : (n : ℕ) (d : Dict K (List Record)) → (shrink n d (total d)).1 ≤ n
  unfolding shrink
  shrink-le n [] = omega arith
  shrink-le n ((k, rs) ∷ d) =
      let back : length rs + total d - length rs ≡ total d = omega arith in
      ground (arith, ap (λ (c : ℕ). shrink n d c) back, shrink-le n d)

  pub length-shrink-le : (n c : ℕ) (d : Dict K (List Record)) → length (shrink n d c).0 ≤ length d
  unfolding shrink
  length-shrink-le n c [] = omega arith
  length-shrink-le n c ((k, rs) ∷ d) = ground (arith, length-shrink-le n (c - length rs) d)

  pub shrink_small : (n c : ℕ) (d : Dict K (List Record)) → c ≤ n → shrink n d c ≡ (d, c)
  unfolding shrink
  shrink_small n c [] h = refl
  shrink_small n c ((k, rs) ∷ d) h = ground arith

module _ {K : Type 0} ⦃e : Eq K⦄ where
  pub shrink-IsDict : (n c : ℕ) (d : Dict K (List Record)) → IsDict d → IsDict (shrink n d c).0
  unfolding shrink
  shrink-IsDict n c [] u = tt
  shrink-IsDict n c ((k, rs) ∷ d) u = ground (arith, shrink-IsDict n (c - length rs) d u.1)

  pub total-put :
      (d : Dict K (List Record)) (k : K) (rs : List Record)
      → IsDict d
      → total (put d k rs) + length (or_nil (get d k)) ≡ total d + length rs
  unfolding put get
  total-put [] k rs u = omega arith
  total-put ((j, qs) ∷ d) k rs u = ground (arith, total-put d k rs u.1, e.same_iff j k)

  pub total-remove :
      (d : Dict K (List Record)) (k : K)
      → IsDict d
      → total (remove d k) + length (or_nil (get d k)) ≡ total d
  unfolding remove get
  total-remove [] k u = omega arith
  total-remove ((j, qs) ∷ d) k u =
      ground (arith, total-remove d k u.1, remove_absent d k, e.same_iff j k, u.0)

  back-total :
      (d : Dict K (List Record)) (k : K) (o : Option (List Record))
      → IsDict d
      → get d k ≡ o
      → total (back d k o) ≡ total d
  unfolding back
  back-total d k none u g = refl
  back-total d k (some rs) u g =
      ground (arith, total-append (remove d k) ((k, rs) ∷ []), total-remove d k u)

  pub total-move_to_end :
      (d : Dict K (List Record)) (k : K) → IsDict d → total (move_to_end d k) ≡ total d
  unfolding move_to_end
  total-move_to_end d k u = back-total d k (get d k) u refl
