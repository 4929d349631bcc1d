-- ===== src/Dict/Size.antt =====
-- The number of entries after each operation, and that no key comes to stand twice.
use mathlib.Core.List.{[], ◌∷◌, ◌++◌}
use logquill_python.Base.{◌+◌, ◌≤◌, Option, none, some, ◌≡◌, refl, Eq, arith, length, length-append}
use logquill_python.Dict.{Dict, get, put, remove, back, move_to_end, drop_first, IsDict}
use logquill_python.Dict.Laws.{get-nil, get-put, get-remove, get-append}

module _ {ℓ κ} {K : Type ℓ} {V : Type κ} ⦃e : Eq K⦄ where
  pub length-put_new :
      (d : Dict K V) (k : K) (v : V) → get d k ≡ none → length (put d k v) ≡ length d + 1
  unfolding get put
  length-put_new [] k v h = omega arith
  length-put_new ((j, w) ∷ d) k v h = ground (arith, length-put_new d k v)

  pub length-put_old :
      (d : Dict K V) (k : K) (v w : V) → get d k ≡ some w → length (put d k v) ≡ length d
  unfolding get put
  length-put_old [] k v w h = absurd (ground arith)
  length-put_old ((j, x) ∷ d) k v w h = ground (arith, length-put_old d k v w)

  pub length-put-le : (d : Dict K V) (k : K) (v : V) → length (put d k v) ≤ length d + 1
  unfolding put
  length-put-le [] k v = omega arith
  length-put-le ((j, x) ∷ d) k v = ground (arith, length-put-le d k v)

  pub remove_absent : (d : Dict K V) (k : K) → get d k ≡ none → remove d k ≡ d
  unfolding get remove
  remove_absent [] k h = refl
  remove_absent ((j, w) ∷ d) k h = ground (arith, remove_absent d k)

  pub length-remove :
      (d : Dict K V) (k : K) (v : V)
      → IsDict d
      → get d k ≡ some v
      → length (remove d k) + 1 ≡ length d
  unfolding get remove
  length-remove [] k v u h = absurd (ground arith)
  length-remove ((j, w) ∷ d) k v u h =
      ground (arith, length-remove d k v u.1, remove_absent d k, e.same_iff j k)

  pub length-remove-le : (d : Dict K V) (k : K) → length (remove d k) ≤ length d
  unfolding remove
  length-remove-le [] k = omega arith
  length-remove-le ((j, w) ∷ d) k = ground (arith, length-remove-le d k)

  pub put-IsDict : (d : Dict K V) (k : K) (v : V) → IsDict d → IsDict (put d k v)
  unfolding put
  put-IsDict [] k v u = (get-nil k, tt)
  put-IsDict ((j, w) ∷ d) k v u =
      ground (arith, put-IsDict d k v u.1, get-put d k j v, e.same_iff j k, e.same_iff k j)

  pub remove-IsDict : (d : Dict K V) (k : K) → IsDict d → IsDict (remove d k)
  unfolding remove
  remove-IsDict [] k u = tt
  remove-IsDict ((j, w) ∷ d) k u = ground (arith, remove-IsDict d k u.1, get-remove d k j)

  append-IsDict :
      (d : Dict K V) (k : K) (v : V) → IsDict d → get d k ≡ none → IsDict (d ++ (k, v) ∷ [])
  unfolding get
  append-IsDict [] k v u h = (refl, tt)
  append-IsDict ((j, w) ∷ d) k v u h =
      ground (
        arith,
        append-IsDict d k v u.1,
        get-append d ((k, v) ∷ []) j,
        e.same_iff j k,
        e.same_iff k j,
      )

  back-IsDict : (d : Dict K V) (k : K) (o : Option V) → IsDict d → IsDict (back d k o)
  unfolding back
  back-IsDict d k none u = u
  back-IsDict d k (some v) u =
      append-IsDict (remove d k) k v (remove-IsDict d k u)
        (ground (arith, get-remove d k k, e.same_iff k k))

  pub move_to_end-IsDict : (d : Dict K V) (k : K) → IsDict d → IsDict (move_to_end d k)
  unfolding move_to_end
  move_to_end-IsDict d k u = back-IsDict d k (get d k) u

  length-back :
      (d : Dict K V) (k : K) (o : Option V)
      → IsDict d
      → get d k ≡ o
      → length (back d k o) ≡ length d
  unfolding back
  length-back d k none u h = refl
  length-back d k (some v) u h =
      omega (arith, length-remove d k v u h, length-append {ℓ ⊔ κ} (remove d k) ((k, v) ∷ []))

  pub length-move_to_end : (d : Dict K V) (k : K) → IsDict d → length (move_to_end d k) ≡ length d
  unfolding move_to_end
  length-move_to_end d k u = length-back d k (get d k) u refl

  drop_first-IsDict : (d : Dict K V) → IsDict d → IsDict (drop_first d)
  drop_first-IsDict [] u = tt
  drop_first-IsDict (x ∷ d) u = u.1
