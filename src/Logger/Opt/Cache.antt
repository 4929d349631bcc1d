-- ===== src/Logger/Opt/Cache.antt =====
-- That the cache of views cannot be seen, and stays small.
use logquill_python.Base.{
  ◌≤◌, true, false, Option, none, some, List, [], ◌∷◌, ◌≡◌, refl, sym, ap, ◌∙◌, ltb, length, ◌==◌,
  map, arith, Result, ok, raise, Bool-cases, inl, inr,
}
use logquill_python.Dict.{get, put}
use logquill_python.Dict.Laws.{get-put, get-nil}
use logquill_python.Dict.Size.{length-put-le}
use logquill_python.Logger.Opt.{
  Key, key_eq, View, new_view, Cache, opt_cache_max, keep, look_up, opt, opt_all,
}

-- each cached view is the one that its key makes, and the cache is not over its size
pub record IsValid (cache : Cache) : Type 0 where
  pub made : (key : Key) (view : View) → get cache key ≡ some view → new_view key ≡ ok view
  pub small : length cache ≤ opt_cache_max

-- what `opt` does, without the cache
abbrev IsAsMade : Key → Cache × Result View → Type 0
IsAsMade key q = IsValid q.0 × (q.1 ≡ new_view key)

put-IsValid :
    (cache : Cache) (key : Key) (view : View)
    → IsValid cache
    → new_view key ≡ ok view
    → ltb (length cache) opt_cache_max ≡ true
    → IsValid (put cache key view)
put-IsValid cache key view v e room = record {
  made = λ k w h. elim (Bool-cases (key == k)) [
    | inl same ↦
        ap new_view (sym ((key_eq.same_iff key k).0 same))
        ∙ e
        ∙ ap ok (some_injective view w (sym (at_key k same) ∙ h))
    | inr other ↦ v.made k w (sym (off_key k other) ∙ h)
  ];
  small = ground (arith, length-put-le {0, 0} cache key view, room);
}
  where
    some_injective : (a b : View) → some a ≡ some b → a ≡ b
    some_injective a b h = cc

    at_key : (k : Key) → (key == k) ≡ true → get (put cache key view) k ≡ some view
    at_key k same = get-put cache key k view ∙ (rw same refl)

    off_key : (k : Key) → (key == k) ≡ false → get (put cache key view) k ≡ get cache k
    off_key k other = get-put cache key k view ∙ (rw other refl)

keep-IsAsMade :
    (cache : Cache) (key : Key) (made : Result View)
    → IsValid cache
    → new_view key ≡ made
    → IsAsMade key (keep cache key made)
keep-IsAsMade cache key (raise e) v h = (v, sym h)
keep-IsAsMade cache key (ok view) v h = (
  elim (Bool-cases (ltb (length cache) opt_cache_max)) [
    | inl room ↦ rw room (put-IsValid cache key view v h room)
    | inr full ↦ rw full v
  ],
  sym h,
)

look_up-IsAsMade :
    (cache : Cache) (key : Key) (found : Option View)
    → IsValid cache
    → get cache key ≡ found
    → IsAsMade key (look_up cache key found (new_view key))
look_up-IsAsMade cache key none v h = keep-IsAsMade cache key (new_view key) v refl
look_up-IsAsMade cache key (some view) v h = (v, sym (v.made key view h))

opt-IsAsMade : (cache : Cache) (key : Key) → IsValid cache → IsAsMade key (opt cache key)
unfolding opt
opt-IsAsMade cache key v = look_up-IsAsMade cache key (get cache key) v refl

pub nothing-IsValid : IsValid []
nothing-IsValid = record {
  made = λ key view h. absurd (ground (arith, get-nil {0, 0} {V = View} key));
  small = ground arith;
}

-- However often and with whatever options `opt` is called, a view has the options asked for, a
-- negative depth is refused, as if there were no cache; and the cache holds at most 32 views.
pub opt_all-eq-map :
    (cache : Cache) (keys : List Key)
    → IsValid cache
    → ((opt_all cache keys).1 ≡ map new_view keys) × IsValid (opt_all cache keys).0
unfolding opt_all
opt_all-eq-map cache [] v = (refl, v)
opt_all-eq-map cache (key ∷ keys) v =
    let (later, same) = opt-IsAsMade cache key v in
    let (views, valid) = opt_all-eq-map (opt cache key).0 keys later in
    ((λ i. same i ∷ views i), valid)
