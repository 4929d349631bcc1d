-- ===== src/Logger/Opt.antt =====
-- The views of a logger: `opt` of `logquill/core/logger.py` with its cache, and `OptLogger.__init__` of
-- `logquill/core/opt.py`. A view is what it was made with.
pub mod Cache
use logquill_python.Base.{
  ℕ, Bool, true, false, Option, none, some, List, [], ◌∷◌, ltb, length, Eq, dec_beq, dec_beq_iff,
  Result, ok, raise, value_error, Error, if◌then◌else◌,
}
use logquill_python.Base.Int.{ℤ, pos, negsuc, ℤ-discrete}
use logquill_python.Dict.{Dict, get, put}

-- `(lazy, depth)`
abbrev pub Key : Type 0
Key = Bool × Option ℤ

pub Key-discrete : Discrete Key
Key-discrete = hlevel ℤ-discrete

instance unfoldable pub key_eq : Eq Key
unfolding Key-discrete
key_eq = record { same_iff = dec_beq_iff Key-discrete; same = dec_beq Key-discrete }

-- `OptLogger`
pub record View : Type 0 where
  pub lazy : Bool
  pub depth : Option ℤ

-- `OptLogger.__init__`
unfoldable pub new_view : Key → Result View
new_view (lazy, none) = ok (record { lazy = lazy; depth = none })
new_view (lazy, some (pos n)) = ok (record { lazy = lazy; depth = some (pos n) })
new_view (lazy, some (negsuc n)) = raise value_error

abbrev pub Cache : Type 0
Cache = Dict Key View

-- `_OPT_CACHE_MAX`
abbrev pub opt_cache_max : ℕ
opt_cache_max = 32

abbrev pub keep : Cache → Key → Result View → Cache × Result View
keep cache key (raise e) = (cache, raise e)
keep cache key (ok view) =
    (if ltb (length cache) opt_cache_max then put cache key view else cache, ok view)

abbrev pub look_up : Cache → Key → Option View → Result View → Cache × Result View
look_up cache key (some view) made = (cache, ok view)
look_up cache key none made = keep cache key made

-- `opt`
unfoldable pub opt : Cache → Key → Cache × Result View
unfolding new_view
opt cache key = look_up cache key (get cache key) (new_view key)

unfoldable pub opt_all : Cache → List Key → Cache × List (Result View)
unfolding opt
opt_all cache [] = (cache, [])
opt_all cache (key ∷ keys) =
    let (cache', view) = opt cache key in
    let (cache'', views) = opt_all cache' keys in (cache'', view ∷ views)
