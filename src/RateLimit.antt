-- ===== src/RateLimit.antt =====
-- `RateLimitPlugin`, `logquill/plugins/rate_limit_plugin.py`. Times are whole ticks of the
-- injected clock, and `key_func` and the clock's reading are arguments.
pub mod Bounds
pub mod Window
use logquill_python.Base.{
  ℕ, suc, ◌+◌, String, Bool, Option, none, some, List, [], ◌∷◌, ltb, leb, Eq, if◌then◌else◌, Result,
  ok, raise, value_error, check, ◌>>=◌, ◌>>◌,
}
use logquill_python.Dict.{Dict, get, put, move_to_end, trim}
use logquill_python.Records.{Record}

-- (window_start, count_in_window)
abbrev pub WindowOf : Type 0
WindowOf = ℕ × ℕ

pub record RateLimit (K : Type 0) : Type 0 where
  pub max_records : ℕ
  pub per_seconds : ℕ
  pub max_keys : ℕ
  pub windows : Dict K WindowOf

-- `_default_key`
unfoldable pub default_key : Record → String × String
default_key r = (r.logger, r.level)

unfoldable pub new : {K : Type 0} → ℕ → ℕ → ℕ → Result (RateLimit K)
new max_records per_seconds max_keys = do
  check (leb 1 max_records) value_error
  check (ltb 0 per_seconds) value_error
  ok (record {
    max_records = max_records;
    per_seconds = per_seconds;
    max_keys = max_keys;
    windows = [];
  })

module _ {K : Type 0} ⦃e : Eq K⦄ where
  -- a fresh window for the key, and eviction
  unfoldable pub open_window : RateLimit K → K → ℕ → RateLimit K
  open_window p key now = record p {
    windows = trim p.max_keys (move_to_end (put p.windows key (now, 1)) key);
  }

  -- another record in the open window `w`: whether it passes
  unfoldable pub count_in : RateLimit K → K → WindowOf → Bool × RateLimit K
  count_in p key (start, count) =
      let moved = move_to_end p.windows key in
      if leb p.max_records count
      then (Bool.false, record p { windows = moved })
      else (Bool.true, record p { windows = put moved key (start, count + 1) })

  in_window : RateLimit K → K → ℕ → WindowOf → Bool × RateLimit K
  unfolding open_window count_in
  in_window p key now (start, count) =
      if leb (start + p.per_seconds) now
      then (Bool.true, open_window p key now)
      else count_in p key (start, count)

  -- whether the record with this key passes, and the state after it
  unfoldable pub admit : RateLimit K → K → ℕ → Bool × RateLimit K
  unfolding open_window count_in in_window
  admit p key now = elim (get p.windows key) [
    | none ↦ (Bool.true, open_window p key now)
    | some w ↦ in_window p key now w
  ]

  unfoldable pub before_log : (Record → K) → RateLimit K → ℕ → Record → Option Record × RateLimit K
  before_log key_func p now r =
      let (passes, p') = admit p (key_func r) now in (if passes then some r else none, p')
