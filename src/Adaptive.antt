-- ===== src/Adaptive.antt =====
-- `AdaptiveSamplingPlugin`, `logquill/plugins/adaptive_sampling_plugin.py`. Rates, draws and times are
-- whole millionths, a rate times 1.2 or 0.5 the whole millionths of it. The clock, the draw and the
-- size of a record are given with each call.
pub mod Budget
use logquill_python.Base.{
  ℕ, ◌+◌, ◌*◌, ◌/◌, String, string_eq, nat_eq, Bool, true, false, not, ◌&&◌, ◌||◌, Option, none,
  some, List, [], ◌∷◌, leb, ltb, ◌==◌, Result, ok, raise, Error, value_error, check, ◌>>=◌, ◌>>◌,
  if◌then◌else◌,
}
use logquill_python.Base.Int.{ℤ, pos, leb_ℤ}
use logquill_python.Dict.{get}
use logquill_python.Value.{Value, str, as_number}
use logquill_python.Level.{Level, LevelLike, parse_level, reaches, lookup_name}
use logquill_python.Records.{Record}

pub record Adaptive : Type 0 where
  pub rate : ℕ
  pub min_rate : ℕ
  pub max_rate : ℕ
  pub keep_at : Level
  pub slow_ms : ℤ
  pub max_bytes : ℕ
  pub window : ℕ
  pub window_start : ℕ
  pub demand_bytes : ℕ
  pub emitted_bytes : ℕ

-- `0.0 <= value <= 1.0`
abbrev pub is_rate : ℕ → Bool
is_rate value = leb value 1_000_000

-- `__init__` at the time that its clock shows
unfoldable pub new : ℕ → ℕ → ℕ → LevelLike → ℤ → ℕ → ℕ → ℕ → Result Adaptive
unfolding parse_level
new base_rate min_rate max_rate keep_at slow_ms max_bytes window now = do
  check (is_rate base_rate && is_rate min_rate && is_rate max_rate) value_error
  check (leb min_rate max_rate) value_error
  level ← parse_level keep_at
  ok (record {
    rate = base_rate;
    min_rate = min_rate;
    max_rate = max_rate;
    keep_at = level;
    slow_ms = slow_ms;
    max_bytes = max_bytes;
    window = window;
    window_start = now;
    demand_bytes = 0;
    emitted_bytes = 0;
  })

abbrev pub is_long : ℤ → Option ℤ → Bool
is_long slow_ms none = false
is_long slow_ms (some duration) = leb_ℤ slow_ms duration

-- a span whose duration reaches `slow_ms`
unfoldable pub is_slow_span : Adaptive → Record → Bool
is_slow_span p r = elim (get r.meta "kind") [
  | some (str kind) ↦ kind == "span" && is_long p.slow_ms (as_number (get r.meta "duration_ms"))
  | _ ↦ false
]

-- `_is_always_kept`; an unknown level raises
unfoldable pub is_always_kept : Adaptive → Record → Result Bool
unfolding lookup_name is_slow_span
is_always_kept p r = elim (lookup_name r.level) [
  | ok level ↦ ok (reaches level p.keep_at || is_slow_span p r)
  | raise e ↦ raise e
]

abbrev pub min : ℕ → ℕ → ℕ
min a b = if leb a b then a else b

abbrev pub max : ℕ → ℕ → ℕ
max a b = if leb a b then b else a

-- the rate of the next window: `demand < 0.5`, or `demand > 0.9`, of the budget
unfoldable pub next_rate : Adaptive → ℕ
next_rate p =
    if p.max_bytes == 0 || ltb (2 * p.demand_bytes) p.max_bytes
    then min (p.rate * 6 / 5) p.max_rate
    else if ltb (9 * p.max_bytes) (10 * p.demand_bytes)
    then max (p.rate / 2) p.min_rate
    else p.rate

-- `_roll_window_if_due`; the clock does not go back
unfoldable pub roll : Adaptive → ℕ → Adaptive
unfolding next_rate
roll p now =
    if ltb now (p.window_start + p.window)
    then p
    else record p { rate = next_rate p; window_start = now; demand_bytes = 0; emitted_bytes = 0 }

-- what `before_log` does with a record: a sampled one has its size beside it
pub data Decision : Type 0 where
  always : Decision
  sampled : ℕ → Decision
  dropped : Decision
  failed : Error → Decision

-- the clock, the draw and the estimated size of one call
pub record Call : Type 0 where
  pub now : ℕ
  pub draw : ℕ
  pub size : ℕ

-- behind the test of the rate
unfoldable pub spend : Adaptive → ℕ → Adaptive × Decision
spend p size =
    let asked = record p { demand_bytes = p.demand_bytes + size } in
    if ltb p.max_bytes (p.emitted_bytes + size)
    then (asked, dropped)
    else (record asked { emitted_bytes = p.emitted_bytes + size }, sampled size)

unfoldable pub decide : Adaptive → Call → Result Bool → Adaptive × Decision
unfolding spend
decide p call (raise e) = (p, failed e)
decide p call (ok true) = (p, always)
decide p call (ok false) = if leb p.rate call.draw then (p, dropped) else spend p call.size

-- `before_log`
unfoldable pub before_log : Adaptive → Call → Record → Adaptive × Decision
unfolding roll decide is_always_kept
before_log p call r = let p' = roll p call.now in decide p' call (is_always_kept p' r)

unfoldable pub run : Adaptive → List (Call × Record) → Adaptive × List Decision
unfolding before_log
run p [] = (p, [])
run p ((call, r) ∷ calls) =
    let (p', decision) = before_log p call r in
    let (p'', decisions) = run p' calls in (p'', decision ∷ decisions)
