-- ===== src/Level/Bridge.antt =====
-- `_map_level` rounds a stdlib level down.
use logquill_python.Base.{ℕ, ◌≤◌, arith}
use logquill_python.Base.Int.{pos}
use logquill_python.Level.{Level, trace, debug, info, warn, error, fatal, weight, map_level}

-- From DEBUG upwards `_map_level` returns the greatest level whose weight is at most the number:
-- its own weight is at most the number, and no level with such a weight is above it.
pub map_level-greatest :
    (n : ℕ) (l : Level)
    → 10 ≤ n
    → weight l ≤ n
    → (weight (map_level (pos n)) ≤ n) × (weight l ≤ weight (map_level (pos n)))
unfolding map_level
map_level-greatest n trace h u = ground arith
map_level-greatest n debug h u = ground arith
map_level-greatest n info h u = ground arith
map_level-greatest n warn h u = ground arith
map_level-greatest n error h u = ground arith
map_level-greatest n fatal h u = ground arith
