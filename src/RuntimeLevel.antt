-- ===== src/RuntimeLevel.antt =====
-- Changing a level while the program runs, `logquill/runtime/runtime_level.py`: the handler of a signal
-- and one poll of a watcher. What the environment or the file holds is given with each reading.
pub mod Polls
use Prim.Native.Char.{code}
use Prim.Native.String as Native
use logquill_python.Base.{
  String, string_eq, Bool, true, false, ◌&&◌, Option, none, some, List, [], ◌∷◌, ◌==◌, Result, ok,
  raise, if◌then◌else◌,
}
use logquill_python.Level.{Level, LevelLike, parse_level}
use logquill_python.Logfmt.Chars.{is_space}

unfoldable pub strip_left : String → String
unfolding is_space
strip_left String.[] = String.[]
strip_left (String.◌∷◌ c text) =
    let rest = strip_left text in if is_space (code c) then rest else String.◌∷◌ c text

unfoldable pub strip_right : String → String
unfolding is_space
strip_right String.[] = String.[]
strip_right (String.◌∷◌ c text) =
    let rest = strip_right text in
    if is_space (code c) && rest == "" then rest else String.◌∷◌ c rest

-- `str.strip`
unfoldable pub strip : String → String
unfolding strip_left strip_right
strip text = strip_right (strip_left text)

-- `logger.set_level(value)`, with the errors that are caught
abbrev pub set_or_keep : Level → Result Level → Level
set_or_keep level (ok l) = l
set_or_keep level (raise e) = level

-- `_apply_level`: the level after it
unfoldable pub apply_level : Level → Option String → Level
unfolding parse_level strip
apply_level level none = level
apply_level level (some raw) =
    let value = strip raw in
    if value == "" then level else set_or_keep level (parse_level (LevelLike.text value))

-- `_PollingLevelWatcher` and the level of its logger
pub record Watcher : Type 0 where
  pub level : Level
  pub last_seen : Option String

-- `raw != last_seen`
abbrev pub same_reading : Option String → Option String → Bool
same_reading none none = true
same_reading (some a) (some b) = a == b
same_reading _ _ = false

-- `poll_once`, with what `read` returned
unfoldable pub poll_once : Watcher → Option String → Watcher
unfolding apply_level
poll_once w raw =
    if same_reading raw w.last_seen
    then w
    else record { level = apply_level w.level raw; last_seen = raw }

-- the rounds of `_run`
unfoldable pub poll_all : Watcher → List (Option String) → Watcher
unfolding poll_once
poll_all w [] = w
poll_all w (raw ∷ readings) = poll_all (poll_once w raw) readings
