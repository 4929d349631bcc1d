-- ===== src/RuntimeLevel/Polls.antt =====
-- That skipping a reading which is the last one again changes nothing.
use logquill_python.Base.{
  String, string_eq, true, Option, none, some, List, [], ◌∷◌, ◌≡◌, refl, sym, ap, ◌∙◌, ◌==◌, Result,
  ok, raise, arith, Bool-cases, inl, inr,
}
use logquill_python.Level.{Level, LevelLike, parse_level}
use logquill_python.RuntimeLevel.{
  strip, set_or_keep, apply_level, Watcher, same_reading, poll_once, poll_all,
}

-- every reading applied, with no memory of the last one
abbrev pub apply_all : Level → List (Option String) → Level
apply_all level [] = level
apply_all level (raw ∷ readings) = apply_all (apply_level level raw) readings

set_twice : (l : Level) (r : Result Level) → set_or_keep (set_or_keep l r) r ≡ set_or_keep l r
set_twice l (ok k) = refl
set_twice l (raise e) = refl

apply_twice :
    (l : Level) (raw : Option String) → apply_level (apply_level l raw) raw ≡ apply_level l raw
unfolding apply_level
apply_twice l none = refl
apply_twice l (some raw) = elim (Bool-cases (strip raw == "")) [
  | inl e ↦ rw e refl
  | inr e ↦ rw e (set_twice l (parse_level (LevelLike.text (strip raw))))
]

same_reading-eq : (a b : Option String) → same_reading a b ≡ true → a ≡ b
same_reading-eq none none h = refl
same_reading-eq none (some b) h = absurd (ground arith)
same_reading-eq (some a) none h = absurd (ground arith)
same_reading-eq (some a) (some b) h = ap some ((string_eq.same_iff a b).0 h)

-- the level is that of the last reading, applied again
abbrev pub IsSettled : Watcher → Type 0
IsSettled w = apply_level w.level w.last_seen ≡ w.level

poll_once-IsSettled :
    (w : Watcher) (raw : Option String)
    → IsSettled w
    → ((poll_once w raw).level ≡ apply_level w.level raw) × IsSettled (poll_once w raw)
unfolding poll_once
poll_once-IsSettled w raw h = elim (Bool-cases (same_reading raw w.last_seen)) [
  | inl e ↦ rw e (sym h ∙ ap (apply_level w.level) (sym (same_reading-eq raw w.last_seen e)), h)
  | inr e ↦ rw e (refl, apply_twice w.level raw)
]

-- A watcher that has seen nothing, or whose level is that of its last reading, gives its logger after
-- any polls the level that applying every reading would give, where nothing else sets the level: a
-- missing, empty or unknown text leaves it as it is.
pub poll_all-eq-apply_all :
    (w : Watcher) (readings : List (Option String))
    → IsSettled w
    → (poll_all w readings).level ≡ apply_all w.level readings
unfolding poll_all
poll_all-eq-apply_all w [] h = refl
poll_all-eq-apply_all w (raw ∷ readings) h =
    let (e, later) = poll_once-IsSettled w raw h in
    poll_all-eq-apply_all (poll_once w raw) readings later
    ∙ ap (λ (l : Level). apply_all l readings) e
