-- ===== src/Tests/Windows.antt =====
-- Runs of the rate limit, the retry counts, the alerts and the switches by name.
use Prim.Native.Nat.{min}
use logquill_python.Base.{
  ℕ, String, string_eq, pair_eq, true, false, none, some, List, [], ◌∷◌, ◌≡◌, refl, arith, ok, All,
  contains, Result,
}
use logquill_python.Base.Text.{codes, codes_eq}
use logquill_python.Dict.{get}
use logquill_python.Level.{error}
use logquill_python.Records.{Record}
use logquill_python.RateLimit.{RateLimit, WindowOf}
use logquill_python.RateLimit.Window.{Fits, passes, occurrences, passes-eq-min}
use logquill_python.RateLimit.Bounds.{IsValid as IsWithin}
use logquill_python.Retry.{
  Tracker, Event, open_call, close_call, subject, CallKey, call_eq, opened_key, succeeded_key,
}
use logquill_python.Retry
use logquill_python.Retry.Counts.{counts_of, run-counts_of}
use logquill_python.Toggle.{Rules, is_enabled}
use logquill_python.Toggle.Specific.{Verdict, is_enabled-Verdict}
use logquill_python.Alerting.{Alerting, Alert}
use logquill_python.Alerting
use logquill_python.Alerting.Bounds.{IsFair, run-Keeps}

abbrev limit : RateLimit String
limit = record { max_records = 2; per_seconds = 10; max_keys = 3; windows = [] }

abbrev keys : List String
keys = "a" ∷ "b" ∷ []

abbrev calls : List (String × ℕ)
calls = ("b", 1) ∷ ("a", 2) ∷ ("a", 3) ∷ []

nothing_open : (j : String) → contains keys j ≡ false → get limit.windows j ≡ none
unfolding get
nothing_open j h = refl

limit-Fits : Fits keys limit
limit-Fits = record { room = omega arith; distinct = tt; known = nothing_open }

passes-eq-min_example :
    passes limit "a" (("a", 0) ∷ calls) ≡ min (occurrences "a" (("a", 0) ∷ calls)) 2
passes-eq-min_example =
    passes-eq-min keys limit "a" 0 calls (omega arith) limit-Fits refl (unfold get in refl)
      ((refl, omega arith), ((refl, omega arith), ((refl, omega arith), tt)))

abbrev line : String → Record
line level = record {
  schema_version = "2.0";
  timestamp = "2026-01-01T00:00:00+00:00";
  level = level;
  logger = "app";
  message = "m";
  meta = [];
  llm = none;
}

abbrev by_default : RateLimit (String × String)
by_default = record { max_records = 2; per_seconds = 10; max_keys = 3; windows = [] }

by_default-IsValid : IsWithin by_default
by_default-IsValid = record {
  positive = omega arith;
  bounded = omega arith;
  distinct = tt;
  counts = λ k w h. absurd (no_window k w (unfold get in h));
}
  where
    no_window : (k : String × String) (w : WindowOf) → none ≡ some w → ⊥
    no_window k w h = cc

abbrev tracker : Tracker
tracker = record { max_entries = 2; attempts = [] }

tracker-new : Retry.new 2 ≡ ok tracker
unfolding Retry.new
tracker-new = refl

abbrev search_call : CallKey
search_call = ("", ("search", ""))

abbrev fetch_call : CallKey
fetch_call = ("", ("fetch", "1"))

abbrev attempts : List Event
attempts =
    open_call search_call
    ∷ open_call fetch_call
    ∷ open_call search_call
    ∷ close_call search_call
    ∷ open_call search_call
    ∷ []

All-known :
    All (λ e. contains ⦃e = call_eq⦄ (search_call ∷ fetch_call ∷ []) (subject e) ≡ true) attempts
unfolding call_eq
All-known = (refl, (refl, (refl, (refl, (refl, tt)))))

run-counts_of_example : (Retry.run tracker attempts).0 ≡ counts_of [] attempts
run-counts_of_example =
    run-counts_of 2 (search_call ∷ fetch_call ∷ []) attempts tracker-new (omega arith) All-known

abbrev rules : Rules
rules = (codes "lib", false) ∷ (codes "lib.http", true) ∷ []

is_enabled-Verdict_example :
    Verdict rules (codes "lib.http.pool") (is_enabled rules (codes "lib.http.pool"))
is_enabled-Verdict_example = is_enabled-Verdict rules (codes "lib.http.pool")

abbrev alerting : Alerting
alerting = record { threshold = error; max_tracked_keys = 2; windows = [] }

alerting-IsValid : Alerting.Bounds.IsValid alerting
alerting-IsValid = record {
  bounded = omega arith;
  distinct = tt;
  open_windows = λ k w h. absurd (no_window k w (unfold get in h));
}
  where
    no_window : (k : String) (w : Alerting.WindowOf) → none ≡ some w → ⊥
    no_window k w h = cc

abbrev by_message : Record → Result String
by_message r = ok r.message

abbrev events : List Alerting.Event
events =
    Alerting.logged (line "ERROR")
    ∷ Alerting.logged (line "INFO")
    ∷ Alerting.logged (line "FATAL")
    ∷ Alerting.timer_ended "m"
    ∷ []

run-Keeps_example :
    let (a, alerts) = Alerting.run by_message alerting events in
    Alerting.Bounds.IsValid a × (a.threshold ≡ error) × All (IsFair error) alerts
run-Keeps_example = run-Keeps by_message alerting events alerting-IsValid
