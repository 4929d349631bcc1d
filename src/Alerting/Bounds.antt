-- ===== src/Alerting/Bounds.antt =====
-- The windows stay bounded, and every alert is for a record at the threshold.
use mathlib.Core.Path.{subst}
use logquill_python.Base.{
  ◌+◌, ◌≤◌, String, string_eq, Bool, true, false, Option, none, some, List, [], ◌∷◌, ◌≡◌, refl, sym,
  ◌∙◌, length, leb, Result, ok, raise, if◌then◌else◌, arith, tests, All, All-append, Bool-cases,
  Result-cases, inl, inr, ◌==◌, if_both,
}
use logquill_python.Dict.{get, put, IsDict}
use logquill_python.Dict.Laws.{get-put, get-remove, get-nil}
use logquill_python.Dict.Size.{
  put-IsDict, remove-IsDict, length-put_new, length-put_old, length-remove-le,
}
use logquill_python.Level.{Level, below, lookup_name}
use logquill_python.Records.{Record}
use logquill_python.Alerting.{
  WindowOf, Alerting, Alert, by_window, at_threshold, after_log, follow_up, flush, close, Event,
  logged, timer_ended, closing, or_same, step, run,
}

-- A record that the threshold lets through.
pub record IsDue (threshold : Level) (r : Record) : Type 0 where
  pub level : Level
  pub known : lookup_name r.level ≡ ok level
  pub high : below level threshold ≡ false

pub record IsValid (a : Alerting) : Type 0 where
  pub bounded : length a.windows ≤ a.max_tracked_keys
  pub distinct : IsDict a.windows
  pub open_windows :
      (k : String) (w : WindowOf)
      → get a.windows k ≡ some w
      → (1 ≤ w.count) × IsDue a.threshold w.entry

-- An alert is for at least one record, and its record is due.
abbrev pub IsFair : Level → Alert → Type 0
IsFair threshold (r, n) = (1 ≤ n) × IsDue threshold r

Keeps : Alerting → Alerting × List Alert → Type 0
Keeps a (a', alerts) = IsValid a' × (a'.threshold ≡ a.threshold) × All (IsFair a.threshold) alerts

module _ (a : Alerting) (v : IsValid a) where
  put_window :
      (key : String) (w : WindowOf)
      → length (put a.windows key w) ≤ a.max_tracked_keys
      → 1 ≤ w.count
      → IsDue a.threshold w.entry
      → IsValid (record a { windows = put a.windows key w })
  put_window key w few one due = record {
    bounded = few;
    distinct = put-IsDict a.windows key w v.distinct;
    open_windows = λ k u h. of_key k u (key == k) (sym (get-put a.windows key k w) ∙ h);
  }
    where
      of_key :
          (k : String) (u : WindowOf) (same : Bool)
          → (if same then some w else get a.windows k) ≡ some u
          → (1 ≤ u.count) × IsDue a.threshold u.entry
      of_key k u true h =
          let same : w ≡ u = cc in
          subst (λ (x : WindowOf). (1 ≤ x.count) × IsDue a.threshold x.entry) same (one, due)
      of_key k u false h = v.open_windows k u h

  by_window-Keeps :
      (key : String) (r : Record) (o : Option WindowOf)
      → get a.windows key ≡ o
      → IsDue a.threshold r
      → Keeps a (by_window a key r o)
  unfolding Keeps by_window
  by_window-Keeps key r (some w) e due =
      let next = record w { count = w.count + 1 } in
      (
        put_window key next (omega (arith, v.bounded, length-put_old a.windows key next w e))
            (omega arith) (v.open_windows key w e).1,
        refl,
        tt,
      )
  by_window-Keeps key r none e due =
      let first : WindowOf = record { entry = r; count = 1 } in
      elim (Bool-cases (leb a.max_tracked_keys (length a.windows))) [
        | inl full ↦ rw full (v, refl, tt)
        | inr room ↦ rw room (
          put_window key first (omega (tests, room, length-put_new a.windows key first e))
              (omega arith) due,
          refl,
          ((omega arith, due), tt),
        )
      ]

  follow_up-IsFair :
      (key : String) (o : Option WindowOf)
      → get a.windows key ≡ o
      → All (IsFair a.threshold) (follow_up o)
  unfolding follow_up
  follow_up-IsFair key none e = tt
  follow_up-IsFair key (some w) e =
      if_both (All (IsFair a.threshold)) (leb w.count 1) tt (v.open_windows key w e, tt)

  flush-Keeps : (key : String) → Keeps a (flush a key)
  unfolding Keeps flush
  flush-Keeps key = (
    record {
      bounded = omega (arith, v.bounded, length-remove-le a.windows key);
      distinct = remove-IsDict a.windows key v.distinct;
      open_windows = λ k u h. left k u (key == k) (sym (get-remove a.windows key k) ∙ h);
    },
    refl,
    follow_up-IsFair key (get a.windows key) refl,
  )
    where
      left :
          (k : String) (u : WindowOf) (same : Bool)
          → (if same then none else get a.windows k) ≡ some u
          → (1 ≤ u.count) × IsDue a.threshold u.entry
      left k u true h = cc
      left k u false h = v.open_windows k u h

  close-Keeps : Keeps a (close a, [])
  unfolding Keeps close
  close-Keeps = (
    record {
      bounded = omega arith;
      distinct = tt;
      open_windows = λ k u h. absurd (not_there k u (sym (get-nil k) ∙ h));
    },
    refl,
    tt,
  )
    where
      not_there : (k : String) (u : WindowOf) → none ≡ some u → ⊥
      not_there k u h = cc

  at_threshold-Keeps :
      (r : Record) (key : Result String)
      → IsDue a.threshold r
      → Keeps a (or_same a (at_threshold a r key))
  unfolding at_threshold Keeps
  at_threshold-Keeps r (ok key) due = by_window-Keeps key r (get a.windows key) refl due
  at_threshold-Keeps r (raise e) due = (v, refl, tt)

  after_log-Keeps :
      (dedupe_key : Record → Result String) (r : Record)
      → Keeps a (or_same a (after_log dedupe_key a r))
  unfolding after_log Keeps
  after_log-Keeps dedupe_key r = elim (Result-cases (lookup_name r.level)) [
    | inl (l, known) ↦
        rw (known, or_same)
          (elim (Bool-cases (below l a.threshold)) [
            | inl low ↦ rw low (v, refl, tt)
            | inr high ↦ rw high (
                at_threshold-Keeps r (dedupe_key r)
                  (record { level = l; known = known; high = high }))
          ])
    | inr (e, unknown) ↦ rw (unknown, or_same) (v, refl, tt)
  ]

  step-Keeps : (dedupe_key : Record → Result String) (e : Event) → Keeps a (step dedupe_key a e)
  unfolding step
  step-Keeps dedupe_key (logged r) = after_log-Keeps dedupe_key r
  step-Keeps dedupe_key (timer_ended key) = flush-Keeps key
  step-Keeps dedupe_key closing = close-Keeps

-- From a valid plugin, whatever is logged, whenever the timers end: at most `max_tracked_keys`
-- windows are open, one for a key, and every alert stands for at least one occurrence and shows a
-- record at the threshold or above.
pub run-Keeps :
    (dedupe_key : Record → Result String) (a : Alerting) (events : List Event)
    → IsValid a
    → let (a', alerts) = run dedupe_key a events in
      IsValid a' × (a'.threshold ≡ a.threshold) × All (IsFair a.threshold) alerts
unfolding run Keeps
run-Keeps dedupe_key a [] v = (v, refl, tt)
run-Keeps dedupe_key a (e ∷ events) v =
    let (v1, same, fair) = step-Keeps a v dedupe_key e in
    let (v2, same', fair') = run-Keeps dedupe_key (step dedupe_key a e).0 events v1 in
    (
      v2,
      same' ∙ same,
      All-append (IsFair a.threshold) _ _ fair (
          subst (λ l. All (IsFair l) (run dedupe_key (step dedupe_key a e).0 events).1) same fair'),
    )
