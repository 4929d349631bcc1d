-- ===== src/RunSummary/Totals.antt =====
-- The summary of a run.
use logquill_python.Base.{
  ◌+◌, ◌≤◌, String, string_eq, Bool, true, false, Option, none, some, List, [], ◌∷◌, ◌++◌, ◌≡◌,
  refl, ap, ◌∙◌, map, length, leb, tests, All, ok, Error, contains, beq_self, append-nil,
  if◌then◌else◌,
}
use logquill_python.Dict.{Dict, get, put, remove, move_to_end}
use logquill_python.Dict.Laws.{get-put_self, get-remove}
use logquill_python.Value.{Value, present, value_eq, is_hashable}
use logquill_python.Level.{Level, lookup_name}
use logquill_python.Records.{Record}
use logquill_python.TailBuffer.Trail.{pairs, write_all-pairs}
use logquill_python.RunSummary.{
  Stats, no_stats, RunSummary, is_root_span, add_record, with_root, summary, written, count, start,
  of_run, after_log, run,
}
use logquill_python.RunSummary.Written.{own_keys, IsSummary, total-IsSummary}
use logquill_python.RunSummary.Sums.{IsTotal, nothing_more, add_record-IsTotal}

abbrev pub or_new : Option Stats → Stats
or_new none = no_stats
or_new (some s) = s

-- A record of the run with a level, that is or is not its outermost span.
abbrev pub IsOf : RunSummary → Value → Bool → Record → Type 0
IsOf p k root r =
    (present (get r.meta p.run_key) ≡ some k)
    × (is_root_span r.meta ≡ root)
    × ((l : Level) × (lookup_name r.level ≡ ok l))

module _ {T : Type 0} (fails : T → Record → Bool) (transports : List T) (now : String) where
  -- the state of the plugin with other totals
  Continues : RunSummary → Value → Stats → Option Error × List (T × Record) × RunSummary → Type 0
  Continues p k s h =
      (d : Dict Value Stats) × (h ≡ (none, [], record p { stats = d })) × (get d k ≡ some s)

  count-inner :
      (p : RunSummary) (k : Value) (r : Record) (l : Level) (d : Dict Value Stats) (s : Stats)
      → lookup_name r.level ≡ ok l
      → is_root_span r.meta ≡ false
      → Continues p k (add_record s r l) (count fails transports p now r k d s)
  unfolding Continues count
  count-inner p k r l d s named inner = (
    put d k (add_record s r l),
    rw (named, count, inner) refl,
    get-put_self d k (add_record s r l),
  )

  Closes :
      RunSummary → Value → Record → Stats → Option Error × List (T × Record) × RunSummary → Type 0
  Closes p k r s h =
      (d : Dict Value Stats) × (h ≡ (
        none,
        pairs transports (summary p now k (with_root s r.meta) ∷ []),
        record p { stats = d },
      ))
      × (get d k ≡ none)

  count-root :
      (p : RunSummary) (k : Value) (r : Record) (l : Level) (d : Dict Value Stats) (s : Stats)
      → ((t : T) (u : Record) → fails t u ≡ false)
      → lookup_name r.level ≡ ok l
      → is_root_span r.meta ≡ true
      → Closes p k r (add_record s r l) (count fails transports p now r k d s)
  unfolding Closes count written
  count-root p k r l d s works named root = (
    remove d k,
    rw (named, count, root)
        (ap (written fails transports (record p { stats = remove d k })) (
          write_all-pairs fails works transports
            (summary p now k (with_root (add_record s r l) r.meta) ∷ []))),
    get-remove d k k ∙ rw (beq_self k) refl,
  )

  module _ (p : RunSummary) (k : Value) (r : Record) (room : 1 ≤ p.max_runs)
      (Q : Option Error × List (T × Record) × RunSummary → Type 0) where
    start-all :
        (d : Dict Value Stats)
        → ((d' : Dict Value Stats) → Q (count fails transports p now r k d' no_stats))
        → Q (start fails transports p now r k d)
    unfolding start
    start-all [] q =
        let positive : leb p.max_runs 0 ≡ false = omega (tests, room) in
        rw positive (q (put [] k no_stats))
    start-all (oldest ∷ rest) q =
        q (put (if leb p.max_runs (length rest + 1) then rest else oldest ∷ rest) k no_stats)

    of_run-all :
        (o : Option Stats)
        → ((d : Dict Value Stats) → Q (count fails transports p now r k d (or_new o)))
        → Q (of_run fails transports p now r k o)
    unfolding of_run
    of_run-all none q = start-all p.stats q
    of_run-all (some s) q = q (move_to_end p.stats k)

    after_log-all :
        (o : Option Stats)
        → is_hashable k ≡ true
        → present (get r.meta p.run_key) ≡ some k
        → get p.stats k ≡ o
        → ((d : Dict Value Stats) → Q (count fails transports p now r k d (or_new o)))
        → Q (after_log fails transports p now r)
    unfolding after_log
    after_log-all o hash id e q = rw (id, after_log, hash, e) (of_run-all o q)

  -- what a closed run leaves
  IsClosed : RunSummary → Value → Stats → List Record → Record → Type 0
  IsClosed p k s rs e =
      (s' : Stats) × (p' : RunSummary) × (run fails transports p now (rs ++ e ∷ []) ≡ (
        map (λ _. none) (rs ++ e ∷ []),
        pairs transports (summary p now k (with_root s' e.meta) ∷ []),
        p',
      ))
      × IsTotal s (rs ++ e ∷ []) s'
      × (get p'.stats k ≡ none)

  run-IsClosed :
      (p : RunSummary) (k : Value) (o : Option Stats) (rs : List Record) (e : Record)
      → ((t : T) (u : Record) → fails t u ≡ false)
      → is_hashable k ≡ true
      → 1 ≤ p.max_runs
      → get p.stats k ≡ o
      → All (IsOf p k false) rs
      → IsOf p k true e
      → IsClosed p k (or_new o) rs e
  unfolding run IsClosed Continues Closes summary
  run-IsClosed p k o [] e works hash room there low (id, root, (l, named)) =
      let (d, step, gone) =
        after_log-all p k e room (Closes p k e (add_record (or_new o) e l)) o hash id there
          (λ d. count-root p k e l d (or_new o) works named root) in
      (
        add_record (or_new o) e l,
        record p { stats = d },
        rw step (ap (λ w. (none ∷ [], w, record p { stats = d })) (append-nil _)),
        add_record-IsTotal (or_new o) e l [] (add_record (or_new o) e l) named
            (nothing_more (add_record (or_new o) e l)),
        gone,
      )
  run-IsClosed p k o (r ∷ rs) e works hash room there ((id, inner, (l, named)), low) high =
      let (d, step, counted) =
        after_log-all p k r room (Continues p k (add_record (or_new o) r l)) o hash id there
          (λ d. count-inner p k r l d (or_new o) named inner) in
      let (s', p', rest, total, gone) =
        run-IsClosed (record p { stats = d }) k (some (add_record (or_new o) r l)) rs e works hash
          room counted low high in
      (
        s',
        p',
        rw (step, rest) refl,
        add_record-IsTotal (or_new o) r l (rs ++ e ∷ []) s' named total,
        gone,
      )

  -- When the outermost span of a run closes, one record is written to each transport, which is the
  -- summary of the run (`IsSummary`), and the run is forgotten; nothing is written or raised before.
  -- Its tokens, cost and retries are the sums over all records of the run, its tool calls, errors and
  -- records are counted, and its duration and its parent are those of the span. The run is new to
  -- the plugin, all records are of the run and name a level, no write fails, and the key of run ids
  -- is none of the summary's own keys.
  pub run-writes-IsSummary :
      (p : RunSummary) (k : Value) (rs : List Record) (e : Record)
      → ((t : T) (u : Record) → fails t u ≡ false)
      → is_hashable k ≡ true
      → 1 ≤ p.max_runs
      → contains own_keys p.run_key ≡ false
      → get p.stats k ≡ none
      → All (IsOf p k false) rs
      → IsOf p k true e
      → (u : Record) × (p' : RunSummary) × (run fails transports p now (rs ++ e ∷ [])
          ≡ (map (λ _. none) (rs ++ e ∷ []), pairs transports (u ∷ []), p'))
        × IsSummary p now k rs e u
        × (get p'.stats k ≡ none)
  unfolding IsClosed
  run-writes-IsSummary p k rs e works hash room other new low high =
      let (s, p', same, total, gone) = run-IsClosed p k none rs e works hash room new low high in
      (
        summary p now k (with_root s e.meta),
        p',
        same,
        total-IsSummary p now k rs e s other total,
        gone,
      )
