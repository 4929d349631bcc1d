-- ===== src/RunSummary/Written.antt =====
-- The summary record of a run, entry by entry.
use logquill_python.Base.{
  ℕ, String, string_eq, Bool, false, Option, none, some, List, [], ◌∷◌, ◌++◌, ◌≡◌, refl, ap, ◌∙◌,
  length, contains, All, arith, ◌==◌, inl, inr, Bool-cases, beq_self, if◌then◌else◌,
}
use logquill_python.Base.Int.{ℤ, pos}
use logquill_python.Dict.{get, put, update}
use logquill_python.Dict.Laws.{get-put}
use logquill_python.Value.{Value, str, int, float, Meta, value_eq, as_int, as_number}
use logquill_python.Level.{lookup_name}
use logquill_python.Records.{Record, create_record}
use logquill_python.RunSummary.{
  Stats, no_stats, RunSummary, llm_of, with_root, summary, summary_meta, duration_entry,
  parent_entry, or_old,
}
use logquill_python.RunSummary.Sums.{IsTotal, sum_from, count_from, is_error, is_tool_call}

abbrev pub own_keys : List String
own_keys =
    "kind" ∷ "tokens_in" ∷ "tokens_out" ∷ "cost_usd" ∷ "tool_calls" ∷ "retries" ∷ "errors"
    ∷ "record_count" ∷ "duration_ms" ∷ "parent_span_id" ∷ []

abbrev pub as_float : Option ℤ → Option Value
as_float none = none
as_float (some n) = some (float n)

-- the sum of a number that some of the records have
abbrev pub total_of : (Record → Option ℤ) → List Record → ℤ
total_of number rs = sum_from (pos 0) number rs

abbrev pub number_of : (Record → Bool) → List Record → ℕ
number_of test rs = count_from 0 test rs

-- `u` is the summary of the run `k` with the records `rs` and the root span `e`.
pub record IsSummary (p : RunSummary) (now : String) (k : Value) (rs : List Record) (e : Record)
    (u : Record) : Type 0 where
  pub timestamp : u.timestamp ≡ now
  pub level : u.level ≡ "INFO"
  pub logger : u.logger ≡ p.logger_name
  pub message : u.message ≡ "run summary"
  pub llm : u.llm ≡ none
  pub kind : get u.meta "kind" ≡ some (str "run_summary")
  pub run_id : get u.meta p.run_key ≡ some k
  pub tokens_in :
      get u.meta "tokens_in"
      ≡ some (int (total_of (λ r. as_int (get (llm_of r.llm) "tokens_in")) (rs ++ e ∷ [])))
  pub tokens_out :
      get u.meta "tokens_out"
      ≡ some (int (total_of (λ r. as_int (get (llm_of r.llm) "tokens_out")) (rs ++ e ∷ [])))
  pub cost :
      get u.meta "cost_usd"
      ≡ some (float (total_of (λ r. as_number (get (llm_of r.llm) "cost_usd")) (rs ++ e ∷ [])))
  pub tool_calls :
      get u.meta "tool_calls" ≡ some (int (pos (number_of is_tool_call (rs ++ e ∷ []))))
  pub retries :
      get u.meta "retries"
      ≡ some (int (total_of (λ r. as_int (get r.meta "retry_count")) (rs ++ e ∷ [])))
  pub errors :
      get u.meta "errors"
      ≡ some (int (pos (number_of (λ r. is_error (lookup_name r.level)) (rs ++ e ∷ []))))
  pub record_count : get u.meta "record_count" ≡ some (int (pos (length (rs ++ e ∷ []))))
  pub duration : get u.meta "duration_ms" ≡ as_float (as_number (get e.meta "duration_ms"))
  pub parent : get u.meta "parent_span_id" ≡ get e.meta "span_id"

unlike : (l : List String) (k : String) → contains l k ≡ false → All (λ j. (j == k) ≡ false) l
unlike [] k h = tt
unlike (j ∷ l) k h = (ground (arith, h), unlike l k (ground (arith, h)))

abbrev or_value : Option Value → Option Value → Option Value
or_value none other = other
or_value (some v) other = some v

or_value-none : (o : Option Value) → or_value o none ≡ o
or_value-none none = refl
or_value-none (some v) = refl

-- the last value of a key in a list of entries
abbrev last_of : Meta → String → Option Value
last_of [] k = none
last_of ((j, v) ∷ u) k = or_value (last_of u k) (if j == k then some v else none)

or_value-put :
    (o : Option Value) (d : Meta) (j k : String) (v : Value)
    → or_value o (get (put d j v) k)
      ≡ or_value (or_value o (if j == k then some v else none)) (get d k)
or_value-put (some w) d j k v = refl
or_value-put none d j k v = elim (Bool-cases (j == k)) [
  | inl same ↦ get-put d j k v ∙ rw same refl
  | inr other ↦ get-put d j k v ∙ rw other refl
]

get-update : (d u : Meta) (k : String) → get (update d u) k ≡ or_value (last_of u k) (get d k)
unfolding update
get-update d [] k = refl
get-update d ((j, v) ∷ u) k = get-update (put d j v) u k ∙ or_value-put (last_of u k) d j k v

-- the entries of the summary, in the order in which they are put
abbrev listed : String → Value → Stats → Option ℤ → Option Value → Meta
listed run_key k s duration parent =
    ("kind", str "run_summary")
      ∷ (run_key, k)
      ∷ ("tokens_in", int s.tokens_in)
      ∷ ("tokens_out", int s.tokens_out)
      ∷ ("cost_usd", float s.cost)
      ∷ ("tool_calls", int (pos s.tool_calls))
      ∷ ("retries", int s.retries)
      ∷ ("errors", int (pos s.errors))
      ∷ ("record_count", int (pos s.record_count))
      ∷ duration_entry duration
    ++ parent_entry parent

get-summary_meta :
    (run_key key : String) (k : Value) (s : Stats)
    → get (summary_meta run_key k s) key
      ≡ last_of (listed run_key k s s.duration s.root_span_id) key
unfolding summary_meta get
get-summary_meta run_key key k s =
    get-update [] (listed run_key k s s.duration s.root_span_id) key
    ∙ or_value-none (last_of (listed run_key k s s.duration s.root_span_id) key)

module _ (run_key : String) (k : Value) (s : Stats) where
  in_each :
      (P : Option ℤ → Option Value → Type 0)
      → P none none
      → ((v : Value) → P none (some v))
      → ((n : ℤ) → P (some n) none)
      → ((n : ℤ) (v : Value) → P (some n) (some v))
      → (duration : Option ℤ) (parent : Option Value) → P duration parent
  in_each P a b c d none none = a
  in_each P a b c d none (some v) = b v
  in_each P a b c d (some n) none = c n
  in_each P a b c d (some n) (some v) = d n v

  -- an entry that is the same whatever the span has
  Holds : String → Value → Option ℤ → Option Value → Type 0
  Holds key v duration parent = last_of (listed run_key k s duration parent) key ≡ some v

  get-entry :
      (key : String) (v : Value)
      → Holds key v none none
      → ((w : Value) → Holds key v none (some w))
      → ((n : ℤ) → Holds key v (some n) none)
      → ((n : ℤ) (w : Value) → Holds key v (some n) (some w))
      → get (summary_meta run_key k s) key ≡ some v
  unfolding Holds
  get-entry key v a b c d =
      get-summary_meta run_key key k s ∙ in_each (Holds key v) a b c d s.duration s.root_span_id

  module _ (other : contains own_keys run_key ≡ false) where
    differs : All (λ j. (j == run_key) ≡ false) own_keys
    differs = unlike own_keys run_key other

    swapped : (j : String) → (j == run_key) ≡ false → (run_key == j) ≡ false
    swapped j h = ground (arith, h, string_eq.same_iff j run_key, string_eq.same_iff run_key j)

    get-kind : get (summary_meta run_key k s) "kind" ≡ some (str "run_summary")
    unfolding Holds
    get-kind =
        let h = swapped "kind" differs.0 in
        get-entry "kind" (str "run_summary") (rw h refl) (λ w. rw h refl) (λ n. rw h refl)
          (λ n w. rw h refl)

    get-duration : get (summary_meta run_key k s) "duration_ms" ≡ as_float s.duration
    get-duration =
        get-summary_meta run_key "duration_ms" k s
        ∙ in_each
            (λ duration parent.
              last_of (listed run_key k s duration parent) "duration_ms" ≡ as_float duration)
            (rw (swapped "duration_ms" differs.1.1.1.1.1.1.1.1.0) refl)
            (λ w. rw (swapped "duration_ms" differs.1.1.1.1.1.1.1.1.0) refl) (λ n. refl)
            (λ n w. refl) s.duration s.root_span_id

    get-parent : get (summary_meta run_key k s) "parent_span_id" ≡ s.root_span_id
    get-parent =
        get-summary_meta run_key "parent_span_id" k s
        ∙ in_each
            (λ duration parent.
              last_of (listed run_key k s duration parent) "parent_span_id" ≡ parent)
            (rw (swapped "parent_span_id" differs.1.1.1.1.1.1.1.1.1.0) refl) (λ w. refl)
            (λ n. rw (swapped "parent_span_id" differs.1.1.1.1.1.1.1.1.1.0) refl) (λ n w. refl)
            s.duration s.root_span_id

    get-run_key : get (summary_meta run_key k s) run_key ≡ some k
    get-run_key =
        let same = beq_self run_key in
        let (a, (b, (c, (d, (e, (f, (g, (h, (i, (j, done)))))))))) = differs in
        get-summary_meta run_key run_key k s
        ∙ in_each (λ duration parent. last_of (listed run_key k s duration parent) run_key ≡ some k)
            (rw (b, c, d, e, f, g, h, same) refl) (λ w. rw (b, c, d, e, f, g, h, j, same) refl)
            (λ n. rw (b, c, d, e, f, g, h, i, same) refl)
            (λ n w. rw (b, c, d, e, f, g, h, i, j, same) refl) s.duration s.root_span_id

plain_entries :
    (run_key : String) (k : Value) (s : Stats)
    → (get (summary_meta run_key k s) "tokens_in" ≡ some (int s.tokens_in))
      × (get (summary_meta run_key k s) "tokens_out" ≡ some (int s.tokens_out))
      × (get (summary_meta run_key k s) "cost_usd" ≡ some (float s.cost))
      × (get (summary_meta run_key k s) "tool_calls" ≡ some (int (pos s.tool_calls)))
      × (get (summary_meta run_key k s) "retries" ≡ some (int s.retries))
      × (get (summary_meta run_key k s) "errors" ≡ some (int (pos s.errors)))
      × (get (summary_meta run_key k s) "record_count" ≡ some (int (pos s.record_count)))
unfolding Holds
plain_entries run_key k s =
    let entry = get-entry run_key k s in
    (
      entry "tokens_in" (int s.tokens_in) refl (λ w. refl) (λ n. refl) (λ n w. refl),
      entry "tokens_out" (int s.tokens_out) refl (λ w. refl) (λ n. refl) (λ n w. refl),
      entry "cost_usd" (float s.cost) refl (λ w. refl) (λ n. refl) (λ n w. refl),
      entry "tool_calls" (int (pos s.tool_calls)) refl (λ w. refl) (λ n. refl) (λ n w. refl),
      entry "retries" (int s.retries) refl (λ w. refl) (λ n. refl) (λ n w. refl),
      entry "errors" (int (pos s.errors)) refl (λ w. refl) (λ n. refl) (λ n w. refl),
      entry "record_count" (int (pos s.record_count)) refl (λ w. refl) (λ n. refl) (λ n w. refl),
    )

or_old-none : (o : Option ℤ) → or_old o none ≡ o
or_old-none none = refl
or_old-none (some n) = refl

pub total-IsSummary :
    (p : RunSummary) (now : String) (k : Value) (rs : List Record) (e : Record) (s : Stats)
    → contains own_keys p.run_key ≡ false
    → IsTotal no_stats (rs ++ e ∷ []) s
    → IsSummary p now k rs e (summary p now k (with_root s e.meta))
unfolding summary create_record
total-IsSummary p now k rs e s other t =
    let s' = with_root s e.meta in
    let (tokens_in, tokens_out, cost, tool_calls, retries, errors, record_count) =
      plain_entries p.run_key k s' in
    record {
      timestamp = refl;
      level = refl;
      logger = refl;
      message = refl;
      llm = refl;
      kind = get-kind p.run_key k s' other;
      run_id = get-run_key p.run_key k s' other;
      tokens_in = tokens_in ∙ ap (λ n. some (int n)) t.tokens_in;
      tokens_out = tokens_out ∙ ap (λ n. some (int n)) t.tokens_out;
      cost = cost ∙ ap (λ n. some (float n)) t.cost;
      tool_calls = tool_calls ∙ ap (λ n. some (int (pos n))) t.tool_calls;
      retries = retries ∙ ap (λ n. some (int n)) t.retries;
      errors = errors ∙ ap (λ n. some (int (pos n))) t.errors;
      record_count = record_count ∙ ap (λ n. some (int (pos n))) (omega (arith, t.record_count));
      duration =
          get-duration p.run_key k s' other
          ∙ ap as_float (
              ap (λ o. or_old (as_number (get e.meta "duration_ms")) o) t.duration
              ∙ or_old-none (as_number (get e.meta "duration_ms")));
      parent = get-parent p.run_key k s' other;
    }
