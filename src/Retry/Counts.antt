-- ===== src/Retry/Counts.antt =====
-- The counts against the history of calls, while the calls in flight fit the tracker.
use mathlib.Core.Path.{ap₂}
use logquill_python.Base.{
  le_trans, ℕ, zero, suc, ◌≤◌, true, false, Option, none, some, List, [], ◌∷◌, ◌≡◌, refl, ap, ◌∙◌,
  arith, length, ok, ◌==◌, contains, All, if◌then◌else◌,
}
use logquill_python.Dict.{Dict, get, put, move_to_end, trim, IsDict}
use logquill_python.Dict.Laws.{get-put, get-remove, get-move_to_end, get-nil}
use logquill_python.Dict.Size.{put-IsDict, remove-IsDict, move_to_end-IsDict}
use logquill_python.Dict.Trim.{trim_of_length-le, length-le_of_keys}
use logquill_python.Retry.{
  CallKey, call_eq, Tracker, new, next_count, opened_key, succeeded_key, Event, open_call,
  close_call, subject, run,
}

-- The actions for a call since its last success, the latest event first.
abbrev pub actions : List Event → CallKey → ℕ
actions [] k = 0
actions (open_call j ∷ past) k = if j == k then suc (actions past k) else actions past k
actions (close_call j ∷ past) k = if j == k then 0 else actions past k

-- Each action reports the actions before it since the last success.
abbrev pub counts_of : List Event → List Event → List ℕ
counts_of past [] = []
counts_of past (open_call k ∷ es) = actions past k ∷ counts_of (open_call k ∷ past) es
counts_of past (close_call k ∷ es) = counts_of (close_call k ∷ past) es

-- what the tracker holds for a call with so many actions
abbrev held : ℕ → Option ℕ
held zero = none
held (suc n) = some n

next_count-held : (n : ℕ) → next_count (held n) ≡ n
next_count-held zero = refl
next_count-held (suc n) = omega arith

module _ (ks : List CallKey) where
  record Follows (t : Tracker) (past : List Event) : Type 0 where
    room : length ks ≤ t.max_entries
    distinct : IsDict t.attempts
    agrees : (k : CallKey) → get t.attempts k ≡ held (actions past k)
    known : (k : CallKey) → contains ks k ≡ false → actions past k ≡ 0

  new-Follows : (n : ℕ) {t : Tracker} → new n ≡ ok t → length ks ≤ n → Follows t []
  unfolding new
  new-Follows n {t} h room =
      let empty : t.attempts ≡ [] = ground arith in
      record {
        room = ground arith;
        distinct = rw empty tt;
        agrees = λ k. rw empty (get-nil k);
        known = λ k c. refl;
      }

  Follows-succeeded :
      {t : Tracker} {past : List Event} (k : CallKey)
      → Follows t past
      → Follows (succeeded_key t k) (close_call k ∷ past)
  unfolding succeeded_key
  Follows-succeeded {t} {past} k f = record {
    room = f.room;
    distinct = remove-IsDict t.attempts k f.distinct;
    agrees = λ j. ground (arith, get-remove t.attempts k j, f.agrees j);
    known = λ j c. ground (arith, f.known j c);
  }

  known-opened :
      {t : Tracker} {past : List Event} (k j : CallKey)
      → contains ks k ≡ true
      → Follows t past
      → contains ks j ≡ false
      → actions (open_call k ∷ past) j ≡ 0
  known-opened k j i f c = ground (arith, f.known j c, call_eq.same_iff k j)

  module _ (t : Tracker) (past : List Event) (k : CallKey) (i : contains ks k ≡ true)
      (f : Follows t past) where
    abbrev stored : Dict CallKey ℕ
    stored = put t.attempts k (next_count (get t.attempts k))

    stored-IsDict : IsDict (move_to_end stored k)
    stored-IsDict = move_to_end-IsDict stored k (put-IsDict t.attempts k _ f.distinct)

    get-stored :
        (j : CallKey) → get (move_to_end stored k) j ≡ held (actions (open_call k ∷ past) j)
    get-stored j = ground (
      arith,
      get-move_to_end stored k j,
      get-put t.attempts k j (next_count (get t.attempts k)),
      f.agrees k,
      f.agrees j,
      next_count-held (actions past k),
      call_eq.same_iff k j,
    )

    unknown-stored : (j : CallKey) → contains ks j ≡ false → get (move_to_end stored k) j ≡ none
    unknown-stored j c = get-stored j ∙ ap held (known-opened k j i f c)

    fits-stored : trim t.max_entries (move_to_end stored k) ≡ move_to_end stored k
    fits-stored =
        trim_of_length-le t.max_entries (move_to_end stored k) (
          le_trans (length-le_of_keys ks (move_to_end stored k) stored-IsDict unknown-stored)
            f.room)

    Follows-opened : Follows (opened_key t k).1 (open_call k ∷ past)
    unfolding opened_key
    Follows-opened = record {
      room = f.room;
      distinct = rw fits-stored stored-IsDict;
      agrees = λ j. rw fits-stored (get-stored j);
      known = λ j c. known-opened k j i f c;
    }

    count-opened : (opened_key t k).0 ≡ actions past k
    unfolding opened_key
    count-opened = ap next_count (f.agrees k) ∙ next_count-held (actions past k)

  run-counts :
      (t : Tracker) (past es : List Event)
      → All (λ e. contains ks (subject e) ≡ true) es
      → Follows t past
      → (run t es).0 ≡ counts_of past es
  unfolding run
  run-counts t past [] h f = refl
  run-counts t past (open_call k ∷ es) h f =
      ap₂ ◌∷◌ (count-opened t past k h.0 f)
        (run-counts (opened_key t k).1 (open_call k ∷ past) es h.1 (Follows-opened t past k h.0 f))
  run-counts t past (close_call k ∷ es) h f =
      run-counts (succeeded_key t k) (close_call k ∷ past) es h.1 (Follows-succeeded k f)

-- As long as the calls come from a list of at most `max_entries` keys, a new tracker reports for
-- each action the number of actions for the same call since its last success.
pub run-counts_of :
    (n : ℕ) {t : Tracker} (ks : List CallKey) (es : List Event)
    → new n ≡ ok t
    → length ks ≤ n
    → All (λ e. contains ks (subject e) ≡ true) es
    → (run t es).0 ≡ counts_of [] es
run-counts_of n {t} ks es h room all = run-counts ks t [] es all (new-Follows ks n h room)
