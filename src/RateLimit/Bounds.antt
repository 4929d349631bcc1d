-- ===== src/RateLimit/Bounds.antt =====
-- The plugin's memory and its counts stay within their bounds.
use logquill_python.Base.{
  ◌∙◌, ℕ, ◌+◌, ◌≤◌, some, [], ◌≡◌, arith, length, leb, Eq, ok, inl, inr, Option-cases, Bool-cases,
  leb→gt,
}
use logquill_python.Dict.{get, put, move_to_end, IsDict}
use logquill_python.Dict.Laws.{get-put, get-move_to_end, get-nil}
use logquill_python.Dict.Size.{put-IsDict, move_to_end-IsDict, length-move_to_end, length-put_old}
use logquill_python.Dict.Trim.{length-trim-le, trim-IsDict, get-trim}
use logquill_python.Records.{Record}
use logquill_python.RateLimit.{
  RateLimit, WindowOf, new, open_window, count_in, in_window, admit, before_log,
}

module _ {K : Type 0} ⦃e : Eq K⦄ where
  pub record IsValid (p : RateLimit K) : Type 0 where
    pub positive : 1 ≤ p.max_records
    pub bounded : length p.windows ≤ p.max_keys
    pub distinct : IsDict p.windows
    pub counts :
        (k : K) (w : WindowOf) → get p.windows k ≡ some w → (1 ≤ w.1) × (w.1 ≤ p.max_records)

  open_window-IsValid :
      (p : RateLimit K) (k : K) (now : ℕ) → IsValid p → IsValid (open_window p k now)
  unfolding open_window
  open_window-IsValid p k now v =
      let u = put-IsDict p.windows k (now, 1) v.distinct in
      let m = move_to_end-IsDict (put p.windows k (now, 1)) k u in
      record {
        positive = v.positive;
        bounded = length-trim-le p.max_keys _;
        distinct = trim-IsDict p.max_keys _ m;
        counts = λ j w h. ground (
          arith,
          get-trim p.max_keys (move_to_end (put p.windows k (now, 1)) k) j w m h,
          get-move_to_end (put p.windows k (now, 1)) k j,
          get-put p.windows k j (now, 1),
          v.counts j w,
          v.positive,
        );
      }

  count_in-IsValid :
      (p : RateLimit K) (k : K) (w : WindowOf)
      → get p.windows k ≡ some w
      → IsValid p
      → IsValid (count_in p k w).1
  unfolding count_in
  count_in-IsValid p k (start, count) g v =
      let moved = move_to_end p.windows k in
      let m = move_to_end-IsDict p.windows k v.distinct in
      let kept = length-move_to_end p.windows k v.distinct in
      let there = get-move_to_end p.windows k k in
      elim (Bool-cases (leb p.max_records count)) [
        | inl full ↦ rw full (record {
          positive = v.positive;
          bounded = omega (arith, kept, v.bounded);
          distinct = m;
          counts = λ j w h. v.counts j w (rw (get-move_to_end p.windows k j) at h);
        })
        | inr room ↦ rw room (record {
          positive = v.positive;
          bounded = omega (
            arith,
            kept,
            v.bounded,
            length-put_old moved k (start, count + 1) (start, count) (there ∙ g),
          );
          distinct = put-IsDict moved k (start, count + 1) m;
          counts = λ j w h. ground (
            arith,
            get-put moved k j (start, count + 1),
            get-move_to_end p.windows k j,
            v.counts j w,
            leb→gt p.max_records count room,
          );
        })
      ]

  in_window-IsValid :
      (p : RateLimit K) (k : K) (now : ℕ) (w : WindowOf)
      → get p.windows k ≡ some w
      → IsValid p
      → IsValid (in_window p k now w).1
  unfolding in_window
  in_window-IsValid p k now (start, count) g v =
      elim (Bool-cases (leb (start + p.per_seconds) now)) [
        | inl late ↦ rw late (open_window-IsValid p k now v)
        | inr early ↦ rw early (count_in-IsValid p k (start, count) g v)
      ]

  admit-IsValid : (p : RateLimit K) (k : K) (now : ℕ) → IsValid p → IsValid (admit p k now).1
  unfolding admit
  admit-IsValid p k now v = elim (Option-cases (get p.windows k)) [
    | inl new_key ↦ rw (new_key, admit) (open_window-IsValid p k now v)
    | inr (w, old) ↦ rw (old, admit) (in_window-IsValid p k now w old v)
  ]

  pub new-IsValid :
      (max_records per_seconds max_keys : ℕ) {p : RateLimit K}
      → new max_records per_seconds max_keys ≡ ok p
      → IsValid p
  unfolding new
  new-IsValid max_records per_seconds max_keys {p} h =
      let empty : p.windows ≡ [] = ground arith in
      record {
        positive = ground arith;
        bounded = rw empty (omega arith);
        distinct = rw empty tt;
        counts = λ k w g. absurd (ground (arith, get-nil {V = WindowOf} k, empty));
      }

-- Every record, whatever its key and the time, leaves a plugin that is within its bounds within
-- them: at most `max_keys` windows, one for each key, and each with a count from 1 to
-- `max_records`.
pub before_log-IsValid :
    {K : Type 0} ⦃e : Eq K⦄ (key_func : Record → K) (p : RateLimit K) (now : ℕ) (r : Record)
    → IsValid p
    → IsValid (before_log key_func p now r).1
unfolding before_log
before_log-IsValid key_func p now r v = admit-IsValid p (key_func r) now v
