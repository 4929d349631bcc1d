-- ===== src/Adaptive/Budget.antt =====
-- The bounds of the rate, and the bytes of one window.
use mathlib.Core.Path.{subst}
use logquill_python.Base.{
  ℕ, ◌+◌, ◌*◌, ◌/◌, ◌≤◌, ◌<◌, Bool, true, false, ◌||◌, List, [], ◌∷◌, ◌≡◌, refl, sym, ◌∙◌, leb, ltb,
  ◌==◌, nat_eq, All, Result, ok, raise, arith, if_both, Bool-cases, inl, inr,
}
use logquill_python.Records.{Record}
use logquill_python.Adaptive.{
  Adaptive, min, max, next_rate, roll, Decision, always, sampled, dropped, failed, Call, spend,
  decide, is_always_kept, before_log, run,
}

-- the rate is within its bounds, and no more was let through than was asked for or than the budget
pub record IsValid (p : Adaptive) : Type 0 where
  pub above : p.min_rate ≤ p.rate
  pub below : p.rate ≤ p.max_rate
  pub in_budget : p.emitted_bytes ≤ p.max_bytes
  pub in_demand : p.emitted_bytes ≤ p.demand_bytes

next_rate-bounds :
    (p : Adaptive) → IsValid p → (p.min_rate ≤ next_rate p) × (next_rate p ≤ p.max_rate)
unfolding next_rate
next_rate-bounds p v =
    if_both (λ (n : ℕ). (p.min_rate ≤ n) × (n ≤ p.max_rate))
      (p.max_bytes == 0 || ltb (2 * p.demand_bytes) p.max_bytes)
      (more p.rate p.min_rate p.max_rate v.above v.below)
      (if_both (λ (n : ℕ). (p.min_rate ≤ n) × (n ≤ p.max_rate))
        (ltb (9 * p.max_bytes) (10 * p.demand_bytes))
        (less p.rate p.min_rate p.max_rate v.above v.below) (v.above, v.below))
  where
    more :
        (rate lo hi : ℕ)
        → lo ≤ rate
        → rate ≤ hi
        → (lo ≤ min (rate * 6 / 5) hi) × (min (rate * 6 / 5) hi ≤ hi)
    more rate lo hi low high = (ground arith, ground arith)

    less :
        (rate lo hi : ℕ)
        → lo ≤ rate
        → rate ≤ hi
        → (lo ≤ max (rate / 2) lo) × (max (rate / 2) lo ≤ hi)
    less rate lo hi low high = (ground arith, ground arith)

roll-IsValid : (p : Adaptive) (now : ℕ) → IsValid p → IsValid (roll p now)
unfolding roll
roll-IsValid p now v = if_both IsValid (ltb now (p.window_start + p.window)) v (record {
  above = (next_rate-bounds p v).0;
  below = (next_rate-bounds p v).1;
  in_budget = omega arith;
  in_demand = omega arith;
})

spend-IsValid : (p : Adaptive) (n : ℕ) → IsValid p → IsValid (spend p n).0
unfolding spend
spend-IsValid p n v = elim (Bool-cases (ltb p.max_bytes (p.emitted_bytes + n))) [
  | inl e ↦ rw e (record {
    above = v.above;
    below = v.below;
    in_budget = v.in_budget;
    in_demand = omega (arith, v.in_demand);
  })
  | inr e ↦ rw e (record {
    above = v.above;
    below = v.below;
    in_budget = ground arith;
    in_demand = omega (arith, v.in_demand);
  })
]

decide-IsValid :
    (p : Adaptive) (call : Call) (r : Result Bool) → IsValid p → IsValid (decide p call r).0
unfolding decide
decide-IsValid p call (raise e) v = v
decide-IsValid p call (ok true) v = v
decide-IsValid p call (ok false) v =
    if_both (λ (q : Adaptive × Decision). IsValid q.0) (leb p.rate call.draw) v
      (spend-IsValid p call.size v)

-- Where the rate starts between its bounds, it stays there, and the bytes let through in the window
-- are within the budget and within the demand, whatever records come and however the clock runs.
pub run-IsValid :
    (p : Adaptive) (calls : List (Call × Record)) → IsValid p → IsValid (run p calls).0
unfolding run before_log
run-IsValid p [] v = v
run-IsValid p ((call, r) ∷ calls) v =
    let p' = roll p call.now in
    run-IsValid (decide p' call (is_always_kept p' r)).0 calls
      (decide-IsValid p' call (is_always_kept p' r) (roll-IsValid p call.now v))

-- the bytes of the records that the sampling let through
abbrev pub size_of : Decision → ℕ
size_of (sampled n) = n
size_of _ = 0

abbrev pub total_size : List Decision → ℕ
total_size [] = 0
total_size (d ∷ decisions) = size_of d + total_size decisions

-- no call comes at the end of the window or after it
abbrev pub IsInside : Adaptive → Call × Record → Type 0
IsInside p (call, r) = call.now < p.window_start + p.window

-- the window stays, and what was let through is counted
record IsCounted (p : Adaptive) (q : Adaptive × Decision) : Type 0 where
  pub counted : q.0.emitted_bytes ≡ p.emitted_bytes + size_of q.1
  pub same_start : q.0.window_start ≡ p.window_start
  pub same_window : q.0.window ≡ p.window
  pub same_budget : q.0.max_bytes ≡ p.max_bytes

abbrev unchanged : (p : Adaptive) (d : Decision) → size_of d ≡ 0 → IsCounted p (p, d)
unchanged p d e = record {
  counted = omega (arith, e);
  same_start = refl;
  same_window = refl;
  same_budget = refl;
}

spend-IsCounted : (p : Adaptive) (n : ℕ) → IsCounted p (spend p n)
unfolding spend
spend-IsCounted p n =
    if_both (IsCounted p) (ltb p.max_bytes (p.emitted_bytes + n))
      (record { counted = omega arith; same_start = refl; same_window = refl; same_budget = refl })
      (record { counted = refl; same_start = refl; same_window = refl; same_budget = refl })

decide-IsCounted : (p : Adaptive) (call : Call) (r : Result Bool) → IsCounted p (decide p call r)
unfolding decide
decide-IsCounted p call (raise e) = unchanged p (failed e) refl
decide-IsCounted p call (ok true) = unchanged p always refl
decide-IsCounted p call (ok false) =
    if_both (IsCounted p) (leb p.rate call.draw) (unchanged p dropped refl)
      (spend-IsCounted p call.size)

roll_inside : (p : Adaptive) (now : ℕ) → now < p.window_start + p.window → roll p now ≡ p
unfolding roll
roll_inside p now h = let e : ltb now (p.window_start + p.window) ≡ true = ground arith in rw e refl

before_log-IsCounted :
    (p : Adaptive) (call : Call) (r : Record)
    → IsInside p (call, r)
    → IsCounted p (before_log p call r)
unfolding before_log
before_log-IsCounted p call r h =
    subst (λ (p' : Adaptive). IsCounted p (decide p' call (is_always_kept p' r)))
      (sym (roll_inside p call.now h)) (decide-IsCounted p call (is_always_kept p r))

IsInside-later :
    (p q : Adaptive) (calls : List (Call × Record))
    → q.window_start ≡ p.window_start
    → q.window ≡ p.window
    → All (IsInside p) calls
    → All (IsInside q) calls
IsInside-later p q [] e f a = tt
IsInside-later p q ((call, r) ∷ calls) e f (first, more) =
    (omega (arith, first, e, f), IsInside-later p q calls e f more)

total-run :
    (p : Adaptive) (calls : List (Call × Record))
    → All (IsInside p) calls
    → (run p calls).0.emitted_bytes ≡ p.emitted_bytes + total_size (run p calls).1
      × ((run p calls).0.max_bytes ≡ p.max_bytes)
unfolding run
total-run p [] a = (omega arith, refl)
total-run p ((call, r) ∷ calls) (first, more) =
    let c = before_log-IsCounted p call r first in
    let p' = (before_log p call r).0 in
    let (t, b) = total-run p' calls (IsInside-later p p' calls c.same_start c.same_window more) in
    (omega (arith, t, c.counted), b ∙ c.same_budget)

-- From any state whose rate is within its bounds and whose window is within its budget: the records
-- that one window lets through by sampling, together with what it let through before, are at most
-- `max_bytes` bytes, whatever is asked for.
pub run-in_budget :
    (p : Adaptive) (calls : List (Call × Record))
    → IsValid p
    → All (IsInside p) calls
    → p.emitted_bytes + total_size (run p calls).1 ≤ p.max_bytes
run-in_budget p calls v a =
    let (t, b) = total-run p calls a in omega (arith, (run-IsValid p calls v).in_budget, t, b)
