-- ===== src/RunSummary/Sums.antt =====
-- The sums over the records of a run.
use logquill_python.Base.{
  ℕ, ◌+◌, string_eq, Bool, false, Option, List, [], ◌∷◌, ◌≡◌, refl, sym, ap, ◌∙◌, length, arith,
  Result, ok, raise, ◌&&◌, if◌then◌else◌,
}
use logquill_python.Base.Int.{ℤ}
use logquill_python.Dict.{get}
use logquill_python.Value.{value_eq, as_int, as_number, is_str}
use logquill_python.Level.{Level, error, reaches, lookup_name}
use logquill_python.Records.{Record}
use logquill_python.RunSummary.{Stats, add_to, is_value, llm_of, add_record}

-- the sum of a number that some records have, from `n` on
abbrev pub sum_from : ℤ → (Record → Option ℤ) → List Record → ℤ
sum_from n number [] = n
sum_from n number (r ∷ rs) = sum_from (add_to n (number r)) number rs

abbrev pub is_error : Result Level → Bool
is_error (ok l) = reaches l error
is_error (raise e) = false

abbrev pub is_tool_call : Record → Bool
is_tool_call r = is_value (get r.meta "kind") "action" && is_str (get r.meta "tool")

-- how many records pass a test, from `n` on
abbrev pub count_from : ℕ → (Record → Bool) → List Record → ℕ
count_from n test [] = n
count_from n test (r ∷ rs) = count_from (if test r then n + 1 else n) test rs

-- `s'` is `s` with the records counted in.
pub record IsTotal (s : Stats) (rs : List Record) (s' : Stats) : Type 0 where
  pub tokens_in :
      s'.tokens_in ≡ sum_from s.tokens_in (λ r. as_int (get (llm_of r.llm) "tokens_in")) rs
  pub tokens_out :
      s'.tokens_out ≡ sum_from s.tokens_out (λ r. as_int (get (llm_of r.llm) "tokens_out")) rs
  pub cost : s'.cost ≡ sum_from s.cost (λ r. as_number (get (llm_of r.llm) "cost_usd")) rs
  pub retries : s'.retries ≡ sum_from s.retries (λ r. as_int (get r.meta "retry_count")) rs
  pub tool_calls : s'.tool_calls ≡ count_from s.tool_calls is_tool_call rs
  pub errors : s'.errors ≡ count_from s.errors (λ r. is_error (lookup_name r.level)) rs
  pub record_count : s'.record_count ≡ s.record_count + length rs
  pub duration : s'.duration ≡ s.duration

pub nothing_more : (s : Stats) → IsTotal s [] s
nothing_more s = record {
  tokens_in = refl;
  tokens_out = refl;
  cost = refl;
  retries = refl;
  tool_calls = refl;
  errors = refl;
  record_count = omega arith;
  duration = refl;
}

pub add_record-IsTotal :
    (s : Stats) (r : Record) (l : Level) (rs : List Record) (s' : Stats)
    → lookup_name r.level ≡ ok l
    → IsTotal (add_record s r l) rs s'
    → IsTotal s (r ∷ rs) s'
unfolding add_record
add_record-IsTotal s r l rs s' named t = record {
  tokens_in = t.tokens_in;
  tokens_out = t.tokens_out;
  cost = t.cost;
  retries = t.retries;
  tool_calls = t.tool_calls;
  errors =
      t.errors
      ∙ ap
          (λ o.
            count_from (if is_error o then s.errors + 1 else s.errors)
              (λ u. is_error (lookup_name u.level)) rs)
          (sym named);
  record_count = omega (arith, t.record_count);
  duration = t.duration;
}
