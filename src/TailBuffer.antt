-- ===== src/TailBuffer.antt =====
-- The bounded buffer of records by run or trace, which `FlightRecorderPlugin`
-- (`logquill/plugins/flight_recorder_plugin.py`) and `SamplingPlugin`
-- (`logquill/plugins/sampling_plugin.py`) both hold, with the same code. Writing to a transport is
-- an event; `fails` says which writes raise.
pub mod Total
pub mod Bounds
pub mod Trail
use logquill_python.Base.{
  ℕ, suc, ◌+◌, ◌-◌, Bool, true, false, Option, none, some, List, [], ◌∷◌, ◌++◌, ltb, leb, length,
  Eq, if◌then◌else◌, Result, ok, raise, key_error, ◌>>=◌,
}
use logquill_python.Dict.{Dict, get, put, remove, has, move_to_end}
use logquill_python.Records.{Record}

-- `_buffer`, `_buffered_count`, and the ids that have been flushed (`_flushed`, `_elevated`)
pub record TailBuffer (K : Type 0) : Type 0 where
  pub max_buffered_records : ℕ
  pub max_runs : ℕ
  pub buffer : Dict K (List Record)
  pub buffered_count : ℕ
  pub flushed : Dict K (Unit {0})

-- `_evict_oldest_run`: `popitem` raises on an empty dict
unfoldable pub evict_oldest :
    {K : Type 0} → Dict K (List Record) → ℕ → Result (Dict K (List Record) × ℕ)
evict_oldest [] count = raise key_error
evict_oldest ((_, oldest) ∷ rest) count = ok (rest, count - length oldest)

-- `while self._buffered_count > n and self._buffer: self._evict_oldest_run()`
unfoldable pub shrink : {K : Type 0} → ℕ → Dict K (List Record) → ℕ → Dict K (List Record) × ℕ
shrink n [] count = ([], count)
shrink n ((k, oldest) ∷ rest) count =
    let next = shrink n rest (count - length oldest) in
    if ltb n count then next else ((k, oldest) ∷ rest, count)

abbrev pub or_nil : Option (List Record) → List Record
or_nil none = []
or_nil (some rs) = rs

module _ {K : Type 0} ⦃e : Eq K⦄ where
  -- the run's place in the buffer: moved to the end, or made at the end
  unfoldable pub make_place : TailBuffer K → K → Result (Dict K (List Record) × ℕ)
  unfolding evict_oldest
  make_place b k = if has b.buffer k then ok (move_to_end b.buffer k, b.buffered_count) else do
    (buffer, count) ←
        if leb b.max_runs (length b.buffer)
        then evict_oldest b.buffer b.buffered_count
        else ok (b.buffer, b.buffered_count)
    ok (put buffer k [], count)

  -- `_buffer_record`
  unfoldable pub buffer_record : TailBuffer K → K → Record → Result (TailBuffer K)
  unfolding make_place shrink
  buffer_record b k r = do
    (buffer, count) ← make_place b k
    let filled = put buffer k (or_nil (get buffer k) ++ r ∷ [])
    let (kept, left) = shrink b.max_buffered_records filled (count + 1)
    ok (record b { buffer = kept; buffered_count = left })

  -- `_flush`, `_elevate`: the records that are to be written, and the state before the writes
  unfoldable pub take_run : TailBuffer K → K → List Record × TailBuffer K
  take_run b k =
      let buffered = or_nil (get b.buffer k) in
      (
        buffered,
        record b {
          buffer = remove b.buffer k;
          buffered_count = b.buffered_count - length buffered;
          flushed = put b.flushed k tt;
        },
      )

-- The loop that writes records to transports: what was written, and whether a write raised.
module _ {T : Type 0} (fails : T → Record → Bool) where
  unfoldable pub write_one : List T → Record → List (T × Record) × Bool
  write_one [] r = ([], false)
  write_one (t ∷ ts) r =
      let (written, raised) = write_one ts r in
      if fails t r then ([], true) else ((t, r) ∷ written, raised)

  unfoldable pub write_all : List T → List Record → List (T × Record) × Bool
  unfolding write_one
  write_all ts [] = ([], false)
  write_all ts (r ∷ rs) =
      let (written, raised) = write_one ts r in
      let (more, raised_later) = write_all ts rs in
      if raised then (written, true) else (written ++ more, raised_later)
