-- ===== src/Logger/Lifecycle/Closes.antt =====
-- How often a transport is closed, and which transports are marked.
use logquill_python.Base.{
  ℕ, ◌+◌, Bool, false, not, ◌&&◌, ◌||◌, List, [], ◌∷◌, ◌++◌, ◌≡◌, refl, contains, nat_eq, ◌==◌,
  arith, if◌then◌else◌, if_both, Bool-cases, inl, inr,
}
use logquill_python.Dict.{Dict, get, put, has, IsDict}
use logquill_python.Dict.Laws.{get-put}
use logquill_python.Dict.Size.{put-IsDict}
use logquill_python.Logger.Lifecycle.{
  Handle, Event, closed, World, mark_closed, gather_transports, all_transports,
}

abbrev pub is_close : ℕ → Event → Bool
is_close t (closed u _) = u == t
is_close t _ = false

-- how often `close` of a transport was called
abbrev pub closes : ℕ → List Event → ℕ
closes t [] = 0
closes t (e ∷ events) = (if is_close t e then 1 else 0) + closes t events

abbrev pub is_returned : ℕ → Event → Bool
is_returned t (closed u returned) = u == t && returned
is_returned t _ = false

-- whether a call of `close` of a transport returned
abbrev pub returned : ℕ → List Event → Bool
returned t [] = false
returned t (e ∷ events) = let rest = returned t events in is_returned t e || rest

pub closes-append : (t : ℕ) (l m : List Event) → closes t (l ++ m) ≡ closes t l + closes t m
closes-append t [] m = omega arith
closes-append t (e ∷ l) m = omega (arith, closes-append t l m)

pub returned-append :
    (t : ℕ) (l m : List Event) → returned t (l ++ m) ≡ (returned t l || returned t m)
returned-append t [] m = refl
returned-append t (e ∷ l) m = ground (arith, returned-append t l m)

pub contains-mark_closed :
    (w : World) (t u : ℕ) → contains (mark_closed w u).marked t ≡ (u == t || contains w.marked t)
unfolding mark_closed
contains-mark_closed w t u = elim (Bool-cases (contains w.marked u)) [
  | inl e ↦ rw e (ground (arith, e, nat_eq.same_iff u t))
  | inr e ↦ rw e refl
]

-- how often a transport stands in a dict of transports
abbrev pub times : ℕ → Dict ℕ ℕ → ℕ
times t [] = 0
times t ((k, u) ∷ d) = (if u == t then 1 else 0) + times t d

-- transports by their identity
abbrev pub AreOwn : Dict ℕ ℕ → Type 0
AreOwn [] = Unit
AreOwn ((k, u) ∷ d) = (k ≡ u) × AreOwn d

put-AreOwn : (d : Dict ℕ ℕ) (t : ℕ) → AreOwn d → AreOwn (put d t t)
unfolding put
put-AreOwn [] t own = (refl, tt)
put-AreOwn ((k, u) ∷ d) t (first, more) = elim (Bool-cases (k == t)) [
  | inl e ↦ rw e ((nat_eq.same_iff k t).0 e, more)
  | inr e ↦ rw e (first, put-AreOwn d t more)
]

pub times-has :
    (t : ℕ) (d : Dict ℕ ℕ) → AreOwn d → IsDict d → times t d ≡ (if has d t then 1 else 0)
unfolding has get
times-has t [] own u = refl
times-has t ((k, v) ∷ d) (first, more) (fresh, u) =
    ground (arith, times-has t d more u, nat_eq.same_iff k t, nat_eq.same_iff v t)

has-put : (d : Dict ℕ ℕ) (k t v : ℕ) → has (put d k v) t ≡ (k == t || has d t)
unfolding has
has-put d k t v = ground (arith, get-put d k t v)

has-gather_transports :
    (already : List ℕ) (d : Dict ℕ ℕ) (l : List ℕ) (t : ℕ)
    → has (gather_transports already d l) t
      ≡ (has d t || (contains l t && not (contains already t)))
unfolding gather_transports
has-gather_transports already d [] t = ground arith
has-gather_transports already d (u ∷ l) t = elim (Bool-cases (contains already u)) [
  | inl e ↦ rw e (ground (arith, has-gather_transports already d l t, nat_eq.same_iff u t, e))
  | inr e ↦ rw e (
      ground (
        arith,
        has-gather_transports already (put d u u) l t,
        has-put d u t u,
        nat_eq.same_iff u t,
        e,
      ))
]

gather_transports-IsDict :
    (already : List ℕ) (d : Dict ℕ ℕ) (l : List ℕ)
    → IsDict d
    → IsDict (gather_transports already d l)
unfolding gather_transports
gather_transports-IsDict already d [] u = u
gather_transports-IsDict already d (t ∷ l) u =
    gather_transports-IsDict already (if contains already t then d else put d t t) l
      (if_both IsDict (contains already t) u (put-IsDict d t t u))

gather_transports-AreOwn :
    (already : List ℕ) (d : Dict ℕ ℕ) (l : List ℕ)
    → AreOwn d
    → AreOwn (gather_transports already d l)
unfolding gather_transports
gather_transports-AreOwn already d [] own = own
gather_transports-AreOwn already d (t ∷ l) own =
    gather_transports-AreOwn already (if contains already t then d else put d t t) l
      (if_both AreOwn (contains already t) own (put-AreOwn d t own))

-- a registered logger holds the transport
abbrev pub attached : List Handle → ℕ → Bool
attached [] t = false
attached (lg ∷ loggers) t = let rest = attached loggers t in contains lg.transports t || rest

pub has-all_transports :
    (already : List ℕ) (d : Dict ℕ ℕ) (loggers : List Handle) (t : ℕ)
    → has (all_transports already d loggers) t
      ≡ (has d t || (attached loggers t && not (contains already t)))
unfolding all_transports
has-all_transports already d [] t = ground arith
has-all_transports already d (lg ∷ loggers) t = ground (
  arith,
  has-all_transports already (gather_transports already d lg.transports) loggers t,
  has-gather_transports already d lg.transports t,
)

pub all_transports-IsDict :
    (already : List ℕ) (d : Dict ℕ ℕ) (loggers : List Handle)
    → IsDict d
    → IsDict (all_transports already d loggers)
unfolding all_transports
all_transports-IsDict already d [] u = u
all_transports-IsDict already d (lg ∷ loggers) u =
    all_transports-IsDict already (gather_transports already d lg.transports) loggers
      (gather_transports-IsDict already d lg.transports u)

pub all_transports-AreOwn :
    (already : List ℕ) (d : Dict ℕ ℕ) (loggers : List Handle)
    → AreOwn d
    → AreOwn (all_transports already d loggers)
unfolding all_transports
all_transports-AreOwn already d [] own = own
all_transports-AreOwn already d (lg ∷ loggers) own =
    all_transports-AreOwn already (gather_transports already d lg.transports) loggers
      (gather_transports-AreOwn already d lg.transports own)
