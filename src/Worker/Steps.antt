-- ===== src/Worker/Steps.antt =====
-- Every interleaving of submitters, the thread and `close`: the queue's bound, the count of
-- pending items, and the order.
use logquill_python.Base.{
  if_both, Bool-cases, inl, inr, ℕ, ◌+◌, ◌≤◌, true, false, Option, none, some, List, [], ◌∷◌, ◌++◌,
  ◌≡◌, refl, ap, ◌∙◌, map, leb, length, length-append, arith, append-nil, tests,
}
use logquill_python.Worker.{
  Backpressure, drop_oldest, drop_newest, block, Thread, waiting, running, gone, Worker, Leave,
  item_of, Moves, none_moved, warn_dropping, append, evict_and_append, when_full, submit, take_from,
  take_by, take, finish_by, finish, mark_closed,
}

pub data Action (A : Type 0) : Type 0 where
  submit_at : ℕ → A → Action A
  take_next : Action A
  finish_item : Action A
  close_queue : Action A

unfoldable pub perform : {A : Type 0} → Worker A → Action A → Option (Moves A × Worker A)
unfolding submit take finish mark_closed
perform w (submit_at now a) = submit w now a
perform w take_next = take w
perform w finish_item = finish w
perform w close_queue = some (none_moved, mark_closed w)

-- The states that a worker can come to, with all that entered its queue and all that left it.
pub data Reach {A : Type 0} (start : Worker A) : List A → List (Leave A) → Worker A → Type 0 where
  here : Reach start [] [] start
  next :
      {entered : List A} {left : List (Leave A)} {w : Worker A}
      → Reach start entered left w
      → (a : Action A) (m : Moves A) (w' : Worker A) → perform w a ≡ some (m, w')
      → Reach start (entered ++ m.entered) (left ++ m.left) w'

abbrev pub in_hand : {A : Type 0} → Thread A → ℕ
in_hand (running a) = 1
in_hand _ = 0

pub record IsValid {A : Type 0} (w : Worker A) : Type 0 where
  pub positive : 1 ≤ w.max_queue_size
  pub bounded : length w.queue ≤ w.max_queue_size
  pub counted : w.pending ≡ length w.queue + in_hand w.thread

-- What one action does to the state and the queue.
pub record Sound {A : Type 0} (w : Worker A) (m : Moves A) (w' : Worker A) : Type 0 where
  pub valid : IsValid w'
  pub fifo : w.queue ++ m.entered ≡ map item_of m.left ++ w'.queue
  pub policy : w'.backpressure ≡ w.backpressure

abbrev pub SoundIf : {A : Type 0} → Worker A → Option (Moves A × Worker A) → Type 0
SoundIf w none = Unit
SoundIf w (some (m, w')) = Sound w m w'

module _ {A : Type 0} (w : Worker A) (v : IsValid w) where
  warn-Sound : (now : ℕ) → Sound w none_moved (warn_dropping w now).1
  unfolding warn_dropping
  warn-Sound now = record {
    valid = ground arith;
    fifo = ground (arith, append-nil w.queue);
    policy = ground arith;
  }

  same-Sound : SoundIf w (some (none_moved, w))
  same-Sound = record { valid = v; fifo = append-nil w.queue; policy = refl }

  append-Sound :
      (a : A)
      → leb w.max_queue_size (length w.queue) ≡ false
      → Sound w (record { entered = a ∷ []; left = [] }) (append w a)
  append-Sound a room = record {
    valid = record {
      positive = v.positive;
      bounded = omega (tests, length-append {0} w.queue (a ∷ []));
      counted = omega (arith, v.counted, length-append {0} w.queue (a ∷ []));
    };
    fifo = refl;
    policy = refl;
  }

  evict-Sound :
      (now : ℕ) (a : A) (q : List A)
      → w.queue ≡ q
      → 1 ≤ length q
      → SoundIf w (some (evict_and_append w now a q))
  unfolding evict_and_append warn_dropping
  evict-Sound now a [] e h = absurd (omega arith)
  evict-Sound now a (oldest ∷ rest) e h =
      let size = length-append {0} rest (a ∷ []) in
      let total = ap (λ (l : List A). length l) e in
      record {
        valid = record {
          positive = ground arith;
          bounded = ground (arith, size, total, v.bounded);
          counted = ground (arith, size, total, v.counted);
        };
        fifo = ground (arith, e);
        policy = ground arith;
      }

  full-Sound :
      (p : Backpressure) (now : ℕ) (a : A)
      → leb w.max_queue_size (length w.queue) ≡ true
      → SoundIf w (when_full p w now a)
  unfolding when_full
  full-Sound block now a full = tt
  full-Sound drop_newest now a full = warn-Sound now
  full-Sound drop_oldest now a full =
      evict-Sound now a w.queue refl (omega (tests, v.positive, full))

  submit-Sound : (now : ℕ) (a : A) → SoundIf w (submit w now a)
  unfolding submit
  submit-Sound now a =
      if_both (SoundIf w) w.closed same-Sound
        (elim (Bool-cases (leb w.max_queue_size (length w.queue))) [
          | inl full ↦ rw full (full-Sound w.backpressure now a full)
          | inr room ↦ rw room (append-Sound a room)
        ])

  take_from-Sound : (q : List A) → w.queue ≡ q → w.thread ≡ waiting → SoundIf w (take_from w q)
  unfolding take_from
  take_from-Sound [] e idle = ground (arith, append-nil w.queue)
  take_from-Sound (a ∷ rest) e idle = record {
    valid = ground (arith, ap (λ (l : List A). length l) e);
    fifo = append-nil w.queue ∙ e;
    policy = refl;
  }

  take_by-Sound : (t : Thread A) → w.thread ≡ t → SoundIf w (take_by t w)
  unfolding take_by
  take_by-Sound waiting e = take_from-Sound w.queue refl e
  take_by-Sound (running a) e = tt
  take_by-Sound gone e = tt

  finish_by-Sound : (t : Thread A) → w.thread ≡ t → SoundIf w (finish_by t w)
  unfolding finish_by
  finish_by-Sound waiting e = tt
  finish_by-Sound (running a) e = record {
    valid = ground arith;
    fifo = append-nil w.queue;
    policy = refl;
  }
  finish_by-Sound gone e = tt

  pub perform-Sound : (act : Action A) → SoundIf w (perform w act)
  unfolding perform
  perform-Sound (submit_at now a) = submit-Sound now a
  perform-Sound take_next = take_by-Sound w.thread refl
  perform-Sound finish_item = finish_by-Sound w.thread refl
  perform-Sound close_queue = record {
    valid = record { positive = v.positive; bounded = v.bounded; counted = v.counted };
    fifo = append-nil w.queue;
    policy = refl;
  }
