-- ===== src/Presence/World.antt =====
-- The presence cache of internal/state/presence.go among its timers and goroutines. A history is a
-- sequence of steps, each of which holds the lock, but that `flush` calls `notify` in a later step,
-- after it has unlocked.
use discord_proxy_rpc.Base.{
  ℕ, ◌+◌, Bool, true, false, ◌||◌, ◌&&◌, Option, none, some, List, [], ◌∷◌, ◌==◌, ℤ, if◌then◌else◌,
}
use discord_proxy_rpc.Activity.{Activity}
use discord_proxy_rpc.Presence.Notify.{pick}
use discord_proxy_rpc.Presence.{Presence, new_presence, start, stop, update, flush, run_end}

-- A timer started by `Update`, under its handle, with the generation that it will flush.
pub record Timer : Type 0 where
  pub id : ℕ
  pub gen : ℕ

-- The cache, the timers that still run, the callbacks of timers that ran out and wait for the lock,
-- and the `run` goroutines that have not returned. `next` numbers timers and channels. `sent` is
-- what the flushes since the last `Start` found to tell, newest first, `accepted` what `Update`
-- accepted since then, and `ended` says that a `run` has returned since then. `unlocked` is what the
-- flushes that have unlocked are about to pass to `notify`, and `notified` what it was given so far,
-- whatever was stopped or started meanwhile.
pub record World : Type 0 where
  pub presence : Presence
  pub running : List Timer
  pub waiting : List ℕ
  pub goroutines : List ℕ
  pub closed : List ℕ
  pub cancelled : Bool
  pub next : ℕ
  pub sent : List Activity
  pub accepted : List Activity
  pub ended : Bool
  pub unlocked : List Activity
  pub notified : List Activity

unfoldable pub begin : ℤ → World
begin interval = record {
  presence = new_presence interval;
  running = [];
  waiting = [];
  goroutines = [];
  closed = [];
  cancelled = false;
  next = 0;
  sent = [];
  accepted = [];
  ended = false;
  unlocked = [];
  notified = [];
}

-- `timer.Stop()` on a handle: a timer that has run out already is not affected.
abbrev pub stop_timer : Option ℕ → List Timer → List Timer
stop_timer none ts = ts
stop_timer (some id) [] = []
stop_timer (some id) (t ∷ ts) = if t.id == id then ts else t ∷ stop_timer (some id) ts

abbrev pub find_timer : ℕ → List Timer → Option ℕ
find_timer id [] = none
find_timer id (t ∷ ts) = if t.id == id then some t.gen else find_timer id ts

abbrev pub contains : ℕ → List ℕ → Bool
contains n [] = false
contains n (m ∷ ms) = if m == n then true else contains n ms

-- One occurrence less.
abbrev pub drop_one : ℕ → List ℕ → List ℕ
drop_one n [] = []
drop_one n (m ∷ ms) = if m == n then ms else m ∷ drop_one n ms

abbrev pub close_channel : Option ℕ → List ℕ → List ℕ
close_channel none cs = cs
close_channel (some c) cs = c ∷ cs

pub data Event : Type 0 where
  starts stops cancels : Event
  updates : Activity → Event
  -- The timer with this handle runs out.
  expires : ℕ → Event
  -- A waiting callback gets the lock, decides and unlocks.
  flushes : ℕ → Event
  -- The flush at this index calls `notify`.
  notifies : ℕ → Event
  -- The `run` of this channel sees it closed, or the context cancelled.
  run_ends : ℕ → Event

unfoldable pub do_start : World → World
do_start w = record w {
  presence = start w.presence w.next;
  goroutines = w.next ∷ w.goroutines;
  next = w.next + 1;
  sent = [];
  accepted = [];
  ended = false;
}

unfoldable pub do_stop : World → World
do_stop w =
    let (p, channel) = stop w.presence in
    record w { presence = p; closed = close_channel channel w.closed }

-- The new timer, beside those that run once the old one is stopped.
unfoldable pub start_timer : World → Presence → Option ℕ → Activity → World
start_timer w p old a = record w {
  presence = p;
  running = record { id = w.next; gen = p.gen } ∷ stop_timer old w.running;
  next = w.next + 1;
  accepted = a ∷ w.accepted;
}

unfoldable pub do_update : World → Activity → World
do_update w a =
    let (p, out) = update w.presence a w.next in
    elim out [ none ↦ w | some old ↦ start_timer w p old a ]

-- The timer with this handle has this generation, or does not run.
unfoldable pub expire : World → ℕ → Option ℕ → World
expire w id none = w
expire w id (some gen) = record w {
  running = stop_timer (some id) w.running;
  waiting = gen ∷ w.waiting;
}

unfoldable pub do_expire : World → ℕ → World
do_expire w id = expire w id (find_timer id w.running)

abbrev pub push : Option Activity → List Activity → List Activity
push none sent = sent
push (some a) sent = a ∷ sent

unfoldable pub run_flush : World → ℕ → World
run_flush w gen =
    let (p, out) = flush w.presence gen in
    record w {
      presence = p;
      waiting = drop_one gen w.waiting;
      sent = push out w.sent;
      unlocked = push out w.unlocked;
    }

unfoldable pub do_flush : World → ℕ → World
do_flush w gen = if contains gen w.waiting then run_flush w gen else w

-- The flush at an index has called `notify`, where there is one.
unfoldable pub do_notify : World → ℕ → World
do_notify w i = elim (pick i w.unlocked) [
  | none ↦ w
  | some r ↦ record w { unlocked = r.1; notified = r.0 ∷ w.notified }
]

unfoldable pub finish_run : World → ℕ → World
finish_run w channel =
    let (p, timer) = run_end w.presence in
    record w {
      presence = p;
      running = stop_timer timer w.running;
      goroutines = drop_one channel w.goroutines;
      ended = true;
    }

unfoldable pub do_run_end : World → ℕ → World
do_run_end w channel =
    if contains channel w.goroutines && (w.cancelled || contains channel w.closed)
    then finish_run w channel
    else w

unfoldable pub step : World → Event → World
step w starts = do_start w
step w stops = do_stop w
step w cancels = record w { cancelled = true }
step w (updates a) = do_update w a
step w (expires id) = do_expire w id
step w (flushes gen) = do_flush w gen
step w (notifies i) = do_notify w i
step w (run_ends channel) = do_run_end w channel

unfoldable pub run : World → List Event → World
run w [] = w
run w (e ∷ es) = run (step w e) es
