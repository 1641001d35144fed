-- ===== src/Presence.antt =====
-- internal/state/presence.go: the cache of the last activity, which tells its subscribers of a
-- change once updates have paused for the coalescing interval.
pub mod World
pub mod Delivery
pub mod Changes
pub mod Handed
pub mod Restart
pub mod Notify
mod Examples
use discord_proxy_rpc.Base.{
  ℕ, suc, ◌+◌, ◌%◌, ◌^◌, ◌≡◌, Bool, true, false, not, ◌||◌, Option, none, some, List, [], ◌∷◌, ◌==◌,
  ℤ, pos, leb_ℤ, if◌then◌else◌,
}
use discord_proxy_rpc.Activity.{
  Activity, zero_activity, clone, equals, PresenceSnapshot, source_none, source_ipc,
}

-- A subscriber is its id; what its callback does is not part of this component. `timer` is the
-- handle of a timer, `stop_ch` that of a channel made by `Start`, and `gen` a uint64.
pub record Presence : Type 0 where
  pub cached : Activity
  pub has_source : Bool
  pub last_notified : Activity
  pub subscribers : List ℕ
  pub next_sub_id : ℕ
  pub timer : Option ℕ
  pub interval : ℤ
  pub stop_ch : Option ℕ
  pub gen : ℕ
  pub stopped : Bool

-- 50 milliseconds.
abbrev pub default_interval : ℤ
default_interval = pos 50_000_000

unfoldable pub new_presence : ℤ → Presence
new_presence interval = record {
  cached = zero_activity;
  has_source = false;
  last_notified = zero_activity;
  subscribers = [];
  next_sub_id = 0;
  timer = none;
  interval = if leb_ℤ interval (pos 0) then default_interval else interval;
  stop_ch = none;
  gen = 0;
  stopped = false;
}

-- `Start`, given the channel that it makes.
pub start : Presence → ℕ → Presence
start p channel = record p {
  stop_ch = some channel;
  stopped = false;
  has_source = false;
  last_notified = zero_activity;
}

-- `Stop`, up to its wait for `run` to return, with the channel that it closes.
pub stop : Presence → Presence × Option ℕ
stop p = (record p { stopped = true; stop_ch = none }, p.stop_ch)

-- What `Update` does where the machine is not stopped: it stops the timer whose handle it holds, and
-- starts `timer`, which calls `flush` with the new generation.
unfoldable pub accept : Presence → Activity → ℕ → Presence
accept p activity timer = record p {
  cached = clone activity;
  has_source = true;
  gen = (p.gen + 1) % 2 ^ 64;
  timer = some timer;
}

-- `Update`. Where it is accepted, the second part is the handle of the timer that it stops, if any.
unfoldable pub update : Presence → Activity → ℕ → Presence × Option (Option ℕ)
update p activity timer = if p.stopped then (p, none) else (accept p activity timer, some p.timer)

pub current : Presence → Activity
current p = clone p.cached

pub snapshot : Presence → PresenceSnapshot
snapshot p =
    if not p.has_source
    then record { source = source_none; activity = none }
    else record { source = source_ipc; activity = some (clone p.cached) }

-- The id of the new subscriber is what its cancel function deletes.
pub subscribe : Presence → Presence × ℕ
subscribe p =
    let id = (p.next_sub_id + 1) % 2 ^ 64 in
    (record p { next_sub_id = id; subscribers = id ∷ p.subscribers }, id)

-- `flush`, with the activity that it passes to `notify`, if it does.
unfoldable pub flush : Presence → ℕ → Presence × Option Activity
flush p gen =
    if not (gen == p.gen) || p.stopped
    then (p, none)
    else if equals p.cached p.last_notified
    then (record p { timer = none }, none)
    else (record p { last_notified = clone p.cached; timer = none }, some (clone p.cached))

-- The end of `run`, with the timer that it stops.
pub run_end : Presence → Presence × Option ℕ
run_end p = (record p { timer = none }, p.timer)
