-- ===== src/Presence/Notify.antt =====
-- notify of internal/state/presence.go: each subscriber is told by a goroutine of its own, of which
-- a semaphore lets so many run at once.
pub mod Counts
pub mod Told
mod Examples
use discord_proxy_rpc.Base.{
  ℕ, zero, suc, ◌+◌, Bool, true, false, Option, none, some, List, [], ◌∷◌, ◌++◌, ltb, length,
  if◌then◌else◌,
}
use discord_proxy_rpc.Activity.{Activity}

abbrev pub max_concurrent_callbacks : ℕ
max_concurrent_callbacks = 50

-- A subscriber is to be told of an activity.
pub record Call : Type 0 where
  pub subscriber : ℕ
  pub activity : Activity

-- The calls of notify that have not returned, each with the goroutines that it has still to start;
-- the goroutines that run; and the calls of subscribers so far, newest first.
pub record Notifier : Type 0 where
  pub callers : List (List Call)
  pub in_flight : List Call
  pub told : List Call

abbrev pub new_notifier : Notifier
new_notifier = record { callers = []; in_flight = []; told = [] }

-- The subscribers are copied under their lock when notify is called.
abbrev pub calls_of : List ℕ → Activity → List Call
calls_of [] activity = []
calls_of (s ∷ ss) activity = record { subscriber = s; activity = activity } ∷ calls_of ss activity

-- The element at an index, and the others.
abbrev pub pick {ℓ} : {A : Type ℓ} → ℕ → List A → Option (A × List A)
pick n [] = none
pick zero (x ∷ xs) = some (x, xs)
pick (suc n) (x ∷ xs) =
    let rest = pick n xs in elim rest [ none ↦ none | some r ↦ some (r.0, x ∷ r.1) ]

-- A caller gets the semaphore and starts its next goroutine, or has none left and returns.
abbrev pub start_next : Notifier → Bool → List Call → List (List Call) → Notifier
start_next n has_room [] others = record n { callers = others }
start_next n has_room (c ∷ cs) others =
    if has_room then record n { callers = cs ∷ others; in_flight = c ∷ n.in_flight } else n

pub data Event : Type 0 where
  notifies : List ℕ → Activity → Event
  -- The caller at an index goes on, or the goroutine at an index calls its subscriber and ends, even
  -- if the subscriber panics.
  goes_on ends : ℕ → Event

unfoldable pub step : Notifier → Event → Notifier
step n (notifies subscribers activity) = record n {
  callers = calls_of subscribers activity ∷ n.callers;
}
step n (goes_on i) = elim (pick i n.callers) [
  | none ↦ n
  | some r ↦ start_next n (ltb (length n.in_flight) max_concurrent_callbacks) r.0 r.1
]
step n (ends i) = elim (pick i n.in_flight) [
  | none ↦ n
  | some r ↦ record n { in_flight = r.1; told = r.0 ∷ n.told }
]

unfoldable pub run : Notifier → List Event → Notifier
run n [] = n
run n (e ∷ es) = run (step n e) es
