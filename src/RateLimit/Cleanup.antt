-- ===== src/RateLimit/Cleanup.antt =====
-- The cleanup goroutine of internal/server/ratelimit.go, from NewRateLimiter to Stop.
use discord_proxy_rpc.Base.{
  ◌≡◌, refl, Bool, true, false, not, ◌&&◌, Bool-cases, inl, inr, ℤ, pos, ltb_ℤ, if◌then◌else◌,
  Option, none, some, arith,
}

-- Whether the goroutine runs, and which of the channels `stop` and `done` are closed.
pub record Cleaner : Type 0 where
  pub is_running : Bool
  pub stop_closed : Bool
  pub done_closed : Bool

-- NewRateLimiter starts the goroutine only for a positive window.
new_cleaner : ℤ → Cleaner
new_cleaner window = record {
  is_running = ltb_ℤ (pos 0) window;
  stop_closed = false;
  done_closed = not (ltb_ℤ (pos 0) window);
}

-- The first part of Stop, which sync.Once runs once; the second waits for `done`.
close_stop : Cleaner → Cleaner
close_stop c = record c { stop_closed = true }

-- The select of the loop finds `stop` closed, and the deferred close of `done`; a second close is a
-- panic, `none`.
cleanup_ends : Cleaner → Option Cleaner
cleanup_ends c =
    if c.is_running && c.stop_closed
    then (if c.done_closed
        then none
        else some (record c { is_running = false; done_closed = true }))
    else some c

-- What happens: a call of Stop, or the goroutine sees its channel.
data CleanerEvent : Type 0 where
  stops sees_stop : CleanerEvent

step_cleaner : Cleaner → CleanerEvent → Option Cleaner
step_cleaner c stops = some (close_stop c)
step_cleaner c sees_stop = cleanup_ends c

-- The goroutine runs exactly until `done` is closed.
abbrev IsPaired : Cleaner → Type 0
IsPaired c = c.done_closed ≡ not c.is_running

new_cleaner-IsPaired : (window : ℤ) → IsPaired (new_cleaner window)
unfolding new_cleaner
new_cleaner-IsPaired window = refl

-- No step panics, and each keeps the pair.
step_cleaner-IsPaired :
    (c : Cleaner) (e : CleanerEvent)
    → IsPaired c
    → (v : Cleaner) × (step_cleaner c e ≡ some v) × IsPaired v
unfolding step_cleaner close_stop cleanup_ends
step_cleaner-IsPaired c stops i = (close_stop c, refl, i)
step_cleaner-IsPaired c sees_stop i = elim (Bool-cases (c.is_running && c.stop_closed)) [
  | inl h ↦ (record c { is_running = false; done_closed = true }, ground arith, refl)
  | inr h ↦ (c, ground arith, i)
]

-- After a Stop one step of the goroutine is enough for the wait to end.
stop_returns :
    (c : Cleaner)
    → IsPaired c
    → (v : Cleaner) × (step_cleaner (close_stop c) sees_stop ≡ some v) × (v.done_closed ≡ true)
unfolding step_cleaner close_stop cleanup_ends
stop_returns c i = elim (Bool-cases c.is_running) [
  | inl h ↦
      (record c { stop_closed = true; is_running = false; done_closed = true }, ground arith, refl)
  | inr h ↦ (close_stop c, ground arith, ground arith)
]
