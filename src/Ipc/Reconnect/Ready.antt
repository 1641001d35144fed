-- ===== src/Ipc/Reconnect/Ready.antt =====
-- What Reconnect of internal/ipc/reconnect.go leaves behind when it returns nil.
use discord_proxy_rpc.Base.{
  ℕ, zero, suc, ◌+◌, ◌≤◌, ◌<◌, ◌≡◌, ◌≢◌, refl, true, false, not, Option, none, some, is_some, Text,
  if_elim, if_cases, Result, ok, err, leb, arith,
}
use discord_proxy_rpc.Ipc.{
  Client, connected, reconnecting, Network, set_state, connect, opened, try_paths, ReadyEvent,
  connecting, disconnected,
}
use discord_proxy_rpc.Ipc.Reconnect.{
  ReconnectManager, Wait, ctx_done, stopped, fired, Ending, returns_nil, ctx_error, max_attempts,
  auto_disabled, reset, turn, ended_or, loop, reconnect, try_connect, count_attempt,
  max_reconnect_attempts,
}

-- Connected, with an open channel.
abbrev pub IsReady : Client → Type 0
IsReady c = (c.state ≡ connected) × (is_some c.conn ≡ true) × (is_some c.events ≡ true)

-- A client that is ready, and attempts counted from 0.
abbrev pub EndIsReady : ReconnectManager → Ending → Type 0
EndIsReady v returns_nil = IsReady v.client × (v.attempt ≡ 0)
EndIsReady v ctx_error = Unit
EndIsReady v max_attempts = Unit
EndIsReady v auto_disabled = Unit

-- A turn that goes on has counted its attempt.
abbrev TurnIsGood : ReconnectManager → ReconnectManager × Option Ending → Type 0
TurnIsGood rm (v, none) = (v.attempt ≡ rm.attempt + 1) × (rm.attempt < 50)
TurnIsGood rm (v, some e) = EndIsReady v e

count_attempt-TurnIsGood :
    (rm : ReconnectManager) (net : Network) (channel : ℕ)
    → rm.attempt < 50
    → TurnIsGood rm (count_attempt rm (connect net rm.client channel))
unfolding connect reset
count_attempt-TurnIsGood rm net channel h = tried (try_paths net none rm.client.paths)
  where
    tried :
        (r : Result (Option Text) (Text × Option ReadyEvent))
        → TurnIsGood rm (
            count_attempt rm (elim r [
              | err e ↦ (set_state (set_state rm.client connecting) disconnected, some e)
              | ok o ↦ (opened (set_state rm.client connecting) o.0 o.1 channel, none)
            ]))
    tried (err e) = (refl, h)
    tried (ok o) = ((refl, refl, refl), refl)

-- No attempt is made because of `Stop`.
abbrev pub NotStopped : Wait → Type 0
NotStopped wait = wait ≢ stopped

turn-TurnIsGood :
    (rm : ReconnectManager) (wait : Wait) → NotStopped wait → TurnIsGood rm (turn rm wait)
unfolding turn try_connect
turn-TurnIsGood rm wait k =
    if_cases (TurnIsGood rm) (leb max_reconnect_attempts rm.attempt) (λ l. tt)
      (λ l. waited wait (ground arith) k)
  where
    waited :
        (w : Wait)
        → rm.attempt < 50
        → NotStopped w
        → TurnIsGood rm (elim w [
          | ctx_done ↦ (record rm { client = set_state rm.client reconnecting }, some ctx_error)
          | stopped ↦ (record rm { client = set_state rm.client reconnecting }, some returns_nil)
          | fired net channel ↦
              try_connect (record rm { client = set_state rm.client reconnecting }) net channel
        ])
    waited ctx_done h n = tt
    waited stopped h n = absurd (n refl)
    waited (fired net channel) h n =
        count_attempt-TurnIsGood (record rm { client = set_state rm.client reconnecting }) net
          channel h

-- It returned, and where it returned nil the client is ready.
abbrev pub ReturnsReady : Option (ReconnectManager × Ending) → Type 0
ReturnsReady none = true ≡ false
ReturnsReady (some (v, e)) = EndIsReady v e

ended-ReturnsReady :
    (rm : ReconnectManager) (t : ReconnectManager × Option Ending)
    (rest : Option (ReconnectManager × Ending))
    → TurnIsGood rm t
    → (t.0.attempt ≡ rm.attempt + 1 → rm.attempt < 50 → ReturnsReady rest)
    → ReturnsReady (ended_or t rest)
ended-ReturnsReady rm (v, none) rest (a, h) f = f a h
ended-ReturnsReady rm (v, some e) rest g f = g

-- From any number of attempts within fifty, fifty-one turns are enough, and where Reconnect is not
-- stopped and returns nil it leaves a ready client and the attempts counted from 0.
loop-ReturnsReady :
    (fuel : ℕ) (rm : ReconnectManager) (waits : ℕ → Wait)
    → ((n : ℕ) → NotStopped (waits n))
    → rm.attempt ≤ 50
    → 51 ≤ rm.attempt + fuel
    → ReturnsReady (loop fuel rm waits)
unfolding loop
loop-ReturnsReady zero rm waits k h l = absurd (omega (arith, h, l))
loop-ReturnsReady (suc fuel) rm waits k h l =
    ended-ReturnsReady rm (turn rm (waits rm.attempt)) _
      (turn-TurnIsGood rm (waits rm.attempt) (k rm.attempt))
      (λ a b.
        loop-ReturnsReady fuel (turn rm (waits rm.attempt)).0 waits k (omega (arith, a, b))
          (omega (arith, a, l)))

pub reconnect-ReturnsReady :
    (rm : ReconnectManager) (waits : ℕ → Wait)
    → ((n : ℕ) → NotStopped (waits n))
    → rm.attempt ≤ 50
    → ReturnsReady (reconnect 51 rm waits)
unfolding reconnect
reconnect-ReturnsReady rm waits k h =
    if_elim ReturnsReady (not rm.auto_reconnect) tt
      (loop-ReturnsReady 51 rm waits k h (omega arith))
