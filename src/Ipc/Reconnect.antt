-- ===== src/Ipc/Reconnect.antt =====
-- internal/ipc/reconnect.go: reconnection with a doubling interval and at most fifty attempts.
pub mod Backoff
pub mod Attempts
pub mod Ready
use discord_proxy_rpc.Base.{
  to_int64, ℕ, zero, suc, ◌+◌, ◌-◌, ◌*◌, ◌%◌, ◌^◌, ◌≡◌, Bool, true, false, not, Option, none, some,
  List, [], ◌∷◌, Text, ltb, leb, ◌==◌, ℤ, pos, negsuc, ltb_ℤ, if◌then◌else◌,
}
use discord_proxy_rpc.Ipc.{Client, Network, connect, set_state, reconnecting}

abbrev pub max_reconnect_attempts : ℕ
max_reconnect_attempts = 50

-- `value *= 2` on an int64.
abbrev pub double : ℤ → ℤ
double (pos n) = to_int64 (2 * n)
double (negsuc n) = to_int64 (2 ^ 65 - (2 * n + 2))

-- The loop of `cappedDouble`.
unfoldable pub double_below : ℤ → ℤ → ℕ → ℤ
double_below value cap zero = value
double_below value cap (suc times) =
    let rest = double_below (double value) cap times in if ltb_ℤ value cap then rest else value

unfoldable pub capped_double : ℤ → ℤ → ℕ → ℤ
capped_double value cap times =
    let v = double_below value cap times in if ltb_ℤ cap v then cap else v

pub record ReconnectManager : Type 0 where
  pub client : Client
  pub base_interval : ℤ
  pub max_interval : ℤ
  pub auto_reconnect : Bool
  pub attempt : ℕ

unfoldable pub new_reconnect_manager : Client → ℤ → ℤ → Bool → ReconnectManager
new_reconnect_manager client base_interval max_interval auto_reconnect = record {
  client = client;
  base_interval = base_interval;
  max_interval = max_interval;
  auto_reconnect = auto_reconnect;
  attempt = 0;
}

-- The float arithmetic that spreads an interval by a tenth is a parameter.
pub next_interval : (ℤ → ℤ) → ReconnectManager → ℤ
next_interval jitter rm = jitter (capped_double rm.base_interval rm.max_interval rm.attempt)

pub reset : ReconnectManager → ReconnectManager
reset rm = record rm { attempt = 0 }

-- How the select of one attempt ends: the context is cancelled, `Stop` closed the channel, or the
-- timer fired, and then what the network does with `Connect`, and the channel that it makes.
pub data Wait : Type 0 where
  ctx_done stopped : Wait
  fired : Network → ℕ → Wait

-- What `Reconnect` returns: nil, the context's error, or one of its own.
pub data Ending : Type 0 where
  returns_nil ctx_error max_attempts auto_disabled : Ending

-- After the timer fired: a failed attempt is counted, a successful one ends the loop.
abbrev pub count_attempt :
    ReconnectManager → Client × Option (Option Text) → ReconnectManager × Option Ending
count_attempt rm (c, some e) = (record rm { client = c; attempt = rm.attempt + 1 }, none)
count_attempt rm (c, none) = (reset (record rm { client = c }), some returns_nil)

try_connect : ReconnectManager → Network → ℕ → ReconnectManager × Option Ending
try_connect rm net channel = count_attempt rm (connect net rm.client channel)

-- One turn of the loop, with its end, if it ends.
pub turn : ReconnectManager → Wait → ReconnectManager × Option Ending
turn rm wait =
    if leb max_reconnect_attempts rm.attempt
    then (rm, some max_attempts)
    else let rm' = record rm { client = set_state rm.client reconnecting } in
      elim wait [
        | ctx_done ↦ (rm', some ctx_error)
        | stopped ↦ (rm', some returns_nil)
        | fired net channel ↦ try_connect rm' net channel
      ]

-- The end of a turn, or what follows it.
abbrev pub ended_or :
    ReconnectManager × Option Ending
    → Option (ReconnectManager × Ending)
    → Option (ReconnectManager × Ending)
ended_or (rm, some ending) rest = some (rm, ending)
ended_or (rm, none) rest = rest

-- The loop, on fuel; `none` is a loop that goes on.
pub loop : ℕ → ReconnectManager → (ℕ → Wait) → Option (ReconnectManager × Ending)
loop zero rm waits = none
loop (suc fuel) rm waits = let t = turn rm (waits rm.attempt) in ended_or t (loop fuel t.0 waits)

-- `Reconnect`, where `waits n` is what happens while `attempt` is n.
pub reconnect : ℕ → ReconnectManager → (ℕ → Wait) → Option (ReconnectManager × Ending)
reconnect fuel rm waits =
    let r = loop fuel rm waits in if not rm.auto_reconnect then some (rm, auto_disabled) else r
