-- ===== src/Metrics.antt =====
-- internal/server/metrics.go: what each gauge and counter reports. The registry and its exposition are
-- the Prometheus library's, and a float64 of a count is the count.
use discord_proxy_rpc.Base.{ℕ, ◌+◌, Option, none, some, Text, text_eq, if◌then◌else◌}
use discord_proxy_rpc.Messages.{state_connected}
use discord_proxy_rpc.RateLimit.{RateLimiter, rejections}
use discord_proxy_rpc.Hub.{Hub, client_count}

pub record Metrics : Type 0 where
  pub presence_sends : ℕ

new_metrics : Metrics
new_metrics = record { presence_sends = 0 }

-- RecordPresenceSend.
record_presence_send : Metrics → Metrics
record_presence_send m = record m { presence_sends = m.presence_sends + 1 }

ws_connected_clients : Hub → ℕ
ws_connected_clients h = client_count h

-- The getter returns the name of the client's state.
ipc_connected : Text → ℕ
ipc_connected state = if text_eq state state_connected then 1 else 0

rate_limit_rejections : Option RateLimiter → ℕ
rate_limit_rejections none = 0
rate_limit_rejections (some rl) = rejections rl
