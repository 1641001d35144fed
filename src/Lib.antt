-- ===== src/Lib.antt =====
-- The Go program discord-proxy-rpc: a proxy that reads the Rich Presence of the local Discord
-- client and serves it to a LAN over WebSocket and HTTP.
--
-- A frame of the IPC socket is parsed (internal/ipc/parser.go) into the shared payload
-- (pkg/types/activity.go) and handed to the presence cache (internal/state/presence.go), which
-- tells its subscribers once updates have paused; the server (internal/server/) pushes what the
-- cache tells to its WebSocket clients, whose upgrades are limited by rate and by number.
--
-- Base: the shared names, Boolean tests, lists measured by native numbers, signed integers, Go
--   strings as lists of bytes (Text) and the functions of strings and strconv that are used (Strings,
--   Decimal), Go maps as association lists (Map), results with an error.
-- Activity: pkg/types/activity.go. Pointers and slices that may be nil are options. Clone is
--   the copy that it makes field by field, as a value. Activity.Normal: what Equals means.
-- Parser: internal/ipc/parser.go. The struct that gopresence declares is the record of the fields
--   that the parser reads; json.Unmarshal into it is a parameter.
-- Presence: internal/state/presence.go, one function per method, with what it does to timers and
--   channels as a result. Presence.World puts the cache among its timers, the callbacks that wait
--   for the lock and the run goroutines: a history is a list of events, each of which holds
--   the lock, but that a flush that has unlocked calls notify in an event of its own.
--   Presence.Delivery, Presence.Changes, Presence.Handed and Presence.Restart prove.
--   Presence.Notify: notify, at most fifty of whose goroutines run at once; Presence.Notify.Told
--   proves.
-- RateLimit: RateLimiter of internal/server/ratelimit.go. The two readings of the clock in Allow
--   are two arguments. RateLimit.Visits has one call, RateLimit.Window, RateLimit.Eviction and
--   RateLimit.Steady have sequences of calls; RateLimit.Cleanup has the life of the cleanup
--   goroutine. Metrics: internal/server/metrics.go.
-- Connections: ConnectionTracker of internal/server/ratelimit.go with WSHandler of
--   internal/server/ws.go, over sequences of requests and disconnects.
-- Messages: internal/server/messages.go, with the JSON codec as parameter. Messages.Accepts: which
--   messages are valid.
-- Hub: internal/server/hub.go. A client's uuid stands for its pointer into a store of every client
--   made; a double close or a send on a closed channel is the outcome `panic`. Hub.World puts the
--   hub among the goroutines that use it; Hub.Updates and Hub.Sound have the lemmas, and
--   Hub.Broadcast, Hub.Safety and Hub.Race prove. Hub.Queue: Register, Unregister and Broadcast,
--   which hand over to Run, and the queue of 256 broadcasts; Hub.Pump: WritePump, from a client's queue of
--   256 messages to the frames of its connection. Their Order and Hub.Pump.Drain prove.
-- Ipc: internal/ipc/client.go, with gopresence's dial, login and frame parser as parameters.
--   Ipc.Socket: SendRaw. Ipc.Connecting: the paths that Connect tries. Ipc.Session: Run as a machine of reads, the
--   consumer's takes and the wait for room; Ipc.Session.Order proves. Ipc.Reconnect:
--   internal/ipc/reconnect.go; its loop runs on fuel, and one turn more than the attempts that are
--   left is enough. Ipc.Reconnect.Backoff and Ipc.Reconnect.Attempts prove.
--   Ipc.Supervisor: RunWithReconnect over turns, with fuel for fifty-one attempts in each
--   Reconnect; Ipc.Reconnect.Ready and Ipc.Supervisor.Sessions prove.
--   Ipc.HealthCheck: internal/ipc/healthcheck.go, whose loop keeps a history that only the proof
--   reads; Ipc.HealthCheck.Answers proves.
-- Auth: internal/server/auth.go over a record of what it reads of a request. Auth.Base64:
--   encoding/base64 as it is used. Auth.Tokens proves.
-- Http: internal/server/http.go with its errors and the metrics route. An answer is a value, and the
--   clock, the getters and net.SplitHostPort are the fields of a record `Moment`. Http.Gate and
--   Http.Upgrades prove.
-- Tui: internal/tui/. Tui has the model and Update of model.go; a command that Update returns is a
--   value. Tui.Pending counts the commands that run and lets them yield messages; Tui.Links and
--   Tui.Single prove. Tui.Admitted puts the dial of client.go before the server of Auth and
--   Messages. Tui.View and Tui.Render: what is shown, Tui.Addr: addr.go, Tui.Backend:
--   client.go, where a connection is a handle.
-- Config: internal/config/config.go. Config.Load: LoadConfig and SetupLogger, with what viper reads
--   and zap builds as parameters. Config.Digits proves.
-- Proxy: cmd/proxy/main.go, its event loop as a machine of what it waits for. Proxy.States proves;
--   Proxy.Relay follows a frame through the loop, the cache, the hub and the dashboard, where the
--   codecs keep the activity. Proxy.Start: what main needs to start.
-- Mdns: internal/mdns/, where a registration is a handle. Platform: internal/platform/ipc_path.go.
--   Capture: cmd/ipc-capture/main.go; Capture.Session has `capture` with its output, Capture.Summary
--   what is printed. Mdns.Registered, Platform.Distinct, Capture.Counts, Capture.Session.Keeps and
--   Capture.Summary.Printed prove.
-- Consumer: examples/consumer/; Consumer.Session: one session of consume. Consumer.Delays and
--   Tui.Backoff prove of the delays of the two clients.
-- Each component's Examples module has tests, and the theorems at concrete inputs.
--
-- Counters of type uint64 wrap at 2 ^ 64. Counters of type int that a limit guards are numbers:
-- the visitor's count stays below the rate, the tracker's count within the maximum. Time is a
-- number of nanoseconds on the monotonic clock; settings that may be negative are signed. The
-- loop of Reconnect takes fuel, and so do the trimming of a string, for which its length is enough,
-- and the printing of a number, for which twenty digits are enough below 2 ^ 64.
--
-- Not modelled: logging, the network, the HTTP, WebSocket, Prometheus, viper, zeroconf and terminal
-- libraries, which are parameters or events where the model meets them; setupEnv, which names
-- environment variables to viper; flag parsing; the shutdown of main as a whole; and the web
-- dashboard, which is JavaScript.
pub mod Base
pub mod Activity
pub mod Parser
pub mod RateLimit
pub mod Connections
pub mod Presence
pub mod Messages
pub mod Hub
pub mod Ipc
pub mod Auth
pub mod Http
pub mod Tui
pub mod Config
pub mod Proxy
pub mod Mdns
pub mod Platform
pub mod Capture
pub mod Metrics
pub mod Consumer
