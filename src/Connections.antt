-- ===== src/Connections.antt =====
-- ConnectionTracker of internal/server/ratelimit.go, and WSHandler of internal/server/ws.go, which
-- reserves a slot of it for each upgraded connection.
pub mod Slots
mod Examples
use discord_proxy_rpc.Base.{
  ℕ, suc, ◌+◌, ◌-◌, ◌<◌, ◌≡◌, Bool, true, false, not, ◌&&◌, Option, none, some, List, [], ◌∷◌, ℤ,
  pos, leb_ℤ, ltb, if◌then◌else◌,
}

-- The count starts at 0 and is only lowered when positive.
pub record ConnectionTracker : Type 0 where
  pub count : ℕ
  pub max_conn : ℤ

pub new_connection_tracker : ℤ → ConnectionTracker
new_connection_tracker max_conn = record { count = 0; max_conn = max_conn }

pub try_add : ConnectionTracker → ConnectionTracker × Bool
try_add ct =
    if leb_ℤ ct.max_conn (pos ct.count)
    then (ct, false)
    else (record ct { count = ct.count + 1 }, true)

pub remove : ConnectionTracker → ConnectionTracker
remove ct = if ltb 0 ct.count then record ct { count = ct.count - 1 } else ct

-- The handler's auth function is nil or gives a verdict on the request; its tracker may be nil.
pub record WsHandler : Type 0 where
  pub tracker : Option ConnectionTracker

-- What the upgrade does with a request that got its slot: it may fail or panic. The hand-over to the
-- pumps that follows does neither.
pub data Upgrade : Type 0 where
  fails panics : Upgrade
  succeeds : Upgrade

-- The answer: an API error of this status and code, what the upgrader itself wrote, or a connection
-- whose pumps and `trackDisconnect` run.
pub data Reply : Type 0 where
  unauthorized too_many_conns internal : Reply
  upgrader_wrote : Reply
  handed_over : Reply

-- The deferred `Remove`, which reads the flag `reserved`.
release : Bool → Option ConnectionTracker → Option ConnectionTracker
release reserved none = none
release reserved (some ct) = if reserved then some (remove ct) else some ct

-- From the upgrade on. `reserved` is cleared right after the upgrade, before the client is made.
upgrade : Option ConnectionTracker → Bool → Upgrade → Option ConnectionTracker × Reply
upgrade tracker reserved fails = (release reserved tracker, upgrader_wrote)
upgrade tracker reserved panics = (release reserved tracker, internal)
upgrade tracker reserved succeeds = (release false tracker, handed_over)

reserve : Option ConnectionTracker → Upgrade → Option ConnectionTracker × Reply
reserve none u = upgrade none false u
reserve (some ct) u =
    let (ct', added) = try_add ct in
    if not added then (some ct', too_many_conns) else upgrade (some ct') true u

-- ServeHTTP: `auth` is the verdict of the auth function, if there is one.
pub serve_http : WsHandler → Option Bool → Upgrade → WsHandler × Reply
serve_http h (some false) u = (h, unauthorized)
serve_http h _ u =
    let (tracker, reply) = reserve h.tracker u in (record { tracker = tracker }, reply)

-- trackDisconnect, once the client's Done channel is closed.
pub track_disconnect : WsHandler → WsHandler
track_disconnect h = elim h.tracker [ none ↦ h | some ct ↦ record { tracker = some (remove ct) } ]

-- The handler in time: requests, and the ends of connections that were handed over.
pub data Call : Type 0 where
  arrives : Option Bool → Upgrade → Call
  disconnects : Call

-- The handler with the number of connections that are open.
pub record World : Type 0 where
  pub handler : WsHandler
  pub open_conns : ℕ

abbrev opened : Reply → ℕ
opened handed_over = 1
opened _ = 0

-- A disconnect takes place only while a connection is open.
pub step : World → Call → World
step w (arrives auth u) =
    let (h, reply) = serve_http w.handler auth u in
    record { handler = h; open_conns = w.open_conns + opened reply }
step w disconnects =
    if ltb 0 w.open_conns
    then record w { handler = track_disconnect w.handler; open_conns = w.open_conns - 1 }
    else w

pub run : World → List Call → World
run w [] = w
run w (c ∷ cs) = run (step w c) cs

pub start : ℤ → World
start max_conn = record {
  handler = record { tracker = some (new_connection_tracker max_conn) };
  open_conns = 0;
}
