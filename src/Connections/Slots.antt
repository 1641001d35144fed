-- ===== src/Connections/Slots.antt =====
-- The slots of internal/server/ws.go: each open connection holds one, and no more are given out
-- than the configured maximum.
use discord_proxy_rpc.Base.{
  ℕ, ◌≤◌, ◌≡◌, refl, true, false, Option, none, some, List, [], ◌∷◌, ℤ, pos_part, arith,
}
use discord_proxy_rpc.Connections.{
  ConnectionTracker, new_connection_tracker, try_add, remove, Upgrade, release, upgrade, reserve,
  serve_http, track_disconnect, Call, arrives, disconnects, World, WsHandler, unauthorized, step,
  run, start,
}

-- The count is the connections that are open, within the limit.
abbrev Accounts : ℤ → World → Option ConnectionTracker → Type 0
Accounts max_conn w none = ⊥
Accounts max_conn w (some ct) =
    (ct.max_conn ≡ max_conn) × (ct.count ≡ w.open_conns) × (ct.count ≤ pos_part max_conn)

abbrev pub IsAccounted : ℤ → World → Type 0
IsAccounted max_conn w = Accounts max_conn w w.handler.tracker

IsAccounted-start : (max_conn : ℤ) → IsAccounted max_conn (start max_conn)
unfolding start new_connection_tracker
IsAccounted-start max_conn = (refl, refl, omega arith)

-- A world by its parts.
abbrev world : Option ConnectionTracker → ℕ → World
world tracker conns = record { handler = record { tracker = tracker }; open_conns = conns }

step-world :
    (max_conn : ℤ) (tracker : Option ConnectionTracker) (conns : ℕ) (c : Call)
    → IsAccounted max_conn (world tracker conns)
    → IsAccounted max_conn (step (world tracker conns) c)
unfolding step serve_http reserve upgrade release try_add remove track_disconnect
step-world max_conn none conns c h = elim h [ ]
step-world max_conn (some ct) conns (arrives (some false) u) h = ground arith
step-world max_conn (some ct) conns (arrives (some true) u) h = ground arith
step-world max_conn (some ct) conns (arrives none u) h = ground arith
step-world max_conn (some ct) conns disconnects h = ground arith

run-IsAccounted :
    (max_conn : ℤ) (w : World) (cs : List Call)
    → IsAccounted max_conn w
    → IsAccounted max_conn (run w cs)
unfolding run
run-IsAccounted max_conn w [] h = h
run-IsAccounted max_conn w (c ∷ cs) h =
    run-IsAccounted max_conn (step w c) cs (step-world max_conn w.handler.tracker w.open_conns c h)

-- After any requests, whose upgrades may fail or panic, and any disconnects, the tracker counts the
-- open connections exactly, and they are at most the configured maximum.
pub slots-IsAccounted :
    (max_conn : ℤ) (cs : List Call) → IsAccounted max_conn (run (start max_conn) cs)
slots-IsAccounted max_conn cs =
    run-IsAccounted max_conn (start max_conn) cs (IsAccounted-start max_conn)

-- A request that the auth function refuses takes no slot.
pub serve_http-refused :
    (h : WsHandler) (u : Upgrade) → serve_http h (some false) u ≡ (h, unauthorized)
unfolding serve_http
serve_http-refused h u = refl
