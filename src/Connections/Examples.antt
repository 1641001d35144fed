-- ===== src/Connections/Examples.antt =====
-- One slot, contended, and the theorem at it.
use discord_proxy_rpc.Base.{◌≡◌, refl, true, false, none, some, List, [], ◌∷◌, pos}
use discord_proxy_rpc.Connections.{
  fails, succeeds, Call, arrives, disconnects, step, run, start, serve_http, reserve, upgrade,
  release, try_add, remove, track_disconnect, new_connection_tracker,
}
use discord_proxy_rpc.Connections.Slots.{IsAccounted, slots-IsAccounted}

abbrev day : List Call
day =
    arrives none fails
    ∷ arrives (some true) succeeds
    ∷ arrives none succeeds
    ∷ arrives (some false) succeeds
    ∷ disconnects
    ∷ arrives none succeeds
    ∷ []

day_ends : (run (start (pos 1)) day).open_conns ≡ 1
unfolding run step start serve_http reserve upgrade release try_add remove track_disconnect
    new_connection_tracker
day_ends = refl

slots-IsAccounted_example : IsAccounted (pos 1) (run (start (pos 1)) day)
slots-IsAccounted_example = slots-IsAccounted (pos 1) day
