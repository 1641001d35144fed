-- ===== src/Presence/Examples.antt =====
-- A short life of the presence cache, and the theorems at it.
use discord_proxy_rpc.Base.{
  ◌≤◌, Bool, none, ◌≡◌, refl, true, false, List, [], ◌∷◌, codes, pos, text_eq, arith,
}
use discord_proxy_rpc.Activity.{Activity, zero_activity, equals, clone, source_none}
use discord_proxy_rpc.Presence.{new_presence, start, stop, run_end, accept, update, flush, snapshot}
use discord_proxy_rpc.Presence.World.{
  World, Event, starts, stops, updates, expires, flushes, notifies, run_ends, begin, contains,
  do_stop, do_run_end, finish_run, start_timer, expire, do_start, do_update, do_expire, do_flush,
  do_notify, run_flush, step, run,
}
use discord_proxy_rpc.Presence.Notify.Counts.{count}
use discord_proxy_rpc.Presence.Handed.{IsDelivered, passed_on, update_not_lost}
use discord_proxy_rpc.Presence.Changes.{
  AreChanges, reported, notifies_changes_only, snapshot-reported,
}
use discord_proxy_rpc.Presence.Restart.{silent_after_stop, restart_resends}

abbrev chess : Activity
chess = record zero_activity { details = codes "Chess" }

abbrev go_game : Activity
go_game = record zero_activity { details = codes "Go" }

-- Two updates in one interval, then a repeated one.
abbrev evening : List Event
evening =
    starts
    ∷ updates chess
    ∷ updates go_game
    ∷ expires 2
    ∷ flushes 2
    ∷ updates go_game
    ∷ expires 3
    ∷ flushes 3
    ∷ []

evening_told : (run (begin (pos 0)) evening).sent ≡ go_game ∷ []
unfolding run step begin new_presence do_start start do_update update accept start_timer do_expire
    expire do_flush run_flush flush equals clone text_eq
evening_told = refl

update_not_lost_example :
    IsDelivered (run (begin (pos 0)) evening)
    × ((p : Activity → Bool)
        → count p (run (begin (pos 0)) evening).sent ≤ passed_on p (run (begin (pos 0)) evening))
update_not_lost_example = update_not_lost (pos 0) evening

notifies_changes_only_example : AreChanges (run (begin (pos 0)) evening).sent
notifies_changes_only_example = notifies_changes_only (pos 0) evening

snapshot-reported_example :
    snapshot (run (begin (pos 0)) evening).presence
    ≡ reported (run (begin (pos 0)) evening).accepted
snapshot-reported_example = snapshot-reported (pos 0) evening

abbrev playing : World
playing = run (begin (pos 0)) (starts ∷ updates chess ∷ [])

silent_after_stop_example :
    let late : World = run (step playing stops) (expires 1 ∷ flushes 1 ∷ updates go_game ∷ []) in
    (late.sent ≡ playing.sent)
    × ((p : Activity → Bool) → passed_on p late ≡ passed_on p playing)
    × (late.presence.cached ≡ playing.presence.cached)
silent_after_stop_example =
    silent_after_stop playing (expires 1 ∷ flushes 1 ∷ updates go_game ∷ []) (omega arith)

-- A flush that has unlocked calls notify after Stop has returned.
told_after_stop :
    (run playing (expires 1 ∷ flushes 1 ∷ stops ∷ run_ends 0 ∷ notifies 0 ∷ [])).notified
    ≡ chess ∷ []
unfolding run step begin new_presence do_start start do_update update accept start_timer do_expire
    expire do_flush run_flush flush equals clone text_eq do_stop stop do_run_end finish_run run_end
    do_notify
told_after_stop = refl

chess_differs : equals chess zero_activity ≡ false
unfolding equals text_eq
chess_differs = refl

-- The timer of the update has run out.
abbrev due : World
due = run (begin (pos 0)) (starts ∷ updates chess ∷ expires 1 ∷ [])

due_waits : contains due.presence.gen due.waiting ≡ true
unfolding run step begin new_presence do_start start do_update update accept start_timer do_expire
    expire
due_waits = refl

due_differs : equals due.presence.cached zero_activity ≡ false
unfolding run step begin new_presence do_start start do_update update accept start_timer do_expire
    expire equals clone text_eq
due_differs = refl

restart_resends_example :
    let v : World = run due (stops ∷ run_ends 0 ∷ starts ∷ flushes due.presence.gen ∷ []) in
    (v.sent ≡ due.presence.cached ∷ [])
    × (v.unlocked ≡ due.presence.cached ∷ due.unlocked)
    × (snapshot v.presence ≡ record { source = source_none; activity = none })
restart_resends_example = restart_resends due 0 due_waits due_differs
