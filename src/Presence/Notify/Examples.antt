-- ===== src/Presence/Notify/Examples.antt =====
-- Two updates told of at once.
use discord_proxy_rpc.Base.{Bool, ◌≡◌, refl, List, [], ◌∷◌, codes}
use discord_proxy_rpc.Activity.{Activity, zero_activity}
use discord_proxy_rpc.Presence.Notify.{
  Call, new_notifier, Event, notifies, goes_on, ends, step, run,
}
use discord_proxy_rpc.Presence.Notify.Told.{IsBounded, settled, all_wanted, each_told_once}

abbrev chess : Activity
chess = record zero_activity { details = codes "Chess" }

abbrev go_game : Activity
go_game = record zero_activity { details = codes "Go" }

abbrev overtaken : List Event
overtaken =
    notifies (1 ∷ []) chess
    ∷ goes_on 0
    ∷ goes_on 0
    ∷ notifies (1 ∷ []) go_game
    ∷ goes_on 0
    ∷ ends 0
    ∷ ends 0
    ∷ []

-- The subscriber is told of the older activity last.
older_told_last :
    (run new_notifier overtaken).told
    ≡ record { subscriber = 1; activity = chess }
      ∷ record { subscriber = 1; activity = go_game }
      ∷ []
unfolding run step
older_told_last = refl

each_told_once_example :
    IsBounded (run new_notifier overtaken)
    × ((p : Call → Bool) → settled p (run new_notifier overtaken) ≡ all_wanted p overtaken)
each_told_once_example = each_told_once overtaken
