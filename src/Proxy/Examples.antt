-- ===== src/Proxy/Examples.antt =====
-- A history of the event loop.
use discord_proxy_rpc.Base.{
  ◌≡◌, refl, true, false, Option, none, some, List, [], ◌∷◌, Text, codes, pos,
}
use discord_proxy_rpc.Parser.{SourceActivity}
use discord_proxy_rpc.Presence.{new_presence}
use discord_proxy_rpc.Ipc.Session.{Event}
use discord_proxy_rpc.Proxy.{begin, Action, finds, takes, closes, cancels, take_event, step_in, run}
use discord_proxy_rpc.Proxy.States.{
  LoopIsAlternating, told_connected, told_reconnecting, states_alternate,
}

abbrev no_activity : Text → Option SourceActivity
no_activity raw = none

-- The event of a frame that ParseFrame refuses.
abbrev unparsed : Event
unparsed = record { opcode = pos 1; frame = none; error = some (codes "invalid character") }

-- The session goes on after such an event, and its channel is found again.
abbrev one_session : List Action
one_session = finds false ∷ finds true ∷ takes unparsed ∷ finds true ∷ closes ∷ cancels ∷ []

-- The loop tells its clients of two sessions where there was one.
told_twice :
    (run no_activity (begin (new_presence (pos 0))) one_session).broadcasts
    ≡ told_connected ∷ told_reconnecting ∷ told_connected ∷ told_reconnecting ∷ []
unfolding run begin step_in take_event
told_twice = refl

states_alternate_example :
    LoopIsAlternating (run no_activity (begin (new_presence (pos 0))) one_session)
states_alternate_example = states_alternate no_activity (new_presence (pos 0)) one_session
