-- ===== src/Proxy.antt =====
-- cmd/proxy/main.go: the loop that carries events of the IPC session to the presence cache and to
-- the hub, and the options of the server.
pub mod States
pub mod Relay
mod Start
mod Examples
use discord_proxy_rpc.Base.{
  ℕ, suc, ◌+◌, ◌≡◌, Bool, true, false, not, ◌&&◌, Option, none, some, is_some, List, [], ◌∷◌, ◌++◌,
  Text, ℤ, int_eq, if◌then◌else◌, Result, ok, err,
}
use discord_proxy_rpc.Activity.{Activity, PresenceSnapshot, source_ipc}
use discord_proxy_rpc.Messages.{
  ServerMessage, MessageError, new_state_message, new_presence_message, state_connected,
  state_reconnecting,
}
use discord_proxy_rpc.Parser.{SourceActivity, ParseError, parse_activity_frame}
use discord_proxy_rpc.Presence.{Presence}
use discord_proxy_rpc.Presence
use discord_proxy_rpc.Ipc.Session.{Event, op_frame}
use discord_proxy_rpc.RateLimit.{new_rate_limiter}
use discord_proxy_rpc.Connections.{new_connection_tracker}
use discord_proxy_rpc.Http.{
  ServerOption, with_auth, with_ws_path, with_rate_limiter, with_connection_tracker, with_metrics,
  Server, new_server,
}
use discord_proxy_rpc.Config.{Config}
use discord_proxy_rpc.Hub.Queue.{enqueue}

-- runIPCEventLoop: it polls for the channel of a session, ranges over one, or has returned.
pub data Phase : Type 0 where
  polling ranging returned : Phase

-- The loop with the presence cache, the messages that it broadcast, and the timers that it has used
-- up.
pub record Loop : Type 0 where
  pub phase : Phase
  pub presence : Presence
  pub broadcasts : List ServerMessage
  pub next_timer : ℕ

pub begin : Presence → Loop
begin p = record { phase = polling; presence = p; broadcasts = []; next_timer = 0 }

-- What happens: Events returns a channel or nil, an event is taken from the channel, the channel is
-- closed, or the context is cancelled.
pub data Action : Type 0 where
  finds : Bool → Action
  takes : Event → Action
  closes cancels : Action

abbrev pub tell : Loop → Text → Phase → Loop
tell l status phase = record l {
  phase = phase;
  broadcasts = l.broadcasts ++ new_state_message status [] ∷ [];
}

-- The parser of the package gopresence is a parameter.
module _ (unmarshal : Text → Option SourceActivity) where
  abbrev pub parsed : Loop → Result ParseError Activity → Loop
  parsed l (err e) = l
  parsed l (ok activity) = record l {
    presence = (Presence.update l.presence activity l.next_timer).0;
    next_timer = l.next_timer + 1;
  }

  pub take_event : Loop → Event → Loop
  take_event l event =
      if is_some event.error
      then tell l state_reconnecting polling
      else if int_eq event.opcode op_frame && is_some event.frame
      then parsed l (parse_activity_frame unmarshal event.frame)
      else l

  -- A context that is done is seen only while the loop polls.
  pub step_in : Loop → Phase → Action → Loop
  step_in l polling (finds true) = tell l state_connected ranging
  step_in l polling (finds false) = l
  step_in l polling (takes event) = l
  step_in l polling closes = l
  step_in l polling cancels = record l { phase = returned }
  step_in l ranging (finds found) = l
  step_in l ranging (takes event) = take_event l event
  step_in l ranging closes = tell l state_reconnecting polling
  step_in l ranging cancels = l
  step_in l returned a = l

  pub run : Loop → List Action → Loop
  run l [] = l
  run l (a ∷ actions) = run (step_in l l.phase a) actions

-- What the subscriber of the presence cache broadcasts for an activity, unless it cannot be
-- marshalled.
unfoldable pub presence_update :
    (PresenceSnapshot → Option Text) → Activity → Result MessageError ServerMessage
presence_update marshal activity =
    new_presence_message marshal (record { source = source_ipc; activity = some activity })

-- The subscriber, which hands the message to the queue of the hub.
unfoldable pub publish :
    (PresenceSnapshot → Option Text) → List ServerMessage → Activity → List ServerMessage
publish marshal queue activity = elim (presence_update marshal activity) [
  | err e ↦ queue
  | ok m ↦ enqueue queue m
]

-- The options that `main` gives to the server.
unfoldable pub server_options : Config → List ServerOption
server_options cfg =
    with_ws_path cfg.server.ws_path
      ∷ with_rate_limiter
          (new_rate_limiter cfg.server.rate_limit_per_ip cfg.server.rate_limit_window)
      ∷ with_connection_tracker (new_connection_tracker cfg.server.max_ws_connections)
      ∷ (if cfg.auth.enabled then with_auth cfg.auth ∷ [] else [])
    ++ (if cfg.metrics_enabled then with_metrics ∷ [] else [])
