-- ===== src/Tui/Examples.antt =====
-- Runs of the terminal dashboard, and its theorem at one.
use discord_proxy_rpc.Base.{
  ℕ, ◌≡◌, ◌↔◌, All, refl, true, false, Option, none, some, List, [], ◌∷◌, Text, codes, text_eq, pos,
  ok, if◌then◌else◌, show_nat, digits, arith,
}
use discord_proxy_rpc.Activity.{zero_activity}
use discord_proxy_rpc.Messages.{
  ClientMessage, msg_type_subscribe, msg_type_get_current, msg_type_state, new_subscribe_message,
  new_get_current_message, msg_type_presence,
}
use discord_proxy_rpc.Tui.{
  Snapshot, Decoder, WsMsg, new_model, update, handle_ws_event, apply_server_message,
  apply_snapshot, needs_tick, quit, Model, status_reconnecting,
}
use discord_proxy_rpc.Tui.Addr.{ws_url}
use discord_proxy_rpc.Tui.Backend.{
  WsBackend, new_ws_backend, dial, succeeds, authorization, greeting,
}
use discord_proxy_rpc.Tui.Admitted.{IsAccepted, dial_admitted}
use discord_proxy_rpc.Auth.{Request, AuthConfig, bearer_auth}
use discord_proxy_rpc.Tui.Render.{format_duration, format_seconds, compute_timestamps}
use discord_proxy_rpc.Tui.Pending.{World, Event, dials, reads, wakes, presses, begin, step, run}
use discord_proxy_rpc.Tui.Links.{IsLinked}
use discord_proxy_rpc.Tui.Single.{one_connection_pending}

abbrev playing : Snapshot
playing = record {
  source = codes "ipc";
  activity =
      some (record zero_activity { timestamps = some (record { start = pos 5; end = pos 0 }) });
}

abbrev decoder : Decoder
decoder = record { snapshot = λ raw. ok playing; error_payload = λ raw. none }

abbrev presence_event : WsMsg
presence_event = record {
  msg = some (record {
    type = msg_type_presence;
    payload = some (codes "{}");
    status = [];
    client_id = [];
  });
  error = none;
  fatal = false;
}

abbrev lost : WsMsg
lost = record { msg = none; error = some (codes "connection lost"); fatal = true }

url_made : ws_url (codes "10.0.0.1:8765") (codes "ws") ≡ codes "ws://10.0.0.1:8765/ws"
unfolding ws_url
url_made = refl

duration_shown : format_duration (pos 3_725) ≡ codes "1h 2m 5s"
unfolding format_duration format_seconds show_nat digits
duration_shown = refl

-- Half a second before its end an activity counts as ended.
ended_early :
    (compute_timestamps (some (record { start = pos 0; end = pos 1_500 })) (pos 1_000)).ended ≡ true
unfolding compute_timestamps
ended_early = refl

-- The first connection is still open after a second dial.
redial_leaks :
    (dial (dial (new_ws_backend [] []) 1 succeeds).0 2 succeeds).0.open_conns ≡ 2 ∷ 1 ∷ []
unfolding dial new_ws_backend
redial_leaks = refl

abbrev ticking_of : Option World → ℕ
ticking_of none = 0
ticking_of (some w) = w.ticking

-- Each presence with timestamps starts a tick of its own, and a tick goes on for ever.
ticks_pile_up :
    ticking_of (
      run decoder none
        (begin [] (pos 0))
        (dials none ∷ reads presence_event ∷ reads presence_event ∷ reads presence_event ∷ []))
    ≡ 3
unfolding run step begin update new_model handle_ws_event apply_server_message apply_snapshot
    needs_tick text_eq
ticks_pile_up = refl

-- A second quit before the program has ended closes a closed channel.
second_quit :
    run decoder none (begin [] (pos 0)) (presses (codes "q") ∷ presses (codes "q") ∷ []) ≡ none
unfolding run step begin update new_model quit text_eq
second_quit = refl

abbrev history : List Event
history =
    dials (some (codes "refused")) ∷ wakes ∷ dials none ∷ reads lost ∷ presses (codes "q") ∷ []

one_connection_pending_example :
    (w : World) × (run decoder none (begin [] (pos 0)) history ≡ some w) × IsLinked w
unfolding text_eq
one_connection_pending_example =
    one_connection_pending decoder none [] (pos 0) history (omega arith)

abbrev backend : WsBackend
backend = new_ws_backend (codes "ws://127.0.0.1:8765/ws") (codes "s3cret")

abbrev dial_request : Request
dial_request = record {
  path = codes "/ws";
  content_length = pos 0;
  remote_addr = codes "127.0.0.1:4000";
  tls = false;
  authorization = codes "Bearer s3cret";
  websocket_protocol = [];
  cookie = none;
  query_token = [];
}

abbrev server_auth : AuthConfig
server_auth = record { enabled = true; token = codes "s3cret" }

abbrev subscription : ClientMessage
subscription = record {
  type = msg_type_subscribe;
  subscribe_events = msg_type_presence ∷ msg_type_state ∷ [];
}

abbrev current_request : ClientMessage
current_request = record { type = msg_type_get_current; subscribe_events = [] }

abbrev encode_type : ClientMessage → Text
encode_type m = m.type

abbrev decode_type : Text → Option ClientMessage
decode_type raw = some (if text_eq raw msg_type_subscribe then subscription else current_request)

greeting_made : greeting ≡ ok (subscription ∷ current_request ∷ [])
unfolding greeting new_subscribe_message new_get_current_message
greeting_made = refl

dial_admitted_example :
    ((bearer_auth server_auth dial_request ≡ true) ↔ (backend.token ≡ server_auth.token))
    × All (IsAccepted encode_type decode_type) (subscription ∷ current_request ∷ [])
unfolding new_ws_backend authorization text_eq
dial_admitted_example =
    dial_admitted server_auth backend dial_request encode_type decode_type _ refl
      (record { bytes = ground arith; present = cc; front = refl; back = refl }) refl greeting_made
      (refl, (refl, tt))

abbrev refused_twice : Model
refused_twice = record (new_model [] (pos 0)) {
  ws = status_reconnecting;
  backoff = pos 2_000_000_000;
}
