-- ===== src/Messages/Examples.antt =====
-- The messages of internal/server/messages.go at concrete bytes, and the theorems at them.
use discord_proxy_rpc.Base.{◌≡◌, ◌↔◌, refl, Option, none, some, [], ◌∷◌, Text, codes, text_eq, ok}
use discord_proxy_rpc.Activity.{PresenceSnapshot, source_none}
use discord_proxy_rpc.Messages.{
  ServerMessage, ClientMessage, MessageError, validate_server, validate_client, validate_events,
  parse_client_message, msg_type_state, msg_type_presence, msg_type_subscribe, state_connected,
  ErrorPayload,
}
use discord_proxy_rpc.Messages.Accepts.{IsClientMessage, parse_client_message_iff}

abbrev connected : ServerMessage
connected = record {
  type = msg_type_state;
  payload = none;
  status = state_connected;
  client_id = codes "123";
}

abbrev asks_presence : ClientMessage
asks_presence = record { type = msg_type_subscribe; subscribe_events = msg_type_presence ∷ [] }

abbrev decode_server : Text → Option ServerMessage
decode_server raw = some connected

abbrev decode_client : Text → Option ClientMessage
decode_client raw = some asks_presence

state_accepted : validate_server connected ≡ none
unfolding validate_server text_eq
state_accepted = refl

unknown_refused :
    validate_client (record asks_presence { subscribe_events = codes "x" ∷ [] })
    ≡ some (MessageError.unknown_event (codes "x"))
unfolding validate_client validate_events text_eq
unknown_refused = refl

parse_client_message_iff_example :
    (parse_client_message decode_client (codes "{}") ≡ ok asks_presence)
    ↔ ((decode_client (codes "{}") ≡ some asks_presence) × IsClientMessage asks_presence)
parse_client_message_iff_example = parse_client_message_iff decode_client (codes "{}") asks_presence

abbrev nothing : PresenceSnapshot
nothing = record { source = source_none; activity = none }

abbrev marshal : PresenceSnapshot → Option Text
marshal snapshot = some (codes "{}")

abbrev marshal_error : ErrorPayload → Option Text
marshal_error e = some e.code
