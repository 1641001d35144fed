-- ===== src/Messages.antt =====
-- internal/server/messages.go: the messages of the WebSocket protocol, and what is accepted as one.
pub mod Accepts
mod Examples
use discord_proxy_rpc.Base.{
  ◌≡◌, Bool, true, false, not, ◌||◌, Option, none, some, List, [], ◌∷◌, Text, codes, text_eq,
  is_nil, if◌then◌else◌, Result, ok, err, ◌>>=◌,
}
use discord_proxy_rpc.Activity.{PresenceSnapshot, is_none}

abbrev pub msg_type_presence : Text
msg_type_presence = codes "presence"

abbrev pub msg_type_state : Text
msg_type_state = codes "state"

abbrev pub msg_type_current : Text
msg_type_current = codes "current"

abbrev pub msg_type_subscribe : Text
msg_type_subscribe = codes "subscribe"

abbrev pub msg_type_get_current : Text
msg_type_get_current = codes "get_current"

abbrev pub msg_type_error : Text
msg_type_error = codes "error"

abbrev pub state_connected : Text
state_connected = codes "connected"

abbrev pub state_disconnected : Text
state_disconnected = codes "disconnected"

abbrev pub state_reconnecting : Text
state_reconnecting = codes "reconnecting"

-- The payload is raw JSON, nil where the message has none.
pub record ServerMessage : Type 0 where
  pub type : Text
  pub payload : Option Text
  pub status : Text
  pub client_id : Text

pub record ClientMessage : Type 0 where
  pub type : Text
  pub subscribe_events : List Text

pub data MessageError : Type 0 where
  invalid_json type_required status_required events_required no_events marshal_failed : MessageError
  payload_required unknown_type unknown_state unknown_event : Text → MessageError

-- What UnmarshalJSON tests of a server message once it is decoded: the error, or nil.
pub validate_server : ServerMessage → Option MessageError
validate_server m =
    if text_eq m.type msg_type_presence
      || (text_eq m.type msg_type_current || text_eq m.type msg_type_error)
    then if is_none m.payload then some (payload_required m.type) else none
    else if text_eq m.type msg_type_state
    then if text_eq m.status []
      then some status_required
      else if text_eq m.status state_connected
          || (text_eq m.status state_disconnected || text_eq m.status state_reconnecting)
      then none
      else some (unknown_state m.status)
    else if text_eq m.type []
    then some type_required
    else some (unknown_type m.type)

-- The loop over the events of a subscription.
validate_events : List Text → Option MessageError
validate_events [] = none
validate_events (e ∷ es) =
    let rest = validate_events es in
    if text_eq e msg_type_presence || (text_eq e msg_type_state || text_eq e msg_type_current)
    then rest
    else some (unknown_event e)

pub validate_client : ClientMessage → Option MessageError
validate_client m =
    if text_eq m.type msg_type_subscribe
    then if is_nil m.subscribe_events
      then some events_required
      else validate_events m.subscribe_events
    else if text_eq m.type msg_type_get_current
    then none
    else if text_eq m.type []
    then some type_required
    else some (unknown_type m.type)

-- A decoded message, unless its validation finds an error.
abbrev checked : {M : Type 0} → (M → Option MessageError) → Option M → Result MessageError M
checked validate none = err invalid_json
checked validate (some m) = elim (validate m) [ none ↦ ok m | some e ↦ err e ]

-- `json.Unmarshal` into the alias of each message type is a parameter; `none` is its error.
pub parse_server_message : (Text → Option ServerMessage) → Text → Result MessageError ServerMessage
parse_server_message decode data' = checked validate_server (decode data')

unfoldable pub parse_client_message :
    (Text → Option ClientMessage) → Text → Result MessageError ClientMessage
parse_client_message decode data' = checked validate_client (decode data')

-- The variadic `clientID ...string`.
abbrev first_or_empty : List Text → Text
first_or_empty [] = []
first_or_empty (id ∷ ids) = id

-- The marshalled payload, or the error of json.Marshal.
abbrev pub with_payload : Option Text → (Text → ServerMessage) → Result MessageError ServerMessage
with_payload none make = err marshal_failed
with_payload (some payload) make = ok (make payload)

unfoldable pub new_presence_message :
    (PresenceSnapshot → Option Text) → PresenceSnapshot → Result MessageError ServerMessage
new_presence_message marshal snapshot = with_payload (marshal snapshot) λ payload. record {
  type = msg_type_presence;
  payload = some payload;
  status = [];
  client_id = [];
}

pub new_state_message : Text → List Text → ServerMessage
new_state_message status client_id = record {
  type = msg_type_state;
  payload = none;
  status = status;
  client_id = first_or_empty client_id;
}

pub new_current_message :
    (PresenceSnapshot → Option Text)
    → PresenceSnapshot
    → List Text
    → Result MessageError ServerMessage
new_current_message marshal snapshot client_id = with_payload (marshal snapshot) λ payload. record {
  type = msg_type_current;
  payload = some payload;
  status = [];
  client_id = first_or_empty client_id;
}

unfoldable pub new_subscribe_message : List Text → Result MessageError ClientMessage
new_subscribe_message events =
    if is_nil events
    then err no_events
    else ok (record { type = msg_type_subscribe; subscribe_events = events })

unfoldable pub new_get_current_message : ClientMessage
new_get_current_message = record { type = msg_type_get_current; subscribe_events = [] }

-- The error codes of internal/server/errors.go are texts.
pub record ErrorPayload : Type 0 where
  pub code : Text
  pub message : Text

unfoldable pub new_error_message :
    (ErrorPayload → Option Text) → Text → Text → Result MessageError ServerMessage
new_error_message marshal code message =
    with_payload (marshal (record { code = code; message = message })) λ payload. record {
      type = msg_type_error;
      payload = some payload;
      status = [];
      client_id = [];
    }
