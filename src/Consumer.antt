-- ===== src/Consumer.antt =====
-- examples/consumer/: protocol.go, what is printed of a message, and main.go, the loop of sessions.
-- json.Unmarshal and the %q of fmt are parameters.
pub mod Delays
pub mod Session
mod Examples
use discord_proxy_rpc.Base.{
  ℕ, ◌+◌, ◌≡◌, Bool, true, false, not, ◌&&◌, ◌||◌, Option, none, some, List, [], ◌∷◌, ◌++◌, Text,
  codes, text_eq, is_nil, ℤ, pos, int_eq, ltb_ℤ, if◌then◌else◌, Result, ok, err, show_int,
}
use discord_proxy_rpc.Activity.{
  Activity, Party, Button, elements, is_empty, activity_playing, activity_streaming,
  activity_listening, activity_watching, activity_custom, activity_competing,
}
use discord_proxy_rpc.Messages.{
  ServerMessage, ErrorPayload, msg_type_presence, msg_type_current, msg_type_state, msg_type_error,
}
use discord_proxy_rpc.Ipc.Reconnect.{double}
use discord_proxy_rpc.Tui.{Snapshot, Decoder, bytes_of}

pub activity_type_name : ℤ → Text
activity_type_name t =
    if int_eq t activity_playing
    then codes "Playing"
    else if int_eq t activity_streaming
    then codes "Streaming"
    else if int_eq t activity_listening
    then codes "Listening"
    else if int_eq t activity_watching
    then codes "Watching"
    else if int_eq t activity_custom
    then codes "Custom"
    else if int_eq t activity_competing
    then codes "Competing"
    else codes "Unknown(" ++ (show_int t ++ codes ")")

-- The details and the state that are there, joined by " | ".
pub headline : Text → Text → Text
headline details state =
    if is_nil details && is_nil state
    then codes "(no details)"
    else if is_nil details
    then state
    else if is_nil state
    then details
    else details ++ (codes " | " ++ state)

pub party_suffix : Option Party → Text
party_suffix none = []
party_suffix (some p) =
    if ltb_ℤ (pos 0) p.size_1
    then codes " party " ++ (show_int p.size_0 ++ (codes "/" ++ show_int p.size_1))
    else []

module _ (quote : Text → Text) where
  pub button_suffixes : List Button → Text
  button_suffixes [] = []
  button_suffixes (b ∷ bs) =
      codes " button " ++ (quote b.label ++ (codes " -> " ++ (b.url ++ button_suffixes bs)))

  pub format_activity : Activity → Text
  format_activity a =
      headline a.details a.state
      ++ (codes " ["
          ++ (activity_type_name a.type
              ++ (codes "]" ++ (party_suffix a.party ++ button_suffixes (elements a.buttons)))))

  pub format_snapshot : Text → Text → Option Activity → Text
  format_snapshot type source none =
      type ++ (codes ": no activity source (" ++ (source ++ codes ")"))
  format_snapshot type source (some a) =
      if is_empty a
      then type ++ (codes ": cleared (" ++ (source ++ codes ")"))
      else type
        ++ (codes ": " ++ (format_activity a ++ (codes " (source: " ++ (source ++ codes ")"))))

pub data ConsumerError : Type 0 where
  invalid_json type_required : ConsumerError
  bad_payload unknown_type : Text → ConsumerError

-- The struct serverMessage has the fields of the server's.
unfoldable pub parse_server_message :
    (Text → Option ServerMessage) → Text → Result ConsumerError ServerMessage
parse_server_message decode raw = elim (decode raw) [
  | none ↦ err invalid_json
  | some msg ↦ if is_nil msg.type then err type_required else ok msg
]

module _ (quote : Text → Text) (decoder : Decoder) where
  pub format_snapshot_message : ServerMessage → Result ConsumerError Text
  format_snapshot_message msg = elim (decoder.snapshot (bytes_of msg.payload)) [
    | err e ↦ err (bad_payload msg.type)
    | ok s ↦ ok (format_snapshot quote msg.type s.source s.activity)
  ]

  pub format_error_message : ServerMessage → Result ConsumerError Text
  format_error_message msg = elim (decoder.error_payload (bytes_of msg.payload)) [
    | none ↦ err (bad_payload msg.type)
    | some p ↦ ok (codes "error: " ++ (p.code ++ (codes ": " ++ p.message)))
  ]

  unfoldable pub format_message : ServerMessage → Result ConsumerError Text
  format_message msg =
      if text_eq msg.type msg_type_presence || text_eq msg.type msg_type_current
      then format_snapshot_message msg
      else if text_eq msg.type msg_type_state
      then ok (
          codes "state: discord "
          ++ (msg.status
              ++ (if is_nil msg.client_id
                  then []
                  else codes " (client " ++ (msg.client_id ++ codes ")"))))
      else if text_eq msg.type msg_type_error
      then format_error_message msg
      else err (unknown_type msg.type)

  -- The line for what ReadMessage returned, if it has one.
  unfoldable pub line_of : (Text → Option ServerMessage) → Text → Option Text
  line_of decode raw = elim (parse_server_message decode raw) [
    | err e ↦ none
    | ok msg ↦ elim (format_message msg) [ err e ↦ none | ok line ↦ some line ]
  ]

abbrev pub reconnect_min : ℤ
reconnect_min = pos 1_000_000_000

abbrev pub reconnect_max : ℤ
reconnect_max = pos 30_000_000_000

-- What a turn of `run` meets: whether the session received a message, and whether the context is
-- done when `consume` returns, or else before the delay is over.
pub record Turn : Type 0 where
  pub received : Bool
  pub ctx_done : Bool
  pub cancelled : Bool

abbrev pub delay_for : ℤ → Bool → ℤ
delay_for backoff received = if received then reconnect_min else backoff

abbrev pub grown : ℤ → ℤ
grown backoff = if ltb_ℤ reconnect_max (double backoff) then reconnect_max else double backoff

-- `run` from a backoff on: the delays that it asks for, and whether it has returned.
unfoldable pub run : ℤ → List Turn → List ℤ × Bool
run backoff [] = ([], false)
run backoff (t ∷ ts) =
    let delay = delay_for backoff t.received in
    let rest = run (grown delay) ts in
    if t.ctx_done
    then ([], true)
    else if t.cancelled
    then (delay ∷ [], true)
    else (delay ∷ rest.0, rest.1)
