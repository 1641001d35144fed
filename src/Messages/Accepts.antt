-- ===== src/Messages/Accepts.antt =====
-- Which messages internal/server/messages.go accepts, and that those it makes are among them.
use discord_proxy_rpc.Base.{
  ◌≡◌, ◌≢◌, ◌↔◌, ◌⊎◌, inl, inr, refl, subst, false, Bool-cases, Option-cases, Option, none, some,
  List, [], ◌∷◌, Text, text_eq, text_eq_iff, ok, All, arith,
}
use discord_proxy_rpc.Activity.{PresenceSnapshot, is_none}
use discord_proxy_rpc.Messages.{
  ServerMessage, ClientMessage, MessageError, msg_type_presence, msg_type_state, msg_type_current,
  msg_type_error, msg_type_subscribe, msg_type_get_current, state_connected, state_disconnected,
  state_reconnecting, validate_server, validate_client, validate_events, parse_server_message,
  parse_client_message, checked, new_presence_message, new_state_message, new_current_message,
  new_subscribe_message, new_get_current_message, new_error_message, ErrorPayload,
}

abbrev pub IsState : Text → Type 0
IsState s = (s ≡ state_connected) ⊎ (s ≡ state_disconnected) ⊎ (s ≡ state_reconnecting)

-- A presence, current or error message with a payload, or a state message with a known state.
pub data IsServerMessage (m : ServerMessage) : Type 0 where
  presence_with : m.type ≡ msg_type_presence → m.payload ≢ none → IsServerMessage m
  current_with : m.type ≡ msg_type_current → m.payload ≢ none → IsServerMessage m
  error_with : m.type ≡ msg_type_error → m.payload ≢ none → IsServerMessage m
  state_with : m.type ≡ msg_type_state → IsState m.status → IsServerMessage m

payload_present : {A : Type 0} (o : Option A) → is_none o ≡ false → o ≢ none
payload_present none e = cc
payload_present (some x) e = cc

validate_server_sound : (m : ServerMessage) → validate_server m ≡ none → IsServerMessage m
unfolding validate_server
validate_server_sound m h = elim (Bool-cases (text_eq m.type msg_type_presence)) [
  | inl e ↦ presence_with ((text_eq_iff _ _).0 e) (payload_present m.payload (ground arith))
  | inr np ↦ elim (Bool-cases (text_eq m.type msg_type_current)) [
    | inl e ↦ current_with ((text_eq_iff _ _).0 e) (payload_present m.payload (ground arith))
    | inr nc ↦ elim (Bool-cases (text_eq m.type msg_type_error)) [
      | inl e ↦ error_with ((text_eq_iff _ _).0 e) (payload_present m.payload (ground arith))
      | inr ne ↦ elim (Bool-cases (text_eq m.type msg_type_state)) [
        | inl e ↦ state_with ((text_eq_iff _ _).0 e) (
            ground (
              arith,
              text_eq_iff m.status state_connected,
              text_eq_iff m.status state_disconnected,
              text_eq_iff m.status state_reconnecting,
            ))
        | inr ns ↦ absurd (ground arith)
      ]
    ]
  ]
]

validate_server_complete : (m : ServerMessage) → IsServerMessage m → validate_server m ≡ none
unfolding validate_server text_eq
validate_server_complete m (presence_with t p) = rw t (ground arith)
validate_server_complete m (current_with t p) = rw t (ground arith)
validate_server_complete m (error_with t p) = rw t (ground arith)
validate_server_complete m (state_with t (inl s)) = rw (t, s)
validate_server_complete m (state_with t (inr (inl s))) = rw (t, s)
validate_server_complete m (state_with t (inr (inr s))) = rw (t, s)

abbrev pub IsEvent : Text → Type 0
IsEvent e = (e ≡ msg_type_presence) ⊎ (e ≡ msg_type_state) ⊎ (e ≡ msg_type_current)

-- A subscription to at least one event, all of them known, or a request for the current presence.
pub data IsClientMessage (m : ClientMessage) : Type 0 where
  subscription :
      m.type ≡ msg_type_subscribe
      → m.subscribe_events ≢ []
      → All IsEvent m.subscribe_events
      → IsClientMessage m
  current_request : m.type ≡ msg_type_get_current → IsClientMessage m

validate_events_iff : (es : List Text) → (validate_events es ≡ none) ↔ All IsEvent es
unfolding validate_events
validate_events_iff [] = (λ _. tt, λ _. refl)
validate_events_iff (e ∷ es) = ground (
  arith,
  text_eq_iff e msg_type_presence,
  text_eq_iff e msg_type_state,
  text_eq_iff e msg_type_current,
  validate_events_iff es,
)

validate_client_sound : (m : ClientMessage) → validate_client m ≡ none → IsClientMessage m
unfolding validate_client
validate_client_sound m h = elim (Bool-cases (text_eq m.type msg_type_subscribe)) [
  | inl e ↦
      subscription ((text_eq_iff _ _).0 e) (ground arith)
        ((validate_events_iff m.subscribe_events).0 (ground arith))
  | inr ns ↦ current_request (ground (arith, text_eq_iff m.type msg_type_get_current))
]

validate_client_complete : (m : ClientMessage) → IsClientMessage m → validate_client m ≡ none
unfolding validate_client text_eq
validate_client_complete m (subscription t ne all) =
    rw t (ground (arith, validate_events_iff m.subscribe_events))
validate_client_complete m (current_request t) = rw t

checked_cases :
    {M : Type 0} (validate : M → Option MessageError) (o : Option M) (m : M)
    → (checked validate o ≡ ok m) ↔ ((o ≡ some m) × (validate m ≡ none))
checked_cases validate none m = ground arith
checked_cases validate (some n) m = elim (Option-cases (validate n)) [
  | inl e ↦ ground arith
  | inr (x, e) ↦ ground arith
]

-- `ParseServerMessage` returns a message exactly when the bytes decode to it and it is a presence,
-- current or error message with a payload, or a state message with one of the three states.
pub parse_server_message_iff :
    (decode : Text → Option ServerMessage) (raw : Text) (m : ServerMessage)
    → (parse_server_message decode raw ≡ ok m) ↔ ((decode raw ≡ some m) × IsServerMessage m)
unfolding parse_server_message
parse_server_message_iff decode raw m =
    let c = checked_cases validate_server (decode raw) m in
    (
      λ h. ((c.0 h).0, validate_server_sound m (c.0 h).1),
      λ h. c.1 (h.0, validate_server_complete m h.1),
    )

-- `ParseClientMessage` returns a message exactly when the bytes decode to it and it subscribes to
-- one or more known events, or asks for the current presence.
pub parse_client_message_iff :
    (decode : Text → Option ClientMessage) (raw : Text) (m : ClientMessage)
    → (parse_client_message decode raw ≡ ok m) ↔ ((decode raw ≡ some m) × IsClientMessage m)
unfolding parse_client_message
parse_client_message_iff decode raw m =
    let c = checked_cases validate_client (decode raw) m in
    (
      λ h. ((c.0 h).0, validate_client_sound m (c.0 h).1),
      λ h. c.1 (h.0, validate_client_complete m h.1),
    )

-- The messages that the server makes of a snapshot, a known state or an error are all accepted by
-- `ParseServerMessage` from bytes that decode to them, whatever json.Marshal returns as payload.
pub made_messages_accepted :
    (decode : Text → Option ServerMessage) (raw : Text) (m : ServerMessage)
    (marshal : PresenceSnapshot → Option Text) (marshal_error : ErrorPayload → Option Text)
    (snapshot : PresenceSnapshot) (status code message : Text) (ids : List Text)
    → decode raw ≡ some m
    → (new_presence_message marshal snapshot ≡ ok m)
      ⊎ (new_current_message marshal snapshot ids ≡ ok m)
      ⊎ (new_error_message marshal_error code message ≡ ok m)
      ⊎ ((new_state_message status ids ≡ m) × IsState status)
    → parse_server_message decode raw ≡ ok m
unfolding new_presence_message new_current_message new_error_message new_state_message
made_messages_accepted decode raw m marshal marshal_error snapshot status code message ids d h =
    (parse_server_message_iff decode raw m).1 (d, made h)
  where
    made :
        (new_presence_message marshal snapshot ≡ ok m)
          ⊎ (new_current_message marshal snapshot ids ≡ ok m)
          ⊎ (new_error_message marshal_error code message ≡ ok m)
          ⊎ ((new_state_message status ids ≡ m) × IsState status)
        → IsServerMessage m
    made (inl e) = elim (Option-cases (marshal snapshot)) [
      | inl n ↦ absurd (ground arith)
      | inr (p, q) ↦ presence_with (ground arith) (ground arith)
    ]
    made (inr (inl e)) = elim (Option-cases (marshal snapshot)) [
      | inl n ↦ absurd (ground arith)
      | inr (p, q) ↦ current_with (ground arith) (ground arith)
    ]
    made (inr (inr (inl e))) =
        elim (Option-cases (marshal_error (record { code = code; message = message }))) [
          | inl n ↦ absurd (ground arith)
          | inr (p, q) ↦ error_with (ground arith) (ground arith)
        ]
    made (inr (inr (inr (e, k)))) = state_with (ground arith) (subst IsState (ground arith) k)

-- A client's own messages are accepted too, where the events that it subscribes to are known.
pub made_requests_accepted :
    (decode : Text → Option ClientMessage) (raw : Text) (m : ClientMessage) (events : List Text)
    → decode raw ≡ some m
    → ((new_subscribe_message events ≡ ok m) × All IsEvent events) ⊎ (new_get_current_message ≡ m)
    → parse_client_message decode raw ≡ ok m
unfolding new_subscribe_message new_get_current_message
made_requests_accepted decode raw m [] d (inl (e, k)) = absurd (ground arith)
made_requests_accepted decode raw m (x ∷ xs) d (inl (e, k)) =
    (parse_client_message_iff decode raw m).1 (
      d,
      subscription (ground arith) (ground arith)
          (subst (All IsEvent) {x = x ∷ xs} (ground arith) k),
    )
made_requests_accepted decode raw m events d (inr e) =
    (parse_client_message_iff decode raw m).1 (d, current_request (ground arith))
