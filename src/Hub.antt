-- ===== src/Hub.antt =====
-- internal/server/hub.go: the hub, which owns the set of connected clients, and each client's
-- queue of outgoing messages. A send on a closed channel, or a second close, is a Go panic.
pub mod Updates
pub mod World
pub mod Sound
pub mod Safety
pub mod Broadcast
pub mod Pump
pub mod Queue
pub mod Race
mod Examples
use discord_proxy_rpc.Base.{
  ℕ, suc, ◌+◌, ◌≡◌, Bool, true, false, not, ◌&&◌, ◌||◌, Option, none, some, List, [], ◌∷◌, ◌++◌,
  Text, text_eq, codes, ◌==◌, ltb, length, if◌then◌else◌, Result, ok, err, is_nil,
}
use discord_proxy_rpc.Activity.{PresenceSnapshot}
use discord_proxy_rpc.Messages.{
  ServerMessage, ClientMessage, MessageError, ErrorPayload, msg_type_state, msg_type_subscribe,
  msg_type_get_current, new_error_message, new_current_message, parse_client_message,
}

-- A client's mutable state. `send` is the buffer of its channel, oldest first, and `events` its map
-- from event to true.
pub record Client : Type 0 where
  pub send : List Text
  pub send_closed : Bool
  pub done_closed : Bool
  pub conn_closed : Bool
  pub events : List Text

-- The uuid of a client stands for its pointer: `store` holds every client that was ever made, and
-- `clients` the ids on the hub's map.
pub record Hub : Type 0 where
  pub clients : List ℕ
  pub store : ℕ → Client
  pub done_closed : Bool
  pub client_id : Text

abbrev pub send_capacity : ℕ
send_capacity = 256

unfoldable pub new_client : Client
new_client = record {
  send = [];
  send_closed = false;
  done_closed = false;
  conn_closed = false;
  events = [];
}

pub new_hub : Text → Hub
new_hub client_id = record {
  clients = [];
  store = λ _. new_client;
  done_closed = false;
  client_id = client_id;
}

-- What a step leaves: a state, or the panic of a goroutine that does not recover.
pub data Outcome (S : Type 0) : Type 0 where
  done : S → Outcome S
  panic : Outcome S

infixl 5 ◌>>=◌
abbrev pub ◌>>=◌ : {S T : Type 0} → Outcome S → (S → Outcome T) → Outcome T
done s >>= f = f s
panic >>= f = panic

abbrev pub is_member : ℕ → List ℕ → Bool
is_member id [] = false
is_member id (j ∷ js) = if j == id then true else is_member id js

abbrev pub without : ℕ → List ℕ → List ℕ
without id [] = []
without id (j ∷ js) = let rest = without id js in if j == id then rest else j ∷ rest

-- `h.clients[id] = client` for a client under its own id.
abbrev pub with_member : ℕ → List ℕ → List ℕ
with_member id ids = if is_member id ids then ids else id ∷ ids

abbrev pub put : (ℕ → Client) → ℕ → Client → ℕ → Client
put store id c j = if j == id then c else store j

-- `close(client.send); close(client.Done)`.
pub close_channels : Client → Outcome Client
close_channels c =
    if c.send_closed || c.done_closed
    then panic
    else done (record c { send_closed = true; done_closed = true })

-- `select { case c.send <- data: default: }`: a full buffer drops the message.
pub send_message : Client → Text → Outcome Client
send_message c message =
    if c.send_closed
    then panic
    else if ltb (length c.send) send_capacity
    then done (record c { send = c.send ++ message ∷ [] })
    else done c

-- `client.events[event]`.
abbrev pub has_event : Text → List Text → Bool
has_event e [] = false
has_event e (x ∷ xs) = if text_eq x e then true else has_event e xs

abbrev pub add_events : List Text → List Text → List Text
add_events [] have = have
add_events (e ∷ es) have = add_events es (if has_event e have then have else e ∷ have)

-- The cases of `Run`'s select that handle a client.
pub register : Hub → ℕ → Hub
register h id = record h { clients = with_member id h.clients }

-- The client with this id leaves the map and its channels are closed.
drop_client : Hub → ℕ → Outcome Hub
drop_client h id = do
  c ← close_channels (h.store id)
  done (record h { clients = without id h.clients; store = put h.store id c })

pub unregister : Hub → ℕ → Outcome Hub
unregister h id = if is_member id h.clients then drop_client h id else done h

-- The loop over the clients of a broadcast, once the message is marshalled.
deliver : (ℕ → Client) → Text → Text → List ℕ → Outcome (ℕ → Client)
deliver store type message [] = done store
deliver store type message (id ∷ ids) =
    let rest =
      (send_message (store id) message >>= λ c. deliver (put store id c) type message ids) in
    let skip = deliver store type message ids in
    if has_event type (store id).events then rest else skip

-- A state message without a client id gets the hub's.
unfoldable pub stamp : Hub → ServerMessage → ServerMessage
stamp h m =
    if text_eq m.type msg_type_state && text_eq m.client_id []
    then record m { client_id = h.client_id }
    else m

-- `json.Marshal` is a parameter; on its error the message is dropped.
module _ (marshal : ServerMessage → Option Text) where
  pub broadcast : Hub → ServerMessage → Outcome Hub
  broadcast h m =
      let m' = stamp h m in
      elim (marshal m') [
        | none ↦ done h
        | some message ↦
            deliver h.store m'.type message h.clients >>= λ store. done (record h { store = store })
      ]

-- The loop of `closeAllClients`: each client's channels and connection are closed.
close_each : (ℕ → Client) → List ℕ → Outcome (ℕ → Client)
close_each store [] = done store
close_each store (id ∷ ids) = do
  c ← close_channels (store id)
  close_each (put store id (record c { conn_closed = true })) ids

pub close_all_clients : Hub → Outcome Hub
close_all_clients h = do
  store ← close_each h.store h.clients
  done (record h { clients = []; store = store })

pub close_done : Hub → Hub
close_done h = record h { done_closed = true }

-- `Close`, which another goroutine than `Run`'s calls.
pub close : Hub → Outcome Hub
close h = do h' ← close_all_clients h; done (close_done h')

pub client_count : Hub → ℕ
client_count h = length h.clients

-- What ReadPump does with one message of client `id`. The JSON codec and the presence getter, which
-- may be nil, are parameters.
pub record Codec : Type 0 where
  pub decode : Text → Option ClientMessage
  pub marshal : ServerMessage → Option Text
  pub marshal_error : ErrorPayload → Option Text
  pub marshal_snapshot : PresenceSnapshot → Option Text
  pub describe : MessageError → Text

module _ (codec : Codec) (get_current : Option PresenceSnapshot) where
  -- A reply is sent unless it cannot be made or marshalled.
  pub reply : Hub → ℕ → Result MessageError ServerMessage → Outcome Hub
  reply h id (err e) = done h
  reply h id (ok m) = elim (codec.marshal m) [
    | none ↦ done h
    | some message ↦
        send_message (h.store id) message >>= λ c. done (record h { store = put h.store id c })
  ]

  pub send_current : Hub → ℕ → Option PresenceSnapshot → Outcome Hub
  send_current h id none = done h
  send_current h id (some snapshot) =
      reply h id (new_current_message codec.marshal_snapshot snapshot (h.client_id ∷ []))

  pub answer : Hub → ℕ → ClientMessage → Outcome Hub
  answer h id m =
      if text_eq m.type msg_type_subscribe
      then done (record h {
        store =
            put h.store id
              (record (h.store id) { events = add_events m.subscribe_events (h.store id).events });
      })
      else if text_eq m.type msg_type_get_current
      then send_current h id get_current
      else reply h id (
          new_error_message codec.marshal_error (codes "MSG_001")
            (codec.describe (MessageError.unknown_type m.type)))

  pub handle_message : Hub → ℕ → Text → Outcome Hub
  handle_message h id raw = elim (parse_client_message codec.decode raw) [
    | err e ↦
        reply h id (new_error_message codec.marshal_error (codes "MSG_001") (codec.describe e))
    | ok m ↦ answer h id m
  ]
