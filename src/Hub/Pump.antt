-- ===== src/Hub/Pump.antt =====
-- WritePump of internal/server/hub.go: what a client's queue of outgoing messages becomes on its
-- connection.
pub mod Order
pub mod Drain
mod Examples
use discord_proxy_rpc.Base.{
  ℕ, Bool, true, false, not, ◌&&◌, List, [], ◌∷◌, ◌++◌, Text, ltb, length, if◌then◌else◌,
}
use discord_proxy_rpc.Hub.{
  Client, Outcome, done, panic, ◌>>=◌, send_capacity, new_client, send_message, close_channels,
}

-- What WriteMessage is called with: a text message, a ping, or the close message.
pub data Frame : Type 0 where
  text_frame : Text → Frame
  ping_frame close_frame : Frame

-- A client with its write pump: the frames that were written, the message whose write failed, if
-- any, and whether the pump goes on. `accepted` is a history of what went into the queue.
pub record Life : Type 0 where
  pub client : Client
  pub written : List Frame
  pub lost : List Text
  pub is_pumping : Bool
  pub accepted : List Text

unfoldable pub begin : Life
begin = record { client = new_client; written = []; lost = []; is_pumping = true; accepted = [] }

-- The pump returns, and its deferred call closes the connection.
abbrev pub end_pump : Life → Life
end_pump l = record l { is_pumping = false; client = record l.client { conn_closed = true } }

abbrev pub write_close : Life → Bool → Life
write_close l written =
    end_pump (if written then record l { written = l.written ++ close_frame ∷ [] } else l)

-- The case of the queue: an open and empty queue has nothing to receive, a closed one yields what is
-- left in it first. The second argument tells whether the write succeeds.
abbrev pub pump_queue : Life → Bool → List Text → Life
pump_queue l written [] = if l.client.send_closed then write_close l written else l
pump_queue l written (m ∷ ms) =
    let taken : Life = record l { client = record l.client { send = ms } } in
    if written
    then record taken { written = l.written ++ text_frame m ∷ [] }
    else end_pump (record taken { lost = m ∷ [] })

abbrev pub pump_ping : Life → Bool → Life
pump_ping l written =
    if written then record l { written = l.written ++ ping_frame ∷ [] } else end_pump l

-- SendMessage, or a broadcast to this client.
abbrev pub queue_message : Life → Text → Outcome Life
queue_message l m = send_message l.client m >>= λ c. done (record l {
  client = c;
  accepted =
      (if ltb (length l.client.send) send_capacity then l.accepted ++ m ∷ [] else l.accepted);
})

pub data Event : Type 0 where
  queues : Text → Event
  closes : Event
  pumps pings : Bool → Event

unfoldable pub step : Life → Event → Outcome Life
step l (queues m) = queue_message l m
step l closes = close_channels l.client >>= λ c. done (record l { client = c })
step l (pumps written) = done (if l.is_pumping then pump_queue l written l.client.send else l)
step l (pings written) = done (if l.is_pumping then pump_ping l written else l)

unfoldable pub run : Life → List Event → Outcome Life
run l [] = done l
run l (e ∷ es) = step l e >>= λ m. run m es
