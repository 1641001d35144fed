-- ===== src/Ipc/Session.antt =====
-- `Run` of internal/ipc/client.go: the frames of one session, and the channel of its events.
pub mod Order
use discord_proxy_rpc.Base.{
  ℕ, suc, ◌+◌, ◌≡◌, Bool, true, false, Option, none, some, List, [], ◌∷◌, ◌++◌, Text, codes, length,
  ltb, ℤ, pos, int_eq, if◌then◌else◌, Result, ok, err,
}
use discord_proxy_rpc.Ipc.{Client, set_state, disconnected}

abbrev pub op_frame : ℤ
op_frame = pos 1

abbrev pub op_close : ℤ
op_close = pos 2

abbrev pub op_pong : ℤ
op_pong = pos 4

abbrev pub event_buffer_size : ℕ
event_buffer_size = 64

-- What conn.Read returns: an opcode with data, or with an error.
pub data Read : Type 0 where
  got failed : ℤ → Text → Read

-- A frame that ParseFrame of the package gopresence accepts is told by its data.
pub record Event : Type 0 where
  pub opcode : ℤ
  pub frame : Option Text
  pub error : Option Text

-- Where `Run` is: it reads, it waits for room for the last event, or it has returned.
pub data Phase : Type 0 where
  reading ended : Phase
  ending : Event → Phase

-- A session with the buffer of its channel, what its consumer took, and the PONGs passed on.
pub record Session : Type 0 where
  pub client : Client
  pub buffer : List Event
  pub taken : List Event
  pub pongs : ℕ
  pub phase : Phase

-- `Run`, once it has found a connection.
pub begin : Client → Session
begin c = record { client = c; buffer = []; taken = []; pongs = 0; phase = reading }

-- emitEvent: a full buffer drops the event.
pub emit_event : Session → Event → Session
emit_event s e =
    if ltb (length s.buffer) event_buffer_size then record s { buffer = s.buffer ++ e ∷ [] } else s

-- The session is over, and `e` is to be its last event.
pub end_with : Session → Event → Session
end_with s e = record s { client = set_state s.client disconnected; phase = ending e }

-- The deferred function of `Run`, where the client's channel is still that of this session.
pub close_events : Session → Session
close_events s = record s { client = record s.client { events = none }; phase = ended }

-- What can happen: a read, the consumer takes an event, and the two cases of emitTerminalEvent.
pub data Action : Type 0 where
  reads : Bool → Read → Action
  takes sends_last gives_up : Action

abbrev pub take_from : Session → List Event → Session
take_from s [] = s
take_from s (e ∷ es) = record s { buffer = es; taken = s.taken ++ e ∷ [] }

pub send_last : Session → Phase → Session
send_last s reading = s
send_last s (ending e) =
    if ltb (length s.buffer) event_buffer_size
    then close_events (record s { buffer = s.buffer ++ e ∷ [] })
    else s
send_last s ended = s

pub give_up : Session → Phase → Session
give_up s reading = s
give_up s (ending e) = close_events s
give_up s ended = s

-- ParseFrame of the package gopresence is a parameter: its error, or none.
module _ (parse_error : Text → Option Text) where
  abbrev pub frame_event : Text → Event
  frame_event data' = elim (parse_error data') [
    | none ↦ record { opcode = op_frame; frame = some data'; error = none }
    | some e ↦ record { opcode = op_frame; frame = none; error = some e }
  ]

  -- The body of the loop, for what Read returned; `cancelled` tells whether the context is done.
  pub handle_read : Session → Bool → Read → Session
  handle_read s cancelled (failed op e) =
      if cancelled
      then close_events s
      else end_with s (record { opcode = op; frame = none; error = some e })
  handle_read s cancelled (got op data') =
      if int_eq op op_close
      then end_with s (record {
        opcode = op;
        frame = none;
        error = some (codes "ipc connection closed by Discord");
      })
      else if int_eq op op_pong
      then (if s.client.health_check then record s { pongs = s.pongs + 1 } else s)
      else if int_eq op op_frame
      then emit_event s (frame_event data')
      else emit_event s (record { opcode = op; frame = none; error = none })

  pub read_in : Session → Bool → Read → Phase → Session
  read_in s cancelled r reading = handle_read s cancelled r
  read_in s cancelled r (ending e) = s
  read_in s cancelled r ended = s

  pub step : Session → Action → Session
  step s (reads cancelled r) = read_in s cancelled r s.phase
  step s takes = take_from s s.buffer
  step s sends_last = send_last s s.phase
  step s gives_up = give_up s s.phase

  pub run : Session → List Action → Session
  run s [] = s
  run s (a ∷ actions) = run (step s a) actions
