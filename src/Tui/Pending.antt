-- ===== src/Tui/Pending.antt =====
-- The commands of internal/tui/model.go that are running, and the messages that they yield.
use discord_proxy_rpc.Base.{
  ℕ, ◌+◌, ◌-◌, ◌&&◌, Option, none, some, List, [], ◌∷◌, Text, ltb, ℤ, if◌then◌else◌,
}
use discord_proxy_rpc.Tui.{
  Model, Msg, Cmd, connect_cmd, read_cmd, tick_cmd, quit_cmd, reconnect_cmd, WsMsg, Decoder,
  new_model, window_size, key, connect_failed, connected, reconnect, ws_event, tick, update,
}

-- The model, and how many commands of each kind run.
pub record World : Type 0 where
  pub model : Model
  pub connecting : ℕ
  pub reading : ℕ
  pub waiting : ℕ
  pub ticking : ℕ

-- What happens: a running dial succeeds or fails, a read yields, a read ends since `done` is closed,
-- a delay ends, a tick fires, or the user presses a key or resizes the window.
pub data Event : Type 0 where
  dials : Option Text → Event
  reads : WsMsg → Event
  stops_reading wakes : Event
  ticks : ℤ → Event
  presses : Text → Event
  resizes : ℤ → ℤ → Event

abbrev pub start_cmd : World → Cmd → World
start_cmd w connect_cmd = record w { connecting = w.connecting + 1 }
start_cmd w read_cmd = record w { reading = w.reading + 1 }
start_cmd w (reconnect_cmd delay) = record w { waiting = w.waiting + 1 }
start_cmd w tick_cmd = record w { ticking = w.ticking + 1 }
start_cmd w quit_cmd = w

abbrev pub start_cmds : World → List Cmd → World
start_cmds w [] = w
start_cmds w (c ∷ cs) = start_cmds (start_cmd w c) cs

abbrev pub deliver_to : World → Option (Model × List Cmd) → Option World
deliver_to w none = none
deliver_to w (some (m, cmds)) = some (start_cmds (record w { model = m }) cmds)

abbrev pub dialled : Option Text → Msg
dialled none = connected
dialled (some e) = connect_failed e

-- A second quit is the panic, `none`.
module _ (decoder : Decoder) (close_error : Option Text) where
  abbrev pub deliver : World → Msg → Option World
  deliver w msg = deliver_to w (update decoder close_error w.model msg)

  unfoldable pub step : World → Event → Option World
  step w (dials r) =
      if ltb 0 w.connecting
      then deliver (record w { connecting = w.connecting - 1 }) (dialled r)
      else some w
  step w (reads ev) =
      if ltb 0 w.reading
      then deliver (record w { reading = w.reading - 1 }) (ws_event ev)
      else some w
  step w stops_reading =
      some
        (if ltb 0 w.reading && w.model.done_closed then record w { reading = w.reading - 1 } else w)
  step w wakes =
      if ltb 0 w.waiting then deliver (record w { waiting = w.waiting - 1 }) reconnect else some w
  step w (ticks now) =
      if ltb 0 w.ticking then deliver (record w { ticking = w.ticking - 1 }) (tick now) else some w
  step w (presses k) = deliver w (key k)
  step w (resizes x y) = deliver w (window_size x y)

  unfoldable pub run : World → List Event → Option World
  run w [] = some w
  run w (e ∷ es) = elim (step w e) [ none ↦ none | some v ↦ run v es ]

-- `Init` returns the command that connects.
unfoldable pub begin : Text → ℤ → World
begin url now = record {
  model = new_model url now;
  connecting = 1;
  reading = 0;
  waiting = 0;
  ticking = 0;
}
