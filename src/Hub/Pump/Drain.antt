-- ===== src/Hub/Pump/Drain.antt =====
-- A closed queue of internal/server/hub.go is written out before the close message.
use discord_proxy_rpc.Base.{true, false, List, [], ◌∷◌, ◌++◌, Text}
use discord_proxy_rpc.Hub.Pump.{Frame, text_frame, close_frame, Life, Event, pumps}

-- As many turns of the write pump as messages are queued, and one more, with no failed write.
abbrev pub turns : List Text → List Event
turns [] = pumps true ∷ []
turns (m ∷ ms) = pumps true ∷ turns ms

-- The frames of a queue that is closed.
abbrev pub closing : List Text → List Frame
closing [] = close_frame ∷ []
closing (m ∷ ms) = text_frame m ∷ closing ms

abbrev pub drained : Life → List Text → Life
drained l ms = record l {
  client = record l.client { send = []; conn_closed = true };
  written = l.written ++ closing ms;
  is_pumping = false;
}
