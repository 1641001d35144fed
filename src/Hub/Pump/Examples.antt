-- ===== src/Hub/Pump/Examples.antt =====
-- A client whose queue is closed behind two messages, and the pump's theorems at it.
use discord_proxy_rpc.Base.{◌≡◌, refl, true, List, [], ◌∷◌, codes}
use discord_proxy_rpc.Hub.{done, new_client, send_message, close_channels}
use discord_proxy_rpc.Hub.Pump.{
  text_frame, ping_frame, Life, begin, Event, queues, closes, pumps, pings, step, run,
}
use discord_proxy_rpc.Hub.Pump.Order.{IsInOrder, written-IsInOrder}

abbrev history : List Event
history =
    queues (codes "a")
    ∷ pumps true
    ∷ queues (codes "b")
    ∷ pings true
    ∷ queues (codes "c")
    ∷ closes
    ∷ []

abbrev later : Life
later = record {
  client = record new_client {
    send = codes "b" ∷ codes "c" ∷ [];
    send_closed = true;
    done_closed = true;
  };
  written = text_frame (codes "a") ∷ ping_frame ∷ [];
  lost = [];
  is_pumping = true;
  accepted = codes "a" ∷ codes "b" ∷ codes "c" ∷ [];
}

happened : run begin history ≡ done later
unfolding run step begin new_client send_message close_channels
happened = refl

written-IsInOrder_example : IsInOrder later
written-IsInOrder_example = written-IsInOrder history later happened
