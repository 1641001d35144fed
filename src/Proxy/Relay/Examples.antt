-- ===== src/Proxy/Relay/Examples.antt =====
-- One frame on its way from the IPC session to the dashboard.
use discord_proxy_rpc.Base.{
  ◌≡◌, refl, false, Option, none, some, [], ◌∷◌, ◌++◌, Text, codes, text_eq, pos, ok, arith,
}
use discord_proxy_rpc.Activity.{Activity, zero_activity, equals}
use discord_proxy_rpc.Parser.{
  SourceActivity, parse_activity, parse_activity_data, parse_activity_frame, built,
  validate_activity_type, parse_buttons, check_buttons, parse_timestamps, parse_assets, parse_party,
}
use discord_proxy_rpc.Presence.{new_presence}
use discord_proxy_rpc.Messages.{msg_type_presence}
use discord_proxy_rpc.Ipc.Session.{op_frame}
use discord_proxy_rpc.Hub.{Hub, done, new_client, stamp}
use discord_proxy_rpc.Hub.Sound.{IsSound}
use discord_proxy_rpc.Hub.Queue.{run_queue}
use discord_proxy_rpc.Hub.Queue.Order.{wanted}
use discord_proxy_rpc.Tui.{new_model, handle_ws_event}
use discord_proxy_rpc.Tui.Backend.{pumped}
use discord_proxy_rpc.Proxy.{Loop, ranging, publish}
use discord_proxy_rpc.Proxy.Relay.{
  Wire, Carries, presence_message, shown, told_after, frame_reaches_dashboard,
}

abbrev chess_source : SourceActivity
chess_source = record {
  type = pos 0;
  details = codes "Chess";
  state = [];
  timestamps = none;
  assets = none;
  party = none;
  buttons = [];
}

abbrev unmarshal : Text → Option SourceActivity
unmarshal raw = some chess_source

abbrev chess : Activity
chess = record zero_activity { details = codes "Chess" }

chess_parses : parse_activity_frame unmarshal (some (codes "{}")) ≡ ok chess
unfolding parse_activity_frame parse_activity_data parse_activity validate_activity_type
    parse_buttons check_buttons built parse_timestamps parse_assets parse_party text_eq
chess_parses = refl

abbrev payload : Text
payload = codes "{\"activity\":{}}"

abbrev wire : Wire
wire = record {
  marshal_snapshot = λ s. some payload;
  marshal = λ m. some (codes "{\"type\":\"presence\"}");
  decode = λ raw. some (presence_message payload);
  decoder = record { snapshot = λ raw. ok (shown chess); error_payload = λ raw. none };
  describe = λ e. [];
}

chess_carried : Carries wire chess payload (codes "{\"type\":\"presence\"}")
chess_carried = record {
  payload_made = refl;
  payload_there = refl;
  raw_made = refl;
  raw_read = refl;
  payload_read = refl;
}

abbrev listening : Loop
listening = record {
  phase = ranging;
  presence = new_presence (pos 0);
  broadcasts = [];
  next_timer = 0;
}

-- Client 1 is on the map and subscribed to presence.
abbrev hub : Hub
hub = record {
  clients = 1 ∷ [];
  store = λ j. record new_client { events = msg_type_presence ∷ [] };
  done_closed = false;
  client_id = [];
}

hub-IsSound : IsSound hub.clients hub.store (1 ∷ [])
unfolding new_client
hub-IsSound = record {
  unique = (refl, tt);
  known = λ j m. m;
  opened = λ j m. (refl, refl);
  left = λ j m k. ground (arith, m, k);
  fresh = λ j m. (refl, refl);
  buffered = λ j. omega arith;
}

frame_reaches_dashboard_example :
    (told_after unmarshal listening
        (record { opcode = op_frame; frame = some (codes "{}"); error = none })
      ≡ some chess)
    × (k : Hub) × (run_queue wire.marshal hub (publish wire.marshal_snapshot [] chess) ≡ done k)
    × ((k.store 1).send
        ≡ (hub.store 1).send
          ++ (wanted wire.marshal (stamp hub) (hub.store 1).events []
              ++ codes "{\"type\":\"presence\"}" ∷ []))
    × ((handle_ws_event wire.decoder
          (new_model [] (pos 0))
          (pumped wire.decode wire.describe (ok (codes "{\"type\":\"presence\"}")))).0.snapshot
        ≡ shown chess)
unfolding new_presence new_client equals text_eq
frame_reaches_dashboard_example =
    frame_reaches_dashboard unmarshal wire listening (codes "{}") chess payload
      (codes "{\"type\":\"presence\"}") hub (1 ∷ []) [] 1 (new_model [] (pos 0)) chess_parses refl
      refl chess_carried (omega arith) hub-IsSound refl refl (omega arith)
