-- ===== src/Hub/Examples.antt =====
-- Two clients of a hub, and the hub's theorems at them.
use discord_proxy_rpc.Base.{
  arith, ℕ, ◌≡◌, refl, sym, ap, Bool, true, false, Option, none, some, List, [], ◌∷◌, Text, codes,
  map, text_eq,
}
use discord_proxy_rpc.Messages.{
  ServerMessage, ClientMessage, MessageError, msg_type_state, msg_type_subscribe, state_connected,
  parse_client_message, new_error_message,
}
use discord_proxy_rpc.Hub.{
  Client, Hub, Codec, Outcome, done, panic, new_client, new_hub, register, stamp, broadcast, put,
}
use discord_proxy_rpc.Hub.Updates.{after}
use discord_proxy_rpc.Hub.Broadcast.{received, broadcast_lem}
use discord_proxy_rpc.Hub.World.{
  Event, registers, unregisters, broadcasts, handles, returns, closes_clients, closes_done, World,
  begin, add_client, step, run,
}
use discord_proxy_rpc.Hub.Sound.{Channels, with_member-IsSound}
use discord_proxy_rpc.Hub.Safety.{WorldIsSound, AllTimely, begin-IsSound, hub_never_panics}
use discord_proxy_rpc.Hub.Race.{late_client_kept, reply_to_closed_panics}

abbrev discord : Text
discord = codes "42"

abbrev news : ServerMessage
news = record { type = msg_type_state; payload = none; status = state_connected; client_id = [] }

-- Bytes that are empty are not JSON; any other are a subscription to the state.
abbrev decode : Text → Option ClientMessage
decode [] = none
decode (x ∷ xs) =
    some (record { type = msg_type_subscribe; subscribe_events = msg_type_state ∷ [] })

abbrev codec : Codec
codec = record {
  decode = decode;
  marshal = λ m. some m.client_id;
  marshal_error = λ e. some e.code;
  marshal_snapshot = λ s. some [];
  describe = λ e. codes "bad";
}

abbrev subscriber : Client
subscriber = record new_client { events = msg_type_state ∷ [] }

abbrev two : Hub
two = record (new_hub discord) { clients = 1 ∷ 2 ∷ []; store = put (λ _. new_client) 2 subscriber }

two_open : (j : ℕ) → (two.store j).send_closed ≡ false
unfolding new_hub new_client
two_open j = ground arith

broadcast_lem_example :
    broadcast codec.marshal two news
    ≡ done (record two { store = after two.store (received msg_type_state discord) (1 ∷ 2 ∷ []) })
unfolding new_hub new_client stamp text_eq
broadcast_lem_example = broadcast_lem codec.marshal two news (refl, (refl, tt)) (λ j m. two_open j)

abbrev history : List Event
history =
    registers 1 ∷ handles 1 (codes "{}") ∷ broadcasts news ∷ unregisters 1 ∷ unregisters 1 ∷ []

abbrev queue_closed : Outcome World → Bool
queue_closed panic = true
queue_closed (done w) = (w.hub.store 1).send_closed

timely : AllTimely codec none (begin discord) history
unfolding step begin add_client register new_hub new_client
timely = (tt, λ v e. (ap queue_closed (sym e), λ x f. (tt, λ y g. (tt, λ z h. (tt, λ u k. tt)))))

hub_never_panics_example :
    (w : World) × (run codec none (begin discord) history ≡ done w) × WorldIsSound w
hub_never_panics_example = hub_never_panics codec none discord history timely

late_client_kept_example :
    (v : World) × (run codec none
        (begin discord)
        (closes_clients ∷ registers 1 ∷ closes_done ∷ returns ∷ [])
      ≡ done v)
    × (v.running ≡ false)
    × (v.hub.clients ≡ 1 ∷ [])
    × Channels (v.hub.store 1) false
    × (run codec none v (map unregisters (1 ∷ [])) ≡ done v)
unfolding begin
late_client_kept_example =
    late_client_kept codec none (begin discord) 1 (1 ∷ []) refl refl
      (begin-IsSound codec none discord)

abbrev joined : World
joined = add_client (begin discord) 1

joined-IsSound : WorldIsSound joined
unfolding add_client begin register new_hub
joined-IsSound =
    with_member-IsSound [] (λ _. new_client) [] 1 refl (begin-IsSound codec none discord)

abbrev bad_message : ServerMessage
bad_message = record {
  type = codes "error";
  payload = some (codes "MSG_001");
  status = [];
  client_id = [];
}

reply_to_closed_panics_example : run codec none joined (closes_clients ∷ handles 1 [] ∷ []) ≡ panic
unfolding add_client begin register parse_client_message new_error_message new_hub
reply_to_closed_panics_example =
    reply_to_closed_panics codec none joined 1 [] [] MessageError.invalid_json bad_message
      joined-IsSound refl refl refl refl
