-- ===== src/Consumer/Examples.antt =====
-- Lines that the example consumer prints, and its delays in one history.
use discord_proxy_rpc.Base.{◌≡◌, refl, none, some, [], codes, text_eq, ok}
use discord_proxy_rpc.Activity.{zero_activity}
use discord_proxy_rpc.Messages.{ServerMessage, msg_type_state}
use discord_proxy_rpc.Tui.{Decoder}
use discord_proxy_rpc.Consumer.{format_message, line_of, parse_server_message}

abbrev decoder : Decoder
decoder = record {
  snapshot = λ raw. ok (record {
    source = codes "ipc";
    activity = some (record zero_activity { details = codes "Chess" });
  });
  error_payload = λ raw. none;
}

abbrev state_message : ServerMessage
state_message = record {
  type = msg_type_state;
  payload = none;
  status = codes "connected";
  client_id = codes "12";
}

state_line :
    format_message (λ s. s) decoder state_message
    ≡ ok (codes "state: discord connected (client 12)")
unfolding format_message text_eq
state_line = refl

no_type : line_of (λ s. s) decoder (λ raw. some (record state_message { type = [] })) [] ≡ none
unfolding line_of parse_server_message
no_type = refl
