-- ===== src/Tui/Backend.antt =====
-- internal/tui/client.go: the WebSocket connection behind the terminal dashboard. A connection is a
-- handle; `open_conns` are those that were made and not closed.
use discord_proxy_rpc.Base.{
  ℕ, true, false, Option, none, some, List, [], ◌∷◌, ◌++◌, Text, codes, is_nil, if◌then◌else◌, ◌==◌,
  Result, ok, err,
}
use discord_proxy_rpc.Messages.{
  ServerMessage, ClientMessage, MessageError, msg_type_presence, msg_type_state,
  new_subscribe_message, new_get_current_message, parse_server_message,
}
use discord_proxy_rpc.Tui.{WsMsg}

pub record WsBackend : Type 0 where
  pub url : Text
  pub token : Text
  pub conn : Option ℕ
  pub open_conns : List ℕ

unfoldable pub new_ws_backend : Text → Text → WsBackend
new_ws_backend url token = record { url = url; token = token; conn = none; open_conns = [] }

-- The Authorization header of the dial, "" where there is none.
unfoldable pub authorization : WsBackend → Text
authorization b = if is_nil b.token then [] else codes "Bearer " ++ b.token

-- How a dial goes: it fails, or one of the two writes fails, or all succeed.
pub data DialOutcome : Type 0 where
  refused subscribe_fails get_current_fails : Text → DialOutcome
  succeeds : DialOutcome

-- The two messages that are written.
unfoldable pub greeting : Result MessageError (List ClientMessage)
greeting = elim (new_subscribe_message (msg_type_presence ∷ msg_type_state ∷ [])) [
  | err e ↦ err e
  | ok m ↦ ok (m ∷ new_get_current_message ∷ [])
]

-- `Dial`, with the handle of the connection that it makes, if it does. A connection is closed again
-- where a write fails; an earlier one of the backend is not closed.
unfoldable pub dial : WsBackend → ℕ → DialOutcome → WsBackend × Option Text
dial b handle (refused e) = (b, some (codes "connecting to " ++ (b.url ++ (codes ": " ++ e))))
dial b handle (subscribe_fails e) = (b, some (codes "sending subscribe: " ++ e))
dial b handle (get_current_fails e) = (b, some (codes "sending get_current: " ++ e))
dial b handle succeeds = (record b { conn = some handle; open_conns = handle ∷ b.open_conns }, none)

abbrev pub remove_conn : ℕ → List ℕ → List ℕ
remove_conn h [] = []
remove_conn h (j ∷ js) = let rest = remove_conn h js in if j == h then rest else j ∷ rest

unfoldable pub close : WsBackend → WsBackend
close b = elim b.conn [
  | none ↦ b
  | some h ↦ record b { conn = none; open_conns = remove_conn h b.open_conns }
]

-- What the read pump delivers for one ReadMessage: its error ends the pump, and is fatal.
module _ (decode : Text → Option ServerMessage) (describe : MessageError → Text) where
  unfoldable pub pumped : Result Text Text → WsMsg
  pumped (err e) = record {
    msg = none;
    error = some (codes "connection lost: " ++ e);
    fatal = true;
  }
  pumped (ok raw) = elim (parse_server_message decode raw) [
    | err e ↦ record {
      msg = none;
      error = some (codes "invalid server message: " ++ describe e);
      fatal = false;
    }
    | ok m ↦ record { msg = some m; error = none; fatal = false }
  ]
