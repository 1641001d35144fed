-- ===== src/Tui.antt =====
-- internal/tui/model.go: the terminal dashboard, a bubbletea model. Update is a function of the model
-- and a message, with the commands that it returns; time.Duration and clocks are signed numbers.
pub mod Addr
pub mod Backend
pub mod Pending
pub mod Links
pub mod Single
pub mod Render
pub mod View
pub mod Backoff
pub mod Admitted
mod Examples
use discord_proxy_rpc.Base.{
  ℕ, ◌*◌, ◌≡◌, Bool, true, false, not, ◌&&◌, ◌||◌, Option, none, some, List, [], ◌∷◌, ◌++◌, Text,
  codes, text_eq, ℤ, pos, int_eq, ltb_ℤ, leb_ℤ, is_nil, if◌then◌else◌, Result, ok, err,
}
use discord_proxy_rpc.Activity.{Activity, Timestamps}
use discord_proxy_rpc.Messages.{
  ServerMessage, ErrorPayload, msg_type_presence, msg_type_current, msg_type_state, msg_type_error,
  state_disconnected,
}
use discord_proxy_rpc.Ipc.Reconnect.{double}

abbrev pub reconnect_base : ℤ
reconnect_base = pos 1_000_000_000

abbrev pub reconnect_max : ℤ
reconnect_max = pos 30_000_000_000

pub data WsStatus : Type 0 where
  status_connecting status_connected status_reconnecting : WsStatus

-- A decoded types.PresenceSnapshot, whose source may be any string.
pub record Snapshot : Type 0 where
  pub source : Text
  pub activity : Option Activity

-- wsMsg: a server message, or an error, which may be fatal; the pointers may be nil.
pub record WsMsg : Type 0 where
  pub msg : Option ServerMessage
  pub error : Option Text
  pub fatal : Bool

pub data Msg : Type 0 where
  window_size : ℤ → ℤ → Msg
  key connect_failed : Text → Msg
  connected reconnect : Msg
  ws_event : WsMsg → Msg
  -- The time in milliseconds since the epoch.
  tick : ℤ → Msg

-- A command that Update returns; bubbletea runs each once and sends what it yields as a message.
pub data Cmd : Type 0 where
  connect_cmd read_cmd tick_cmd quit_cmd : Cmd
  reconnect_cmd : ℤ → Cmd

-- The model, but for its context and backend. `done_closed` is the state of its channel `done`.
pub record Model : Type 0 where
  pub url : Text
  pub ws : WsStatus
  pub ipc : Text
  pub client_id : Text
  pub snapshot : Snapshot
  pub last_err : Text
  pub backoff : ℤ
  pub now : ℤ
  pub width : ℤ
  pub height : ℤ
  pub quitting : Bool
  pub done_closed : Bool

unfoldable pub new_model : Text → ℤ → Model
new_model url now = record {
  url = url;
  ws = status_connecting;
  ipc = state_disconnected;
  client_id = [];
  snapshot = record { source = []; activity = none };
  last_err = [];
  backoff = pos 0;
  now = now;
  width = pos 0;
  height = pos 0;
  quitting = false;
  done_closed = false;
}

-- `current * 2` is an int64.
unfoldable pub next_backoff : ℤ → ℤ → ℤ → ℤ
next_backoff current base max =
    if leb_ℤ current (pos 0)
    then base
    else if ltb_ℤ max (double current)
    then max
    else double current

unfoldable pub schedule_reconnect : Model → Text → Model × List Cmd
schedule_reconnect m e =
    let backoff = next_backoff m.backoff reconnect_base reconnect_max in
    (
      record m { ws = status_reconnecting; last_err = e; backoff = backoff },
      reconnect_cmd backoff ∷ [],
    )

abbrev pub has_times : Option Timestamps → Bool
has_times none = false
has_times (some ts) = not (int_eq ts.start (pos 0)) || not (int_eq ts.end (pos 0))

abbrev pub activity_times : Option Activity → Option Timestamps
activity_times none = none
activity_times (some a) = a.timestamps

unfoldable pub needs_tick : Model → Bool
needs_tick m = has_times (activity_times m.snapshot.activity)

abbrev pub quits : Text → Bool
quits k = text_eq k (codes "q") || (text_eq k (codes "esc") || text_eq k (codes "ctrl+c"))

-- `close_error` is what Close of the backend returns. A second close of `done` is a panic, `none`.
unfoldable pub quit : Option Text → Model → Option (Model × List Cmd)
quit close_error m = if m.done_closed then none else elim close_error [
  | none ↦ some (record m { quitting = true; done_closed = true }, quit_cmd ∷ [])
  | some e ↦ some (record m { quitting = true; done_closed = true; last_err = e }, quit_cmd ∷ [])
]

-- json.Unmarshal of a snapshot and of an error payload, and the errors that Update and Close print.
pub record Decoder : Type 0 where
  pub snapshot : Text → Result Text Snapshot
  pub error_payload : Text → Option ErrorPayload

abbrev pub bytes_of : Option Text → Text
bytes_of none = []
bytes_of (some payload) = payload

-- The client id that a message carries is kept.
abbrev pub keep_client_id : Model → ServerMessage → Model
keep_client_id m msg = if is_nil msg.client_id then m else record m { client_id = msg.client_id }

module _ (decoder : Decoder) where
  unfoldable pub apply_snapshot : Model → ServerMessage → Model
  apply_snapshot m msg =
      if is_nil (bytes_of msg.payload)
      then keep_client_id
          (record m { snapshot = record { source = []; activity = none }; last_err = [] }) msg
      else elim (decoder.snapshot (bytes_of msg.payload)) [
        | err e ↦ record m { last_err = codes "invalid presence payload: " ++ e }
        | ok snapshot ↦ keep_client_id (record m { snapshot = snapshot; last_err = [] }) msg
      ]

  pub apply_error : Model → ServerMessage → Model
  apply_error m msg = elim (decoder.error_payload (bytes_of msg.payload)) [
    | none ↦ record m { last_err = codes "server error" }
    | some p ↦
        keep_client_id
          (record m { last_err = codes "server error " ++ (p.code ++ (codes ": " ++ p.message)) })
          msg
  ]

  -- applyServerMessage on a pointer that is not nil.
  unfoldable pub apply_server_message : Model → ServerMessage → Model
  apply_server_message m msg =
      if text_eq msg.type msg_type_presence || text_eq msg.type msg_type_current
      then apply_snapshot m msg
      else if text_eq msg.type msg_type_state
      then keep_client_id (record m { ipc = msg.status; last_err = [] }) msg
      else if text_eq msg.type msg_type_error
      then apply_error m msg
      else keep_client_id m msg

  abbrev pub apply_message : Model → Option ServerMessage → Model
  apply_message m none = m
  apply_message m (some msg) = apply_server_message m msg

  abbrev pub with_tick : Model → Model × List Cmd
  with_tick m = (m, read_cmd ∷ (if needs_tick m then tick_cmd ∷ [] else []))

  unfoldable pub handle_ws_event : Model → WsMsg → Model × List Cmd
  handle_ws_event m ev = elim ev.error [
    | none ↦ with_tick (apply_message m ev.msg)
    | some e ↦
        let m' = record m { last_err = e } in
        if ev.fatal then schedule_reconnect m' e else (m', read_cmd ∷ [])
  ]

  unfoldable pub update : Option Text → Model → Msg → Option (Model × List Cmd)
  update close_error m (window_size w h) = some (record m { width = w; height = h }, [])
  update close_error m (key k) =
      let quitted = quit close_error m in if quits k then quitted else some (m, [])
  update close_error m connected =
      some (record m { ws = status_connected; backoff = pos 0; last_err = [] }, read_cmd ∷ [])
  update close_error m (connect_failed e) = some (schedule_reconnect m e)
  update close_error m reconnect = some (m, connect_cmd ∷ [])
  update close_error m (ws_event ev) = some (handle_ws_event m ev)
  update close_error m (tick now) =
      let m' = record m { now = now } in some (m', if needs_tick m' then tick_cmd ∷ [] else [])
