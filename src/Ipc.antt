-- ===== src/Ipc.antt =====
-- internal/ipc/client.go: the client of Discord's IPC socket, from its paths to a session.
pub mod Connecting
pub mod Session
mod Socket
pub mod Reconnect
pub mod Supervisor
pub mod HealthCheck
mod Examples
use discord_proxy_rpc.Base.{
  ℕ, ◌≡◌, Bool, true, false, Option, none, some, List, [], ◌∷◌, Text, text_eq, if◌then◌else◌,
  Result, ok, err,
}

pub data State : Type 0 where
  disconnected connecting connected reconnecting : State

-- What the package gopresence reports of the user, as far as it is read.
pub record ReadyEvent : Type 0 where
  pub global_name : Text
  pub username : Text

-- The path of a socket stands for the connection to it, and `events` is the handle of a channel.
pub record Client : Type 0 where
  pub client_id : Text
  pub paths : List Text
  pub conn : Option Text
  pub user : Text
  pub state : State
  pub events : Option ℕ
  pub health_check : Bool

-- `New`, given the paths of the platform.
pub new : Text → List Text → Client
new client_id paths = record {
  client_id = client_id;
  paths = paths;
  conn = none;
  user = [];
  state = disconnected;
  events = none;
  health_check = false;
}

pub set_state : Client → State → Client
set_state c s = record c { state = s }

-- An event without a ready user has an empty name.
pub display_name : Option ReadyEvent → Text
display_name none = []
display_name (some ready) =
    if text_eq ready.global_name []
    then (if text_eq ready.username [] then [] else ready.username)
    else ready.global_name

-- The package's dial and login on each path, at the time of one `Connect`: an error, or none.
pub record Network : Type 0 where
  pub dial : Text → Option Text
  pub login : Text → Result Text (Option ReadyEvent)

-- The loop of `Connect` over the paths: the path of the session and its ready event, or the last
-- error, which is nil where there is no path.
try_paths : Network → Option Text → List Text → Result (Option Text) (Text × Option ReadyEvent)
try_paths net last_err [] = err last_err
try_paths net last_err (path ∷ paths) = elim (net.dial path) [
  | some e ↦ try_paths net (some e) paths
  | none ↦ elim (net.login path) [
    | err e ↦ try_paths net (some e) paths
    | ok ready ↦ ok (path, ready)
  ]
]

-- The fields that a successful `Connect` sets, with the channel that it makes.
abbrev pub opened : Client → Text → Option ReadyEvent → ℕ → Client
opened c path ready channel = record c {
  conn = some path;
  user = display_name ready;
  events = some channel;
  state = connected;
}

-- `Connect`: the error is wrapped around the last one.
pub connect : Network → Client → ℕ → Client × Option (Option Text)
connect net c channel = elim (try_paths net none c.paths) [
  | err e ↦ (set_state (set_state c connecting) disconnected, some e)
  | ok r ↦ (opened (set_state c connecting) r.0 r.1 channel, none)
]

-- `Close`, and whether it closes a connection.
pub close : Client → Client × Bool
close c = elim c.conn [ none ↦ (c, false) | some conn ↦ (set_state c disconnected, true) ]
