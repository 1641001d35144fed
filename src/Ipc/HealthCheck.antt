-- ===== src/Ipc/HealthCheck.antt =====
-- internal/ipc/healthcheck.go: pings on a ticker, and the close of a client that does not answer.
pub mod Answers
use discord_proxy_rpc.Base.{
  ℕ, suc, ◌+◌, Bool, true, false, Option, none, some, List, [], ◌∷◌, ◌==◌, ℤ, pos, int_eq,
  if◌then◌else◌,
}
use discord_proxy_rpc.Ipc.{Client, close}

-- A channel is its handle.
pub record HealthCheckManager : Type 0 where
  pub interval : ℤ
  pub timeout : ℤ
  pub stop_ch : Option ℕ
  pub done : Option ℕ
  pub pong_ch : Option ℕ

-- 30 and 10 seconds where the configuration has 0.
pub new_health_check_manager : ℤ → ℤ → HealthCheckManager
new_health_check_manager interval timeout = record {
  interval = if int_eq interval (pos 0) then pos 30_000_000_000 else interval;
  timeout = if int_eq timeout (pos 0) then pos 10_000_000_000 else timeout;
  stop_ch = none;
  done = none;
  pong_ch = none;
}

-- `Start`, given the three channels that it makes and that its goroutine gets.
pub start : HealthCheckManager → ℕ → ℕ → ℕ → HealthCheckManager
start h stop_ch done pong_ch = record h {
  stop_ch = some stop_ch;
  done = some done;
  pong_ch = some pong_ch;
}

-- `Stop`: the channel that it closes, and the one that it waits for.
pub stop : HealthCheckManager → HealthCheckManager × (Option ℕ × Option ℕ)
stop h = (record h { stop_ch = none; done = none }, (h.stop_ch, h.done))

-- What a goroutine of `run` and the PONGs have done, the latest first.
pub data Entry : Type 0 where
  dropped_old sent_ping pong_came took_pong closed_client : Entry

-- Where `run` is: it waits for the ticker, is about to write a ping, waits for a PONG, or has
-- returned.
pub data Phase : Type 0 where
  waiting pinging pinged returned : Phase

-- One goroutine of `run`: whether its pongCh, of capacity one, is full, and the client. `history` is
-- not in the program.
pub record Loop : Type 0 where
  pub client : Client
  pub pong : Bool
  pub phase : Phase
  pub history : List Entry

pub begin : Client → Loop
begin c = record { client = c; pong = false; phase = waiting; history = [] }

-- HandlePong on the manager's pongCh.
pub handle_pong : Loop → Loop
handle_pong l = record l { pong = true; history = pong_came ∷ l.history }

-- The ticker fires: an old PONG is dropped.
pub drop_old : Loop → Loop
drop_old l = record l { pong = false; phase = pinging; history = dropped_old ∷ l.history }

-- A ping is written, if `succeeds`.
pub ping : Loop → Bool → Loop
ping l succeeds =
    if succeeds
    then record l { phase = pinged; history = sent_ping ∷ l.history }
    else record l { phase = returned }

-- The case of the second select that receives the PONG, where there is one.
pub take_pong : Loop → Loop
take_pong l =
    if l.pong
    then record l { pong = false; phase = waiting; history = took_pong ∷ l.history }
    else l

pub time_out : Loop → Loop
time_out l = record l {
  client = (close l.client).0;
  phase = returned;
  history = closed_client ∷ l.history;
}

pub data Action : Type 0 where
  writes : Bool → Action
  ticks pongs receives times_out stops : Action

-- `stops` is a closed stopCh or a context that is done. A case that is not ready does nothing.
pub step_in : Loop → Phase → Action → Loop
step_in l p pongs = handle_pong l
step_in l waiting ticks = drop_old l
step_in l waiting stops = record l { phase = returned }
step_in l pinging (writes succeeds) = ping l succeeds
step_in l pinged receives = take_pong l
step_in l pinged times_out = time_out l
step_in l pinged stops = record l { phase = returned }
step_in l _ _ = l

pub run : Loop → List Action → Loop
run l [] = l
run l (a ∷ actions) = run (step_in l l.phase a) actions
