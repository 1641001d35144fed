-- ===== src/Ipc/Supervisor.antt =====
-- RunWithReconnect of internal/ipc/reconnect.go: sessions, and what follows each.
pub mod Sessions
use discord_proxy_rpc.Base.{
  ℕ, Bool, true, false, not, Option, none, some, List, [], ◌∷◌, Text, if◌then◌else◌,
}
use discord_proxy_rpc.Ipc.{
  Client, State, disconnected, connecting, connected, reconnecting, Network, close,
}
use discord_proxy_rpc.Ipc.Session.{Action, Phase, reading, ending, ended}
use discord_proxy_rpc.Ipc.Session
use discord_proxy_rpc.Ipc.Reconnect.{
  ReconnectManager, Wait, ctx_done, fired, Ending, returns_nil, ctx_error, max_attempts,
  auto_disabled, reconnect,
}

-- What a turn meets: the actions of its session, whether the context is done when Run returns or
-- before, and what happens while Reconnect makes an attempt: the context is done, or the network
-- answers Connect, which makes a channel. Stop is called only after the last turn.
pub record Turn : Type 0 where
  pub actions : List Action
  pub cancelled : Bool
  pub attempts : ℕ → Option (Network × ℕ)

abbrev pub wait_of : Option (Network × ℕ) → Wait
wait_of none = ctx_done
wait_of (some (net, channel)) = fired net channel

-- How far it came: it waits for a turn, is in a session, or has returned an error of its own; fifty
-- attempts and one more turn never run out of fuel.
pub data Outcome : Type 0 where
  pending in_session out_of_fuel run_error context_error : Outcome
  reconnect_error : Ending → Outcome

abbrev pub is_connected : State → Bool
is_connected disconnected = false
is_connected connecting = false
is_connected connected = true
is_connected reconnecting = false

-- A connected client gets a health check, for the time of the session.
abbrev pub watched : Client → Client
watched c = if is_connected c.state then record c { health_check = true } else c

abbrev pub unwatched : Client → Client → Client
unwatched before c = if is_connected before.state then record c { health_check = false } else c

abbrev pub has_ended : Phase → Bool
has_ended reading = false
has_ended (ending e) = false
has_ended ended = true

-- What follows a return of Reconnect.
abbrev pub reconnected :
    Option (ReconnectManager × Ending)
    → (ReconnectManager → List Client × Outcome)
    → List Client × Outcome
reconnected none next = ([], out_of_fuel)
reconnected (some (rm, returns_nil)) next = next rm
reconnected (some (rm, ctx_error)) next = ([], reconnect_error ctx_error)
reconnected (some (rm, max_attempts)) next = ([], reconnect_error max_attempts)
reconnected (some (rm, auto_disabled)) next = ([], reconnect_error auto_disabled)

module _ (parse_error : Text → Option Text) where
  -- Run, which returns at once where there is no connection, and whether it has returned.
  pub run_session : Client → List Action → Client × Bool
  run_session c actions = elim c.conn [
    | none ↦ (c, true)
    | some conn ↦
        let s = Session.run parse_error (Session.begin c) actions in (s.client, has_ended s.phase)
  ]

  -- runInterruptible, where it returns.
  pub run_interruptible : Client → Turn → Client × Bool
  run_interruptible c t =
      let r = run_session c t.actions in
      if r.1 then r else if t.cancelled then ((close r.0).0, true) else r

  -- The clients with which the sessions start, and the outcome.
  pub supervise : ReconnectManager → List Turn → List Client × Outcome
  supervise rm [] = ([], pending)
  supervise rm (t ∷ ts) =
      let c = watched rm.client in
      let r = run_interruptible c t in
      let rm' = record rm { client = unwatched rm.client r.0 } in
      let rest =
        reconnected (reconnect 51 rm' (λ n. wait_of (t.attempts n))) (λ next. supervise next ts) in
      if not r.1
      then (c ∷ [], in_session)
      else if t.cancelled
      then (c ∷ [], context_error)
      else if not rm.auto_reconnect
      then (c ∷ [], run_error)
      else (c ∷ rest.0, rest.1)
