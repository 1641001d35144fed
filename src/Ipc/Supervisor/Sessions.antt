-- ===== src/Ipc/Supervisor/Sessions.antt =====
-- The sessions of RunWithReconnect of internal/ipc/reconnect.go.
use discord_proxy_rpc.Base.{
  ℕ, ◌≤◌, ◌≡◌, ◌≢◌, refl, ap, Bool, true, not, Option, none, some, List, [], ◌∷◌, Text, if_elim,
  All, arith,
}
use discord_proxy_rpc.Ipc.{Client, Network}
use discord_proxy_rpc.Ipc.Reconnect.{
  ReconnectManager, Ending, returns_nil, ctx_error, max_attempts, auto_disabled, reconnect,
}
use discord_proxy_rpc.Ipc.Reconnect.Ready.{
  IsReady, NotStopped, ReturnsReady, reconnect-ReturnsReady,
}
use discord_proxy_rpc.Ipc.Supervisor.{
  Turn, wait_of, Outcome, out_of_fuel, reconnected, is_connected, watched, unwatched,
  run_interruptible, supervise,
}

-- A ready client with a health check.
abbrev pub IsWatched : Client → Type 0
IsWatched c = IsReady c × (c.health_check ≡ true)

watched-IsWatched : (c : Client) → IsReady c → IsWatched (watched c)
watched-IsWatched c k = rw (ap is_connected k.0) (k, refl)

abbrev pub AllWatched : List Client × Outcome → Type 0
AllWatched r = All IsWatched r.0 × (r.1 ≢ out_of_fuel)

wait_of-NotStopped : (a : Option (Network × ℕ)) → NotStopped (wait_of a)
wait_of-NotStopped none = cc
wait_of-NotStopped (some (net, channel)) = cc

reconnected-AllWatched :
    (r : Option (ReconnectManager × Ending)) (next : ReconnectManager → List Client × Outcome)
    → ReturnsReady r
    → ((v : ReconnectManager) → IsReady v.client → v.attempt ≡ 0 → AllWatched (next v))
    → AllWatched (reconnected r next)
reconnected-AllWatched none next k f = absurd (ground arith)
reconnected-AllWatched (some (v, returns_nil)) next (k, a) f = f v k a
reconnected-AllWatched (some (v, ctx_error)) next k f = (tt, cc)
reconnected-AllWatched (some (v, max_attempts)) next k f = (tt, cc)
reconnected-AllWatched (some (v, auto_disabled)) next k f = (tt, cc)

-- The manager with which Reconnect is called after a session.
abbrev after_session : ReconnectManager → Client × Bool → ReconnectManager
after_session rm r = record rm { client = unwatched rm.client r.0 }

abbrev pub later : List Client → List Client
later [] = []
later (c ∷ cs) = cs

abbrev LaterWatched : List Client × Outcome → Type 0
LaterWatched r = All IsWatched (later r.0) × (r.1 ≢ out_of_fuel)

module _ (parse_error : Text → Option Text) where
  abbrev followed : ReconnectManager → Turn → List Turn → List Client × Outcome
  followed rm t ts =
      reconnected
        (reconnect 51 (after_session rm (run_interruptible parse_error (watched rm.client) t))
          (λ n. wait_of (t.attempts n)))
        (λ v. supervise parse_error v ts)

  followed-AllWatched :
      (rm : ReconnectManager) (t : Turn) (ts : List Turn)
      → rm.attempt ≤ 50
      → ((v : ReconnectManager)
          → IsReady v.client
          → v.attempt ≡ 0
          → AllWatched (supervise parse_error v ts))
      → AllWatched (followed rm t ts)
  followed-AllWatched rm t ts h f =
      reconnected-AllWatched _ (λ v. supervise parse_error v ts)
        (reconnect-ReturnsReady
          (after_session rm (run_interruptible parse_error (watched rm.client) t))
          (λ n. wait_of (t.attempts n)) (λ n. wait_of-NotStopped (t.attempts n)) h)
        f

  supervise-AllWatched :
      (rm : ReconnectManager) (ts : List Turn)
      → rm.attempt ≤ 50
      → IsReady rm.client
      → AllWatched (supervise parse_error rm ts)
  unfolding supervise
  supervise-AllWatched rm [] h k = (tt, cc)
  supervise-AllWatched rm (t ∷ ts) h k =
      let first : IsWatched (watched rm.client) = watched-IsWatched rm.client k in
      let (l, o) =
        followed-AllWatched rm t ts h (λ v c a. supervise-AllWatched v ts (omega (arith, a)) c) in
      if_elim AllWatched (not (run_interruptible parse_error (watched rm.client) t).1)
        ((first, tt), cc)
        (if_elim AllWatched t.cancelled ((first, tt), cc)
          (if_elim AllWatched (not rm.auto_reconnect) ((first, tt), cc) ((first, l), o)))

  -- Whatever sessions, cancellations and networks it meets, from at most fifty failed attempts on,
  -- RunWithReconnect starts each session but the first with a client that is connected, has an open
  -- channel of events, and is under a health check; and no Reconnect goes on for ever.
  pub sessions-IsWatched :
      (rm : ReconnectManager) (ts : List Turn)
      → rm.attempt ≤ 50
      → All IsWatched (later (supervise parse_error rm ts).0)
        × ((supervise parse_error rm ts).1 ≢ out_of_fuel)
  unfolding supervise
  sessions-IsWatched rm [] h = (tt, cc)
  sessions-IsWatched rm (t ∷ ts) h =
      let all : AllWatched (followed rm t ts) =
        followed-AllWatched rm t ts h (λ v c a. supervise-AllWatched v ts (omega (arith, a)) c) in
      if_elim LaterWatched (not (run_interruptible parse_error (watched rm.client) t).1) (tt, cc)
        (if_elim LaterWatched t.cancelled (tt, cc)
          (if_elim LaterWatched (not rm.auto_reconnect) (tt, cc) all))
