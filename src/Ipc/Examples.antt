-- ===== src/Ipc/Examples.antt =====
-- A client of two sockets, and the theorems of internal/ipc at it.
use discord_proxy_rpc.Base.{
  ℕ, zero, suc, ◌≤◌, ◌≡◌, ◌≢◌, refl, inl, true, false, Option, none, some, List, [], ◌∷◌, Text,
  codes, text_eq, length, pos, if◌then◌else◌, ok, err, All, arith,
}
use discord_proxy_rpc.Ipc.{Client, Network, ReadyEvent, new, opened, display_name}
use discord_proxy_rpc.Ipc.HealthCheck
use discord_proxy_rpc.Ipc.HealthCheck.{ticks, writes, pongs, receives, times_out}
use discord_proxy_rpc.Ipc.HealthCheck.Answers.{LoopIsLawful, health_check-LoopIsLawful}
use discord_proxy_rpc.Ipc.Connecting.{IsUnusable, IsUsable}
use discord_proxy_rpc.Ipc.Reconnect.{
  ReconnectManager, new_reconnect_manager, Wait, fired, returns_nil, max_attempts, capped_double,
  double_below, reconnect,
}
use discord_proxy_rpc.Ipc.Reconnect.Attempts.{
  FailsFor, after_failures, reconnect_gives_up, reconnect_succeeds,
}
use discord_proxy_rpc.Ipc.Session.{
  Action, reads, got, takes, sends_last, begin, run, ended, event_buffer_size,
}
use discord_proxy_rpc.Ipc.Supervisor.{Turn, out_of_fuel, supervise}
use discord_proxy_rpc.Ipc.Supervisor.Sessions.{IsWatched, later, sessions-IsWatched}
use discord_proxy_rpc.Ipc.Session.Order.{IsInPhase, session_end_told}

abbrev first_path : Text
first_path = codes "ipc-0"

abbrev second_path : Text
second_path = codes "ipc-1"

abbrev client : Client
client = new (codes "42") (first_path ∷ second_path ∷ [])

abbrev ann : ReadyEvent
ann = record { global_name = codes "Ann"; username = codes "ann" }

-- Only the second socket is there.
abbrev up : Network
up = record {
  dial = λ path. if text_eq path second_path then none else some (codes "refused");
  login = λ path. ok (some ann);
}

abbrev down : Network
down = record { dial = λ path. some (codes "refused"); login = λ path. err (codes "refused") }

named : display_name (some ann) ≡ codes "Ann"
unfolding display_name text_eq
named = refl

first_refuses : All (IsUnusable up) (first_path ∷ [])
unfolding text_eq
first_refuses = (inl (codes "refused", refl), tt)

second_serves : IsUsable up second_path (some ann)
unfolding text_eq
second_serves = (refl, refl)

both_refuse : All (IsUnusable down) client.paths
unfolding new
both_refuse = (inl (codes "refused", refl), (inl (codes "refused", refl), tt))

abbrev manager : ReconnectManager
manager = new_reconnect_manager client (pos 1_000_000_000) (pos 30_000_000_000) true

abbrev at_last : ReconnectManager
at_last = record manager { attempt = 49 }

abbrev all_down : ℕ → Wait
all_down n = fired down n

reconnect_gives_up_example :
    (reconnect 2 at_last all_down ≡ some (after_failures 1 at_last, max_attempts))
    × (reconnect 1 (after_failures 1 at_last) all_down
        ≡ some (after_failures 1 at_last, max_attempts))
unfolding new_reconnect_manager
reconnect_gives_up_example =
    reconnect_gives_up 0 0 at_last all_down all_down refl refl (λ i a b. both_refuse)

one_doubling : capped_double (pos 3) (pos 7) 1 ≡ pos 6
unfolding capped_double double_below
one_doubling = refl

-- The first attempt fails, and the second one succeeds.
abbrev back_soon : ℕ → Wait
back_soon zero = fired down 0
back_soon (suc n) = fired up n

first_fails : FailsFor 1 manager back_soon
unfolding new_reconnect_manager
first_fails zero a b = both_refuse
first_fails (suc i) a b = absurd (omega (arith, b))

reconnect_succeeds_example :
    reconnect 2 manager back_soon
    ≡ some (
      record manager { client = opened client second_path (some ann) 0; attempt = 0 },
      returns_nil,
    )
unfolding new_reconnect_manager new
reconnect_succeeds_example =
    reconnect_succeeds 1 0 manager back_soon up 0 (first_path ∷ []) [] second_path (some ann) refl
      (omega arith) first_fails refl refl first_refuses second_serves

abbrev parse_error : Text → Option Text
parse_error data' = none

abbrev actions : List Action
actions =
    reads false (got (pos 1) (codes "{}")) ∷ takes ∷ reads false (got (pos 2) []) ∷ sends_last ∷ []

session_end_told_example :
    (length (run parse_error (begin client) actions).buffer ≤ event_buffer_size)
    × ((run parse_error (begin client) actions).phase ≡ ended
        → IsInPhase (run parse_error (begin client) actions) ended)
session_end_told_example =
    session_end_told parse_error client actions (refl, (tt, (refl, (tt, tt))))

health_check-LoopIsLawful_example : LoopIsLawful client (
    HealthCheck.run
      (HealthCheck.begin client)
      (ticks ∷ writes true ∷ pongs ∷ receives ∷ ticks ∷ writes true ∷ times_out ∷ []))
health_check-LoopIsLawful_example =
    health_check-LoopIsLawful client
      (ticks ∷ writes true ∷ pongs ∷ receives ∷ ticks ∷ writes true ∷ times_out ∷ [])

-- Nothing is connected at first; then a session that Discord closes, and a cancelled one.
abbrev turns : List Turn
turns =
    record { actions = []; cancelled = false; attempts = λ n. some (up, 0) }
    ∷ record { actions = actions; cancelled = false; attempts = λ n. some (up, 1) }
    ∷ record { actions = []; cancelled = true; attempts = λ n. none }
    ∷ []

sessions-IsWatched_example :
    All IsWatched (later (supervise parse_error manager turns).0)
    × ((supervise parse_error manager turns).1 ≢ out_of_fuel)
unfolding new_reconnect_manager
sessions-IsWatched_example = sessions-IsWatched parse_error manager turns (omega arith)
