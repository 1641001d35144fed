-- ===== src/Hub/Queue.antt =====
-- Register, Unregister and Broadcast of internal/server/hub.go: how other goroutines reach Run.
pub mod Order
use discord_proxy_rpc.Base.{
  ℕ, Bool, true, false, Option, none, some, List, [], ◌∷◌, ◌++◌, Text, ltb, length, if◌then◌else◌,
}
use discord_proxy_rpc.Messages.{ServerMessage}
use discord_proxy_rpc.Hub.{Hub, Outcome, done, ◌>>=◌, register, unregister, broadcast}

abbrev pub broadcast_capacity : ℕ
broadcast_capacity = 256

-- Broadcast: a full queue drops the message.
unfoldable pub enqueue : List ServerMessage → ServerMessage → List ServerMessage
enqueue queue m = if ltb (length queue) broadcast_capacity then queue ++ m ∷ [] else queue

-- How a hand-over to Run ends: Run takes the client, or `done` is closed and the caller goes on
-- without; or else it still waits.
pub data Offer : Type 0 where
  taken : Hub → Offer
  given_up waits : Offer

-- `takes` tells whether Run takes the client; where both cases are ready, either may be.
pub register_client : Hub → ℕ → Bool → Offer
register_client h id takes =
    if takes then taken (register h id) else if h.done_closed then given_up else waits

abbrev handed : Outcome Hub → Option Offer
handed (done h) = some (taken h)
handed Outcome.panic = none

-- `none` is the panic of Run.
pub unregister_client : Hub → ℕ → Bool → Option Offer
unregister_client h id takes =
    if takes then handed (unregister h id) else some (if h.done_closed then given_up else waits)

-- So many turns of Run in which it takes a message, or all that there are.
module _ (marshal : ServerMessage → Option Text) where
  unfoldable pub run_queue : Hub → List ServerMessage → Outcome Hub
  run_queue h [] = done h
  run_queue h (m ∷ ms) = broadcast marshal h m >>= λ h'. run_queue h' ms
