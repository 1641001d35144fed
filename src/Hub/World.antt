-- ===== src/Hub/World.antt =====
-- The hub of internal/server/hub.go among the goroutines that use it, as a list of events.
use discord_proxy_rpc.Base.{
  ℕ, Bool, true, false, not, ◌&&◌, Option, List, [], ◌∷◌, Text, if◌then◌else◌,
}
use discord_proxy_rpc.Activity.{PresenceSnapshot}
use discord_proxy_rpc.Messages.{ServerMessage}
use discord_proxy_rpc.Hub.{
  Hub, Codec, Outcome, done, ◌>>=◌, is_member, new_hub, register, unregister, broadcast,
  close_all_clients, close_done, handle_message,
}

-- A client is registered once, when its connection is made, under a fresh uuid. Its ReadPump handles
-- its messages, and it may be unregistered at any time and more than once.
pub data Event : Type 0 where
  registers unregisters : ℕ → Event
  broadcasts : ServerMessage → Event
  handles : ℕ → Text → Event
  -- `Run` takes the case of the cancelled context, or the case of the closed `done`.
  cancels returns : Event
  -- The two halves of `Close`, which takes the lock for the first one only.
  closes_clients closes_done : Event

-- The hub, whether the loop of `Run` goes on, and the ids that were registered.
pub record World : Type 0 where
  pub hub : Hub
  pub running : Bool
  pub seen : List ℕ

unfoldable pub begin : Text → World
begin client_id = record { hub = new_hub client_id; running = true; seen = [] }

unfoldable pub with_hub : World → Outcome Hub → Outcome World
with_hub w o = o >>= λ h. done (record w { hub = h })

-- `Run` returns, and its deferred call closes `done`.
unfoldable pub end_run : World → Outcome Hub → Outcome World
end_run w o = o >>= λ h. done (record w { hub = close_done h; running = false })

unfoldable pub add_client : World → ℕ → World
add_client w id = record w { hub = register w.hub id; seen = id ∷ w.seen }

-- The cases of `Run`'s select happen while its loop goes on. Where several are ready it takes any of
-- them, so that the hub may handle clients after `done` is closed and before it returns.
module _ (codec : Codec) (get_current : Option PresenceSnapshot) where
  unfoldable pub step : World → Event → Outcome World
  step w (registers id) =
      done (if w.running && not (is_member id w.seen) then add_client w id else w)
  step w (unregisters id) = if w.running then with_hub w (unregister w.hub id) else done w
  step w (broadcasts m) = if w.running then with_hub w (broadcast codec.marshal w.hub m) else done w
  step w (handles id raw) = with_hub w (handle_message codec get_current w.hub id raw)
  step w cancels = if w.running then end_run w (close_all_clients w.hub) else done w
  step w returns = if w.running && w.hub.done_closed then end_run w (done w.hub) else done w
  step w closes_clients = with_hub w (close_all_clients w.hub)
  step w closes_done = with_hub w (done (close_done w.hub))

  unfoldable pub run : World → List Event → Outcome World
  run w [] = done w
  run w (e ∷ es) = step w e >>= λ v. run v es
