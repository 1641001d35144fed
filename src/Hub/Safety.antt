-- ===== src/Hub/Safety.antt =====
-- The hub's own goroutine, `Close` and the clients' ReadPumps of internal/server/hub.go never close
-- a channel twice, nor send on a closed one, while no message of a client that left is handled.
use discord_proxy_rpc.Base.{
  ◌≡◌, refl, false, not, ◌&&◌, Option, List, [], ◌∷◌, Text, arith, Bool-cases, inl, inr,
}
use discord_proxy_rpc.Activity.{PresenceSnapshot}
use discord_proxy_rpc.Hub.{Codec, done, is_member, new_client, new_hub, register, close_done}
use discord_proxy_rpc.Hub.World.{
  Event, registers, unregisters, broadcasts, handles, cancels, returns, closes_clients, closes_done,
  World, begin, with_hub, end_run, add_client, step, run,
}
use discord_proxy_rpc.Hub.Sound.{
  IsSound, with_member-IsSound, unregister-IsSound, broadcast-IsSound, close_all_clients-emptied,
  handle_message-Settles,
}

abbrev pub WorldIsSound : World → Type 0
WorldIsSound w = IsSound w.hub.clients w.hub.store w.seen

module _ (codec : Codec) (get_current : Option PresenceSnapshot) where
  -- A message that is handled is that of a client whose queue is open.
  abbrev pub IsTimely : World → Event → Type 0
  IsTimely w (registers id) = Unit
  IsTimely w (unregisters id) = Unit
  IsTimely w (broadcasts m) = Unit
  IsTimely w (handles id raw) = (w.hub.store id).send_closed ≡ false
  IsTimely w cancels = Unit
  IsTimely w returns = Unit
  IsTimely w closes_clients = Unit
  IsTimely w closes_done = Unit

  abbrev pub AllTimely : World → List Event → Type 0
  AllTimely w [] = Unit
  AllTimely w (e ∷ es) =
      IsTimely w e × ((v : World) → step codec get_current w e ≡ done v → AllTimely v es)

  step-IsSound :
      (w : World) (e : Event)
      → IsTimely w e
      → WorldIsSound w
      → (v : World) × (step codec get_current w e ≡ done v) × WorldIsSound v
  unfolding step with_hub end_run close_done add_client register
  step-IsSound w (registers id) t s = elim (Bool-cases (w.running && not (is_member id w.seen))) [
    | inl e ↦ (
      add_client w id,
      rw e refl,
      with_member-IsSound w.hub.clients w.hub.store w.seen id (ground arith) s,
    )
    | inr e ↦ (w, rw e refl, s)
  ]
  step-IsSound w (unregisters id) t s = elim (Bool-cases w.running) [
    | inl e ↦
        let (k, u, r) = unregister-IsSound w.hub w.seen id s in
        (record w { hub = k }, rw (e, u) refl, r)
    | inr e ↦ (w, rw e refl, s)
  ]
  step-IsSound w (broadcasts m) t s = elim (Bool-cases w.running) [
    | inl e ↦
        let (k, u, r) = broadcast-IsSound codec.marshal w.hub w.seen m s in
        (record w { hub = k }, rw (e, u) refl, r)
    | inr e ↦ (w, rw e refl, s)
  ]
  step-IsSound w (handles id raw) t s =
      let (k, u, r) = handle_message-Settles codec get_current w.seen id w.hub raw s t in
      (record w { hub = k }, rw u refl, r)
  step-IsSound w cancels t s = elim (Bool-cases w.running) [
    | inl e ↦
        let (k, u, r, empty) = close_all_clients-emptied w.hub w.seen s in
        (record w { hub = close_done k; running = false }, rw (e, u) refl, r)
    | inr e ↦ (w, rw e refl, s)
  ]
  step-IsSound w returns t s = elim (Bool-cases (w.running && w.hub.done_closed)) [
    | inl e ↦ (record w { hub = close_done w.hub; running = false }, rw e refl, s)
    | inr e ↦ (w, rw e refl, s)
  ]
  step-IsSound w closes_clients t s =
      let (k, u, r, empty) = close_all_clients-emptied w.hub w.seen s in
      (record w { hub = k }, rw u refl, r)
  step-IsSound w closes_done t s = (record w { hub = close_done w.hub }, refl, s)

  run-IsSound :
      (w : World) (es : List Event)
      → AllTimely w es
      → WorldIsSound w
      → (v : World) × (run codec get_current w es ≡ done v) × WorldIsSound v
  unfolding run
  run-IsSound w [] t s = (w, refl, s)
  run-IsSound w (e ∷ es) t s =
      let (v, u, r) = step-IsSound w e t.0 s in rw u (run-IsSound v es (t.1 v u) r)

  pub begin-IsSound : (client_id : Text) → WorldIsSound (begin client_id)
  unfolding begin new_hub new_client
  begin-IsSound client_id = record {
    unique = tt;
    known = λ j m. ground arith;
    opened = λ j m. (refl, refl);
    left = λ j m k. ground arith;
    fresh = λ j m. (refl, refl);
    buffered = λ j. omega arith;
  }

  -- Whatever clients are registered and unregistered (twice, too), whatever is broadcast, and
  -- wherever the context is cancelled or either half of `Close` runs, no channel is closed twice and
  -- none is sent on after it was closed, if no message is handled of a client whose queue is closed.
  -- The clients on the map are distinct and have open channels, every client that was registered and
  -- is no longer on the map has both channels closed, and no buffer exceeds its capacity.
  pub hub_never_panics :
      (client_id : Text) (es : List Event)
      → AllTimely (begin client_id) es
      → (w : World) × (run codec get_current (begin client_id) es ≡ done w) × WorldIsSound w
  hub_never_panics client_id es t = run-IsSound (begin client_id) es t (begin-IsSound client_id)
