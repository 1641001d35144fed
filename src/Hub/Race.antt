-- ===== src/Hub/Race.antt =====
-- Two races of internal/server/hub.go: a client registered while `Close` runs, and a message handled
-- after the client left.
use discord_proxy_rpc.Base.{
  ℕ, ◌≡◌, refl, true, false, Option, some, List, [], ◌∷◌, Text, codes, map, arith, ok, err,
}
use discord_proxy_rpc.Activity.{PresenceSnapshot}
use discord_proxy_rpc.Messages.{
  ServerMessage, MessageError, parse_client_message, new_error_message,
}
use discord_proxy_rpc.Hub.{
  Hub, Codec, done, panic, is_member, register, close_done, send_message, reply, handle_message,
}
use discord_proxy_rpc.Hub.World.{
  registers, unregisters, handles, returns, closes_clients, closes_done, World, with_hub, end_run,
  add_client, step, run,
}
use discord_proxy_rpc.Hub.Sound.{Channels, close_all_clients-emptied}
use discord_proxy_rpc.Hub.Safety.{WorldIsSound}

module _ (codec : Codec) (get_current : Option PresenceSnapshot) where
  ended_unregisters :
      (w : World) (ids : List ℕ)
      → w.running ≡ false
      → run codec get_current w (map unregisters ids) ≡ done w
  unfolding run step
  ended_unregisters w [] r = refl
  ended_unregisters w (id ∷ ids) r = ground (arith, ended_unregisters w ids r)

  -- A client whose registration is taken between the two halves of `Close`, on a running sound hub,
  -- stays on the map of the hub that has stopped, with open channels; unregistering it, or others,
  -- changes nothing any more.
  pub late_client_kept :
      (w : World) (id : ℕ) (ids : List ℕ)
      → w.running ≡ true
      → is_member id w.seen ≡ false
      → WorldIsSound w
      → (v : World) × (run codec get_current w
            (closes_clients ∷ registers id ∷ closes_done ∷ returns ∷ [])
          ≡ done v)
        × (v.running ≡ false)
        × (v.hub.clients ≡ id ∷ [])
        × Channels (v.hub.store id) false
        × (run codec get_current v (map unregisters ids) ≡ done v)
  unfolding run step with_hub end_run close_done add_client register
  late_client_kept w id ids r new s =
      let (k, u, t, empty) = close_all_clients-emptied w.hub w.seen s in
      let v : World = record {
        hub = close_done (close_done (register k id));
        running = false;
        seen = id ∷ w.seen;
      } in
      (v, rw (u, r, new) refl, refl, rw empty refl, t.fresh id new, ended_unregisters v ids refl)

  invalid_on_closed :
      (h : Hub) (id : ℕ) (raw message : Text) (e : MessageError) (m : ServerMessage)
      → (h.store id).send_closed ≡ true
      → parse_client_message codec.decode raw ≡ err e
      → new_error_message codec.marshal_error (codes "MSG_001") (codec.describe e) ≡ ok m
      → codec.marshal m ≡ some message
      → handle_message codec get_current h id raw ≡ panic
  unfolding handle_message reply send_message
  invalid_on_closed h id raw message e m o p q r =
      rw (handle_message, p) (rw q (rw (reply, r) (rw (send_message, o) refl)))

  -- A message that a client sent and that its ReadPump handles after the clients were closed, where
  -- the message is not valid and the error reply can be made, is a send on a closed channel.
  pub reply_to_closed_panics :
      (w : World) (id : ℕ) (raw message : Text) (e : MessageError) (m : ServerMessage)
      → WorldIsSound w
      → is_member id w.hub.clients ≡ true
      → parse_client_message codec.decode raw ≡ err e
      → new_error_message codec.marshal_error (codes "MSG_001") (codec.describe e) ≡ ok m
      → codec.marshal m ≡ some message
      → run codec get_current w (closes_clients ∷ handles id raw ∷ []) ≡ panic
  unfolding run step with_hub
  reply_to_closed_panics w id raw message e m s here p q r =
      let (k, u, t, empty) = close_all_clients-emptied w.hub w.seen s in
      let o : Channels (k.store id) true = t.left id (rw empty refl) (s.known id here) in
      rw (u, invalid_on_closed k id raw message e m o.0 p q r) refl
