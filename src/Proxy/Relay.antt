-- ===== src/Proxy/Relay.antt =====
-- From a frame of the IPC session to the model of the terminal dashboard: cmd/proxy/main.go with the
-- components that it joins.
mod Examples
use mathlib.Core.List.{append_assoc}
use discord_proxy_rpc.Base.{
  ℕ, suc, ◌+◌, ◌≤◌, ◌<◌, ◌≡◌, ◌≢◌, refl, sym, ap, ◌∙◌, subst, Bool, true, false, not, ◌&&◌, ◌||◌,
  Option, none, some, is_some, List, [], ◌∷◌, ◌++◌, Text, codes, text_eq, ltb, length,
  length-append, is_nil, int_eq, if◌then◌else◌, Result, ok, err, arith,
}
use discord_proxy_rpc.Activity.{Activity, PresenceSnapshot, source_ipc, equals, clone}
use discord_proxy_rpc.Activity.Normal.{clone_lem}
use discord_proxy_rpc.Parser.{SourceActivity, parse_activity_frame}
use discord_proxy_rpc.Presence.{Presence, update, accept, flush}
use discord_proxy_rpc.Messages.{
  ServerMessage, MessageError, msg_type_presence, new_presence_message, parse_server_message,
}
use discord_proxy_rpc.Messages.Accepts.{presence_with, parse_server_message_iff}
use discord_proxy_rpc.Ipc.Session.{Event, op_frame}
use discord_proxy_rpc.Hub.{Hub, done, is_member, send_capacity, has_event, stamp}
use discord_proxy_rpc.Hub.Sound.{IsSound}
use discord_proxy_rpc.Hub.Queue.{broadcast_capacity, enqueue, run_queue}
use discord_proxy_rpc.Hub.Queue.Order.{wanted, wanted_one, IsAfter, run_queue-IsAfter}
use discord_proxy_rpc.Tui.{
  Model, Snapshot, Decoder, WsMsg, handle_ws_event, apply_server_message, apply_snapshot,
  needs_tick,
}
use discord_proxy_rpc.Tui.Backend.{pumped}
use discord_proxy_rpc.Proxy.{Loop, Phase, tell, parsed, take_event, presence_update, publish}

-- The codecs between the proxy and the dashboard.
pub record Wire : Type 0 where
  pub marshal_snapshot : PresenceSnapshot → Option Text
  pub marshal : ServerMessage → Option Text
  pub decode : Text → Option ServerMessage
  pub decoder : Decoder
  pub describe : MessageError → Text

abbrev pub presence_message : Text → ServerMessage
presence_message payload = record {
  type = msg_type_presence;
  payload = some payload;
  status = [];
  client_id = [];
}

abbrev pub ipc_snapshot : Activity → PresenceSnapshot
ipc_snapshot a = record { source = source_ipc; activity = some a }

abbrev pub shown : Activity → Snapshot
shown a = record { source = codes "ipc"; activity = some a }

-- The codecs keep the presence of an activity: what is marshalled is decoded again.
pub record Carries (w : Wire) (a : Activity) (payload raw : Text) : Type 0 where
  pub payload_made : w.marshal_snapshot (ipc_snapshot a) ≡ some payload
  pub payload_there : is_nil payload ≡ false
  pub raw_made : w.marshal (presence_message payload) ≡ some raw
  pub raw_read : w.decode raw ≡ some (presence_message payload)
  pub payload_read : w.decoder.snapshot payload ≡ ok (shown a)

-- The event loop takes an event, and the timer that this starts, if any, runs out: the activity that
-- the subscriber is told.
module _ (unmarshal : Text → Option SourceActivity) where
  unfoldable pub told_after : Loop → Event → Option Activity
  told_after l event =
      let p : Presence = (take_event unmarshal l event).presence in (flush p p.gen).1

-- What a flush of the current generation tells.
flush_told :
    (p : Presence)
    → p.stopped ≡ false
    → equals p.cached p.last_notified ≡ false
    → (flush p p.gen).1 ≡ some (clone p.cached)
unfolding flush
flush_told p s e = ground (arith, s, e)

update_told :
    (p : Presence) (a : Activity) (timer : ℕ)
    → p.stopped ≡ false
    → equals a p.last_notified ≡ false
    → (flush (update p a timer).0 (update p a timer).0.gen).1 ≡ some a
unfolding update accept
update_told p a timer s e =
    let accepted : (update p a timer).0 ≡ accept p a timer = ground (arith, s) in
    ap (λ (q : Presence). (flush q q.gen).1) accepted
    ∙ flush_told (accept p a timer) s (ap (λ b. equals b p.last_notified) (clone_lem a) ∙ e)
    ∙ ap some (ap clone (clone_lem a) ∙ clone_lem a)

-- The frame of an activity unlike the last one told makes the subscriber told of it.
frame_told :
    (unmarshal : Text → Option SourceActivity) (l : Loop) (frame : Text) (a : Activity)
    → parse_activity_frame unmarshal (some frame) ≡ ok a
    → l.presence.stopped ≡ false
    → equals a l.presence.last_notified ≡ false
    → told_after unmarshal l (record { opcode = op_frame; frame = some frame; error = none })
      ≡ some a
unfolding told_after take_event
frame_told unmarshal l frame a p s e =
    ap (λ r. let q : Presence = (parsed unmarshal l r).presence in (flush q q.gen).1) p
    ∙ update_told l.presence a l.next_timer s e

-- The subscriber puts the message of the activity into the queue of the hub.
publish_lem :
    (w : Wire) (a : Activity) (payload raw : Text) (queue : List ServerMessage)
    → Carries w a payload raw
    → length queue < broadcast_capacity
    → publish w.marshal_snapshot queue a ≡ queue ++ presence_message payload ∷ []
unfolding publish presence_update new_presence_message enqueue
publish_lem w a payload raw queue c r =
    rw (publish, presence_update, new_presence_message, c.payload_made) (ground (arith, r))

read_message :
    (w : Wire) (a : Activity) (payload raw : Text)
    → Carries w a payload raw
    → pumped w.decode w.describe (ok raw)
      ≡ record { msg = some (presence_message payload); error = none; fatal = false }
unfolding pumped
read_message w a payload raw c =
    let parsed_raw =
      (parse_server_message_iff w.decode raw (presence_message payload)).1
        (c.raw_read, presence_with refl cc) in
    rw (pumped, parsed_raw) refl

-- The dashboard that reads the message shows the activity.
dashboard_lem :
    (w : Wire) (a : Activity) (payload raw : Text) (m : Model)
    → Carries w a payload raw
    → (handle_ws_event w.decoder m (pumped w.decode w.describe (ok raw))).0.snapshot ≡ shown a
unfolding handle_ws_event apply_server_message apply_snapshot text_eq
dashboard_lem w a payload raw m c =
    rw (read_message w a payload raw c) (rw (c.payload_there, c.payload_read) refl)

wanted-append :
    (marshal : ServerMessage → Option Text) (stamped : ServerMessage → ServerMessage)
    (events : List Text) (ms ns : List ServerMessage)
    → wanted marshal stamped events (ms ++ ns)
      ≡ wanted marshal stamped events ms ++ wanted marshal stamped events ns
wanted-append marshal stamped events [] ns = refl
wanted-append marshal stamped events (m ∷ ms) ns =
    let one = wanted_one events (stamped m).type (marshal (stamped m)) in
    ap (λ x. one ++ x) (wanted-append marshal stamped events ms ns)
    ∙ sym (append_assoc one (wanted marshal stamped events ms) (wanted marshal stamped events ns))

wanted_message :
    (w : Wire) (a : Activity) (payload raw : Text) (h : Hub) (events : List Text)
    → Carries w a payload raw
    → has_event msg_type_presence events ≡ true
    → wanted w.marshal (stamp h) events (presence_message payload ∷ []) ≡ raw ∷ []
unfolding stamp text_eq
wanted_message w a payload raw h events c e = rw (c.raw_made, e) refl

-- The frame of a known activity that is not Equals to the one last told, taken by the event loop
-- while the cache is not stopped, reaches the dashboard: once the timer has run out the subscriber
-- is told of the activity; once Run has taken the queue, which has room for the message, each client
-- that subscribed to presence has the message last in its buffer, after what it had and what it was
-- to get of the queue, if its buffer has room; and the dashboard that reads it shows the activity.
-- This holds where the codecs keep the presence of the activity, on a hub with sound clients.
pub frame_reaches_dashboard :
    (unmarshal : Text → Option SourceActivity) (w : Wire) (l : Loop) (frame : Text) (a : Activity)
    (payload raw : Text) (h : Hub) (seen : List ℕ) (queue : List ServerMessage) (id : ℕ) (m : Model)
    → parse_activity_frame unmarshal (some frame) ≡ ok a
    → l.presence.stopped ≡ false
    → equals a l.presence.last_notified ≡ false
    → Carries w a payload raw
    → length queue < broadcast_capacity
    → IsSound h.clients h.store seen
    → is_member id h.clients ≡ true
    → has_event msg_type_presence (h.store id).events ≡ true
    → length (h.store id).send + (length queue + 1) ≤ send_capacity
    → (told_after unmarshal l (record { opcode = op_frame; frame = some frame; error = none })
        ≡ some a)
      × (k : Hub) × (run_queue w.marshal h (publish w.marshal_snapshot queue a) ≡ done k)
      × ((k.store id).send
          ≡ (h.store id).send ++ (wanted w.marshal (stamp h) (h.store id).events queue ++ raw ∷ []))
      × ((handle_ws_event w.decoder m (pumped w.decode w.describe (ok raw))).0.snapshot ≡ shown a)
frame_reaches_dashboard unmarshal w l frame a payload raw h seen queue id m p s e c q i j v r =
    let events = (h.store id).events in
    let (k, ran, after) =
      run_queue-IsAfter w.marshal h seen (queue ++ presence_message payload ∷ []) id i j
        (omega (arith, r, length-append queue (presence_message payload ∷ []))) in
    (
      frame_told unmarshal l frame a p s e,
      k,
      ap (run_queue w.marshal h) (publish_lem w a payload raw queue c q) ∙ ran,
      after.queued
          ∙ ap (λ x. (h.store id).send ++ x)
              (wanted-append w.marshal (stamp h) events queue (presence_message payload ∷ [])
                ∙ ap (λ x. wanted w.marshal (stamp h) events queue ++ x)
                    (wanted_message w a payload raw h events c v)),
      dashboard_lem w a payload raw m c,
    )
