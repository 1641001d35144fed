-- ===== src/Hub/Queue/Order.antt =====
-- The queue of broadcasts of internal/server/hub.go keeps its order in each client's buffer.
use mathlib.Core.Path.{fun_ext}
use mathlib.Core.List.{append-nil, append_assoc}
use discord_proxy_rpc.Base.{
  ℕ, ◌+◌, ◌≤◌, ◌<◌, ◌≡◌, refl, sym, ap, ◌∙◌, true, Option, none, some, List, [], ◌∷◌, ◌++◌, Text,
  length, length-append, if◌then◌else◌, arith,
}
use discord_proxy_rpc.Messages.{ServerMessage}
use discord_proxy_rpc.Hub.{Hub, done, ◌>>=◌, is_member, send_capacity, has_event, stamp, broadcast}
use discord_proxy_rpc.Hub.Updates.{after}
use discord_proxy_rpc.Hub.Broadcast.{received, broadcast_lem}
use discord_proxy_rpc.Hub.Sound.{IsSound, after-IsSound}
use discord_proxy_rpc.Hub.Queue.{run_queue}

-- What a client that subscribed to `events` is to get for one message, once it is marshalled.
abbrev pub wanted_one : List Text → Text → Option Text → List Text
wanted_one events type none = []
wanted_one events type (some message) = if has_event type events then message ∷ [] else []

length-wanted_one :
    (events : List Text) (type : Text) (o : Option Text) → length (wanted_one events type o) ≤ 1
length-wanted_one events type none = omega arith
length-wanted_one events type (some message) = ground arith

module _ (marshal : ServerMessage → Option Text) where
  -- What it is to get for some messages, given how the hub stamps them.
  abbrev pub wanted : (ServerMessage → ServerMessage) → List Text → List ServerMessage → List Text
  wanted stamped events [] = []
  wanted stamped events (m ∷ ms) =
      wanted_one events (stamped m).type (marshal (stamped m)) ++ wanted stamped events ms

  -- The hub after a broadcast, as the client sees it.
  pub record IsAfter (h k : Hub) (seen : List ℕ) (id : ℕ) (got : List Text) : Type 0 where
    pub members : k.clients ≡ h.clients
    pub stamps : stamp k ≡ stamp h
    pub events : (k.store id).events ≡ (h.store id).events
    pub queued : (k.store id).send ≡ (h.store id).send ++ got
    pub sound : IsSound k.clients k.store seen

  -- The hub after a broadcast of a marshalled message, or of none.
  abbrev broadcast_of : Hub → Text → Option Text → Hub
  broadcast_of h type none = h
  broadcast_of h type (some message) = record h {
    store = after h.store (received type message) h.clients;
  }

  broadcast_of-IsAfter :
      (h : Hub) (seen : List ℕ) (type : Text) (o : Option Text) (id : ℕ)
      → IsSound h.clients h.store seen
      → is_member id h.clients ≡ true
      → length (h.store id).send < send_capacity
      → IsAfter h (broadcast_of h type o) seen id (wanted_one (h.store id).events type o)
  unfolding stamp
  broadcast_of-IsAfter h seen type none id s i r = record {
    members = refl;
    stamps = refl;
    events = refl;
    queued = sym (append-nil (h.store id).send);
    sound = s;
  }
  broadcast_of-IsAfter h seen type (some d) id s i r = record {
    members = refl;
    stamps = fun_ext λ m. refl;
    events = ground arith;
    queued = ground (arith, append-nil (h.store id).send);
    sound = after-IsSound h.clients h.store seen type d s;
  }

  broadcast_of_lem :
      (h : Hub) (seen : List ℕ) (m : ServerMessage)
      → IsSound h.clients h.store seen
      → broadcast marshal h m ≡ done (broadcast_of h (stamp h m).type (marshal (stamp h m)))
  broadcast_of_lem h seen m s =
      broadcast_lem marshal h m s.unique (λ j b. (s.opened j b).0) ∙ same (marshal (stamp h m))
    where
      same :
          (o : Option Text)
          → elim o [
            | none ↦ done h
            | some d ↦
                done (record h { store = after h.store (received (stamp h m).type d) h.clients })
          ]
            ≡ done (broadcast_of h (stamp h m).type o)
      same none = refl
      same (some d) = refl

  -- On a sound hub the messages of the queue never panic, and a client on the map whose buffer has
  -- room for them all gets the ones of the events that it subscribed to, in the order of the queue.
  pub run_queue-IsAfter :
      (h : Hub) (seen : List ℕ) (ms : List ServerMessage) (id : ℕ)
      → IsSound h.clients h.store seen
      → is_member id h.clients ≡ true
      → length (h.store id).send + length ms ≤ send_capacity
      → (k : Hub) × (run_queue marshal h ms ≡ done k)
        × IsAfter h k seen id (wanted (stamp h) (h.store id).events ms)
  unfolding run_queue
  run_queue-IsAfter h seen [] id s i r = (
    h,
    refl,
    record {
      members = refl;
      stamps = refl;
      events = refl;
      queued = sym (append-nil (h.store id).send);
      sound = s;
    },
  )
  run_queue-IsAfter h seen (m ∷ ms) id s i r =
      let type : Text = (stamp h m).type in
      let h' : Hub = broadcast_of h type (marshal (stamp h m)) in
      let one = wanted_one (h.store id).events type (marshal (stamp h m)) in
      let a = broadcast_of-IsAfter h seen type (marshal (stamp h m)) id s i (omega (arith, r)) in
      let (k, q, b) = run_queue-IsAfter h' seen ms id a.sound (ap (is_member id) a.members ∙ i) (
        omega (
          arith,
          r,
          ap (λ x. length x) a.queued,
          length-append (h.store id).send one,
          length-wanted_one (h.store id).events type (marshal (stamp h m)),
        )) in
      let same : wanted (stamp h') (h'.store id).events ms
          ≡ wanted (stamp h) (h.store id).events ms =
        ap (λ st. wanted st (h'.store id).events ms) a.stamps
        ∙ ap (λ events. wanted (stamp h) events ms) a.events in
      (
        k,
        ap (λ o. o >>= λ v. run_queue marshal v ms) (broadcast_of_lem h seen m s) ∙ q,
        record {
          members = b.members ∙ a.members;
          stamps = b.stamps ∙ a.stamps;
          events = b.events ∙ a.events;
          queued =
              b.queued
              ∙ ap (λ x. x ++ wanted (stamp h') (h'.store id).events ms) a.queued
              ∙ append_assoc (h.store id).send one (wanted (stamp h') (h'.store id).events ms)
              ∙ ap (λ w. (h.store id).send ++ (one ++ w)) same;
          sound = b.sound;
        },
      )
