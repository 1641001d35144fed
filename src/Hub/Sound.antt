-- ===== src/Hub/Sound.antt =====
-- The clients of internal/server/hub.go have open channels exactly while they may be on the map,
-- and each operation of the hub keeps that.
use discord_proxy_rpc.Base.{
  ℕ, ◌≤◌, ◌≡◌, refl, ap, ◌∙◌, Bool, true, false, Option, none, some, List, [], ◌∷◌, ◌++◌, Text, ltb,
  length, codes, text_eq, arith, Option-cases, Bool-cases, inl, inr, length-append, Result, ok, err,
  Result-cases,
}
use discord_proxy_rpc.Activity.{PresenceSnapshot}
use discord_proxy_rpc.Messages.{
  ServerMessage, ClientMessage, MessageError, new_current_message, new_error_message,
  parse_client_message, msg_type_subscribe, msg_type_get_current,
}
use discord_proxy_rpc.Hub.{
  Client, Hub, Codec, Outcome, done, is_member, without, with_member, put, send_capacity,
  close_channels, add_events, drop_client, unregister, broadcast, stamp, close_each,
  close_all_clients, send_message, reply, send_current, answer, handle_message,
}
use discord_proxy_rpc.Hub.Updates.{
  IsUnique, is_member-without, is_member-with_member, without-IsUnique, with_member-IsUnique, after,
  after-put,
}
use discord_proxy_rpc.Hub.Broadcast.{received, broadcast_lem}

-- The channels of a client are as `closed` says.
abbrev pub Channels : Client → Bool → Type 0
Channels c closed = (c.send_closed ≡ closed) × (c.done_closed ≡ closed)

-- Of the ids on the map, the store and the ids registered so far: a client on the map has open
-- channels, one that left has closed ones, and each buffer keeps within its capacity.
pub record IsSound (clients : List ℕ) (store : ℕ → Client) (seen : List ℕ) : Type 0 where
  pub unique : IsUnique clients
  pub known : (j : ℕ) → is_member j clients ≡ true → is_member j seen ≡ true
  pub opened : (j : ℕ) → is_member j clients ≡ true → Channels (store j) false
  pub left :
      (j : ℕ) → is_member j clients ≡ false → is_member j seen ≡ true → Channels (store j) true
  pub fresh : (j : ℕ) → is_member j seen ≡ false → Channels (store j) false
  pub buffered : (j : ℕ) → length (store j).send ≤ send_capacity

pub with_member-IsSound :
    (clients : List ℕ) (store : ℕ → Client) (seen : List ℕ) (id : ℕ)
    → is_member id seen ≡ false
    → IsSound clients store seen
    → IsSound (with_member id clients) store (id ∷ seen)
with_member-IsSound clients store seen id new s = record {
  unique = with_member-IsUnique id clients s.unique;
  known = λ j m. ground (arith, is_member-with_member j id clients, s.known j);
  opened = λ j m. ground (arith, is_member-with_member j id clients, s.opened j, s.fresh j);
  left = λ j m k. ground (arith, is_member-with_member j id clients, s.left j);
  fresh = λ j m. ground (arith, s.fresh j);
  buffered = s.buffered;
}

abbrev closed : Client → Client
closed c = record c { send_closed = true; done_closed = true }

close_channels-opened : (c : Client) → Channels c false → close_channels c ≡ done (closed c)
unfolding close_channels
close_channels-opened c o = ground arith

without-IsSound :
    (clients : List ℕ) (store : ℕ → Client) (seen : List ℕ) (id : ℕ)
    → is_member id clients ≡ true
    → IsSound clients store seen
    → IsSound (without id clients) (put store id (closed (store id))) seen
without-IsSound clients store seen id m s = record {
  unique = without-IsUnique id clients s.unique;
  known = λ j k. ground (arith, is_member-without j id clients, s.known j);
  opened = λ j k. ground (arith, is_member-without j id clients, s.opened j);
  left = λ j k l. ground (arith, is_member-without j id clients, s.left j);
  fresh = λ j k. ground (arith, s.known j, s.fresh j);
  buffered = λ j. ground (arith, s.buffered j);
}

pub unregister-IsSound :
    (h : Hub) (seen : List ℕ) (id : ℕ)
    → IsSound h.clients h.store seen
    → (k : Hub) × (unregister h id ≡ done k) × IsSound k.clients k.store seen
unfolding unregister drop_client
unregister-IsSound h seen id s = elim (Bool-cases (is_member id h.clients)) [
  | inl e ↦ (
    record h { clients = without id h.clients; store = put h.store id (closed (h.store id)) },
    rw (e, close_channels-opened (h.store id) (s.opened id e)),
    without-IsSound h.clients h.store seen id e s,
  )
  | inr e ↦ (h, rw e, s)
]

received-bounded :
    (type message : Text) (c : Client)
    → length c.send ≤ send_capacity
    → length (received type message c).send ≤ send_capacity
received-bounded type message c b = ground (arith, length-append c.send (message ∷ []))

received-Channels :
    (type message : Text) (c : Client) (b : Bool)
    → Channels c b
    → Channels (received type message c) b
received-Channels type message c b o = ground arith

pub after-IsSound :
    (clients : List ℕ) (store : ℕ → Client) (seen : List ℕ) (type message : Text)
    → IsSound clients store seen
    → IsSound clients (after store (received type message) clients) seen
after-IsSound clients store seen type message s = record {
  unique = s.unique;
  known = s.known;
  opened = λ j m. rw m (received-Channels type message (store j) false (s.opened j m));
  left = λ j m k. rw m (s.left j m k);
  fresh = λ j m. ground (arith, s.known j, s.fresh j);
  buffered = λ j. ground (arith, received-bounded type message (store j), s.buffered j);
}

pub broadcast-IsSound :
    (marshal : ServerMessage → Option Text) (h : Hub) (seen : List ℕ) (m : ServerMessage)
    → IsSound h.clients h.store seen
    → (k : Hub) × (broadcast marshal h m ≡ done k) × IsSound k.clients k.store seen
broadcast-IsSound marshal h seen m s =
    let b = broadcast_lem marshal h m s.unique (λ j k. (s.opened j k).0) in
    elim (Option-cases (marshal (stamp h m))) [
      | inl e ↦ (h, ground arith, s)
      | inr (message, e) ↦ (
        record h { store = after h.store (received (stamp h m).type message) h.clients },
        ground arith,
        after-IsSound h.clients h.store seen (stamp h m).type message s,
      )
    ]

abbrev shut : Client → Client
shut c = record c { send_closed = true; done_closed = true; conn_closed = true }

close_each_lem :
    (store : ℕ → Client) (ids : List ℕ)
    → IsUnique ids
    → ((j : ℕ) → is_member j ids ≡ true → Channels (store j) false)
    → close_each store ids ≡ done (after store shut ids)
unfolding close_each
close_each_lem store [] u o = refl
close_each_lem store (id ∷ ids) u o =
    let rest = close_each_lem (put store id (shut (store id))) ids u.1 λ j m. ground (arith, o j) in
    rw (close_channels-opened (store id) (o id (ground arith)))
      (rest ∙ ap done (after-put store shut id ids u.0))

pub close_all_clients-emptied :
    (h : Hub) (seen : List ℕ)
    → IsSound h.clients h.store seen
    → (k : Hub) × (close_all_clients h ≡ done k) × IsSound k.clients k.store seen × (k.clients ≡ [])
unfolding close_all_clients
close_all_clients-emptied h seen s = (
  record h { clients = []; store = after h.store shut h.clients },
  rw (close_each_lem h.store h.clients s.unique s.opened),
  record {
    unique = tt;
    known = λ j m. absurd (ground arith);
    opened = λ j m. absurd (ground arith);
    left = λ j m k. ground (arith, s.left j);
    fresh = λ j m. ground (arith, s.known j, s.fresh j);
    buffered = λ j. ground (arith, s.buffered j);
  },
  refl,
)

-- One client's state changes, and its channels and the bound of its buffer do not.
put-IsSound :
    (clients : List ℕ) (store : ℕ → Client) (seen : List ℕ) (id : ℕ) (c : Client)
    → c.send_closed ≡ (store id).send_closed
    → c.done_closed ≡ (store id).done_closed
    → length c.send ≤ send_capacity
    → IsSound clients store seen
    → IsSound clients (put store id c) seen
put-IsSound clients store seen id c e f b s = record {
  unique = s.unique;
  known = s.known;
  opened = λ j m. ground (arith, s.opened j);
  left = λ j m k. ground (arith, s.left j);
  fresh = λ j m. ground (arith, s.fresh j);
  buffered = λ j. ground (arith, s.buffered j);
}

sent_to_open :
    (c : Client) (message : Text)
    → c.send_closed ≡ false
    → length c.send ≤ send_capacity
    → (d : Client) × (send_message c message ≡ done d)
      × (d.send_closed ≡ c.send_closed)
      × (d.done_closed ≡ c.done_closed)
      × (length d.send ≤ send_capacity)
unfolding send_message
sent_to_open c message o b = elim (Bool-cases (ltb (length c.send) send_capacity)) [
  | inl e ↦ (
    record c { send = c.send ++ message ∷ [] },
    rw (o, e),
    refl,
    refl,
    ground (arith, length-append c.send (message ∷ [])),
  )
  | inr e ↦ (c, rw (o, e), refl, refl, b)
]

-- What a message of a client leaves: a sound hub.
abbrev Settles : List ℕ → Outcome Hub → Type 0
Settles seen o = (k : Hub) × (o ≡ done k) × IsSound k.clients k.store seen

module _ (codec : Codec) (get_current : Option PresenceSnapshot) (seen : List ℕ) (id : ℕ) where
  reply-Settles :
      (h : Hub) (r : Result MessageError ServerMessage)
      → IsSound h.clients h.store seen
      → (h.store id).send_closed ≡ false
      → Settles seen (reply codec get_current h id r)
  unfolding reply
  reply-Settles h (err e) s o = (h, refl, s)
  reply-Settles h (ok m) s o = elim (Option-cases (codec.marshal m)) [
    | inl e ↦ (h, rw (reply, e), s)
    | inr (message, e) ↦
        let (d, sent, same, same_done, bound) =
          sent_to_open (h.store id) message o (s.buffered id) in
        (
          record h { store = put h.store id d },
          rw (reply, e, sent),
          put-IsSound h.clients h.store seen id d same same_done bound s,
        )
  ]

  send_current-Settles :
      (h : Hub) (p : Option PresenceSnapshot)
      → IsSound h.clients h.store seen
      → (h.store id).send_closed ≡ false
      → Settles seen (send_current codec get_current h id p)
  unfolding send_current
  send_current-Settles h none s o = (h, refl, s)
  send_current-Settles h (some p) s o =
      reply-Settles h (new_current_message codec.marshal_snapshot p (h.client_id ∷ [])) s o

  answer-Settles :
      (h : Hub) (m : ClientMessage)
      → IsSound h.clients h.store seen
      → (h.store id).send_closed ≡ false
      → Settles seen (answer codec get_current h id m)
  unfolding answer
  answer-Settles h m s o = elim (Bool-cases (text_eq m.type msg_type_subscribe)) [
    | inl e ↦
        let c : Client = record (h.store id) {
          events = add_events m.subscribe_events (h.store id).events;
        } in
        (
          record h { store = put h.store id c },
          rw e refl,
          put-IsSound h.clients h.store seen id c refl refl (s.buffered id) s,
        )
    | inr e ↦ elim (Bool-cases (text_eq m.type msg_type_get_current)) [
      | inl f ↦ rw (e, f) (send_current-Settles h get_current s o)
      | inr f ↦
          rw (e, f)
            (reply-Settles h
              (new_error_message codec.marshal_error (codes "MSG_001")
                (codec.describe (MessageError.unknown_type m.type)))
              s o)
    ]
  ]

  pub handle_message-Settles :
      (h : Hub) (raw : Text)
      → IsSound h.clients h.store seen
      → (h.store id).send_closed ≡ false
      → Settles seen (handle_message codec get_current h id raw)
  unfolding handle_message
  handle_message-Settles h raw s o = elim (Result-cases (parse_client_message codec.decode raw)) [
    | inl (e, f) ↦
        rw (handle_message, f)
          (reply-Settles h
            (new_error_message codec.marshal_error (codes "MSG_001") (codec.describe e)) s o)
    | inr (m, f) ↦ rw (handle_message, f) (answer-Settles h m s o)
  ]
