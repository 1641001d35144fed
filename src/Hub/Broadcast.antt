-- ===== src/Hub/Broadcast.antt =====
-- What a broadcast of internal/server/hub.go puts in the clients' buffers.
use discord_proxy_rpc.Base.{
  ℕ, ◌≡◌, refl, sym, ap, ◌∙◌, true, false, ◌&&◌, Option, none, some, List, [], ◌∷◌, ◌++◌, Text, ltb,
  length, if◌then◌else◌, arith, Option-cases, Bool-cases, inl, inr,
}
use discord_proxy_rpc.Messages.{ServerMessage}
use discord_proxy_rpc.Hub.{
  Client, Hub, done, is_member, put, send_capacity, send_message, has_event, deliver, stamp,
  broadcast,
}
use discord_proxy_rpc.Hub.Updates.{IsUnique, after, after-put, put_self}

-- A subscribed client whose buffer has room gets the message at its end; any other is left alone.
abbrev pub received : Text → Text → Client → Client
received type message c =
    if has_event type c.events && ltb (length c.send) send_capacity
    then record c { send = c.send ++ message ∷ [] }
    else c

-- The channels of these clients are open.
abbrev pub AreOpen : (ℕ → Client) → List ℕ → Type 0
AreOpen store ids = (j : ℕ) → is_member j ids ≡ true → (store j).send_closed ≡ false

send_open :
    (c : Client) (type message : Text)
    → c.send_closed ≡ false
    → has_event type c.events ≡ true
    → send_message c message ≡ done (received type message c)
unfolding send_message
send_open c type message o e = ground arith

received_skipped :
    (c : Client) (type message : Text)
    → has_event type c.events ≡ false
    → received type message c ≡ c
received_skipped c type message e = ground arith

tail_open :
    (store : ℕ → Client) (id : ℕ) (c : Client) (ids : List ℕ)
    → is_member id ids ≡ false
    → AreOpen store (id ∷ ids)
    → AreOpen (put store id c) ids
tail_open store id c ids new o = λ j m. ground (arith, o j)

-- A client that is skipped is one to which the update does nothing.
after_skipped :
    (store : ℕ → Client) (type message : Text) (id : ℕ) (ids : List ℕ)
    → is_member id ids ≡ false
    → has_event type (store id).events ≡ false
    → after store (received type message) ids ≡ after store (received type message) (id ∷ ids)
after_skipped store type message id ids new e =
    ap (λ (s : ℕ → Client). after s (received type message) ids)
      (sym (ap (put store id) (received_skipped (store id) type message e) ∙ put_self store id))
    ∙ after-put store (received type message) id ids new

deliver_lem :
    (store : ℕ → Client) (type message : Text) (ids : List ℕ)
    → IsUnique ids
    → AreOpen store ids
    → deliver store type message ids ≡ done (after store (received type message) ids)
unfolding deliver
deliver_lem store type message [] u o = refl
deliver_lem store type message (id ∷ ids) u o =
    elim (Bool-cases (has_event type (store id).events)) [
      | inl e ↦
          let got : Client = received type message (store id) in
          rw (e, send_open (store id) type message (o id (ground arith)) e)
            (deliver_lem (put store id got) type message ids u.1 (tail_open store id got ids u.0 o)
              ∙ ap done (after-put store (received type message) id ids u.0))
      | inr e ↦ rw e (
          deliver_lem store type message ids u.1 (λ j m. o j (ground arith))
          ∙ ap done (after_skipped store type message id ids u.0 e))
    ]

-- A broadcast on a hub whose clients are open never panics. Each client on the map that subscribes
-- to the message's type and whose buffer has room gets the marshalled message at the end of its
-- buffer; every other client, and the map, are unchanged. A message that cannot be marshalled
-- changes nothing.
pub broadcast_lem :
    (marshal : ServerMessage → Option Text) (h : Hub) (m : ServerMessage)
    → IsUnique h.clients
    → AreOpen h.store h.clients
    → broadcast marshal h m ≡ elim (marshal (stamp h m)) [
      | none ↦ done h
      | some message ↦
          done (record h { store = after h.store (received (stamp h m).type message) h.clients })
    ]
unfolding broadcast
broadcast_lem marshal h m u o = elim (Option-cases (marshal (stamp h m))) [
  | inl e ↦ ground arith
  | inr (message, e) ↦ ground (arith, deliver_lem h.store (stamp h m).type message h.clients u o)
]
