-- ===== src/Hub/Pump/Order.antt =====
-- WritePump of internal/server/hub.go writes what was queued, in order.
use mathlib.Core.List.{append-nil, append_assoc}
use discord_proxy_rpc.Base.{
  ◌||◌, suc, ◌≤◌, ◌≡◌, refl, subst, sym, ap, ◌∙◌, Bool, true, false, Bool-cases, inl, inr, List, [],
  ◌∷◌, ◌++◌, Text, ltb, length, length-append, if_elim, if_cases, arith,
}
use discord_proxy_rpc.Hub.{
  Outcome, done, panic, ◌>>=◌, send_capacity, new_client, send_message, close_channels,
}
use discord_proxy_rpc.Hub.Pump.{
  Frame, text_frame, ping_frame, close_frame, Life, begin, end_pump, write_close, pump_queue,
  pump_ping, queue_message, Event, queues, closes, pumps, pings, step, run,
}

-- The text messages among the frames.
abbrev pub texts : List Frame → List Text
texts [] = []
texts (text_frame m ∷ fs) = m ∷ texts fs
texts (ping_frame ∷ fs) = texts fs
texts (close_frame ∷ fs) = texts fs

pub texts-append : (fs gs : List Frame) → texts (fs ++ gs) ≡ texts fs ++ texts gs
texts-append [] gs = refl
texts-append (text_frame m ∷ fs) gs = ap (◌∷◌ m) (texts-append fs gs)
texts-append (ping_frame ∷ fs) gs = texts-append fs gs
texts-append (close_frame ∷ fs) gs = texts-append fs gs

-- Whether the close message was written.
abbrev pub says_goodbye : List Frame → Bool
says_goodbye [] = false
says_goodbye (text_frame m ∷ fs) = says_goodbye fs
says_goodbye (ping_frame ∷ fs) = says_goodbye fs
says_goodbye (close_frame ∷ fs) = true

-- What was accepted is what was written, then what was lost, then what is queued.
pub record IsInOrder (l : Life) : Type 0 where
  pub kept : texts l.written ++ l.lost ++ l.client.send ≡ l.accepted
  pub bounded : length l.client.send ≤ send_capacity
  pub pumping : l.is_pumping ≡ true → (l.lost ≡ []) × (says_goodbye l.written ≡ false)
  pub closed :
      says_goodbye l.written ≡ true
      → (l.client.send_closed ≡ true) × (l.client.send ≡ []) × (l.lost ≡ [])

abbrev OutcomeIsInOrder : Outcome Life → Type 0
OutcomeIsInOrder (done l) = IsInOrder l
OutcomeIsInOrder panic = Unit

says_goodbye-text :
    (fs : List Frame) (m : Text) → says_goodbye (fs ++ text_frame m ∷ []) ≡ says_goodbye fs
says_goodbye-text [] m = refl
says_goodbye-text (text_frame n ∷ fs) m = says_goodbye-text fs m
says_goodbye-text (ping_frame ∷ fs) m = says_goodbye-text fs m
says_goodbye-text (close_frame ∷ fs) m = refl

says_goodbye-ping : (fs : List Frame) → says_goodbye (fs ++ ping_frame ∷ []) ≡ says_goodbye fs
says_goodbye-ping [] = refl
says_goodbye-ping (text_frame n ∷ fs) = says_goodbye-ping fs
says_goodbye-ping (ping_frame ∷ fs) = says_goodbye-ping fs
says_goodbye-ping (close_frame ∷ fs) = refl

end_pump-IsInOrder : (l : Life) → IsInOrder l → IsInOrder (end_pump l)
end_pump-IsInOrder l i = record {
  kept = i.kept;
  bounded = i.bounded;
  pumping = λ e. cc;
  closed = i.closed;
}

pump_ping-IsInOrder : (l : Life) (written : Bool) → IsInOrder l → IsInOrder (pump_ping l written)
pump_ping-IsInOrder l true i = record {
  kept =
      ap (λ t. t ++ l.lost ++ l.client.send)
        (texts-append l.written (ping_frame ∷ []) ∙ append-nil (texts l.written))
      ∙ i.kept;
  bounded = i.bounded;
  pumping = λ e. ((i.pumping e).0, says_goodbye-ping l.written ∙ (i.pumping e).1);
  closed = λ e. i.closed (sym (says_goodbye-ping l.written) ∙ e);
}
pump_ping-IsInOrder l false i = end_pump-IsInOrder l i

abbrev with_queued : Life → Text → Life
with_queued l m = record l {
  client = record l.client { send = l.client.send ++ m ∷ [] };
  accepted = l.accepted ++ m ∷ [];
}

queued :
    (l : Life) (m : Text)
    → IsInOrder l
    → l.client.send_closed ≡ false
    → ltb (length l.client.send) send_capacity ≡ true
    → IsInOrder (with_queued l m)
queued l m i o r = record {
  kept =
      sym (append_assoc (texts l.written ++ l.lost) l.client.send (m ∷ []))
      ∙ ap (λ t. t ++ m ∷ []) i.kept;
  bounded = ground (arith, length-append l.client.send (m ∷ []));
  pumping = i.pumping;
  closed = λ e. absurd (ground (arith, i.closed e));
}

queue_message-IsInOrder : (l : Life) (m : Text) → IsInOrder l → OutcomeIsInOrder (queue_message l m)
unfolding send_message
queue_message-IsInOrder l m i = elim (Bool-cases l.client.send_closed) [
  | inl o ↦ simp (o) tt
  | inr o ↦ elim (Bool-cases (ltb (length l.client.send) send_capacity)) [
    | inl r ↦
        let q : queue_message l m ≡ done (with_queued l m) = ground arith in
        subst OutcomeIsInOrder (sym q) (queued l m i o r)
    | inr r ↦ simp (o, r) i
  ]
]

-- While nothing is lost, what was written and what is queued is what was accepted.
pub none_lost :
    (l : Life) (ms : List Text)
    → l.lost ≡ []
    → l.client.send ≡ ms
    → IsInOrder l
    → texts l.written ++ ms ≡ l.accepted
none_lost l ms n e i =
    ap (λ x. texts l.written ++ x) (sym e)
    ∙ ap (λ x. x ++ l.client.send) (sym (append-nil (texts l.written)))
    ∙ ap (λ x. texts l.written ++ x ++ l.client.send) (sym n)
    ∙ i.kept

pump_queue-IsInOrder :
    (l : Life) (written : Bool) (ms : List Text)
    → l.client.send ≡ ms
    → l.is_pumping ≡ true
    → IsInOrder l
    → IsInOrder (pump_queue l written ms)
pump_queue-IsInOrder l written [] e r i =
    if_cases IsInOrder l.client.send_closed (λ c. ended written c) (λ c. i)
  where
    ended : (w : Bool) → l.client.send_closed ≡ true → IsInOrder (write_close l w)
    ended false c = end_pump-IsInOrder l i
    ended true c = record {
      kept =
          ap (λ t. t ++ l.lost ++ l.client.send)
            (texts-append l.written (close_frame ∷ []) ∙ append-nil (texts l.written))
          ∙ i.kept;
      bounded = i.bounded;
      pumping = λ k. cc;
      closed = λ k. (c, e, (i.pumping r).0);
    }
pump_queue-IsInOrder l true (m ∷ ms) e r i =
    let (n, g) = i.pumping r in
    let shorter : suc (length ms) ≤ send_capacity =
      subst (λ x. length x ≤ send_capacity) e i.bounded in
    record {
      kept =
          ap (λ t. t ++ l.lost ++ ms) (texts-append l.written (text_frame m ∷ []))
          ∙ ap (λ x. texts l.written ++ m ∷ [] ++ x ++ ms) n
          ∙ ap (λ x. x ++ ms) (append-nil (texts l.written ++ m ∷ []))
          ∙ append_assoc (texts l.written) (m ∷ []) ms
          ∙ none_lost l (m ∷ ms) n e i;
      bounded = omega (arith, shorter);
      pumping = λ k. (n, says_goodbye-text l.written m ∙ g);
      closed = λ k. absurd (ground (arith, says_goodbye-text l.written m));
    }
pump_queue-IsInOrder l false (m ∷ ms) e r i =
    let (n, g) = i.pumping r in
    let shorter : suc (length ms) ≤ send_capacity =
      subst (λ x. length x ≤ send_capacity) e i.bounded in
    record {
      kept = append_assoc (texts l.written) (m ∷ []) ms ∙ none_lost l (m ∷ ms) n e i;
      bounded = omega (arith, shorter);
      pumping = λ k. cc;
      closed = λ k. absurd (ground (arith, g));
    }

closed-IsInOrder :
    (l : Life)
    → IsInOrder l
    → OutcomeIsInOrder (close_channels l.client >>= λ c. done (record l { client = c }))
unfolding close_channels
closed-IsInOrder l i = elim (Bool-cases (l.client.send_closed || l.client.done_closed)) [
  | inl h ↦ rw h tt
  | inr h ↦ rw h (record {
    kept = i.kept;
    bounded = i.bounded;
    pumping = i.pumping;
    closed = λ k. (refl, (i.closed k).1, (i.closed k).2);
  })
]

step-IsInOrder : (l : Life) (e : Event) → IsInOrder l → OutcomeIsInOrder (step l e)
unfolding step
step-IsInOrder l (queues m) i = queue_message-IsInOrder l m i
step-IsInOrder l closes i = closed-IsInOrder l i
step-IsInOrder l (pumps written) i =
    if_cases IsInOrder l.is_pumping (λ r. pump_queue-IsInOrder l written l.client.send refl r i)
      (λ r. i)
step-IsInOrder l (pings written) i =
    if_elim IsInOrder l.is_pumping (pump_ping-IsInOrder l written i) i

then-IsInOrder :
    (o : Outcome Life) (next : Life → Outcome Life)
    → OutcomeIsInOrder o
    → ((m : Life) → IsInOrder m → OutcomeIsInOrder (next m))
    → OutcomeIsInOrder (o >>= next)
then-IsInOrder (done m) next k f = f m k
then-IsInOrder panic next k f = tt

run-IsInOrder : (l : Life) (es : List Event) → IsInOrder l → OutcomeIsInOrder (run l es)
unfolding run
run-IsInOrder l [] i = i
run-IsInOrder l (e ∷ es) i =
    then-IsInOrder (step l e) (λ m. run m es) (step-IsInOrder l e i) (λ m. run-IsInOrder m es)

-- In any history of messages, closing, writes and pings, as long as nothing is sent on a closed
-- channel or closed twice: the texts that were written, then the one whose write failed, then those
-- still queued are the accepted ones in their order, at most 256 are queued, nothing is lost while
-- the pump goes on, and once the close message was written all of them were.
pub written-IsInOrder : (es : List Event) (l : Life) → run begin es ≡ done l → IsInOrder l
unfolding begin new_client
written-IsInOrder es l e = subst OutcomeIsInOrder e (run-IsInOrder begin es start)
  where
    start : IsInOrder begin
    start = record {
      kept = refl;
      bounded = omega arith;
      pumping = λ k. (refl, refl);
      closed = λ k. absurd (ground arith);
    }
