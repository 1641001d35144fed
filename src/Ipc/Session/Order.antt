-- ===== src/Ipc/Session/Order.antt =====
-- The events of a session of internal/ipc/client.go: nothing is made up or reordered, and the last
-- one is never lost.
use discord_proxy_rpc.Base.{
  ◌+◌, ◌≤◌, ◌≡◌, ◌≢◌, refl, sym, ap, subst, ◌∙◌, false, Option, none, some, List, [], ◌∷◌, ◌++◌,
  Text, length, ltb, int_eq, if_cases, length-append, All, arith,
}
use discord_proxy_rpc.Ipc.{Client, set_state, disconnected}
use discord_proxy_rpc.Ipc.Session.{
  Event, Session, Phase, reading, ending, ended, Read, got, failed, Action, reads, takes,
  sends_last, gives_up, begin, emit_event, end_with, close_events, frame_event, handle_read,
  take_from, send_last, read_in, step, run, event_buffer_size, op_close, op_pong, op_frame,
}

-- The context is not cancelled where a read fails, nor while the last event waits.
abbrev pub IsUncancelled : Action → Type 0
IsUncancelled (reads cancelled r) = cancelled ≡ false
IsUncancelled takes = Unit
IsUncancelled sends_last = Unit
IsUncancelled gives_up = ⊥

-- A session that is ending has told the client, and one that has ended has put an event with an
-- error last.
abbrev pub IsInPhase : Session → Phase → Type 0
IsInPhase s reading = Unit
IsInPhase s (ending e) = (s.client.state ≡ disconnected) × (e.error ≢ none)
IsInPhase s ended =
    (s.client.state ≡ disconnected)
    × (s.client.events ≡ none)
    × ((before : List Event) × (e : Event) × (s.taken ++ s.buffer ≡ before ++ e ∷ [])
        × (e.error ≢ none))

abbrev pub IsOrdered : Session → Type 0
IsOrdered s = IsInPhase s s.phase × (length s.buffer ≤ event_buffer_size)

append_assoc : (xs ys zs : List Event) → (xs ++ ys) ++ zs ≡ xs ++ (ys ++ zs)
append_assoc [] ys zs = refl
append_assoc (x ∷ xs) ys zs = ap (λ l. x ∷ l) (append_assoc xs ys zs)

emit_event-IsOrdered :
    (s : Session) (e : Event) → s.phase ≡ reading → IsOrdered s → IsOrdered (emit_event s e)
unfolding emit_event
emit_event-IsOrdered s e p o =
    if_cases IsOrdered (ltb (length s.buffer) event_buffer_size)
      (λ b. (
        subst (IsInPhase (record s { buffer = s.buffer ++ e ∷ [] })) (sym p) tt,
        ground (arith, length-append s.buffer (e ∷ [])),
      ))
      (λ b. o)

end_with-IsOrdered :
    (s : Session) (e : Event) → e.error ≢ none → IsOrdered s → IsOrdered (end_with s e)
unfolding end_with set_state
end_with-IsOrdered s e n o = ((refl, n), o.1)

some_error : (t : Text) → some t ≢ none
some_error t = λ e. ground arith

handle_read-IsOrdered :
    (parse_error : Text → Option Text) (s : Session) (r : Read)
    → s.phase ≡ reading
    → IsOrdered s
    → IsOrdered (handle_read parse_error s false r)
unfolding handle_read
handle_read-IsOrdered parse_error s (failed op e) p o = end_with-IsOrdered s _ (some_error e) o
handle_read-IsOrdered parse_error s (got op raw) p o =
    if_cases IsOrdered (int_eq op op_close) (λ a. end_with-IsOrdered s _ (some_error _) o)
      λ a.
        if_cases IsOrdered (int_eq op op_pong)
          (λ b.
            if_cases IsOrdered s.client.health_check
              (λ h. (subst (IsInPhase (record s { pongs = s.pongs + 1 })) (sym p) tt, o.1))
              (λ h. o))
          λ b.
            if_cases IsOrdered (int_eq op op_frame)
              (λ d. emit_event-IsOrdered s (frame_event parse_error raw) p o)
              (λ d. emit_event-IsOrdered s _ p o)

took-IsInPhase :
    (s : Session) (e : Event) (es : List Event) (p : Phase)
    → s.buffer ≡ e ∷ es
    → IsInPhase s p
    → IsInPhase (record s { buffer = es; taken = s.taken ++ e ∷ [] }) p
took-IsInPhase s e es reading b i = tt
took-IsInPhase s e es (ending x) b i = i
took-IsInPhase s e es ended b (d, n, (before, x, l, k)) =
    (d, n, (before, x, append_assoc s.taken (e ∷ []) es ∙ sym (ap (λ y. s.taken ++ y) b) ∙ l, k))

take_from-IsOrdered :
    (s : Session) (l : List Event) → s.buffer ≡ l → IsOrdered s → IsOrdered (take_from s l)
take_from-IsOrdered s [] b o = o
take_from-IsOrdered s (e ∷ es) b o = (took-IsInPhase s e es s.phase b o.0, ground (arith, o.1))

send_last-IsOrdered :
    (s : Session) (p : Phase) → s.phase ≡ p → IsOrdered s → IsOrdered (send_last s p)
unfolding send_last close_events
send_last-IsOrdered s reading q o = o
send_last-IsOrdered s (ending e) q o =
    let i : IsInPhase s (ending e) = subst (IsInPhase s) q o.0 in
    if_cases IsOrdered (ltb (length s.buffer) event_buffer_size)
      (λ b. (
        (i.0, refl, (s.taken ++ s.buffer, e, sym (append_assoc s.taken s.buffer (e ∷ [])), i.1)),
        ground (arith, length-append s.buffer (e ∷ [])),
      ))
      (λ b. o)
send_last-IsOrdered s ended q o = o

step-IsOrdered :
    (parse_error : Text → Option Text) (s : Session) (a : Action)
    → IsUncancelled a
    → IsOrdered s
    → IsOrdered (step parse_error s a)
unfolding step read_in
step-IsOrdered parse_error s (reads cancelled r) u o =
    subst (λ b. IsOrdered (read_in parse_error s b r s.phase)) (sym u) (go s.phase refl)
  where
    go : (p : Phase) → s.phase ≡ p → IsOrdered (read_in parse_error s false r p)
    go reading q = handle_read-IsOrdered parse_error s r q o
    go (ending e) q = o
    go ended q = o
step-IsOrdered parse_error s takes u o = take_from-IsOrdered s s.buffer refl o
step-IsOrdered parse_error s sends_last u o = send_last-IsOrdered s s.phase refl o
step-IsOrdered parse_error s gives_up u o = absurd u

run-IsOrdered :
    (parse_error : Text → Option Text) (s : Session) (actions : List Action)
    → All IsUncancelled actions
    → IsOrdered s
    → IsOrdered (run parse_error s actions)
unfolding run
run-IsOrdered parse_error s [] u o = o
run-IsOrdered parse_error s (a ∷ actions) u o =
    run-IsOrdered parse_error (step parse_error s a) actions u.1
      (step-IsOrdered parse_error s a u.0 o)

-- While the context is not cancelled, whatever is read and whenever the consumer takes events: the
-- buffer keeps within its capacity, and a session that has ended left the client disconnected
-- without a channel, and the last event that was or will be taken carries an error, so that the end
-- is told however slow the consumer is.
pub session_end_told :
    (parse_error : Text → Option Text) (c : Client) (actions : List Action)
    → All IsUncancelled actions
    → (length (run parse_error (begin c) actions).buffer ≤ event_buffer_size)
      × ((run parse_error (begin c) actions).phase ≡ ended
          → IsInPhase (run parse_error (begin c) actions) ended)
unfolding begin
session_end_told parse_error c actions u =
    let o = run-IsOrdered parse_error (begin c) actions u (tt, omega arith) in
    (o.1, λ e. subst (IsInPhase (run parse_error (begin c) actions)) e o.0)
