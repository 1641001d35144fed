-- ===== src/Proxy/States.antt =====
-- The states that the loop of cmd/proxy/main.go broadcasts.
use discord_proxy_rpc.Base.{
  ℕ, zero, suc, ◌≡◌, refl, ap, ◌∙◌, subst, true, false, ◌&&◌, Option, is_some, List, [], ◌∷◌, ◌++◌,
  Text, int_eq, if_elim, Result, ok, err,
}
use discord_proxy_rpc.Messages.{
  ServerMessage, new_state_message, state_connected, state_reconnecting,
}
use discord_proxy_rpc.Presence.{Presence}
use discord_proxy_rpc.Parser.{SourceActivity, parse_activity_frame}
use discord_proxy_rpc.Ipc.Session.{Event, op_frame}
use discord_proxy_rpc.Proxy.{
  Phase, polling, ranging, returned, Loop, begin, Action, finds, takes, closes, cancels, tell,
  parsed, take_event, step_in, run,
}

abbrev pub told_connected : ServerMessage
told_connected = new_state_message state_connected []

abbrev pub told_reconnecting : ServerMessage
told_reconnecting = new_state_message state_reconnecting []

-- So many pairs of connected and reconnecting.
abbrev pub sessions : ℕ → List ServerMessage
sessions zero = []
sessions (suc n) = told_connected ∷ told_reconnecting ∷ sessions n

-- The broadcasts are pairs, and one more connected while the loop ranges over a session.
abbrev pub IsAlternating : List ServerMessage → Phase → Type 0
IsAlternating out polling = (n : ℕ) × (out ≡ sessions n)
IsAlternating out ranging = (n : ℕ) × (out ≡ sessions n ++ told_connected ∷ [])
IsAlternating out returned = (n : ℕ) × (out ≡ sessions n)

abbrev pub LoopIsAlternating : Loop → Type 0
LoopIsAlternating l = IsAlternating l.broadcasts l.phase

sessions-next :
    (n : ℕ) → (sessions n ++ told_connected ∷ []) ++ told_reconnecting ∷ [] ≡ sessions (suc n)
sessions-next zero = refl
sessions-next (suc n) = ap (λ l. told_connected ∷ told_reconnecting ∷ l) (sessions-next n)

told-IsAlternating :
    (l : Loop)
    → l.phase ≡ ranging
    → LoopIsAlternating l
    → LoopIsAlternating (tell l state_reconnecting polling)
told-IsAlternating l e i =
    let (n, q) = subst (IsAlternating l.broadcasts) e i in
    (suc n, ap (λ out. out ++ told_reconnecting ∷ []) q ∙ sessions-next n)

module _ (unmarshal : Text → Option SourceActivity) where
  take_event-IsAlternating :
      (l : Loop) (event : Event)
      → l.phase ≡ ranging
      → LoopIsAlternating l
      → LoopIsAlternating (take_event unmarshal l event)
  unfolding take_event
  take_event-IsAlternating l event e i =
      if_elim LoopIsAlternating (is_some event.error) (told-IsAlternating l e i) (
        if_elim LoopIsAlternating (int_eq event.opcode op_frame && is_some event.frame)
          (after (parse_activity_frame unmarshal event.frame)) i)
    where
      after : (r : Result _ _) → LoopIsAlternating (parsed unmarshal l r)
      after (err x) = i
      after (ok a) = i

  step_in-IsAlternating :
      (l : Loop) (p : Phase) (a : Action)
      → l.phase ≡ p
      → LoopIsAlternating l
      → LoopIsAlternating (step_in unmarshal l p a)
  unfolding step_in
  step_in-IsAlternating l polling (finds true) e i =
      let (n, q) = subst (IsAlternating l.broadcasts) e i in
      (n, ap (λ out. out ++ told_connected ∷ []) q)
  step_in-IsAlternating l polling (finds false) e i = i
  step_in-IsAlternating l polling (takes event) e i = i
  step_in-IsAlternating l polling closes e i = i
  step_in-IsAlternating l polling cancels e i = subst (IsAlternating l.broadcasts) e i
  step_in-IsAlternating l ranging (finds found) e i = i
  step_in-IsAlternating l ranging (takes event) e i = take_event-IsAlternating l event e i
  step_in-IsAlternating l ranging closes e i = told-IsAlternating l e i
  step_in-IsAlternating l ranging cancels e i = i
  step_in-IsAlternating l returned a e i = i

  run-IsAlternating :
      (l : Loop) (actions : List Action)
      → LoopIsAlternating l
      → LoopIsAlternating (run unmarshal l actions)
  unfolding run
  run-IsAlternating l [] i = i
  run-IsAlternating l (a ∷ actions) i =
      run-IsAlternating (step_in unmarshal l l.phase a) actions
        (step_in-IsAlternating l l.phase a refl i)

  -- In any history the loop broadcasts connected and reconnecting in turn, beginning with connected,
  -- and connected is the last exactly while it ranges over the channel of a session.
  pub states_alternate :
      (p : Presence) (actions : List Action) → LoopIsAlternating (run unmarshal (begin p) actions)
  unfolding begin
  states_alternate p actions = run-IsAlternating (begin p) actions (0, refl)
