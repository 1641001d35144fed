-- ===== src/Ipc/HealthCheck/Answers.antt =====
-- Which pings of internal/ipc/healthcheck.go count as answered.
use discord_proxy_rpc.Base.{
  ◌≡◌, refl, ap, subst, Bool, true, false, if◌then◌else◌, List, [], ◌∷◌, if_cases, arith,
}
use discord_proxy_rpc.Ipc.{Client, close}
use discord_proxy_rpc.Ipc.HealthCheck.{
  Entry, dropped_old, sent_ping, pong_came, took_pong, closed_client, Phase, waiting, pinging,
  pinged, returned, Loop, begin, handle_pong, drop_old, ping, take_pong, time_out, Action, writes,
  ticks, pongs, receives, times_out, stops, step_in, run,
}

-- A PONG came after the old one was dropped for the latest ping, and none was taken since.
abbrev pub IsAnswered : List Entry → Type 0
IsAnswered [] = ⊥
IsAnswered (dropped_old ∷ l) = ⊥
IsAnswered (sent_ping ∷ l) = IsAnswered l
IsAnswered (pong_came ∷ l) = Unit
IsAnswered (took_pong ∷ l) = ⊥
IsAnswered (closed_client ∷ l) = ⊥

-- The latest ping was sent, and no PONG was taken for it.
abbrev pub IsOutstanding : List Entry → Type 0
IsOutstanding [] = ⊥
IsOutstanding (dropped_old ∷ l) = ⊥
IsOutstanding (sent_ping ∷ l) = Unit
IsOutstanding (pong_came ∷ l) = IsOutstanding l
IsOutstanding (took_pong ∷ l) = ⊥
IsOutstanding (closed_client ∷ l) = ⊥

abbrev pub IsLawful : List Entry → Type 0
IsLawful [] = Unit
IsLawful (dropped_old ∷ l) = IsLawful l
IsLawful (sent_ping ∷ l) = IsLawful l
IsLawful (pong_came ∷ l) = IsLawful l
IsLawful (took_pong ∷ l) = IsAnswered l × (IsOutstanding l × IsLawful l)
IsLawful (closed_client ∷ l) = IsOutstanding l × IsLawful l

-- No ping is outstanding: none was sent yet, or a PONG was taken for the latest.
abbrev pub IsSettled : List Entry → Type 0
IsSettled [] = Unit
IsSettled (dropped_old ∷ l) = ⊥
IsSettled (sent_ping ∷ l) = ⊥
IsSettled (pong_came ∷ l) = IsSettled l
IsSettled (took_pong ∷ l) = Unit
IsSettled (closed_client ∷ l) = ⊥

-- The client was closed.
abbrev pub has_closed : List Entry → Bool
has_closed [] = false
has_closed (dropped_old ∷ l) = has_closed l
has_closed (sent_ping ∷ l) = has_closed l
has_closed (pong_came ∷ l) = has_closed l
has_closed (took_pong ∷ l) = has_closed l
has_closed (closed_client ∷ l) = true

abbrev pub IsInPhase : List Entry → Bool → Phase → Type 0
IsInPhase l pong waiting = IsSettled l
IsInPhase l pong pinging = pong ≡ true → IsAnswered l
IsInPhase l pong pinged = IsOutstanding l × (pong ≡ true → IsAnswered l)
IsInPhase l pong returned = Unit

-- The client `c` is as it was, or as Close leaves it, and then the goroutine has returned.
abbrev pub IsClient : Client → Client → Bool → Phase → Type 0
IsClient c now closed waiting = (now ≡ c) × (closed ≡ false)
IsClient c now closed pinging = (now ≡ c) × (closed ≡ false)
IsClient c now closed pinged = (now ≡ c) × (closed ≡ false)
IsClient c now closed returned = now ≡ (if closed then (close c).0 else c)

pub record LoopIsLawful (c : Client) (l : Loop) : Type 0 where
  pub lawful : IsLawful l.history
  pub in_phase : IsInPhase l.history l.pong l.phase
  pub closes_only : IsClient c l.client (has_closed l.history) l.phase

pong-IsInPhase :
    (l : List Entry) (b : Bool) (p : Phase) → IsInPhase l b p → IsInPhase (pong_came ∷ l) true p
pong-IsInPhase l b waiting i = i
pong-IsInPhase l b pinging i = λ e. tt
pong-IsInPhase l b pinged i = (i.0, λ e. tt)
pong-IsInPhase l b returned i = tt

ended :
    (c : Client) (l : Loop)
    → (l.client ≡ c) × (has_closed l.history ≡ false)
    → IsClient c l.client (has_closed l.history) returned
ended c l k = rw (k.1) k.0

step-LoopIsLawful :
    (c : Client) (l : Loop) (p : Phase) (a : Action)
    → l.phase ≡ p
    → LoopIsLawful c l
    → LoopIsLawful c (step_in l p a)
unfolding step_in handle_pong drop_old ping take_pong time_out
step-LoopIsLawful c l p pongs e i = record {
  lawful = i.lawful;
  in_phase = pong-IsInPhase l.history l.pong l.phase i.in_phase;
  closes_only = i.closes_only;
}
step-LoopIsLawful c l waiting ticks e i =
    let k = subst (IsClient c l.client (has_closed l.history)) e i.closes_only in
    record { lawful = i.lawful; in_phase = λ b. absurd (ground arith); closes_only = k }
step-LoopIsLawful c l waiting stops e i =
    let k = subst (IsClient c l.client (has_closed l.history)) e i.closes_only in
    record { lawful = i.lawful; in_phase = tt; closes_only = ended c l k }
step-LoopIsLawful c l pinging (writes succeeds) e i =
    let o : IsInPhase l.history l.pong pinging = subst (IsInPhase l.history l.pong) e i.in_phase in
    let k = subst (IsClient c l.client (has_closed l.history)) e i.closes_only in
    if_cases (LoopIsLawful c) succeeds
      (λ w. record { lawful = i.lawful; in_phase = (tt, o); closes_only = k })
      (λ w. record { lawful = i.lawful; in_phase = tt; closes_only = ended c l k })
step-LoopIsLawful c l pinged receives e i =
    let o : IsInPhase l.history l.pong pinged = subst (IsInPhase l.history l.pong) e i.in_phase in
    let k = subst (IsClient c l.client (has_closed l.history)) e i.closes_only in
    if_cases (LoopIsLawful c) l.pong
      (λ b. record { lawful = (o.1 b, (o.0, i.lawful)); in_phase = tt; closes_only = k }) (λ b. i)
step-LoopIsLawful c l pinged times_out e i =
    let o : IsInPhase l.history l.pong pinged = subst (IsInPhase l.history l.pong) e i.in_phase in
    let k = subst (IsClient c l.client (has_closed l.history)) e i.closes_only in
    record { lawful = (o.0, i.lawful); in_phase = tt; closes_only = ap (λ x. (close x).0) k.0 }
step-LoopIsLawful c l pinged stops e i =
    let k = subst (IsClient c l.client (has_closed l.history)) e i.closes_only in
    record { lawful = i.lawful; in_phase = tt; closes_only = ended c l k }
step-LoopIsLawful c l _ _ e i = i

run-LoopIsLawful :
    (c : Client) (l : Loop) (actions : List Action)
    → LoopIsLawful c l
    → LoopIsLawful c (run l actions)
unfolding run
run-LoopIsLawful c l [] i = i
run-LoopIsLawful c l (a ∷ actions) i =
    run-LoopIsLawful c (step_in l l.phase a) actions (step-LoopIsLawful c l l.phase a refl i)

-- In any history of the ticker, the PONGs, the writes and the time-outs: a PONG that `run` takes as an
-- answer came after the ticker fired for the ping that it answers; each ping is answered at most once,
-- and `run` waits for the ticker again only once the latest is answered; and the client is what it was
-- at the start, or, after a time-out while a ping was outstanding, what Close leaves, and then `run`
-- has returned.
pub health_check-LoopIsLawful :
    (c : Client) (actions : List Action) → LoopIsLawful c (run (begin c) actions)
unfolding begin
health_check-LoopIsLawful c actions =
    run-LoopIsLawful c (begin c) actions
      (record { lawful = tt; in_phase = tt; closes_only = (refl, refl) })
