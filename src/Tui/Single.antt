-- ===== src/Tui/Single.antt =====
-- internal/tui/model.go dials, reads or waits for one connection at a time.
use discord_proxy_rpc.Base.{
  ℕ, ◌+◌, ◌-◌, ◌≤◌, ◌≡◌, refl, ◌∙◌, Bool, true, false, ◌&&◌, ◌||◌, Bool-cases, inl, inr, Option,
  none, some, List, [], ◌∷◌, Text, ltb, ℤ, if◌then◌else◌, if_cases, arith,
}
use discord_proxy_rpc.Tui.{
  Model, Cmd, WsMsg, Decoder, new_model, update, quits, handle_ws_event, schedule_reconnect,
  needs_tick,
}
use discord_proxy_rpc.Tui.Pending.{
  World, Event, dials, reads, stops_reading, wakes, ticks, presses, resizes, start_cmds, step, run,
  begin,
}
use discord_proxy_rpc.Tui.Links.{
  IsLinked, dialling, reading_on, pausing, ended, same-IsLinked, closed-IsLinked, Reacts, reads_on,
  reads_on_ticking, gives_up, handle_ws_event-Reacts, connecting_of, reading_of, waiting_of,
  quit_open,
}

-- The user quits.
abbrev pub is_quit : Event → Bool
is_quit (presses k) = quits k
is_quit _ = false

module _ (decoder : Decoder) (close_error : Option Text) where
  -- The step gives a linked world, in which `done` is closed if it was or the user quits.
  abbrev Steps : World → Event → Option World → Type 0
  Steps w e o =
      (v : World) × (o ≡ some v)
      × IsLinked v
      × (v.model.done_closed ≡ (is_quit e || w.model.done_closed))

  dials-Steps :
      (w : World) (r : Option Text)
      → IsLinked w
      → Steps w (dials r) (step decoder close_error w (dials r))
  unfolding step update schedule_reconnect
  dials-Steps w none l =
      if_cases (Steps w (dials none)) (ltb 0 w.connecting)
        (λ e.
          let (a, b, c) = connecting_of w l e in
          (_, refl, reading_on (omega (arith, a)) (omega (arith, b)) c refl, refl))
        (λ e. (w, refl, l, refl))
  dials-Steps w (some x) l =
      if_cases (Steps w (dials (some x))) (ltb 0 w.connecting)
        (λ e.
          let (a, b, c) = connecting_of w l e in
          (_, refl, pausing (omega (arith, a)) b (omega (arith, c)) refl, refl))
        (λ e. (w, refl, l, refl))

  wakes-Steps : (w : World) → IsLinked w → Steps w wakes (step decoder close_error w wakes)
  unfolding step update
  wakes-Steps w l =
      if_cases (Steps w wakes) (ltb 0 w.waiting)
        (λ e.
          let (a, b, c, d) = waiting_of w l e in
          (_, refl, dialling (omega (arith, a)) b (omega (arith, c)) (λ h. cc), refl))
        (λ e. (w, refl, l, refl))

  ticks-Steps :
      (w : World) (now : ℤ)
      → IsLinked w
      → Steps w (ticks now) (step decoder close_error w (ticks now))
  unfolding step update
  ticks-Steps w now l =
      if_cases (Steps w (ticks now)) (ltb 0 w.ticking)
        (λ e.
          let m : Model = record w.model { now = now } in
          let v : World = record w { model = m; ticking = w.ticking - 1 } in
          if_cases (λ cmds. Steps w (ticks now) (some (start_cmds v cmds))) (needs_tick m)
            (λ t. (_, refl, same-IsLinked w m _ refl refl l, refl))
            (λ t. (_, refl, same-IsLinked w m _ refl refl l, refl)))
        (λ e. (w, refl, l, refl))

  -- The world after a reaction to what was read.
  reacted-Steps :
      (w : World) (ev : WsMsg) (m : Model) (cmds : List Cmd)
      → IsLinked w
      → ltb 0 w.reading ≡ true
      → Reacts w.model (m, cmds)
      → Steps w
          (reads ev)
          (some (start_cmds (record w { model = m; reading = w.reading - 1 }) cmds))
  reacted-Steps w ev m cmds l e (reads_on x y z) =
      let (a, b, c, d) = reading_of w l e in
      rw z (_, refl, reading_on a (omega (arith, b)) c (x ∙ d), y)
  reacted-Steps w ev m cmds l e (reads_on_ticking x y z) =
      let (a, b, c, d) = reading_of w l e in
      rw z (_, refl, reading_on a (omega (arith, b)) c (x ∙ d), y)
  reacted-Steps w ev m cmds l e (gives_up delay x y z) =
      let (a, b, c, d) = reading_of w l e in
      rw z (_, refl, pausing a (omega (arith, b)) (omega (arith, c)) x, y)

  reads-Steps :
      (w : World) (ev : WsMsg)
      → IsLinked w
      → Steps w (reads ev) (step decoder close_error w (reads ev))
  unfolding step update
  reads-Steps w ev l =
      if_cases (Steps w (reads ev)) (ltb 0 w.reading)
        (λ e.
          reacted-Steps w ev (handle_ws_event decoder w.model ev).0
            (handle_ws_event decoder w.model ev).1 l e (handle_ws_event-Reacts decoder w.model ev))
        (λ e. (w, refl, l, refl))

  stops_reading-Steps :
      (w : World) → IsLinked w → Steps w stops_reading (step decoder close_error w stops_reading)
  unfolding step
  stops_reading-Steps w l =
      if_cases (λ v. Steps w stops_reading (some v)) (ltb 0 w.reading && w.model.done_closed)
        (λ e.
          let (a, b, c, d) = reading_of w l (ground arith) in
          (_, refl, ended a (omega (arith, b)) c (ground arith), refl))
        (λ e. (w, refl, l, refl))

  presses-Steps :
      (w : World) (k : Text)
      → (quits k && w.model.done_closed) ≡ false
      → IsLinked w
      → Steps w (presses k) (step decoder close_error w (presses k))
  unfolding step update
  presses-Steps w k h l = elim (Bool-cases (quits k)) [
    | inr e ↦ rw e (w, refl, l, refl)
    | inl e ↦
        let (n, q, a, b) = quit_open close_error w.model (ground arith) in
        rw (e, q) (record w { model = n }, refl, closed-IsLinked w n a b l, b)
  ]

  resizes-Steps :
      (w : World) (x y : ℤ)
      → IsLinked w
      → Steps w (resizes x y) (step decoder close_error w (resizes x y))
  unfolding step update
  resizes-Steps w x y l = (_, refl, same-IsLinked w _ w.ticking refl refl l, refl)

  step-Steps :
      (w : World) (e : Event)
      → (is_quit e && w.model.done_closed) ≡ false
      → IsLinked w
      → Steps w e (step decoder close_error w e)
  step-Steps w (dials r) h l = dials-Steps w r l
  step-Steps w (reads ev) h l = reads-Steps w ev l
  step-Steps w stops_reading h l = stops_reading-Steps w l
  step-Steps w wakes h l = wakes-Steps w l
  step-Steps w (ticks now) h l = ticks-Steps w now l
  step-Steps w (presses k) h l = presses-Steps w k h l
  step-Steps w (resizes x y) h l = resizes-Steps w x y l

-- How often the user quits.
abbrev pub quit_count : List Event → ℕ
quit_count [] = 0
quit_count (e ∷ es) = (if is_quit e then 1 else 0) + quit_count es

module _ (decoder : Decoder) (close_error : Option Text) where
  -- Each quit that is still to come is the first.
  abbrev IsInTime : World → List Event → Type 0
  IsInTime w es = quit_count es + (if w.model.done_closed then 1 else 0) ≤ 1

  run-IsLinked :
      (w : World) (es : List Event)
      → IsInTime w es
      → IsLinked w
      → (v : World) × (run decoder close_error w es ≡ some v) × IsLinked v
  unfolding run
  run-IsLinked w [] h l = (w, refl, l)
  run-IsLinked w (e ∷ es) h l =
      let (v, q, k, d) = step-Steps decoder close_error w e (ground arith) l in
      let later : IsInTime v es = ground arith in rw (run, q) (run-IsLinked v es later k)

  -- In any history of dials, reads, delays, ticks, keys and resizes in which the user quits at most
  -- once, no channel is closed twice, and exactly one of a dial, a read and a reconnect delay runs,
  -- unless the program is quitting and its read has ended. A read runs only while the status is
  -- connected, a delay only while it is reconnecting, and a dial only while it is not connected.
  pub one_connection_pending :
      (url : Text) (now : ℤ) (es : List Event)
      → quit_count es ≤ 1
      → (w : World) × (run decoder close_error (begin url now) es ≡ some w) × IsLinked w
  unfolding begin new_model
  one_connection_pending url now es h =
      run-IsLinked (begin url now) es (omega (arith, h)) (dialling refl refl refl (λ h. cc))
