-- ===== src/Tui/Links.antt =====
-- What links the status of internal/tui/model.go with the commands that run.
use discord_proxy_rpc.Base.{
  ℕ, ◌≡◌, ◌≢◌, refl, sym, ◌∙◌, true, false, Bool-cases, Option-cases, inl, inr, Option, none, some,
  List, [], ◌∷◌, Text, ltb, ℤ, if◌then◌else◌, if_cases, arith,
}
use discord_proxy_rpc.Messages.{ServerMessage}
use discord_proxy_rpc.Tui.{
  next_backoff, reconnect_base, reconnect_max, apply_snapshot, apply_error, Model, Cmd, read_cmd,
  tick_cmd, quit_cmd, reconnect_cmd, status_connected, status_reconnecting, WsMsg, Decoder, quit,
  handle_ws_event, schedule_reconnect, apply_message, apply_server_message, needs_tick,
}
use discord_proxy_rpc.Tui.Pending.{World}

-- One of the three runs and the status tells which, or the program is quitting and none runs.
pub data IsLinked (w : World) : Type 0 where
  dialling :
      w.connecting ≡ 1 → w.reading ≡ 0 → w.waiting ≡ 0 → w.model.ws ≢ status_connected → IsLinked w
  reading_on :
      w.connecting ≡ 0 → w.reading ≡ 1 → w.waiting ≡ 0 → w.model.ws ≡ status_connected → IsLinked w
  pausing :
      w.connecting ≡ 0
      → w.reading ≡ 0
      → w.waiting ≡ 1
      → w.model.ws ≡ status_reconnecting
      → IsLinked w
  ended : w.connecting ≡ 0 → w.reading ≡ 0 → w.waiting ≡ 0 → w.model.done_closed ≡ true → IsLinked w

-- A message that leaves the status and the channel alone, and starts no such command, keeps the link.
pub same-IsLinked :
    (w : World) (m : Model) (t : ℕ)
    → m.ws ≡ w.model.ws
    → m.done_closed ≡ w.model.done_closed
    → IsLinked w
    → IsLinked (record w { model = m; ticking = t })
same-IsLinked w m t e f (dialling a b c d) = dialling a b c (λ h. d (sym e ∙ h))
same-IsLinked w m t e f (reading_on a b c d) = reading_on a b c (e ∙ d)
same-IsLinked w m t e f (pausing a b c d) = pausing a b c (e ∙ d)
same-IsLinked w m t e f (ended a b c d) = ended a b c (f ∙ d)

pub closed-IsLinked :
    (w : World) (m : Model)
    → m.ws ≡ w.model.ws
    → m.done_closed ≡ true
    → IsLinked w
    → IsLinked (record w { model = m })
closed-IsLinked w m e f (dialling a b c d) = dialling a b c (λ h. d (sym e ∙ h))
closed-IsLinked w m e f (reading_on a b c d) = reading_on a b c (e ∙ d)
closed-IsLinked w m e f (pausing a b c d) = pausing a b c (e ∙ d)
closed-IsLinked w m e f (ended a b c d) = ended a b c f

-- What a message of the server does: the client reads on, perhaps with a new tick, or reconnects.
pub data Reacts (m : Model) (r : Model × List Cmd) : Type 0 where
  reads_on :
      (r.0.ws ≡ m.ws) → (r.0.done_closed ≡ m.done_closed) → (r.1 ≡ read_cmd ∷ []) → Reacts m r
  reads_on_ticking :
      (r.0.ws ≡ m.ws)
      → (r.0.done_closed ≡ m.done_closed)
      → (r.1 ≡ read_cmd ∷ tick_cmd ∷ [])
      → Reacts m r
  gives_up :
      (delay : ℤ)
      → (r.0.ws ≡ status_reconnecting)
      → (r.0.done_closed ≡ m.done_closed)
      → (r.1 ≡ reconnect_cmd delay ∷ [])
      → Reacts m r

module _ (decoder : Decoder) where
  apply-same :
      (m : Model) (msg : Option ServerMessage)
      → ((apply_message decoder m msg).ws ≡ m.ws)
        × ((apply_message decoder m msg).done_closed ≡ m.done_closed)
  unfolding apply_server_message apply_snapshot apply_error
  apply-same m none = (refl, refl)
  apply-same m (some msg) = ground arith

  pub handle_ws_event-Reacts : (m : Model) (ev : WsMsg) → Reacts m (handle_ws_event decoder m ev)
  unfolding handle_ws_event schedule_reconnect
  handle_ws_event-Reacts m ev = elim (Option-cases ev.error) [
    | inr (e, q) ↦ rw q (
        if_cases (Reacts m) ev.fatal
          (λ f. gives_up (next_backoff m.backoff reconnect_base reconnect_max) refl refl refl)
          (λ f. reads_on refl refl refl))
    | inl q ↦ rw q (ticking (apply_message decoder m ev.msg) (apply-same m ev.msg))
  ]
    where
      ticking :
          (n : Model)
          → (n.ws ≡ m.ws) × (n.done_closed ≡ m.done_closed)
          → Reacts m (n, read_cmd ∷ (if needs_tick n then tick_cmd ∷ [] else []))
      ticking n (a, b) = elim (Bool-cases (needs_tick n)) [
        | inl t ↦ reads_on_ticking a b (rw t refl)
        | inr t ↦ reads_on a b (rw t refl)
      ]

pub connecting_of :
    (w : World)
    → IsLinked w
    → ltb 0 w.connecting ≡ true
    → (w.connecting ≡ 1) × (w.reading ≡ 0) × (w.waiting ≡ 0)
connecting_of w (dialling a b c d) h = (a, b, c)
connecting_of w (reading_on a b c d) h = absurd (ground arith)
connecting_of w (pausing a b c d) h = absurd (ground arith)
connecting_of w (ended a b c d) h = absurd (ground arith)

pub reading_of :
    (w : World)
    → IsLinked w
    → ltb 0 w.reading ≡ true
    → (w.connecting ≡ 0) × (w.reading ≡ 1) × (w.waiting ≡ 0) × (w.model.ws ≡ status_connected)
reading_of w (dialling a b c d) h = absurd (ground arith)
reading_of w (reading_on a b c d) h = (a, b, c, d)
reading_of w (pausing a b c d) h = absurd (ground arith)
reading_of w (ended a b c d) h = absurd (ground arith)

pub waiting_of :
    (w : World)
    → IsLinked w
    → ltb 0 w.waiting ≡ true
    → (w.connecting ≡ 0) × (w.reading ≡ 0) × (w.waiting ≡ 1) × (w.model.ws ≡ status_reconnecting)
waiting_of w (dialling a b c d) h = absurd (ground arith)
waiting_of w (reading_on a b c d) h = absurd (ground arith)
waiting_of w (pausing a b c d) h = (a, b, c, d)
waiting_of w (ended a b c d) h = absurd (ground arith)

pub quit_open :
    (close_error : Option Text) (m : Model)
    → m.done_closed ≡ false
    → (n : Model) × (quit close_error m ≡ some (n, quit_cmd ∷ []))
      × (n.ws ≡ m.ws)
      × (n.done_closed ≡ true)
unfolding quit
quit_open none m h =
    (record m { quitting = true; done_closed = true }, rw (quit, h) refl, refl, refl)
quit_open (some e) m h =
    (record m { quitting = true; done_closed = true; last_err = e }, rw (quit, h) refl, refl, refl)
