-- ===== src/Tui/Backoff.antt =====
-- The delays of internal/tui/model.go before it dials again.
use discord_proxy_rpc.Base.{
  ℕ, zero, suc, ◌*◌, ◌^◌, ◌≡◌, Option, none, some, is_some, List, [], ◌∷◌, Text, ℤ, pos, min,
  if◌then◌else◌, ◌&&◌,
}
use discord_proxy_rpc.Tui.{
  Model, Msg, Cmd, window_size, key, connect_failed, connected, reconnect, ws_event, tick, Decoder,
  update, quit_cmd, quit_cmd,
}

-- So many times doubled seconds, up to thirty.
abbrev pub doubled_seconds : ℕ → ℤ
doubled_seconds n = pos (min (1_000_000_000 * 2 ^ n) 30_000_000_000)

-- The backoff after so many failures since the last connection.
abbrev pub delay_after : ℕ → ℤ
delay_after zero = pos 0
delay_after (suc n) = doubled_seconds n

-- The failures since the last connection, given those before a message.
abbrev pub counted : ℕ → Msg → ℕ
counted n (window_size w h) = n
counted n (key k) = n
counted n connected = 0
counted n (connect_failed e) = suc n
counted n reconnect = n
counted n (ws_event ev) = if is_some ev.error && ev.fatal then suc n else n
counted n (tick now) = n

abbrev pub failures : ℕ → List Msg → ℕ
failures n [] = n
failures n (msg ∷ msgs) = failures (counted n msg) msgs

abbrev HasBackoff : ℕ → Option (Model × List Cmd) → Type 0
HasBackoff n none = Unit
HasBackoff n (some r) = r.0.backoff ≡ delay_after n

abbrev pub updated : Option (Model × List Cmd) → (Model → Option Model) → Option Model
updated none next = none
updated (some r) next = next r.0

module _ (decoder : Decoder) (close_error : Option Text) where
  abbrev pub updates : Model → List Msg → Option Model
  updates m [] = some m
  updates m (msg ∷ msgs) = updated (update decoder close_error m msg) (λ v. updates v msgs)
