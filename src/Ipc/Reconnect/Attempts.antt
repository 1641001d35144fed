-- ===== src/Ipc/Reconnect/Attempts.antt =====
-- How the loop of `Reconnect` in internal/ipc/reconnect.go ends, on enough fuel.
use discord_proxy_rpc.Base.{
  ℕ, zero, suc, ◌+◌, ◌≤◌, ◌<◌, ◌≡◌, refl, ap, ◌∙◌, true, false, Option, none, some, List, ◌∷◌, ◌++◌,
  Text, leb, All, arith,
}
use discord_proxy_rpc.Ipc.{Network, ReadyEvent, disconnected, reconnecting, opened, set_state}
use discord_proxy_rpc.Ipc.Connecting.{IsUnusable, IsUsable, connect_first, connect_refused}
use discord_proxy_rpc.Ipc.Reconnect.{
  ReconnectManager, Wait, ctx_done, stopped, fired, returns_nil, max_attempts, turn, try_connect,
  loop, reconnect, reset,
}

-- The timer fires while no path can be used.
abbrev pub IsFailing : List Text → Wait → Type 0
IsFailing paths ctx_done = ⊥
IsFailing paths stopped = ⊥
IsFailing paths (fired net channel) = All (IsUnusable net) paths

-- The manager after `n` failed attempts.
abbrev pub after_failures : ℕ → ReconnectManager → ReconnectManager
after_failures zero rm = rm
after_failures (suc n) rm = record rm {
  client = record rm.client { state = disconnected };
  attempt = rm.attempt + suc n;
}

not_at_limit : (rm : ReconnectManager) → rm.attempt < 50 → leb 50 rm.attempt ≡ false
not_at_limit rm h = ground arith

turn-failing :
    (rm : ReconnectManager) (wait : Wait)
    → rm.attempt < 50
    → IsFailing rm.client.paths wait
    → turn rm wait ≡ (after_failures 1 rm, none)
unfolding turn try_connect set_state
turn-failing rm ctx_done h f = absurd f
turn-failing rm stopped h f = absurd f
turn-failing rm (fired net channel) h f =
    let (e, c, g) = connect_refused net (set_state rm.client reconnecting) channel f in
    rw (turn, not_at_limit rm h) (rw (try_connect, c) refl)

after_failures-next :
    (n : ℕ) (rm : ReconnectManager)
    → after_failures n (after_failures 1 rm) ≡ after_failures (suc n) rm
after_failures-next zero rm = refl
after_failures-next (suc n) rm =
    ap (λ k. record rm { client = record rm.client { state = disconnected }; attempt = k })
      (omega arith)

-- Of the turns from this attempt on, so many fail.
abbrev pub FailsFor : ℕ → ReconnectManager → (ℕ → Wait) → Type 0
FailsFor n rm waits =
    (i : ℕ) → rm.attempt ≤ i → i < rm.attempt + n → IsFailing rm.client.paths (waits i)

add-zero : (n : ℕ) → n ≡ n + 0
add-zero n = omega arith

suc_add : (n m : ℕ) → suc n + m ≡ suc (n + m)
suc_add n m = omega arith

loop-failing :
    (n fuel : ℕ) (rm : ReconnectManager) (waits : ℕ → Wait)
    → rm.attempt + n ≤ 50
    → FailsFor n rm waits
    → loop (n + fuel) rm waits ≡ loop fuel (after_failures n rm) waits
unfolding loop
loop-failing zero fuel rm waits h f = ap (λ k. loop k rm waits) (omega arith)
loop-failing (suc n) fuel rm waits h f =
    ap (λ k. loop k rm waits) (suc_add n fuel)
    ∙ rw
        (
          loop,
          turn-failing rm (waits rm.attempt) (omega (arith, h))
              (f rm.attempt (omega arith) (omega arith)),
        )
        (loop-failing n fuel (after_failures 1 rm) waits (omega (arith, h))
          (λ i a b. f i (omega (arith, a)) (omega (arith, b))))
    ∙ ap (λ r. loop fuel r waits) (after_failures-next n rm)

turn-at_limit :
    (rm : ReconnectManager) (wait : Wait) → rm.attempt ≡ 50 → turn rm wait ≡ (rm, some max_attempts)
unfolding turn
turn-at_limit rm wait h = ground arith

reconnect-enabled :
    (fuel : ℕ) (rm : ReconnectManager) (waits : ℕ → Wait)
    → rm.auto_reconnect ≡ true
    → reconnect fuel rm waits ≡ loop fuel rm waits
unfolding reconnect
reconnect-enabled fuel rm waits auto = ground arith

-- `Reconnect` gives up once fifty attempts, counted from the last success, have failed, and leaves
-- the client disconnected; fuel for one turn more than the attempts left is enough. The manager is
-- not reset, so a later call gives up at once.
pub reconnect_gives_up :
    (n fuel : ℕ) (rm : ReconnectManager) (waits later : ℕ → Wait)
    → rm.auto_reconnect ≡ true
    → rm.attempt + suc n ≡ 50
    → FailsFor (suc n) rm waits
    → (reconnect (suc n + suc fuel) rm waits ≡ some (after_failures (suc n) rm, max_attempts))
      × (reconnect (suc fuel) (after_failures (suc n) rm) later
          ≡ some (after_failures (suc n) rm, max_attempts))
unfolding loop
reconnect_gives_up n fuel rm waits later auto h f = (
  reconnect-enabled (suc n + suc fuel) rm waits auto
      ∙ loop-failing (suc n) (suc fuel) rm waits (omega (arith, h)) f
      ∙ at_limit waits,
  reconnect-enabled (suc fuel) (after_failures (suc n) rm) later auto ∙ at_limit later,
)
  where
    at_limit :
        (w : ℕ → Wait)
        → loop (suc fuel) (after_failures (suc n) rm) w
          ≡ some (after_failures (suc n) rm, max_attempts)
    at_limit w =
        rw (loop, turn-at_limit (after_failures (suc n) rm) (w (rm.attempt + suc n)) h) refl

turn-usable :
    (rm : ReconnectManager) (net : Network) (channel : ℕ) (before after : List Text) (path : Text)
    (ready : Option ReadyEvent)
    → rm.attempt < 50
    → rm.client.paths ≡ before ++ path ∷ after
    → All (IsUnusable net) before
    → IsUsable net path ready
    → turn rm (fired net channel)
      ≡ (record rm { client = opened rm.client path ready channel; attempt = 0 }, some returns_nil)
unfolding turn try_connect set_state reset
turn-usable rm net channel before after path ready h p u us =
    rw (turn, not_at_limit rm h)
      (rw
        (
          try_connect,
          connect_first net (set_state rm.client reconnecting) channel before after path ready p u
              us,
        )
        refl)

-- Where some attempts fail and, before the fiftieth has failed, the timer fires while a path can be
-- used, `Reconnect` returns nil with the session of the first such path, connected, and counts
-- attempts from 0 again; fuel for one turn more than the failures is enough.
pub reconnect_succeeds :
    (n fuel : ℕ) (rm : ReconnectManager) (waits : ℕ → Wait) (net : Network) (channel : ℕ)
    (before after : List Text) (path : Text) (ready : Option ReadyEvent)
    → rm.auto_reconnect ≡ true
    → rm.attempt + n < 50
    → FailsFor n rm waits
    → waits (rm.attempt + n) ≡ fired net channel
    → rm.client.paths ≡ before ++ path ∷ after
    → All (IsUnusable net) before
    → IsUsable net path ready
    → reconnect (n + suc fuel) rm waits
      ≡ some (record rm { client = opened rm.client path ready channel; attempt = 0 }, returns_nil)
unfolding loop
reconnect_succeeds n fuel rm waits net channel before after path ready auto h f w p u us =
    reconnect-enabled (n + suc fuel) rm waits auto
    ∙ loop-failing n (suc fuel) rm waits (omega (arith, h)) f
    ∙ last n h w
  where
    last :
        (n : ℕ)
        → rm.attempt + n < 50
        → waits (rm.attempt + n) ≡ fired net channel
        → loop (suc fuel) (after_failures n rm) waits
          ≡ some
              (record rm { client = opened rm.client path ready channel; attempt = 0 }, returns_nil)
    last zero h w =
        rw
          (
            ap waits (add-zero rm.attempt) ∙ w,
            turn-usable rm net channel before after path ready (omega (arith, h)) p u us,
          )
          refl
    last (suc n) h w =
        rw (w, turn-usable (after_failures (suc n) rm) net channel before after path ready h p u us)
          refl
