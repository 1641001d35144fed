-- ===== src/Consumer/Delays.antt =====
-- The delays between the sessions of examples/consumer/main.go.
use discord_proxy_rpc.Base.{
  ℕ, suc, ◌≡◌, refl, ap, ◌∙◌, Bool, true, false, List, [], ◌∷◌, ℤ, map, arith,
}
use native.Mathlib.Nat.{pow-suc}
use discord_proxy_rpc.Tui.Backoff.{doubled_seconds}
use discord_proxy_rpc.Consumer.{Turn, grown, reconnect_min, run}

-- For each session, how many before it in a row received nothing, unless it receives something.
abbrev pub streaks : ℕ → List Bool → List ℕ
streaks n [] = []
streaks n (true ∷ rs) = 0 ∷ streaks 1 rs
streaks n (false ∷ rs) = n ∷ streaks (suc n) rs

abbrev pub going_on : Bool → Turn
going_on received = record { received = received; ctx_done = false; cancelled = false }

grown-doubled_seconds : (n : ℕ) → grown (doubled_seconds n) ≡ doubled_seconds (suc n)
grown-doubled_seconds n = ground (arith, pow-suc 2 n)

run-streaks :
    (n : ℕ) (rs : List Bool)
    → run (doubled_seconds n) (map going_on rs) ≡ (map doubled_seconds (streaks n rs), false)
unfolding run
run-streaks n [] = refl
run-streaks n (true ∷ rs) =
    ap (λ (r : List ℤ × Bool). (reconnect_min ∷ r.0, r.1)) (run-streaks 1 rs)
run-streaks n (false ∷ rs) =
    ap (λ (r : List ℤ × Bool). (doubled_seconds n ∷ r.0, r.1))
      (ap (λ b. run b (map going_on rs)) (grown-doubled_seconds n) ∙ run-streaks (suc n) rs)

-- While the context is not cancelled, the consumer waits after each session, for one second where
-- it received a message, and else for twice as long for each session in a row before it that
-- received none, up to thirty seconds; it never returns.
pub delays_double :
    (rs : List Bool)
    → run reconnect_min (map going_on rs) ≡ (map doubled_seconds (streaks 0 rs), false)
delays_double rs = run-streaks 0 rs
