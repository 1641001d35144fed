-- ===== src/RateLimit/Steady.antt =====
-- internal/server/ratelimit.go measures its window from the last admitted request, not from the
-- first: a visitor that never pauses for a whole window is never forgotten.
use discord_proxy_rpc.Base.{
  ℕ, suc, ◌+◌, ◌≤◌, ◌≡◌, subst, ◌∙◌, false, some, List, [], ◌∷◌, map, Text, text_eq_refl, pos,
  length, lookup, arith,
}
use discord_proxy_rpc.RateLimit.{
  Visitor, RateLimiter, new_rate_limiter, allow, Call, request, step, run,
}
use discord_proxy_rpc.RateLimit.Visits.{answer-allow, lookup-allow, allow_config}

-- The requests of one address at these times.
abbrev pub requests : Text → List ℕ → List Call
requests ip = map (λ t. request ip t t)

-- No gap between one time and the next exceeds the window.
abbrev pub IsSteady : ℕ → ℕ → List ℕ → Type 0
IsSteady w prev [] = Unit
IsSteady w prev (t ∷ ts) = (prev ≤ t) × (t ≤ prev + w) × IsSteady w t ts

abbrev pub last_of : ℕ → List ℕ → ℕ
last_of prev [] = prev
last_of prev (t ∷ ts) = last_of t ts

abbrev entry : ℕ → ℕ → Visitor
entry c t = record { count = c; last_seen = t }

-- What the limiter holds of the address: this entry, under these settings.
record Holds (rl : RateLimiter) (ip : Text) (r w c t : ℕ) : Type 0 where
  found : lookup ip rl.visitors ≡ some (entry c t)
  rated : rl.rate ≡ pos r
  wide : rl.window ≡ pos w

next-Holds :
    (rl : RateLimiter) (ip : Text) (r w c prev t : ℕ)
    → Holds rl ip r w c prev
    → t ≤ prev + w
    → suc c ≤ r
    → Holds (allow rl ip t t).0 ip r w (c + 1) t
next-Holds rl ip r w c prev t h near room = record {
  found = ground (arith, answer-allow rl ip t t, lookup-allow rl ip t t ip, text_eq_refl ip);
  rated = (allow_config rl ip t t).0 ∙ h.rated;
  wide = (allow_config rl ip t t).1 ∙ h.wide;
}

run-Holds :
    (rl : RateLimiter) (ip : Text) (r w c prev n : ℕ) (ts : List ℕ)
    → Holds rl ip r w c prev
    → IsSteady w prev ts
    → c + length ts ≡ n
    → n ≤ r
    → Holds (run rl (requests ip ts)) ip r w n (last_of prev ts)
unfolding run step
run-Holds rl ip r w c prev n [] h steady e room =
    subst (λ k. Holds rl ip r w k prev) (omega arith) h
run-Holds rl ip r w c prev n (t ∷ ts) h steady e room =
    run-Holds (allow rl ip t t).0 ip r w (c + 1) t n ts
      (next-Holds rl ip r w c prev t h steady.1 (omega arith)) steady.2 (omega arith) room

refused :
    (rl : RateLimiter) (ip : Text) (r w prev t : ℕ)
    → Holds rl ip r w r prev
    → t ≤ prev + w
    → (allow rl ip t t).1 ≡ false
refused rl ip r w prev t h near = ground (arith, answer-allow rl ip t t)

first-Holds :
    (r w t : ℕ) (ip : Text) → Holds (allow (new_rate_limiter (pos r) (pos w)) ip t t).0 ip r w 1 t
unfolding new_rate_limiter lookup
first-Holds r w t ip =
    let rl : RateLimiter = new_rate_limiter (pos r) (pos w) in
    record {
      found = ground (arith, answer-allow rl ip t t, lookup-allow rl ip t t ip, text_eq_refl ip);
      rated = (allow_config rl ip t t).0;
      wide = (allow_config rl ip t t).1;
    }

-- A visitor whose first `rate` requests follow one another by at most a window each is refused the
-- next one within a window of the last, however long it took: the limiter does not allow `rate`
-- requests in each window.
pub steady_visitor_refused :
    (r w t0 t : ℕ) (ip : Text) (ts : List ℕ)
    → suc (length ts) ≡ r
    → IsSteady w t0 ts
    → t ≤ last_of t0 ts + w
    → (allow (run (new_rate_limiter (pos r) (pos w)) (requests ip (t0 ∷ ts))) ip t t).1 ≡ false
unfolding run step
steady_visitor_refused r w t0 t ip ts e steady near =
    refused _ ip r w (last_of t0 ts) t
      (run-Holds _ ip r w 1 t0 r ts (first-Holds r w t0 ip) steady (omega arith) (omega arith)) near
