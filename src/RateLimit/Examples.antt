-- ===== src/RateLimit/Examples.antt =====
-- Two addresses under a limit of two requests per window of 100, and the theorems at them.
use discord_proxy_rpc.Base.{
  ◌≤◌, ◌≡◌, refl, true, false, List, [], ◌∷◌, Text, codes, pos, text_eq, lookup, insert, keep,
  arith,
}
use discord_proxy_rpc.RateLimit.{
  RateLimiter, new_rate_limiter, allow, admit, start_over, evict_expired, Call, request, tick, run,
}
use discord_proxy_rpc.RateLimit.Window.{admissions, window_bound}
use discord_proxy_rpc.RateLimit.Eviction.{answers, without_ticks, eviction_unseen}
use discord_proxy_rpc.RateLimit.Steady.{requests, steady_visitor_refused}

abbrev alice : Text
alice = codes "10.0.0.1"

abbrev bob : Text
bob = codes "10.0.0.2"

abbrev limiter : RateLimiter
limiter = record { visitors = []; rate = pos 2; window = pos 100; rejected = 0 }

abbrev history : List Call
history = request alice 10 10 ∷ request bob 15 15 ∷ []

abbrev calls : List Call
calls =
    request alice 200 201
    ∷ tick 210
    ∷ request alice 220 220
    ∷ request alice 230 230
    ∷ request bob 240 240
    ∷ []

two_of_three : answers limiter calls ≡ true ∷ true ∷ false ∷ true ∷ []
unfolding answers allow admit start_over evict_expired lookup insert keep text_eq
two_of_three = refl

window_bound_example : admissions alice (run (new_rate_limiter (pos 2) (pos 100)) history) calls ≤ 2
window_bound_example = window_bound (pos 2) 100 200 alice history calls (omega arith)

eviction_unseen_example : answers limiter calls ≡ answers limiter (without_ticks calls)
eviction_unseen_example = eviction_unseen 0 limiter calls tt (omega arith)

-- Two requests in 90, and a third 180 after the first.
steady_visitor_refused_example :
    (allow
      (run (new_rate_limiter (pos 2) (pos 100)) (requests alice (0 ∷ 90 ∷ [])))
      alice
      180
      180).1
    ≡ false
steady_visitor_refused_example =
    steady_visitor_refused 2 100 0 180 alice (90 ∷ []) refl (omega arith) (omega arith)
