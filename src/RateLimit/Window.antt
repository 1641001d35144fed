-- ===== src/RateLimit/Window.antt =====
-- How many requests internal/server/ratelimit.go lets through in one window.
use discord_proxy_rpc.Base.{
  ℕ, ◌+◌, ◌≤◌, ◌≡◌, refl, ap, ◌∙◌, Bool, true, Option, none, some, List, [], ◌∷◌, Text, text_eq,
  text_eq_iff, ℤ, pos, pos_part, max, leb, if◌then◌else◌, lookup, Distinct, All, Option-cases, inl,
  inr, arith,
}
use discord_proxy_rpc.RateLimit.{
  Visitor, RateLimiter, new_rate_limiter, allow, Call, request, tick, step, run,
}
use discord_proxy_rpc.RateLimit.Visits.{
  answer-allow, lookup-allow, lookup-evict_expired, step-Distinct, step_config,
}

-- Whether a call with this outcome let a request of the address through.
abbrev admitted_for : Text → Call → Option Bool → ℕ
admitted_for ip (request j now stamp) (some true) = if text_eq j ip then 1 else 0
admitted_for ip _ _ = 0

-- The requests of the address that a sequence of calls lets through.
pub admissions : Text → RateLimiter → List Call → ℕ
admissions ip rl [] = 0
admissions ip rl (c ∷ cs) = admitted_for ip c (step rl c).1 + admissions ip (step rl c).0 cs

-- The call reads the clock within the window that begins at `t0`.
abbrev pub IsWithin : ℕ → ℕ → Call → Type 0
IsWithin t0 w (request ip now stamp) = (t0 ≤ now) × (now ≤ stamp) × (stamp ≤ t0 + w)
IsWithin t0 w (tick now) = now ≤ t0 + w

-- A rate of zero or less still lets the first request through.
abbrev pub allowance : ℤ → ℕ
allowance rate = max 1 (pos_part rate)

-- The count of an entry that was written since `t0`.
abbrev used : ℕ → Option Visitor → ℕ
used t0 none = 0
used t0 (some v) = if leb t0 v.last_seen then v.count else 0

abbrev IsCapped : ℤ → Option Visitor → Type 0
IsCapped rate none = Unit
IsCapped rate (some v) = v.count ≤ allowance rate

step-used :
    (ip : Text) (rl : RateLimiter) (c : Call) (w t0 : ℕ)
    → rl.window ≡ pos w
    → Distinct rl.visitors
    → IsWithin t0 w c
    → admitted_for ip c (step rl c).1 + used t0 (lookup ip rl.visitors)
      ≤ used t0 (lookup ip (step rl c).0.visitors)
unfolding step
step-used ip rl (request j now stamp) w t0 e d h = elim (Option-cases (lookup ip rl.visitors)) [
  | inl q ↦
      ground (arith, answer-allow rl j now stamp, lookup-allow rl j now stamp ip, text_eq_iff j ip)
  | inr (v, q) ↦
      ground (arith, answer-allow rl j now stamp, lookup-allow rl j now stamp ip, text_eq_iff j ip)
]
step-used ip rl (tick now) w t0 e d h = ground (arith, lookup-evict_expired rl now ip d)

-- An entry never counts more requests than the rate allows.
step-IsCapped :
    (ip : Text) (rl : RateLimiter) (c : Call)
    → Distinct rl.visitors
    → IsCapped rl.rate (lookup ip rl.visitors)
    → IsCapped rl.rate (lookup ip (step rl c).0.visitors)
unfolding step
step-IsCapped ip rl (request j now stamp) d h =
    ground (arith, answer-allow rl j now stamp, lookup-allow rl j now stamp ip, text_eq_iff j ip)
step-IsCapped ip rl (tick now) d h = ground (arith, lookup-evict_expired rl now ip d)

used-le : (rate : ℤ) (t0 : ℕ) (o : Option Visitor) → IsCapped rate o → used t0 o ≤ allowance rate
used-le rate t0 none h = omega arith
used-le rate t0 (some v) h = ground arith

admissions-used :
    (ip : Text) (rl : RateLimiter) (cs : List Call) (w t0 : ℕ)
    → rl.window ≡ pos w
    → Distinct rl.visitors
    → IsCapped rl.rate (lookup ip rl.visitors)
    → All (IsWithin t0 w) cs
    → admissions ip rl cs + used t0 (lookup ip rl.visitors) ≤ allowance rl.rate
unfolding admissions
admissions-used ip rl [] w t0 e d k h = omega (arith, used-le rl.rate t0 (lookup ip rl.visitors) k)
admissions-used ip rl (c ∷ cs) w t0 e d k h =
    let rl' : RateLimiter = (step rl c).0 in
    let same : rl'.rate ≡ rl.rate = (step_config rl c).0 in
    let capped : IsCapped rl'.rate (lookup ip rl'.visitors) = rw same (step-IsCapped ip rl c d k) in
    omega (
      arith,
      ap allowance same,
      step-used ip rl c w t0 e d h.0,
      admissions-used ip rl' cs w t0 ((step_config rl c).1 ∙ e) (step-Distinct rl c d) capped h.1,
    )

run_invariant :
    (ip : Text) (rl : RateLimiter) (cs : List Call)
    → Distinct rl.visitors
    → IsCapped rl.rate (lookup ip rl.visitors)
    → Distinct (run rl cs).visitors
      × IsCapped rl.rate (lookup ip (run rl cs).visitors)
      × ((run rl cs).rate ≡ rl.rate)
      × ((run rl cs).window ≡ rl.window)
unfolding run
run_invariant ip rl [] d k = (d, k, refl, refl)
run_invariant ip rl (c ∷ cs) d k =
    let (same, wide) = step_config rl c in
    let (d', k', e, f) =
      run_invariant ip (step rl c).0 cs (step-Distinct rl c d)
        (rw same (step-IsCapped ip rl c d k)) in
    (d', rw same at k', e ∙ same, f ∙ wide)

-- After any history, and with any requests of other addresses and cleanups in between, the calls
-- that read the clock within one window let at most `rate` requests of an address through, or one
-- where the rate is below one.
pub window_bound :
    (rate : ℤ) (w t0 : ℕ) (ip : Text) (history calls : List Call)
    → All (IsWithin t0 w) calls
    → admissions ip (run (new_rate_limiter rate (pos w)) history) calls ≤ allowance rate
unfolding new_rate_limiter lookup
window_bound rate w t0 ip history calls h =
    let start : RateLimiter = new_rate_limiter rate (pos w) in
    let (d, k, e, f) = run_invariant ip start history tt tt in
    let capped : IsCapped (run start history).rate (lookup ip (run start history).visitors) =
      rw e k in
    omega (arith, ap allowance e, admissions-used ip (run start history) calls w t0 f d capped h)

pub admissions-request :
    (ip j : Text) (rl : RateLimiter) (now stamp : ℕ) (cs : List Call)
    → admissions ip rl (request j now stamp ∷ cs)
      ≡ (if (allow rl j now stamp).1 then (if text_eq j ip then 1 else 0) else 0)
        + admissions ip (allow rl j now stamp).0 cs
unfolding admissions step
admissions-request ip j rl now stamp cs = ground arith
