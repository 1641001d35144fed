-- ===== src/RateLimit/Visits.antt =====
-- One call of internal/server/ratelimit.go seen from one address: its live entry before and after.
use discord_proxy_rpc.Base.{
  ℕ, ◌+◌, ◌≡◌, refl, Bool, true, not, Option, none, some, Text, text_eq, text_eq_iff, ℤ, pos, leb_ℤ,
  if◌then◌else◌, lookup, lookup-insert, lookup-keep, keep_value, Distinct, insert-Distinct,
  keep-Distinct, Option-cases, inl, inr, arith,
}
use discord_proxy_rpc.RateLimit.{
  Visitor, RateLimiter, is_expired, admit, start_over, allow, evict_expired, Call, request, tick,
  step,
}

-- The entry of an address, if its window has not passed.
abbrev pub live : ℤ → ℕ → Option Visitor → Option Visitor
live window now = keep_value (λ v. not (is_expired window now v))

-- The answer to an address with this live entry.
abbrev pub answer : ℤ → Option Visitor → Bool
answer rate none = true
answer rate (some v) = not (leb_ℤ rate (pos v.count))

abbrev count_of : Option Visitor → ℕ
count_of none = 0
count_of (some v) = v.count

-- The entry that an admitted address has from then on.
abbrev pub admitted : Option Visitor → ℕ → Visitor
admitted o stamp = record { count = count_of o + 1; last_seen = stamp }

module _ (rl : RateLimiter) (ip : Text) (now stamp : ℕ) where
  pub answer-allow :
      (allow rl ip now stamp).1 ≡ answer rl.rate (live rl.window now (lookup ip rl.visitors))
  unfolding allow admit start_over
  answer-allow = ground arith

  -- An admitted address gets a new entry, and nothing else changes on the map.
  pub lookup-allow :
      (j : Text)
      → lookup j (allow rl ip now stamp).0.visitors ≡ (
          if text_eq ip j
          then if (allow rl ip now stamp).1
            then some (admitted (live rl.window now (lookup ip rl.visitors)) stamp)
            else lookup ip rl.visitors
          else lookup j rl.visitors)
  unfolding allow admit start_over
  lookup-allow j = elim (Option-cases (lookup ip rl.visitors)) [
    | inl e ↦ ground (
      arith,
      lookup-insert ip j (record { count = 1; last_seen = stamp }) rl.visitors,
      text_eq_iff ip j,
    )
    | inr (v, e) ↦ ground (
      arith,
      lookup-insert ip j (record { count = 1; last_seen = stamp }) rl.visitors,
      lookup-insert ip j (record { count = v.count + 1; last_seen = stamp }) rl.visitors,
      text_eq_iff ip j,
    )
  ]

  pub allow_config :
      ((allow rl ip now stamp).0.rate ≡ rl.rate) × ((allow rl ip now stamp).0.window ≡ rl.window)
  unfolding allow admit start_over
  allow_config = ground arith

  pub allow-Distinct : Distinct rl.visitors → Distinct (allow rl ip now stamp).0.visitors
  unfolding allow admit start_over
  allow-Distinct d = elim (Option-cases (lookup ip rl.visitors)) [
    | inl e ↦
        ground (arith, insert-Distinct ip (record { count = 1; last_seen = stamp }) rl.visitors d)
    | inr (v, e) ↦ ground (
      arith,
      insert-Distinct ip (record { count = 1; last_seen = stamp }) rl.visitors d,
      insert-Distinct ip (record { count = v.count + 1; last_seen = stamp }) rl.visitors d,
    )
  ]

-- Eviction removes the entries that are not live.
pub lookup-evict_expired :
    (rl : RateLimiter) (now : ℕ) (j : Text)
    → Distinct rl.visitors
    → lookup j (evict_expired rl now).visitors ≡ live rl.window now (lookup j rl.visitors)
unfolding evict_expired
lookup-evict_expired rl now j d =
    lookup-keep (λ v. not (is_expired rl.window now v)) j rl.visitors d

pub evict-Distinct :
    (rl : RateLimiter) (now : ℕ) → Distinct rl.visitors → Distinct (evict_expired rl now).visitors
unfolding evict_expired
evict-Distinct rl now d = keep-Distinct _ rl.visitors d

pub step-Distinct :
    (rl : RateLimiter) (c : Call) → Distinct rl.visitors → Distinct (step rl c).0.visitors
unfolding step evict_expired
step-Distinct rl (request ip now stamp) d = allow-Distinct rl ip now stamp d
step-Distinct rl (tick now) d = keep-Distinct _ rl.visitors d

pub step_config :
    (rl : RateLimiter) (c : Call)
    → ((step rl c).0.rate ≡ rl.rate) × ((step rl c).0.window ≡ rl.window)
unfolding step evict_expired
step_config rl (request ip now stamp) = allow_config rl ip now stamp
step_config rl (tick now) = (refl, refl)
