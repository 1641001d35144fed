-- ===== src/RateLimit.antt =====
-- RateLimiter of internal/server/ratelimit.go. Times are nanoseconds of Go's monotonic clock, which
-- never goes back. Each call holds the limiter's lock, so calls are steps in sequence.
pub mod Visits
pub mod Window
pub mod Eviction
pub mod Steady
mod Cleanup
mod Examples
use discord_proxy_rpc.Base.{
  ℕ, suc, ◌+◌, ◌-◌, ◌%◌, ◌^◌, ◌≡◌, Bool, true, false, not, Option, none, some, List, [], ◌∷◌, Text,
  ℤ, pos, ltb_ℤ, leb_ℤ, if◌then◌else◌, Map, lookup, insert, keep,
}

pub record Visitor : Type 0 where
  pub count : ℕ
  pub last_seen : ℕ

-- `rejected` is an atomic.Uint64; `rate` and `window` are taken as configured, of any sign.
pub record RateLimiter : Type 0 where
  pub visitors : Map Visitor
  pub rate : ℤ
  pub window : ℤ
  pub rejected : ℕ

pub new_rate_limiter : ℤ → ℤ → RateLimiter
new_rate_limiter rate window = record { visitors = []; rate = rate; window = window; rejected = 0 }

-- `time.Since(v.lastSeen) > rl.window` at time `now`.
abbrev pub is_expired : ℤ → ℕ → Visitor → Bool
is_expired window now v = ltb_ℤ window (pos (now - v.last_seen))

-- What `Allow` does for a visitor that is on the map and has not expired. The clock is read again
-- for the new `lastSeen`: `stamp`. The count stays below `rate`, an int, so it does not wrap.
admit : RateLimiter → Text → Visitor → ℕ → RateLimiter × Bool
admit rl ip v stamp =
    if leb_ℤ rl.rate (pos v.count)
    then (record rl { rejected = (rl.rejected + 1) % 2 ^ 64 }, false)
    else (
      record rl {
        visitors = insert ip (record { count = v.count + 1; last_seen = stamp }) rl.visitors;
      },
      true,
    )

-- A new visitor, or one whose window has passed.
start_over : RateLimiter → Text → ℕ → RateLimiter × Bool
start_over rl ip stamp =
    (record rl { visitors = insert ip (record { count = 1; last_seen = stamp }) rl.visitors }, true)

pub allow : RateLimiter → Text → ℕ → ℕ → RateLimiter × Bool
allow rl ip now stamp = elim (lookup ip rl.visitors) [
  | none ↦ start_over rl ip stamp
  | some v ↦ if is_expired rl.window now v then start_over rl ip stamp else admit rl ip v stamp
]

pub rejections : RateLimiter → ℕ
rejections rl = rl.rejected

pub evict_expired : RateLimiter → ℕ → RateLimiter
evict_expired rl now = record rl {
  visitors = keep (λ v. not (is_expired rl.window now v)) rl.visitors;
}

-- What happens to a limiter: a request of an address, or a tick of the cleanup goroutine.
pub data Call : Type 0 where
  request : Text → ℕ → ℕ → Call
  tick : ℕ → Call

-- The limiter after a call, and the answer if there is one.
pub step : RateLimiter → Call → RateLimiter × Option Bool
step rl (request ip now stamp) = let (rl', b) = allow rl ip now stamp in (rl', some b)
step rl (tick now) = (evict_expired rl now, none)

pub run : RateLimiter → List Call → RateLimiter
run rl [] = rl
run rl (c ∷ cs) = run (step rl c).0 cs
