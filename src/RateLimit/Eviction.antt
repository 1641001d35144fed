-- ===== src/RateLimit/Eviction.antt =====
-- The cleanup goroutine of internal/server/ratelimit.go frees memory and changes no answer.
use discord_proxy_rpc.Base.{
  ℕ, ◌≤◌, ◌≡◌, refl, ap, sym, ◌∙◌, Bool, Option, none, some, List, [], ◌∷◌, Text, ℤ, lookup,
  Distinct, arith,
}
use discord_proxy_rpc.RateLimit.{Visitor, RateLimiter, allow, evict_expired, Call, request, tick}
use discord_proxy_rpc.RateLimit.Visits.{
  live, answer-allow, lookup-allow, lookup-evict_expired, allow_config, allow-Distinct,
  evict-Distinct,
}

-- The answers to the requests among these calls, in order.
unfoldable pub answers : RateLimiter → List Call → List Bool
answers rl [] = []
answers rl (request ip now stamp ∷ cs) =
    (allow rl ip now stamp).1 ∷ answers (allow rl ip now stamp).0 cs
answers rl (tick now ∷ cs) = answers (evict_expired rl now) cs

abbrev pub without_ticks : List Call → List Call
without_ticks [] = []
without_ticks (request ip now stamp ∷ cs) = request ip now stamp ∷ without_ticks cs
without_ticks (tick now ∷ cs) = without_ticks cs

-- The clock never goes back, within a call or from one to the next.
abbrev pub IsOrdered : ℕ → List Call → Type 0
IsOrdered t [] = Unit
IsOrdered t (request ip now stamp ∷ cs) = (t ≤ now) × (now ≤ stamp) × IsOrdered stamp cs
IsOrdered t (tick now ∷ cs) = (t ≤ now) × IsOrdered now cs

live-live : (w : ℤ) (t u : ℕ) (o : Option Visitor) → t ≤ u → live w u (live w t o) ≡ live w u o
live-live w t u none h = refl
live-live w t u (some v) h = ground arith

-- Two limiters that hold the same live entries at time `t`.
record Agree (t : ℕ) (a b : RateLimiter) : Type 0 where
  entries :
      (j : Text) → live a.window t (lookup j a.visitors) ≡ live a.window t (lookup j b.visitors)
  rates : a.rate ≡ b.rate
  windows : a.window ≡ b.window

later :
    (w : ℤ) (t u : ℕ) (o p : Option Visitor)
    → t ≤ u
    → live w t o ≡ live w t p
    → live w u o ≡ live w u p
later w t u o p h e = sym (live-live w t u o h) ∙ ap (live w u) e ∙ live-live w t u p h

module _ (t : ℕ) (a b : RateLimiter) (g : Agree t a b) where
  agree_at :
      (u : ℕ) (j : Text)
      → t ≤ u
      → live a.window u (lookup j a.visitors) ≡ live a.window u (lookup j b.visitors)
  agree_at u j h = later a.window t u (lookup j a.visitors) (lookup j b.visitors) h (g.entries j)

  same_answer :
      (ip : Text) (now stamp : ℕ) → t ≤ now → (allow a ip now stamp).1 ≡ (allow b ip now stamp).1
  same_answer ip now stamp h =
      ground (arith, answer-allow a ip now stamp, answer-allow b ip now stamp, agree_at now ip h)

  allow-Agree :
      (ip : Text) (now stamp : ℕ)
      → t ≤ now
      → now ≤ stamp
      → Agree stamp (allow a ip now stamp).0 (allow b ip now stamp).0
  allow-Agree ip now stamp h k = record {
    entries = λ j. ground (
      arith,
      lookup-allow a ip now stamp j,
      lookup-allow b ip now stamp j,
      (allow_config a ip now stamp).1,
      same_answer ip now stamp h,
      agree_at now ip h,
      agree_at stamp ip (omega arith),
      agree_at stamp j (omega arith),
    );
    rates = ground (arith, (allow_config a ip now stamp).0, (allow_config b ip now stamp).0);
    windows = ground (arith, (allow_config a ip now stamp).1, (allow_config b ip now stamp).1);
  }

  evict-Agree : (now : ℕ) → t ≤ now → Distinct a.visitors → Agree now (evict_expired a now) b
  unfolding evict_expired
  evict-Agree now h d = record {
    entries = λ j.
        ap (live a.window now) (lookup-evict_expired a now j d)
        ∙ live-live a.window now now (lookup j a.visitors) (omega arith)
        ∙ agree_at now j h;
    rates = g.rates;
    windows = g.windows;
  }

answers-Agree :
    (t : ℕ) (a b : RateLimiter) (cs : List Call)
    → Agree t a b
    → Distinct a.visitors
    → IsOrdered t cs
    → answers a cs ≡ answers b (without_ticks cs)
unfolding answers
answers-Agree t a b [] g d o = refl
answers-Agree t a b (request ip now stamp ∷ cs) g d o = cc (
  same_answer t a b g ip now stamp o.0,
  answers-Agree stamp (allow a ip now stamp).0 (allow b ip now stamp).0 cs
      (allow-Agree t a b g ip now stamp o.0 o.1) (allow-Distinct a ip now stamp d) o.2,
)
answers-Agree t a b (tick now ∷ cs) g d o =
    answers-Agree now (evict_expired a now) b cs (evict-Agree t a b g now o.0 d)
      (evict-Distinct a now d) o.1

-- While the clock does not go back, every request gets the answer that it would get if the cleanup
-- goroutine never ran, from a limiter whose map has no key twice.
pub eviction_unseen :
    (t : ℕ) (rl : RateLimiter) (cs : List Call)
    → Distinct rl.visitors
    → IsOrdered t cs
    → answers rl cs ≡ answers rl (without_ticks cs)
eviction_unseen t rl cs d o =
    answers-Agree t rl rl cs (record { entries = λ j. refl; rates = refl; windows = refl }) d o
