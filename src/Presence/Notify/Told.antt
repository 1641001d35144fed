-- ===== src/Presence/Notify/Told.antt =====
-- notify of internal/state/presence.go tells each subscriber once of each activity.
use discord_proxy_rpc.Base.{
  ℕ, zero, suc, ◌+◌, ◌≤◌, ◌≡◌, refl, ap, Bool, true, some, Option-cases, inl, inr, List, [], ◌∷◌,
  ltb, length, if◌then◌else◌, if_cases, arith,
}
use discord_proxy_rpc.Activity.{Activity}
use discord_proxy_rpc.Presence.Notify.Counts.{count, count-pick}
use discord_proxy_rpc.Presence.Notify.{
  max_concurrent_callbacks, Call, Notifier, new_notifier, calls_of, pick, start_next, Event,
  notifies, goes_on, ends, step, run,
}

abbrev pub count_all : (Call → Bool) → List (List Call) → ℕ
count_all p [] = 0
count_all p (cs ∷ css) = count p cs + count_all p css

-- How many calls pass a test, of those that are made, in flight, or still to be started.
abbrev pub settled : (Call → Bool) → Notifier → ℕ
settled p n = count p n.told + count p n.in_flight + count_all p n.callers

-- How many of these subscribers are to be told, and how many in a history of calls of notify, where a
-- test on a subscriber and an activity says which calls matter.
abbrev pub wanted : (Call → Bool) → List ℕ → Activity → ℕ
wanted p [] a = 0
wanted p (s ∷ ss) a = (if p (record { subscriber = s; activity = a }) then 1 else 0) + wanted p ss a

abbrev pub wanted_of : (Call → Bool) → Event → ℕ
wanted_of p (notifies subscribers activity) = wanted p subscribers activity
wanted_of p (goes_on i) = 0
wanted_of p (ends i) = 0

abbrev pub all_wanted : (Call → Bool) → List Event → ℕ
all_wanted p [] = 0
all_wanted p (e ∷ es) = wanted_of p e + all_wanted p es

count-calls_of :
    (p : Call → Bool) (subscribers : List ℕ) (a : Activity)
    → count p (calls_of subscribers a) ≡ wanted p subscribers a
count-calls_of p [] a = refl
count-calls_of p (s ∷ ss) a = omega (arith, count-calls_of p ss a)

-- So many calls are in flight at most.
abbrev pub IsBounded : Notifier → Type 0
IsBounded n = length n.in_flight ≤ max_concurrent_callbacks

count_all-pick :
    (p : Call → Bool) (n : ℕ) (css : List (List Call)) (cs : List Call) (others : List (List Call))
    → pick n css ≡ some (cs, others)
    → count_all p css ≡ count p cs + count_all p others
count_all-pick p n [] cs others e = absurd (ground (arith, e))
count_all-pick p zero (x ∷ xs) cs others e = ground (arith, e)
count_all-pick p (suc n) (x ∷ xs) cs others e = elim (Option-cases (pick n xs)) [
  | inl h ↦ absurd (ground (arith, e, h))
  | inr (r, h) ↦
      let k = count_all-pick p n xs r.0 r.1 h in
      let here : r.0 ≡ cs = ground (arith, e, h) in
      let there : x ∷ r.1 ≡ others = ground (arith, e, h) in
      omega (arith, k, ap (count p) here, ap (count_all p) there)
]

abbrev with_started : Notifier → List Call → List (List Call) → Notifier
with_started n cs others =
    start_next n (ltb (length n.in_flight) max_concurrent_callbacks) cs others

settled-with_started :
    (p : Call → Bool) (n : Notifier) (i : ℕ) (cs : List Call) (others : List (List Call))
    → pick i n.callers ≡ some (cs, others)
    → settled p (with_started n cs others) ≡ settled p n
settled-with_started p n i [] others e = omega (arith, count_all-pick p i n.callers [] others e)
settled-with_started p n i (c ∷ cs) others e =
    if_cases (λ (m : Notifier). settled p m ≡ settled p n)
      (ltb (length n.in_flight) max_concurrent_callbacks)
      (λ h. omega (arith, count_all-pick p i n.callers (c ∷ cs) others e)) (λ h. refl)

with_started-IsBounded :
    (n : Notifier) (cs : List Call) (others : List (List Call))
    → IsBounded n
    → IsBounded (with_started n cs others)
with_started-IsBounded n [] others b = b
with_started-IsBounded n (c ∷ cs) others b =
    if_cases IsBounded (ltb (length n.in_flight) max_concurrent_callbacks) (λ h. ground arith)
      (λ h. b)

settled-step :
    (p : Call → Bool) (n : Notifier) (e : Event)
    → settled p (step n e) ≡ settled p n + wanted_of p e
unfolding step
settled-step p n (notifies subscribers activity) =
    omega (arith, count-calls_of p subscribers activity)
settled-step p n (goes_on i) = elim (Option-cases (pick i n.callers)) [
  | inl e ↦ rw (step, e) (omega arith)
  | inr (r, e) ↦ rw (step, e) (omega (arith, settled-with_started p n i r.0 r.1 e))
]
settled-step p n (ends i) = elim (Option-cases (pick i n.in_flight)) [
  | inl e ↦ rw (step, e) (omega arith)
  | inr (r, e) ↦ rw (step, e) (omega (arith, (count-pick p i n.in_flight r.0 r.1 e).0))
]

step-IsBounded : (n : Notifier) (e : Event) → IsBounded n → IsBounded (step n e)
unfolding step
step-IsBounded n (notifies subscribers activity) b = b
step-IsBounded n (goes_on i) b = elim (Option-cases (pick i n.callers)) [
  | inl e ↦ rw (step, e) b
  | inr (r, e) ↦ rw (step, e) (with_started-IsBounded n r.0 r.1 b)
]
step-IsBounded n (ends i) b = elim (Option-cases (pick i n.in_flight)) [
  | inl e ↦ rw (step, e) b
  | inr (r, e) ↦ rw (step, e) (omega (arith, b, (count-pick (λ c. true) i n.in_flight r.0 r.1 e).1))
]

settled-run :
    (p : Call → Bool) (n : Notifier) (es : List Event)
    → settled p (run n es) ≡ settled p n + all_wanted p es
unfolding run
settled-run p n [] = omega arith
settled-run p n (e ∷ es) = omega (arith, settled-run p (step n e) es, settled-step p n e)

run-IsBounded : (n : Notifier) (es : List Event) → IsBounded n → IsBounded (run n es)
unfolding run
run-IsBounded n [] b = b
run-IsBounded n (e ∷ es) b = run-IsBounded (step n e) es (step-IsBounded n e b)

-- In any history of calls of notify and of its goroutines, at most fifty of these run at once, and
-- by any test on a subscriber and an activity, the calls that were made, are being made, or are still
-- to be started are as many as the subscribers that notify was called for: none is told twice of one
-- update, and none is left out.
pub each_told_once :
    (es : List Event)
    → IsBounded (run new_notifier es)
      × ((p : Call → Bool) → settled p (run new_notifier es) ≡ all_wanted p es)
each_told_once es =
    (run-IsBounded new_notifier es (omega arith), λ p. omega (arith, settled-run p new_notifier es))
