-- ===== src/Presence/Handed.antt =====
-- What internal/state/presence.go passes to `notify`, over every history.
use discord_proxy_rpc.Base.{
  ℕ, ◌+◌, ◌≤◌, ◌≡◌, refl, subst, Bool, true, false, ◌&&◌, ◌||◌, Option-cases, if_elim, Option, none,
  some, inl, inr, List, [], ◌∷◌, ℤ, arith,
}
use discord_proxy_rpc.Activity.{Activity, zero_activity, equals}
use discord_proxy_rpc.Presence.{update, flush}
use discord_proxy_rpc.Presence.Notify.{pick}
use discord_proxy_rpc.Presence.Notify.Counts.{count, count-pick}
use discord_proxy_rpc.Presence.World.{
  World, Event, starts, stops, cancels, updates, expires, flushes, notifies, run_ends, begin,
  find_timer, contains, push, start_timer, expire, do_start, do_stop, do_update, do_expire,
  do_flush, do_notify, run_flush, do_run_end, finish_run, step, run,
}
use discord_proxy_rpc.Presence.Delivery.{
  IsCovered, over, halted, unsourced, told, to_come, is_outstanding, run-IsCovered, begin-IsCovered,
}
use discord_proxy_rpc.Presence.Changes.{Trail, Newest, IsFaithful, run-begin-IsFaithful}

-- How many activities that pass a test were passed to notify, or are about to be.
abbrev pub passed_on : (Activity → Bool) → World → ℕ
passed_on p w = count p w.unlocked + count p w.notified

-- Nothing of the newest accepted update is owed to the subscribers, or a flush that will tell of it is
-- to come. The newest update stands first in `accepted`, and the newest activity that a flush found to
-- tell first in `sent`.
pub data IsDelivered (w : World) : Type 0 where
  run_over : w.ended ≡ true → IsDelivered w
  stopped : w.presence.stopped ≡ true → IsDelivered w
  none_accepted : w.accepted ≡ [] → IsDelivered w
  nothing_new :
      (newest : Activity) (older : List Activity)
      → w.accepted ≡ newest ∷ older
      → w.sent ≡ []
      → equals newest zero_activity ≡ true
      → IsDelivered w
  found :
      (newest a : Activity) (older earlier : List Activity)
      → w.accepted ≡ newest ∷ older
      → w.sent ≡ a ∷ earlier
      → equals newest a ≡ true
      → IsDelivered w
  flush_to_come : is_outstanding w.presence.gen w ≡ true → IsDelivered w

unsourced-IsDelivered :
    (w : World) (accepted : List Activity)
    → w.accepted ≡ accepted
    → Newest w.presence.has_source w.presence.cached accepted
    → w.presence.has_source ≡ false
    → IsDelivered w
unsourced-IsDelivered w [] e n h = none_accepted e
unsourced-IsDelivered w (u ∷ older) e n h = absurd (ground (arith, n, h))

told-IsDelivered :
    (w : World) (accepted sent : List Activity)
    → w.accepted ≡ accepted
    → w.sent ≡ sent
    → Newest w.presence.has_source w.presence.cached accepted
    → Trail w.presence.last_notified sent
    → equals w.presence.cached w.presence.last_notified ≡ true
    → IsDelivered w
told-IsDelivered w [] sent e f n t q = none_accepted e
told-IsDelivered w (u ∷ older) [] e f n t q =
    nothing_new u older e f (
      subst (λ l. equals u l ≡ true) t
        (subst (λ c. equals c w.presence.last_notified ≡ true) n.1 q))
told-IsDelivered w (u ∷ older) (a ∷ earlier) e f n t q = found u a older earlier e f (
    subst (λ l. equals u l ≡ true) t.0
      (subst (λ c. equals c w.presence.last_notified ≡ true) n.1 q))

covered-IsDelivered : (w : World) → IsFaithful w → IsCovered w → IsDelivered w
covered-IsDelivered w f (over e) = run_over e
covered-IsDelivered w f (halted e) = stopped e
covered-IsDelivered w f (unsourced e) = unsourced-IsDelivered w w.accepted refl f.newest e
covered-IsDelivered w f (told e) = told-IsDelivered w w.accepted w.sent refl refl f.newest f.trail e
covered-IsDelivered w f (to_come e) = flush_to_come e

-- Everything that the flushes since Start found is passed on.
abbrev AllHanded : World → Type 0
AllHanded w = (p : Activity → Bool) → count p w.sent ≤ passed_on p w

notify-AllHanded : (w : World) (i : ℕ) → AllHanded w → AllHanded (do_notify w i)
unfolding do_notify
notify-AllHanded w i h = elim (Option-cases (pick i w.unlocked)) [
  | inl e ↦ rw (do_notify, e) h
  | inr (r, e) ↦
      rw (do_notify, e) (λ p. omega (arith, h p, (count-pick p i w.unlocked r.0 r.1 e).0))
]

flush-AllHanded : (w : World) (g : ℕ) → AllHanded w → AllHanded (run_flush w g)
unfolding run_flush
flush-AllHanded w g h = λ p. pushed p (flush w.presence g).1
  where
    pushed :
        (p : Activity → Bool) (o : Option Activity)
        → count p (push o w.sent) ≤ count p (push o w.unlocked) + count p w.notified
    pushed p none = h p
    pushed p (some a) = omega (arith, h p)

update-AllHanded : (w : World) (a : Activity) → AllHanded w → AllHanded (do_update w a)
unfolding do_update start_timer
update-AllHanded w a h = elim (Option-cases (update w.presence a w.next).1) [
  | inl e ↦ rw (do_update, e) h
  | inr (old, e) ↦ rw (do_update, e) h
]

expire-AllHanded : (w : World) (id : ℕ) (o : Option ℕ) → AllHanded w → AllHanded (expire w id o)
unfolding expire
expire-AllHanded w id none h = h
expire-AllHanded w id (some gen) h = h

step-AllHanded : (w : World) (e : Event) → AllHanded w → AllHanded (step w e)
unfolding step do_start do_stop do_expire do_flush do_run_end finish_run
step-AllHanded w starts h = λ p. omega arith
step-AllHanded w stops h = h
step-AllHanded w cancels h = h
step-AllHanded w (updates a) h = update-AllHanded w a h
step-AllHanded w (expires id) h = expire-AllHanded w id (find_timer id w.running) h
step-AllHanded w (flushes g) h = if_elim AllHanded (contains g w.waiting) (flush-AllHanded w g h) h
step-AllHanded w (notifies i) h = notify-AllHanded w i h
step-AllHanded w (run_ends c) h =
    if_elim AllHanded (contains c w.goroutines && (w.cancelled || contains c w.closed)) h h

run-AllHanded : (w : World) (es : List Event) → AllHanded w → AllHanded (run w es)
unfolding run
run-AllHanded w [] h = h
run-AllHanded w (e ∷ es) h = run-AllHanded (step w e) es (step-AllHanded w e h)

begin-AllHanded : (interval : ℤ) → AllHanded (begin interval)
unfolding begin
begin-AllHanded interval = λ p. omega arith

-- Whatever happens, an accepted update is not lost. Unless `Stop` was called, `run` has returned or
-- no update was accepted since `Start`: a flush of the current generation is still to come, or the
-- newest accepted update is `Equals` to the newest activity that a flush found to tell since `Start`,
-- or none was found and the update is `Equals` to the zero activity. And each activity that a flush
-- found since `Start` was passed to `notify` or, the flush having unlocked, is about to be.
pub update_not_lost :
    (interval : ℤ) (es : List Event)
    → IsDelivered (run (begin interval) es)
      × ((p : Activity → Bool)
          → count p (run (begin interval) es).sent ≤ passed_on p (run (begin interval) es))
update_not_lost interval es = (
  covered-IsDelivered (run (begin interval) es) (run-begin-IsFaithful interval es)
      (run-IsCovered (begin interval) es (begin-IsCovered interval)),
  run-AllHanded (begin interval) es (begin-AllHanded interval),
)
