-- ===== src/Presence/Delivery.antt =====
-- What subscribers of internal/state/presence.go are told, over every history.
use discord_proxy_rpc.Base.{
  ℕ, ◌≡◌, refl, sym, subst, Bool, true, false, ◌||◌, ◌&&◌, Option, none, some, List, [], ◌∷◌, ◌==◌,
  ℤ, Option-cases, if◌then◌else◌, Bool-cases, if_elim, inl, inr, arith, ◌⊎◌, ◌≢◌,
}
use discord_proxy_rpc.Activity.{Activity, clone, equals}
use discord_proxy_rpc.Activity.Normal.{clone_lem, equals_iff_normal}
use discord_proxy_rpc.Presence.{Presence, new_presence, start, stop, accept, update, flush, run_end}
use discord_proxy_rpc.Presence.Notify.{pick}
use discord_proxy_rpc.Presence.World.{
  World, Timer, Event, starts, stops, cancels, updates, expires, flushes, notifies, run_ends, begin,
  stop_timer, find_timer, contains, drop_one, push, do_start, do_stop, do_update, do_expire,
  do_flush, do_notify, run_flush, do_run_end, finish_run, step, run, start_timer, expire,
}

-- A running timer will flush this generation.
abbrev pub will_flush : ℕ → List Timer → Bool
will_flush g [] = false
will_flush g (t ∷ ts) = if t.gen == g then true else will_flush g ts

-- A flush of this generation is still to come: its timer runs, or its callback waits for the lock.
abbrev pub is_outstanding : ℕ → World → Bool
is_outstanding g w = will_flush g w.running || contains g w.waiting

-- Nothing is owed to the subscribers, or a flush that will deliver it is to come.
pub data IsCovered (w : World) : Type 0 where
  over : w.ended ≡ true → IsCovered w
  halted : w.presence.stopped ≡ true → IsCovered w
  unsourced : w.presence.has_source ≡ false → IsCovered w
  told : equals w.presence.cached w.presence.last_notified ≡ true → IsCovered w
  to_come : is_outstanding w.presence.gen w ≡ true → IsCovered w

contains-drop_one : (n m : ℕ) (xs : List ℕ) → n ≢ m → contains n (drop_one m xs) ≡ contains n xs
contains-drop_one n m [] h = refl
contains-drop_one n m (x ∷ xs) h = ground (arith, contains-drop_one n m xs h)

expire_keeps :
    (g id : ℕ) (ts : List Timer) {gen : ℕ}
    → find_timer id ts ≡ some gen
    → will_flush g ts ≡ ((gen == g) || will_flush g (stop_timer (some id) ts))
expire_keeps g id [] h = cc
expire_keeps g id (t ∷ ts) {gen} h = elim (Bool-cases (t.id == id)) [
  | inl e ↦ ground arith
  | inr e ↦ ground (arith, expire_keeps g id ts {gen = gen})
]

equals_refl : (a : Activity) → equals a a ≡ true
equals_refl a = (equals_iff_normal a a).1 refl

pub do_update_accepted :
    (w : World) (a : Activity)
    → w.presence.stopped ≡ false
    → do_update w a ≡ start_timer w (accept w.presence a w.next) w.presence.timer a
unfolding do_update update
do_update_accepted w a s = ground arith

pub do_update_stopped : (w : World) (a : Activity) → w.presence.stopped ≡ true → do_update w a ≡ w
unfolding do_update update
do_update_stopped w a s = ground arith

-- An accepted update starts the timer that will flush it.
start_timer-IsCovered :
    (w : World) (a : Activity)
    → IsCovered (start_timer w (accept w.presence a w.next) w.presence.timer a)
unfolding start_timer
start_timer-IsCovered w a = to_come (ground arith)

update-IsCovered : (w : World) (a : Activity) → IsCovered w → IsCovered (do_update w a)
update-IsCovered w a h = elim (Bool-cases w.presence.stopped) [
  | inl s ↦ subst IsCovered (sym (do_update_stopped w a s)) h
  | inr s ↦ subst IsCovered (sym (do_update_accepted w a s)) (start_timer-IsCovered w a)
]

-- A flush does nothing, finds nothing to tell, or tells of the cached activity.
pub data Flushed (p : Presence) (g : ℕ) (r : Presence × Option Activity) : Type 0 where
  stale : r ≡ (p, none) → ((g ≢ p.gen) ⊎ (p.stopped ≡ true)) → Flushed p g r
  same :
      r ≡ (record p { timer = none }, none) → equals p.cached p.last_notified ≡ true → Flushed p g r
  changed :
      r ≡ (record p { last_notified = clone p.cached; timer = none }, some (clone p.cached))
      → p.stopped ≡ false
      → equals p.cached p.last_notified ≡ false
      → Flushed p g r

pub flush-Flushed : (p : Presence) (g : ℕ) → Flushed p g (flush p g)
unfolding flush
flush-Flushed p g = elim (Bool-cases (g == p.gen)) [
  | inr e ↦ stale (ground arith) (inl (ground arith))
  | inl e ↦ elim (Bool-cases p.stopped) [
    | inl s ↦ stale (ground arith) (inr s)
    | inr s ↦ elim (Bool-cases (equals p.cached p.last_notified)) [
      | inl q ↦ same (ground arith) q
      | inr q ↦ changed (ground arith) s q
    ]
  ]
]

-- The world after a flush with this result.
abbrev pub flushed : World → ℕ → Presence × Option Activity → World
flushed w g r = record w {
  presence = r.0;
  waiting = drop_one g w.waiting;
  sent = push r.1 w.sent;
  unlocked = push r.1 w.unlocked;
}

stale-IsCovered :
    (w : World) (g : ℕ)
    → (g ≢ w.presence.gen) ⊎ (w.presence.stopped ≡ true)
    → IsCovered w
    → IsCovered (flushed w g (w.presence, none))
stale-IsCovered w g o (over e) = over e
stale-IsCovered w g o (halted e) = halted e
stale-IsCovered w g o (unsourced e) = unsourced e
stale-IsCovered w g o (told e) = told e
stale-IsCovered w g (inr s) (to_come e) = halted s
stale-IsCovered w g (inl ne) (to_come e) =
    to_come (ground (arith, contains-drop_one w.presence.gen g w.waiting))

flush-IsCovered : (w : World) (g : ℕ) → IsCovered w → IsCovered (run_flush w g)
unfolding run_flush
flush-IsCovered w g h = elim (flush-Flushed w.presence g) [
  | stale e o ↦ subst (λ r. IsCovered (flushed w g r)) (sym e) (stale-IsCovered w g o h)
  | same e q ↦ subst (λ r. IsCovered (flushed w g r)) (sym e) (told q)
  | changed e s q ↦
      subst (λ r. IsCovered (flushed w g r)) (sym e)
        (told (rw clone_lem (equals_refl w.presence.cached)))
]

moved : (a b c d : Bool) → a ≡ (b || c) → (a || d) ≡ true → (c || (if b then true else d)) ≡ true
moved a b c d e h = ground arith

expire-IsCovered :
    (w : World) (id : ℕ) (o : Option ℕ)
    → find_timer id w.running ≡ o
    → IsCovered w
    → IsCovered (expire w id o)
unfolding expire
expire-IsCovered w id none f h = h
expire-IsCovered w id (some gen) f (over e) = over e
expire-IsCovered w id (some gen) f (halted e) = halted e
expire-IsCovered w id (some gen) f (unsourced e) = unsourced e
expire-IsCovered w id (some gen) f (told e) = told e
expire-IsCovered w id (some gen) f (to_come e) =
    to_come (moved _ _ _ _ (expire_keeps w.presence.gen id w.running f) e)

cancel-IsCovered : (w : World) → IsCovered w → IsCovered (record w { cancelled = true })
cancel-IsCovered w (over e) = over e
cancel-IsCovered w (halted e) = halted e
cancel-IsCovered w (unsourced e) = unsourced e
cancel-IsCovered w (told e) = told e
cancel-IsCovered w (to_come e) = to_come e

notified-IsCovered :
    (w : World) (unlocked sofar : List Activity)
    → IsCovered w
    → IsCovered (record w { unlocked = unlocked; notified = sofar })
notified-IsCovered w unlocked sofar (over e) = over e
notified-IsCovered w unlocked sofar (halted e) = halted e
notified-IsCovered w unlocked sofar (unsourced e) = unsourced e
notified-IsCovered w unlocked sofar (told e) = told e
notified-IsCovered w unlocked sofar (to_come e) = to_come e

notify-IsCovered : (w : World) (i : ℕ) → IsCovered w → IsCovered (do_notify w i)
unfolding do_notify
notify-IsCovered w i h = elim (Option-cases (pick i w.unlocked)) [
  | inl e ↦ rw (do_notify, e) h
  | inr (r, e) ↦ rw (do_notify, e) (notified-IsCovered w r.1 (r.0 ∷ w.notified) h)
]

step-IsCovered : (w : World) (e : Event) → IsCovered w → IsCovered (step w e)
unfolding step do_start do_stop do_expire do_flush do_run_end finish_run start stop run_end
step-IsCovered w starts h = unsourced refl
step-IsCovered w stops h = halted refl
step-IsCovered w cancels h = cancel-IsCovered w h
step-IsCovered w (updates a) h = update-IsCovered w a h
step-IsCovered w (expires id) h = expire-IsCovered w id (find_timer id w.running) refl h
step-IsCovered w (flushes g) h = if_elim IsCovered (contains g w.waiting) (flush-IsCovered w g h) h
step-IsCovered w (notifies i) h = notify-IsCovered w i h
step-IsCovered w (run_ends c) h =
    if_elim IsCovered (contains c w.goroutines && (w.cancelled || contains c w.closed)) (over refl)
      h

-- Whatever happens, unless `Stop` was called or `run` has returned, `lastNotified` is `Equals` to the
-- cached activity or a flush of the current generation is still to come.
pub run-IsCovered : (w : World) (es : List Event) → IsCovered w → IsCovered (run w es)
unfolding run
run-IsCovered w [] h = h
run-IsCovered w (e ∷ es) h = run-IsCovered (step w e) es (step-IsCovered w e h)

pub begin-IsCovered : (interval : ℤ) → IsCovered (begin interval)
unfolding begin new_presence
begin-IsCovered interval = unsourced refl
