-- ===== src/Presence/Restart.antt =====
-- What internal/state/presence.go does around `Stop`, a second `Start`, and a first update that
-- carries nothing.
use discord_proxy_rpc.Base.{
  Bool, Option-cases, inl, inr, ℕ, ◌≡◌, refl, true, false, ◌&&◌, ◌||◌, Option, none, some, List, [],
  ◌∷◌, ℤ, All, if_elim, arith,
}
use discord_proxy_rpc.Activity.{Activity, zero_activity, equals, source_none, source_ipc}
use discord_proxy_rpc.Activity.Normal.{clone_lem}
use discord_proxy_rpc.Presence.{new_presence, start, stop, accept, update, snapshot, flush, run_end}
use discord_proxy_rpc.Presence.Notify.{pick}
use discord_proxy_rpc.Presence.Notify.Counts.{count-pick}
use discord_proxy_rpc.Presence.Handed.{passed_on}
use discord_proxy_rpc.Presence.World.{
  World, Event, starts, stops, cancels, updates, expires, flushes, notifies, run_ends, begin,
  find_timer, contains, start_timer, expire, do_start, do_stop, do_update, do_expire, do_flush,
  do_notify, run_flush, do_run_end, finish_run, step, run,
}
use discord_proxy_rpc.Presence.Delivery.{do_update_stopped}

-- No `Start` among these.
abbrev pub IsNoStart : Event → Type 0
IsNoStart starts = ⊥
IsNoStart _ = Unit

-- No flush finds anything to tell, so that only what had been found may still be passed to notify,
-- and the machine stays stopped.
record Silent (v w : World) : Type 0 where
  halted : w.presence.stopped ≡ true
  quiet : w.sent ≡ v.sent
  settled : (p : Activity → Bool) → passed_on p w ≡ passed_on p v
  kept : w.presence.cached ≡ v.presence.cached

expire-Silent : (v w : World) (id : ℕ) (o : Option ℕ) → Silent v w → Silent v (expire w id o)
unfolding expire
expire-Silent v w id none h = h
expire-Silent v w id (some gen) h = record {
  halted = h.halted;
  quiet = h.quiet;
  settled = h.settled;
  kept = h.kept;
}

flush-Silent : (v w : World) (g : ℕ) → Silent v w → Silent v (run_flush w g)
unfolding run_flush flush
flush-Silent v w g h = record {
  halted = ground arith;
  quiet = ground arith;
  settled = λ p. ground (arith, h.settled p);
  kept = ground arith;
}

notify-Silent : (v w : World) (i : ℕ) → Silent v w → Silent v (do_notify w i)
unfolding do_notify
notify-Silent v w i h = elim (Option-cases (pick i w.unlocked)) [
  | inl e ↦ rw (do_notify, e) h
  | inr (r, e) ↦
      rw (do_notify, e)
        (record {
          halted = h.halted;
          quiet = h.quiet;
          settled = λ p. omega (arith, h.settled p, (count-pick p i w.unlocked r.0 r.1 e).0);
          kept = h.kept;
        })
]

step-Silent : (v w : World) (e : Event) → IsNoStart e → Silent v w → Silent v (step w e)
unfolding step do_stop do_expire do_flush do_run_end finish_run stop run_end
step-Silent v w starts n h = elim n [ ]
step-Silent v w stops n h = record {
  halted = refl;
  quiet = h.quiet;
  settled = h.settled;
  kept = h.kept;
}
step-Silent v w cancels n h = record {
  halted = h.halted;
  quiet = h.quiet;
  settled = h.settled;
  kept = h.kept;
}
step-Silent v w (updates a) n h = rw (do_update_stopped w a h.halted) h
step-Silent v w (expires id) n h = expire-Silent v w id (find_timer id w.running) h
step-Silent v w (flushes g) n h = if_elim (Silent v) (contains g w.waiting) (flush-Silent v w g h) h
step-Silent v w (notifies i) n h = notify-Silent v w i h
step-Silent v w (run_ends c) n h =
    if_elim (Silent v) (contains c w.goroutines && (w.cancelled || contains c w.closed))
      (record { halted = h.halted; quiet = h.quiet; settled = h.settled; kept = h.kept }) h

run-Silent : (v w : World) (es : List Event) → All IsNoStart es → Silent v w → Silent v (run w es)
unfolding run
run-Silent v w [] n h = h
run-Silent v w (e ∷ es) n h = run-Silent v (step w e) es n.1 (step-Silent v w e n.0 h)

-- After `Stop` has taken the lock, and until `Start` is called again, no flush finds anything to tell
-- and the cached activity does not change, whatever timers still run out and whatever updates arrive;
-- so the activities that are passed to `notify` are those that a flush had found before and, having
-- unlocked, was about to pass on.
pub silent_after_stop :
    (w : World) (es : List Event)
    → All IsNoStart es
    → ((run (step w stops) es).sent ≡ w.sent)
      × ((p : Activity → Bool) → passed_on p (run (step w stops) es) ≡ passed_on p w)
      × ((run (step w stops) es).presence.cached ≡ w.presence.cached)
unfolding step do_stop stop
silent_after_stop w es n =
    let h =
      run-Silent (do_stop w) (do_stop w) es n
        (record { halted = refl; quiet = refl; settled = λ p. refl; kept = refl }) in
    (h.quiet, h.settled, h.kept)

-- A first update that is `Equals` to the zero activity changes what `Snapshot` answers, from no
-- source to the IPC source, and no subscriber is told.
pub empty_first_untold :
    (interval : ℤ) (a : Activity)
    → equals a zero_activity ≡ true
    → let w : World = run (begin interval) (starts ∷ updates a ∷ expires 1 ∷ flushes 1 ∷ []) in
      (w.sent ≡ []) × (snapshot w.presence ≡ record { source = source_ipc; activity = some a })
unfolding run step begin new_presence do_start start do_update update accept start_timer do_expire
    expire do_flush run_flush flush snapshot
empty_first_untold interval a h = ground (arith, clone_lem a)

-- Where the callback of the current generation waits for the lock when `Stop` is called, and the
-- cached activity is not `Equals` to the zero one, a flush after the next `Start` finds that activity
-- of the earlier run, while `Snapshot` reports no source. The `run` of the earlier start may have
-- returned in between, or not.
pub restart_resends :
    (w : World) (channel : ℕ)
    → contains w.presence.gen w.waiting ≡ true
    → equals w.presence.cached zero_activity ≡ false
    → let v : World = run w (stops ∷ run_ends channel ∷ starts ∷ flushes w.presence.gen ∷ []) in
      (v.sent ≡ w.presence.cached ∷ [])
      × (v.unlocked ≡ w.presence.cached ∷ w.unlocked)
      × (snapshot v.presence ≡ record { source = source_none; activity = none })
unfolding run step do_start start do_flush run_flush flush snapshot do_stop stop do_run_end
    finish_run run_end
restart_resends w channel c h = ground (arith, clone_lem w.presence.cached)
