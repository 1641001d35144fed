-- ===== src/Presence/Changes.antt =====
-- internal/state/presence.go notifies of changes only, and answers from the last accepted update.
use discord_proxy_rpc.Base.{
  ℕ, ◌≡◌, refl, sym, subst, Bool, true, false, ◌&&◌, ◌||◌, Option, none, some, List, [], ◌∷◌, ℤ,
  Bool-cases, Option-cases, if_elim, inl, inr, arith,
}
use discord_proxy_rpc.Activity.{
  Activity, zero_activity, clone, equals, PresenceSnapshot, source_none, source_ipc,
}
use discord_proxy_rpc.Activity.Normal.{clone_lem}
use discord_proxy_rpc.Presence.{Presence, new_presence, start, stop, accept, snapshot, run_end}
use discord_proxy_rpc.Presence.Notify.{pick}
use discord_proxy_rpc.Presence.World.{
  World, Event, starts, stops, cancels, updates, expires, flushes, notifies, run_ends, begin,
  find_timer, contains, start_timer, expire, do_start, do_stop, do_update, do_expire, do_flush,
  run_flush, do_run_end, do_notify, finish_run, step, run,
}
use discord_proxy_rpc.Presence.Delivery.{
  stale, same, changed, flush-Flushed, flushed, do_update_accepted, do_update_stopped,
}

-- Each of these notifications, newest first, is not `Equals` to the one before it, and the first is
-- not `Equals` to the zero activity.
abbrev pub IsChange : Activity → List Activity → Type 0
IsChange a [] = equals a zero_activity ≡ false
IsChange a (b ∷ rest) = (equals a b ≡ false) × IsChange b rest

abbrev pub AreChanges : List Activity → Type 0
AreChanges [] = Unit
AreChanges (a ∷ rest) = IsChange a rest

-- `lastNotified` is the newest notification since `Start`.
abbrev pub Trail : Activity → List Activity → Type 0
Trail last [] = last ≡ zero_activity
Trail last (a ∷ rest) = (last ≡ a) × IsChange a rest

-- The newest accepted update is the cached one.
abbrev pub Newest : Bool → Activity → List Activity → Type 0
Newest has_source cached [] = has_source ≡ false
Newest has_source cached (a ∷ rest) = (has_source ≡ true) × (cached ≡ a)

pub record IsFaithful (w : World) : Type 0 where
  pub trail : Trail w.presence.last_notified w.sent
  pub newest : Newest w.presence.has_source w.presence.cached w.accepted

Trail-change :
    (a last : Activity) (sent : List Activity)
    → Trail last sent
    → equals a last ≡ false
    → Trail (clone a) (clone a ∷ sent)
Trail-change a last [] h e = (refl, rw clone_lem (subst (λ l. equals a l ≡ false) h e))
Trail-change a last (b ∷ rest) h e =
    (refl, (rw clone_lem (subst (λ l. equals a l ≡ false) h.0 e), h.1))

flush-IsFaithful : (w : World) (g : ℕ) → IsFaithful w → IsFaithful (run_flush w g)
unfolding run_flush
flush-IsFaithful w g h = elim (flush-Flushed w.presence g) [
  | stale e o ↦
      subst (λ r. IsFaithful (flushed w g r)) (sym e)
        (record { trail = h.trail; newest = h.newest })
  | same e q ↦
      subst (λ r. IsFaithful (flushed w g r)) (sym e)
        (record { trail = h.trail; newest = h.newest })
  | changed e s q ↦
      subst (λ r. IsFaithful (flushed w g r)) (sym e)
        (record {
          trail = Trail-change w.presence.cached w.presence.last_notified w.sent h.trail q;
          newest = h.newest;
        })
]

update-IsFaithful : (w : World) (a : Activity) → IsFaithful w → IsFaithful (do_update w a)
unfolding start_timer accept
update-IsFaithful w a h = elim (Bool-cases w.presence.stopped) [
  | inl s ↦ subst IsFaithful (sym (do_update_stopped w a s)) h
  | inr s ↦
      subst IsFaithful (sym (do_update_accepted w a s))
        (record { trail = h.trail; newest = (refl, clone_lem a) })
]

expire-IsFaithful : (w : World) (id : ℕ) (o : Option ℕ) → IsFaithful w → IsFaithful (expire w id o)
unfolding expire
expire-IsFaithful w id none h = h
expire-IsFaithful w id (some gen) h = record { trail = h.trail; newest = h.newest }

notify-IsFaithful : (w : World) (i : ℕ) → IsFaithful w → IsFaithful (do_notify w i)
unfolding do_notify
notify-IsFaithful w i h = elim (Option-cases (pick i w.unlocked)) [
  | inl e ↦ rw (do_notify, e) h
  | inr (r, e) ↦ rw (do_notify, e) (record { trail = h.trail; newest = h.newest })
]

step-IsFaithful : (w : World) (e : Event) → IsFaithful w → IsFaithful (step w e)
unfolding step do_start do_stop do_expire do_flush do_run_end finish_run start stop run_end
step-IsFaithful w starts h = record { trail = refl; newest = refl }
step-IsFaithful w stops h = record { trail = h.trail; newest = h.newest }
step-IsFaithful w cancels h = record { trail = h.trail; newest = h.newest }
step-IsFaithful w (updates a) h = update-IsFaithful w a h
step-IsFaithful w (expires id) h = expire-IsFaithful w id (find_timer id w.running) h
step-IsFaithful w (flushes g) h =
    if_elim IsFaithful (contains g w.waiting) (flush-IsFaithful w g h) h
step-IsFaithful w (notifies i) h = notify-IsFaithful w i h
step-IsFaithful w (run_ends c) h =
    if_elim IsFaithful (contains c w.goroutines && (w.cancelled || contains c w.closed))
      (record { trail = h.trail; newest = h.newest }) h

run-IsFaithful : (w : World) (es : List Event) → IsFaithful w → IsFaithful (run w es)
unfolding run
run-IsFaithful w [] h = h
run-IsFaithful w (e ∷ es) h = run-IsFaithful (step w e) es (step-IsFaithful w e h)

begin-IsFaithful : (interval : ℤ) → IsFaithful (begin interval)
unfolding begin new_presence
begin-IsFaithful interval = record { trail = refl; newest = refl }

pub run-begin-IsFaithful : (interval : ℤ) (es : List Event) → IsFaithful (run (begin interval) es)
run-begin-IsFaithful interval es = run-IsFaithful (begin interval) es (begin-IsFaithful interval)

Trail-changes : (last : Activity) (sent : List Activity) → Trail last sent → AreChanges sent
Trail-changes last [] h = tt
Trail-changes last (a ∷ rest) h = h.1

-- Since the last `Start`, no activity is notified that is `Equals` to the one notified before it,
-- and the first that is notified is not `Equals` to the zero activity.
pub notifies_changes_only :
    (interval : ℤ) (es : List Event) → AreChanges (run (begin interval) es).sent
notifies_changes_only interval es =
    Trail-changes _ _ (run-IsFaithful (begin interval) es (begin-IsFaithful interval)).trail

-- What a reader should see after these accepted updates, newest first.
abbrev pub reported : List Activity → PresenceSnapshot
reported [] = record { source = source_none; activity = none }
reported (a ∷ rest) = record { source = source_ipc; activity = some a }

snapshot-Newest :
    (p : Presence) (accepted : List Activity)
    → Newest p.has_source p.cached accepted
    → snapshot p ≡ reported accepted
unfolding snapshot
snapshot-Newest p [] h = ground arith
snapshot-Newest p (a ∷ rest) h = ground (arith, clone_lem p.cached)

-- `Snapshot` reports no source exactly until an update is accepted after `Start`, and from then on
-- the newest accepted activity, whether or not subscribers were told of it.
pub snapshot-reported :
    (interval : ℤ) (es : List Event)
    → snapshot (run (begin interval) es).presence ≡ reported (run (begin interval) es).accepted
snapshot-reported interval es =
    snapshot-Newest _ _ (run-IsFaithful (begin interval) es (begin-IsFaithful interval)).newest
