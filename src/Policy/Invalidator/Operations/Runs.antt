-- ===== src/Policy/Invalidator/Operations/Runs.antt =====
-- What a run of the events that the callers can send keeps of an invalidator.
use chromium_log.Prelude.{
  ℕ, ◌≡◌, ◌≢◌, ◌⊎◌, Bool, true, List, ◌∷◌, none, arith, run, run_inv, Possible,
}
use chromium_log.Policy.Invalidator.Defs.{
  uninitialized, stopped, started, shut_down, World, Invalidator, new_invalidator,
}
use chromium_log.Policy.Invalidator.Lifecycle.{
  Event, initialized, shutting_down, scheduler_started, core_disconnecting, store_loaded,
  state_changed, incoming, refresh_due, step,
}
use chromium_log.Policy.Invalidator.Settled.{
  on_incoming_invalidation-HasInvalidation, on_incoming_invalidation-keeps,
}
use chromium_log.Policy.Invalidator.Operations.{
  IsSettled, on_invalidator_state_change-IsSettled, on_store_loaded-IsSettled,
  on_refresh_scheduler_started-IsSettled, initialize-IsSettled, shutdown-IsSettled,
  on_core_disconnecting-IsSettled, refresh_due-IsSettled,
}

-- What the callers can send: each callback comes in the states that its DCHECK names, the service
-- calls back a registered handler only and takes its ids, an invalidation comes while the store has a
-- policy, and the next refresh to run is one that is posted.
abbrev pub CanHappen : Invalidator → World × Event → Type 0
CanHappen i (w, initialized _) = (w.ids_accepted ≡ true) × (i.state ≡ uninitialized)
CanHappen i (w, shutting_down) = i.state ≢ shut_down
CanHappen i (w, scheduler_started) = (w.ids_accepted ≡ true) × (i.state ≡ stopped)
CanHappen i (w, core_disconnecting) =
    (w.ids_accepted ≡ true) × ((i.state ≡ started) ⊎ (i.state ≡ stopped))
CanHappen i (w, store_loaded) = (w.ids_accepted ≡ true) × (i.state ≡ started)
CanHappen i (w, state_changed _) = (i.state ≡ started) × (i.is_registered ≡ true)
CanHappen i (w, incoming _ _) =
    (i.state ≡ started) × (i.is_registered ≡ true) × (w.store.policy ≢ none)
CanHappen i (w, refresh_due refresh rest) = i.refreshes ≡ refresh ∷ rest

step-IsSettled :
    (i : Invalidator) (e : World × Event) → CanHappen i e → IsSettled i → IsSettled (step i e)
unfolding step
step-IsSettled i (w, initialized has_scheduler) c h =
    initialize-IsSettled w has_scheduler i c.0 c.1 h
step-IsSettled i (w, shutting_down) c h = shutdown-IsSettled i c h
step-IsSettled i (w, scheduler_started) c h = on_refresh_scheduler_started-IsSettled w i c.0 c.1 h
step-IsSettled i (w, core_disconnecting) c h = on_core_disconnecting-IsSettled w i c.0 c.1 h
step-IsSettled i (w, store_loaded) c h = (on_store_loaded-IsSettled w i c.0 c.1 h).0
step-IsSettled i (w, state_changed enabled) c h =
    (on_invalidator_state_change-IsSettled w.now enabled i c.0 h).0
step-IsSettled i (w, incoming highest others) c h =
    let known = on_incoming_invalidation-HasInvalidation w highest others i c.2 c.0 h.0 in
    let same = on_incoming_invalidation-keeps w highest others i in ground arith
step-IsSettled i (w, refresh_due refresh rest) c h = refresh_due-IsSettled refresh rest i c h

-- After every run of events that can happen, from a new invalidator on: an invalidation is kept exactly
-- while the policy is invalid, at most one refresh is posted and none while the policy is valid, the
-- client has been told the version of the invalidation or 0, and 0 while the policy is valid, the fetch
-- delay is within its bounds, no check has failed, invalidations are enabled exactly while the service
-- is and the invalidator is registered, it is registered only once started, and the policy is invalid
-- only while it is registered.
pub run-IsSettled :
    (is_device : Bool) (highest_handled : ℕ) (events : List (World × Event))
    → Possible step CanHappen (new_invalidator is_device highest_handled) events
    → IsSettled (run step (new_invalidator is_device highest_handled) events)
unfolding new_invalidator
run-IsSettled is_device highest_handled events possible =
    run_inv step CanHappen IsSettled step-IsSettled (new_invalidator is_device highest_handled)
      events possible (ground arith)
