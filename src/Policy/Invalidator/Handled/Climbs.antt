-- ===== src/Policy/Invalidator/Handled/Climbs.antt =====
-- The highest version that was handled, from step to step, and what that means for a late invalidation.
use chromium_log.Prelude.{
  ◌≡◌, refl, sym, subst, ◌∙◌, ◌⊎◌, inl, inr, Bool, true, false, ◌&&◌, ◌||◌, not, List, ◌∷◌,
  if◌then◌else◌, arith, run, run_inv_all,
}
use chromium_log.Prelude.Int.{◌≤ℤ◌}
use chromium_log.Policy.Invalidator.Defs.{
  started, Invalidation, World, Refresh, Invalidator, acknowledge, leq_ℤ, is_started, is_stopped,
  is_uninitialized, call, check, record_metric, is_policy_changed, get_policy_refresh_metric,
  stopped, add_core_observer,
}
use chromium_log.Policy.Invalidator.Handling.{
  acknowledge_invalidation, consider_version, handle_invalidation, on_incoming_invalidation,
  refresh_policy,
}
use chromium_log.Policy.Invalidator.Lifecycle.{
  Event, initialized, shutting_down, scheduler_started, core_disconnecting, store_loaded,
  state_changed, incoming, refresh_due, step, on_invalidator_state_change, update_registration,
  note_stored_version, on_store_loaded, on_refresh_scheduler_started, initialize, shutdown,
  on_core_disconnecting,
}
use chromium_log.Policy.Invalidator.Handled.{
  SameHandled, acknowledge-SameHandled, state_change-SameHandled, unregister-SameHandled,
  update_registration-SameHandled, update_max_fetch_delay-SameHandled, record_metric-SameHandled,
  incoming-SameHandled,
}

-- The highest version that was handled has not gone down.
abbrev Climbs : Invalidator → Invalidator → Type 0
Climbs i j = i.highest_handled_invalidation_version ≤ℤ j.highest_handled_invalidation_version

Same-Climbs : (i j : Invalidator) → SameHandled i j → Climbs i j
Same-Climbs i j same = ground arith

note_stored_version-Climbs :
    (w : World) (changed : Bool) (i : Invalidator) → Climbs i (note_stored_version w changed i)
unfolding note_stored_version
note_stored_version-Climbs w changed i =
    let m = get_policy_refresh_metric w.now changed i in
    let recorded = record_metric-SameHandled m i in
    let gone = acknowledge-SameHandled (record_metric m i) in ground arith

on_store_loaded-Climbs : (w : World) (i : Invalidator) → Climbs i (on_store_loaded w i)
unfolding on_store_loaded is_policy_changed
on_store_loaded-Climbs w i =
    let seen = is_policy_changed w.store.policy (check (is_started i.state) i) in
    let noted = note_stored_version-Climbs w (seen.1) (seen.0) in
    let k = (if seen.0.is_registered then note_stored_version w (seen.1) (seen.0) else seen.0) in
    let k_climbs : Climbs i k = ground arith in
    let same =
      update_max_fetch_delay-SameHandled w.store.delay_policy (update_registration w k)
      ∙ update_registration-SameHandled w k in
    ground arith

on_refresh_scheduler_started-Climbs :
    (w : World) (i : Invalidator) → Climbs i (on_refresh_scheduler_started w i)
unfolding on_refresh_scheduler_started
on_refresh_scheduler_started-Climbs w i =
    on_store_loaded-Climbs w (record (check (is_stopped i.state) i) { state = started })

initialize-Climbs :
    (w : World) (has_scheduler : Bool) (i : Invalidator) → Climbs i (initialize w has_scheduler i)
unfolding initialize
initialize-Climbs w has_scheduler i =
    let j =
      call add_core_observer (record (check (is_uninitialized i.state) i) { state = stopped }) in
    let begun = on_refresh_scheduler_started-Climbs w j in ground arith

shutdown-SameHandled : (i : Invalidator) → SameHandled i (shutdown i)
unfolding shutdown
shutdown-SameHandled i = ground arith

on_core_disconnecting-SameHandled :
    (w : World) (i : Invalidator) → SameHandled i (on_core_disconnecting w i)
unfolding on_core_disconnecting
on_core_disconnecting-SameHandled w i =
    let left = unregister-SameHandled w (check (is_started i.state || is_stopped i.state) i) in
    ground arith

refresh_due-SameHandled :
    (refresh : Refresh) (rest : List Refresh) (i : Invalidator)
    → SameHandled i (refresh_policy refresh.is_missing_payload (record i { refreshes = rest }))
unfolding refresh_policy
refresh_due-SameHandled refresh rest i = ground arith

step-Climbs : (i : Invalidator) (e : World × Event) → Climbs i (step i e)
unfolding step
step-Climbs i (w, initialized has_scheduler) = initialize-Climbs w has_scheduler i
step-Climbs i (w, shutting_down) = Same-Climbs i (shutdown i) (shutdown-SameHandled i)
step-Climbs i (w, scheduler_started) = on_refresh_scheduler_started-Climbs w i
step-Climbs i (w, core_disconnecting) =
    Same-Climbs i (on_core_disconnecting w i) (on_core_disconnecting-SameHandled w i)
step-Climbs i (w, store_loaded) = on_store_loaded-Climbs w i
step-Climbs i (w, state_changed enabled) =
    Same-Climbs i (on_invalidator_state_change w.now enabled i)
      (state_change-SameHandled w.now enabled i)
step-Climbs i (w, incoming highest others) =
    Same-Climbs i (on_incoming_invalidation w (highest ∷ others) i)
      (incoming-SameHandled w highest others i)
step-Climbs i (w, refresh_due refresh rest) =
    Same-Climbs i (refresh_policy refresh.is_missing_payload (record i { refreshes = rest }))
      (refresh_due-SameHandled refresh rest i)

run-Climbs : (i : Invalidator) (es : List (World × Event)) → Climbs i (run step i es)
run-Climbs i es =
    run_inv_all step (Climbs i) (λ j e h. let next = step-Climbs j e in omega arith) i es
      (omega arith)

first_or_second :
    (a b : Bool) (i j k : Invalidator)
    → b ≡ true
    → ((if a then i else if b then j else k) ≡ i) ⊎ ((if a then i else if b then j else k) ≡ j)
first_or_second true b i j k q = inl refl
first_or_second false b i j k q = inr (subst (λ c. (if c then j else k) ≡ j) (sym q) refl)

-- The highest version that was handled never goes down, so an invalidation of a known version up to it
-- never leads to a fetch again: after every history, whatever the store holds, `HandleInvalidation`
-- changes nothing or only acknowledges it.
pub handled_never_refetched :
    (w : World) (i : Invalidator) (events : List (World × Event)) (late : Invalidation)
    → late.is_unknown_version ≡ false
    → late.version ≤ℤ i.highest_handled_invalidation_version
    → (handle_invalidation w late (run step i events) ≡ run step i events)
      ⊎ (handle_invalidation w late (run step i events)
          ≡ call (acknowledge late.ack) (run step i events))
unfolding handle_invalidation
handled_never_refetched w i events late known old =
    let j = run step i events in
    let climbs = run-Climbs i events in
    first_or_second
      (j.invalid && not late.is_unknown_version && leq_ℤ late.version j.invalidation_version)
      (not late.is_unknown_version && leq_ℤ late.version j.highest_handled_invalidation_version) j
      (call (acknowledge late.ack) j)
      (consider_version w late (if j.invalid then acknowledge_invalidation j else j)) (ground arith)
