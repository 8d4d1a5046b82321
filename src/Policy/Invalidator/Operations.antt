-- ===== src/Policy/Invalidator/Operations.antt =====
-- What each operation keeps of an invalidator, where its callers can call it.
pub mod Runs
use chromium_log.Prelude.{
  ℕ, ◌≡◌, ◌≢◌, ◌⊎◌, inl, inr, refl, Bool, true, false, ◌||◌, not, List, ◌∷◌, Option, none, some,
  if◌then◌else◌, arith, run, run_inv, Possible, Bool-cases, Option-cases,
}
use chromium_log.Prelude.Int.{ℤ, pos, negsuc}
use chromium_log.Policy.Invalidator.Defs.{
  uninitialized, stopped, started, shut_down, ObjectId, World, Refresh, Invalidator, record_metric,
  call, check, new_invalidator, is_started, set_max_fetch_delay, update_max_fetch_delay,
  update_invalidations_enabled, is_policy_changed, get_policy_refresh_metric, register_handler,
  unregister_handler, update_ids, is_stopped, is_uninitialized, add_core_observer,
}
use chromium_log.Policy.Invalidator.Handling.{acknowledge_invalidation, refresh_policy}
use chromium_log.Policy.Invalidator.Lifecycle.{
  Event, initialized, shutting_down, scheduler_started, core_disconnecting, store_loaded,
  state_changed, incoming, refresh_due, step, on_invalidator_state_change, register, unregister,
  update_registration, note_stored_version, on_store_loaded, on_refresh_scheduler_started,
  initialize, shutdown, on_core_disconnecting, named_object,
}
use chromium_log.Policy.Invalidator.Settled.{
  HasInvalidation, HasRegistration, SameRegistration, acknowledge-HasInvalidation,
  acknowledge-keeps, record_metric-HasInvalidation, record_metric-same,
  on_incoming_invalidation-HasInvalidation, on_incoming_invalidation-keeps,
}

-- Both invariants.
abbrev pub IsSettled : Invalidator → Type 0
IsSettled i = HasInvalidation i × HasRegistration i

update_invalidations_enabled-IsSettled :
    (now : ℕ) (i : Invalidator)
    → HasInvalidation i
    → (i.is_registered ≡ true → (i.state ≡ started) ⊎ (i.state ≡ shut_down))
    → (i.invalid ≡ true → i.is_registered ≡ true)
    → IsSettled (update_invalidations_enabled now i)
      × ((update_invalidations_enabled now i).state ≡ i.state)
      × ((update_invalidations_enabled now i).is_registered ≡ i.is_registered)
      × ((update_invalidations_enabled now i).invalid ≡ i.invalid)
unfolding update_invalidations_enabled
update_invalidations_enabled-IsSettled now i v s r = ground arith

on_invalidator_state_change-IsSettled :
    (now : ℕ) (enabled : Bool) (i : Invalidator)
    → i.state ≡ started
    → IsSettled i
    → IsSettled (on_invalidator_state_change now enabled i)
      × ((on_invalidator_state_change now enabled i).state ≡ started)
unfolding on_invalidator_state_change
on_invalidator_state_change-IsSettled now enabled i s h =
    let changed = record (check (is_started i.state) i) {
      invalidation_service_enabled = enabled;
    } in
    let updated =
      update_invalidations_enabled-IsSettled now changed (ground arith) (ground arith)
        (ground arith) in
    ground arith

-- What acknowledging leaves when the policy may be valid already.
acknowledge_if_invalid :
    (i : Invalidator)
    → HasInvalidation i
    → HasInvalidation (if i.invalid then acknowledge_invalidation i else i)
      × SameRegistration i (if i.invalid then acknowledge_invalidation i else i)
      × ((if i.invalid then acknowledge_invalidation i else i).invalid ≡ false)
acknowledge_if_invalid i v = elim (Bool-cases i.invalid) [
  | inr valid ↦ ground arith
  | inl pending ↦
      let settled = acknowledge-HasInvalidation i pending v in
      let gone = acknowledge-keeps i in ground arith
]

unregister-IsSettled :
    (w : World) (i : Invalidator)
    → w.ids_accepted ≡ true
    → i.state ≡ started
    → IsSettled i
    → IsSettled (unregister w i)
      × ((unregister w i).state ≡ started)
      × ((unregister w i).is_registered ≡ false)
      × ((unregister w i).invalid ≡ false)
unfolding unregister
unregister-IsSettled w i a s h =
    let j = if i.invalid then acknowledge_invalidation i else i in
    let gone = acknowledge_if_invalid i h.0 in
    let left = record (call unregister_handler (check w.ids_accepted (call (update_ids none) j))) {
      is_registered = false;
    } in
    let updated =
      update_invalidations_enabled-IsSettled w.now left (ground arith) (ground arith)
        (ground arith) in
    ground arith

register-IsSettled :
    (w : World) (object_id : ObjectId) (i : Invalidator)
    → w.ids_accepted ≡ true
    → i.state ≡ started
    → IsSettled i
    → IsSettled (register w object_id i) × ((register w object_id i).state ≡ started)
unfolding register
register-IsSettled w object_id i a s h =
    let changed = on_invalidator_state_change-IsSettled w.now w.service_enabled i s h in
    let j =
      (if not i.is_registered
        then call register_handler (on_invalidator_state_change w.now w.service_enabled i)
        else i) in
    let j_settled : IsSettled j = ground arith in
    let k = if j.invalid then acknowledge_invalidation j else j in
    let gone = acknowledge_if_invalid j j_settled.0 in
    let updated =
      update_invalidations_enabled-IsSettled w.now
        (record k { is_registered = true; object_id = object_id }) (ground arith) (ground arith)
        (ground arith) in
    ground arith

update_registration-IsSettled :
    (w : World) (i : Invalidator)
    → w.ids_accepted ≡ true
    → i.state ≡ started
    → IsSettled i
    → IsSettled (update_registration w i) × ((update_registration w i).state ≡ started)
unfolding update_registration
update_registration-IsSettled w i a s h = elim (Option-cases (named_object w.store.policy)) [
  | inl unnamed ↦ let left = unregister-IsSettled w i a s h in ground arith
  | inr (object_id, named) ↦ let joined = register-IsSettled w object_id i a s h in ground arith
]

note_stored_version-IsSettled :
    (w : World) (changed : Bool) (i : Invalidator)
    → IsSettled i
    → IsSettled (note_stored_version w changed i)
      × ((note_stored_version w changed i).state ≡ i.state)
unfolding note_stored_version
note_stored_version-IsSettled w changed i h =
    let m = get_policy_refresh_metric w.now changed i in
    let recorded = record_metric-HasInvalidation m i h.0 in
    let same = record_metric-same m i in
    let gone = acknowledge-keeps (record_metric m i) in
    elim (Bool-cases i.invalid) [
      | inr valid ↦ ground arith
      | inl pending ↦
          let settled = acknowledge-HasInvalidation (record_metric m i) (ground arith) recorded in
          ground arith
    ]

update_max_fetch_delay-IsSettled :
    (delay : Option ℤ) (i : Invalidator)
    → IsSettled i
    → IsSettled (update_max_fetch_delay delay i)
      × ((update_max_fetch_delay delay i).state ≡ i.state)
unfolding update_max_fetch_delay set_max_fetch_delay
update_max_fetch_delay-IsSettled none i h = ground arith
update_max_fetch_delay-IsSettled (some (negsuc _)) i h = ground arith
update_max_fetch_delay-IsSettled (some (pos delay)) i h = ground arith

on_store_loaded-IsSettled :
    (w : World) (i : Invalidator)
    → w.ids_accepted ≡ true
    → i.state ≡ started
    → IsSettled i
    → IsSettled (on_store_loaded w i) × ((on_store_loaded w i).state ≡ started)
unfolding on_store_loaded is_policy_changed
on_store_loaded-IsSettled w i a s h =
    let seen = is_policy_changed w.store.policy (check (is_started i.state) i) in
    let seen_settled : IsSettled (seen.0) = ground arith in
    let noted = note_stored_version-IsSettled w (seen.1) (seen.0) seen_settled in
    let k = (if seen.0.is_registered then note_stored_version w (seen.1) (seen.0) else seen.0) in
    let k_settled : IsSettled k × (k.state ≡ started) = ground arith in
    let moved = update_registration-IsSettled w k a k_settled.1 k_settled.0 in
    let delayed =
      update_max_fetch_delay-IsSettled w.store.delay_policy (update_registration w k) moved.0 in
    ground arith

on_refresh_scheduler_started-IsSettled :
    (w : World) (i : Invalidator)
    → w.ids_accepted ≡ true
    → i.state ≡ stopped
    → IsSettled i
    → IsSettled (on_refresh_scheduler_started w i)
unfolding on_refresh_scheduler_started
on_refresh_scheduler_started-IsSettled w i a s h =
    let begun = record (check (is_stopped i.state) i) { state = started } in
    let loaded = on_store_loaded-IsSettled w begun a refl (ground arith) in ground arith

initialize-IsSettled :
    (w : World) (has_scheduler : Bool) (i : Invalidator)
    → w.ids_accepted ≡ true
    → i.state ≡ uninitialized
    → IsSettled i
    → IsSettled (initialize w has_scheduler i)
unfolding initialize
initialize-IsSettled w has_scheduler i a s h =
    let j =
      call add_core_observer (record (check (is_uninitialized i.state) i) { state = stopped }) in
    let begun = on_refresh_scheduler_started-IsSettled w j a refl (ground arith) in ground arith

shutdown-IsSettled : (i : Invalidator) → i.state ≢ shut_down → IsSettled i → IsSettled (shutdown i)
unfolding shutdown
shutdown-IsSettled i s h = ground arith

on_core_disconnecting-IsSettled :
    (w : World) (i : Invalidator)
    → w.ids_accepted ≡ true
    → (i.state ≡ started) ⊎ (i.state ≡ stopped)
    → IsSettled i
    → IsSettled (on_core_disconnecting w i)
unfolding on_core_disconnecting
on_core_disconnecting-IsSettled w i a (inl s) h =
    let left =
      unregister-IsSettled w (check (is_started i.state || is_stopped i.state) i) a s
        (ground arith) in
    ground arith
on_core_disconnecting-IsSettled w i a (inr s) h = ground arith

refresh_due-IsSettled :
    (refresh : Refresh) (rest : List Refresh) (i : Invalidator)
    → i.refreshes ≡ refresh ∷ rest
    → IsSettled i
    → IsSettled (refresh_policy refresh.is_missing_payload (record i { refreshes = rest }))
unfolding refresh_policy
refresh_due-IsSettled refresh rest i r h = ground arith
