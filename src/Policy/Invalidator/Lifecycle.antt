-- ===== src/Policy/Invalidator/Lifecycle.antt =====
-- browser/policy/cloud/cloud_policy_invalidator.cc: registration, and the callbacks of the core, the
-- store and the invalidation service; then the events that drive an invalidator.
use chromium_log.Prelude.{
  ℕ, ◌≡◌, refl, sym, subst, arith, Bool, true, false, ◌&&◌, ◌||◌, not, List, [], ◌∷◌, Option, none,
  some, if◌then◌else◌,
}
use chromium_log.Prelude.Int.{ltb_ℤ}
use chromium_log.Policy.Invalidator.Defs.{
  stopped, started, shut_down, ObjectId, Invalidation, PolicyData, World, Refresh, Invalidator,
  add_core_observer, remove_core_observer, add_store_observer, remove_store_observer,
  register_handler, unregister_handler, update_ids, call, check, eq_ℤ, is_started, is_stopped,
  is_uninitialized, is_shut_down, same_id, update_max_fetch_delay, update_invalidations_enabled,
  get_policy_refresh_metric, record_metric, is_policy_changed,
}
use chromium_log.Policy.Invalidator.Handling.{
  acknowledge_invalidation, on_incoming_invalidation, refresh_policy,
}

unfoldable pub on_invalidator_state_change : ℕ → Bool → Invalidator → Invalidator
unfolding update_invalidations_enabled
on_invalidator_state_change now service_enabled i =
    update_invalidations_enabled now
      (record (check (is_started i.state) i) { invalidation_service_enabled = service_enabled })

unfoldable pub register : World → ObjectId → Invalidator → Invalidator
unfolding on_invalidator_state_change acknowledge_invalidation update_invalidations_enabled
register w object_id i =
    let j =
      (if not i.is_registered
        then call register_handler (on_invalidator_state_change w.now w.service_enabled i)
        else i) in
    let k = if j.invalid then acknowledge_invalidation j else j in
    check w.ids_accepted (
      call (update_ids (some object_id)) (
        update_invalidations_enabled w.now
          (record k { is_registered = true; object_id = object_id })))

unfoldable pub unregister : World → Invalidator → Invalidator
unfolding acknowledge_invalidation update_invalidations_enabled
unregister w i =
    let j = if i.invalid then acknowledge_invalidation i else i in
    if i.is_registered
    then update_invalidations_enabled w.now
        (record (call unregister_handler (check w.ids_accepted (call (update_ids none) j))) {
          is_registered = false;
        })
    else i

-- The object that a policy names, if it names one.
abbrev pub named_object : Option PolicyData → Option ObjectId
named_object none = none
named_object (some policy) = elim (policy.invalidation_source) [
  | none ↦ none
  | some source ↦ elim (policy.invalidation_name) [
    | none ↦ none
    | some name ↦ some (record { source = source; name = name })
  ]
]

abbrev update_registration_to : World → Option ObjectId → Invalidator → Invalidator
update_registration_to w none i = unregister w i
update_registration_to w (some object_id) i =
    if not i.is_registered || not (same_id object_id i.object_id) then register w object_id i else i

unfoldable pub update_registration : World → Invalidator → Invalidator
unfolding unregister register
update_registration w i = update_registration_to w (named_object w.store.policy) i

-- A registration for the object that the policy names stays as it is.
pub update_registration-same :
    (w : World) (i : Invalidator)
    → i.is_registered ≡ true
    → named_object w.store.policy ≡ some i.object_id
    → update_registration w i ≡ i
unfolding update_registration
update_registration-same w i r named =
    let kept : (not i.is_registered || not (same_id i.object_id i.object_id)) ≡ false =
      ground arith in
    subst (λ o. update_registration_to w o i ≡ i) (sym named)
      (subst (λ b. (if b then register w i.object_id i else i) ≡ i) (sym kept) refl)

-- What `OnStoreLoaded` does while it is registered.
unfoldable pub note_stored_version : World → Bool → Invalidator → Invalidator
unfolding acknowledge_invalidation get_policy_refresh_metric
note_stored_version w policy_changed i =
    let j = record_metric (get_policy_refresh_metric w.now policy_changed i) i in
    let stored = w.store.store_invalidation_version in
    let k =
      (if j.invalid && eq_ℤ stored j.invalidation_version then acknowledge_invalidation j else j) in
    if ltb_ℤ k.highest_handled_invalidation_version stored
    then record k { highest_handled_invalidation_version = stored }
    else k

unfoldable pub on_store_loaded : World → Invalidator → Invalidator
unfolding is_policy_changed note_stored_version update_registration update_max_fetch_delay
on_store_loaded w i =
    let (j, policy_changed) = is_policy_changed w.store.policy (check (is_started i.state) i) in
    let k = if j.is_registered then note_stored_version w policy_changed j else j in
    update_max_fetch_delay w.store.delay_policy (update_registration w k)

unfoldable pub on_refresh_scheduler_started : World → Invalidator → Invalidator
unfolding on_store_loaded
on_refresh_scheduler_started w i =
    call add_store_observer
      (on_store_loaded w (record (check (is_stopped i.state) i) { state = started }))

-- `has_scheduler`: has the core a refresh scheduler already?
unfoldable pub initialize : World → Bool → Invalidator → Invalidator
unfolding on_refresh_scheduler_started
initialize w has_scheduler i =
    let j =
      call add_core_observer (record (check (is_uninitialized i.state) i) { state = stopped }) in
    if has_scheduler then on_refresh_scheduler_started w j else j

unfoldable pub shutdown : Invalidator → Invalidator
shutdown i =
    let j = check (not (is_shut_down i.state)) i in
    let k =
      (if is_started j.state
        then record (call remove_store_observer
            (if j.is_registered then call unregister_handler j else j)) { refreshes = [] }
        else j) in
    record (if not (is_uninitialized k.state) then call remove_core_observer k else k) {
      state = shut_down;
    }

unfoldable pub on_core_disconnecting : World → Invalidator → Invalidator
unfolding unregister
on_core_disconnecting w i =
    let j = check (is_started i.state || is_stopped i.state) i in
    if is_started j.state
    then record (call remove_store_observer (unregister w j)) { state = stopped }
    else j

-- What drives an invalidator.
pub data Event : Type 0 where
  initialized : Bool → Event
  shutting_down scheduler_started core_disconnecting store_loaded : Event
  state_changed : Bool → Event
  incoming : Invalidation → List Invalidation → Event
  refresh_due : Refresh → List Refresh → Event

unfoldable pub step : Invalidator → World × Event → Invalidator
step i (w, initialized has_scheduler) = initialize w has_scheduler i
step i (w, shutting_down) = shutdown i
step i (w, scheduler_started) = on_refresh_scheduler_started w i
step i (w, core_disconnecting) = on_core_disconnecting w i
step i (w, store_loaded) = on_store_loaded w i
step i (w, state_changed service_enabled) = on_invalidator_state_change w.now service_enabled i
step i (w, incoming highest others) = on_incoming_invalidation w (highest ∷ others) i
step i (w, refresh_due refresh rest) =
    refresh_policy refresh.is_missing_payload (record i { refreshes = rest })
