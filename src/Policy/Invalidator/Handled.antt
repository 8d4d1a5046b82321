-- ===== src/Policy/Invalidator/Handled.antt =====
-- browser/policy/cloud/cloud_policy_invalidator.cc: the highest version that was handled, over a history.
pub mod Climbs
use chromium_log.Prelude.{
  ℕ, ◌+◌, ◌≤◌, ◌≡◌, refl, sym, subst, ◌∙◌, ◌⊎◌, inl, inr, Bool, true, false, ◌&&◌, ◌||◌, not, List,
  [], ◌∷◌, Option, none, some, if◌then◌else◌, arith, run, run_inv_all, Bool-cases, Option-cases,
  ==-refl,
}
use chromium_log.Prelude.Int.{ℤ, pos, negsuc, ltb_ℤ, ◌≤ℤ◌}
use chromium_log.Policy.Invalidator.Defs.{
  started, ObjectId, Invalidation, PolicyData, World, Refresh, Invalidator, Metric, acknowledge,
  leq_ℤ, is_started, is_stopped, is_uninitialized, call, check, get_invalidation_metric,
  record_metric, set_max_fetch_delay, update_max_fetch_delay, update_invalidations_enabled,
  is_policy_changed, get_policy_refresh_metric, stopped, add_core_observer, register_handler,
  update_ids, unregister_handler,
}
use chromium_log.Policy.Invalidator.Handling.{
  acknowledge_invalidation, accept, consider, consider_version, handle_invalidation,
  acknowledge_all, on_incoming_invalidation, refresh_policy, is_expired_at, is_empty,
}
use chromium_log.Policy.Invalidator.Lifecycle.{
  Event, initialized, shutting_down, scheduler_started, core_disconnecting, store_loaded,
  state_changed, incoming, refresh_due, step, on_invalidator_state_change, register, unregister,
  update_registration, note_stored_version, on_store_loaded, on_refresh_scheduler_started,
  initialize, shutdown, on_core_disconnecting, named_object,
}

-- The highest version that was handled is the same.
abbrev SameHandled : Invalidator → Invalidator → Type 0
SameHandled i j = j.highest_handled_invalidation_version ≡ i.highest_handled_invalidation_version

acknowledge-SameHandled : (i : Invalidator) → SameHandled i (acknowledge_invalidation i)
unfolding acknowledge_invalidation
acknowledge-SameHandled i = ground arith

acknowledge_if-SameHandled :
    (i : Invalidator) → SameHandled i (if i.invalid then acknowledge_invalidation i else i)
acknowledge_if-SameHandled i = let same = acknowledge-SameHandled i in ground arith

update_invalidations_enabled-SameHandled :
    (now : ℕ) (i : Invalidator) → SameHandled i (update_invalidations_enabled now i)
unfolding update_invalidations_enabled
update_invalidations_enabled-SameHandled now i = ground arith

state_change-SameHandled :
    (now : ℕ) (enabled : Bool) (i : Invalidator)
    → SameHandled i (on_invalidator_state_change now enabled i)
unfolding on_invalidator_state_change
state_change-SameHandled now enabled i =
    update_invalidations_enabled-SameHandled now
      (record (check (is_started i.state) i) { invalidation_service_enabled = enabled })

register-SameHandled :
    (w : World) (object_id : ObjectId) (i : Invalidator) → SameHandled i (register w object_id i)
unfolding register
register-SameHandled w object_id i =
    let j =
      (if not i.is_registered
        then call register_handler (on_invalidator_state_change w.now w.service_enabled i)
        else i) in
    let changed = state_change-SameHandled w.now w.service_enabled i in
    let j_same : SameHandled i j = ground arith in
    let k = if j.invalid then acknowledge_invalidation j else j in
    update_invalidations_enabled-SameHandled w.now
      (record k { is_registered = true; object_id = object_id })
    ∙ acknowledge_if-SameHandled j
    ∙ j_same

unregister-SameHandled : (w : World) (i : Invalidator) → SameHandled i (unregister w i)
unfolding unregister
unregister-SameHandled w i =
    let j = if i.invalid then acknowledge_invalidation i else i in
    let left = record (call unregister_handler (check w.ids_accepted (call (update_ids none) j))) {
      is_registered = false;
    } in
    let same = update_invalidations_enabled-SameHandled w.now left ∙ acknowledge_if-SameHandled i in
    ground arith

update_registration-SameHandled :
    (w : World) (i : Invalidator) → SameHandled i (update_registration w i)
unfolding update_registration
update_registration-SameHandled w i = elim (Option-cases (named_object w.store.policy)) [
  | inl unnamed ↦ let left = unregister-SameHandled w i in ground arith
  | inr (object_id, named) ↦ let joined = register-SameHandled w object_id i in ground arith
]

update_max_fetch_delay-SameHandled :
    (delay : Option ℤ) (i : Invalidator) → SameHandled i (update_max_fetch_delay delay i)
unfolding update_max_fetch_delay set_max_fetch_delay
update_max_fetch_delay-SameHandled none i = ground arith
update_max_fetch_delay-SameHandled (some (negsuc _)) i = ground arith
update_max_fetch_delay-SameHandled (some (pos delay)) i = ground arith

record_metric-SameHandled : (m : Metric) (i : Invalidator) → SameHandled i (record_metric m i)
record_metric-SameHandled m i = ground arith

accept-SameHandled :
    (w : World) (invalidation : Invalidation) (version : ℤ) (payload : List ℕ) (i : Invalidator)
    → SameHandled i (accept w invalidation version payload i)
unfolding accept
accept-SameHandled w invalidation version payload i = ground arith

consider-SameHandled :
    (w : World) (invalidation : Invalidation) (version : ℤ) (payload : List ℕ)
    (policy : Option PolicyData) (i : Invalidator)
    → SameHandled i (consider w invalidation version payload policy i)
unfolding consider
consider-SameHandled w invalidation version payload none i = ground arith
consider-SameHandled w invalidation version payload (some policy) i =
    let m =
      get_invalidation_metric (is_empty payload) (is_expired_at w.now version policy.timestamp) in
    let same = record_metric-SameHandled m i in
    let accepted = accept-SameHandled w invalidation version payload (record_metric m i) in
    ground arith

consider_version-SameHandled :
    (w : World) (invalidation : Invalidation) (i : Invalidator)
    → SameHandled i (consider_version w invalidation i)
unfolding consider_version
consider_version-SameHandled w invalidation i =
    let counted = record i {
      unknown_version_invalidation_count = i.unknown_version_invalidation_count + 1;
    } in
    let unknown =
      consider-SameHandled w invalidation (negsuc i.unknown_version_invalidation_count) []
        w.store.policy counted in
    let known =
      consider-SameHandled w invalidation invalidation.version invalidation.payload w.store.policy
        i in
    ground arith

handle_invalidation-SameHandled :
    (w : World) (invalidation : Invalidation) (i : Invalidator)
    → SameHandled i (handle_invalidation w invalidation i)
unfolding handle_invalidation
handle_invalidation-SameHandled w invalidation i =
    let gone = acknowledge-SameHandled i in
    let after = consider_version-SameHandled w invalidation (acknowledge_invalidation i) in
    let considered = consider_version-SameHandled w invalidation i in ground arith

acknowledge_all-SameHandled :
    (invalidations : List Invalidation) (i : Invalidator)
    → SameHandled i (acknowledge_all invalidations i)
acknowledge_all-SameHandled [] i = refl
acknowledge_all-SameHandled (invalidation ∷ rest) i =
    acknowledge_all-SameHandled rest (call (acknowledge invalidation.ack) i)

incoming-SameHandled :
    (w : World) (highest : Invalidation) (others : List Invalidation) (i : Invalidator)
    → SameHandled i (on_incoming_invalidation w (highest ∷ others) i)
unfolding on_incoming_invalidation
incoming-SameHandled w highest others i =
    let checked = check (is_started i.state) i in
    handle_invalidation-SameHandled w highest (acknowledge_all others checked)
    ∙ acknowledge_all-SameHandled others checked
