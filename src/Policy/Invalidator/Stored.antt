-- ===== src/Policy/Invalidator/Stored.antt =====
-- browser/policy/cloud/cloud_policy_invalidator.cc, OnStoreLoaded: what the policy's arrival does to the
-- pending invalidation that asked for it.
use chromium_log.Prelude.{
  ◌≡◌, sym, subst, refl, Bool, true, false, ◌&&◌, not, [], Option, none, some, if◌then◌else◌, arith,
  ==-refl,
}
use chromium_log.Prelude.Int.{ℤ, pos, negsuc, ◌≤ℤ◌}
use chromium_log.Policy.Invalidator.Defs.{
  started, Invalidation, World, Invalidator, Metric, acknowledge, leq_ℤ, eq_ℤ, is_started, call,
  check, record_metric, set_max_fetch_delay, update_max_fetch_delay, is_policy_changed,
  get_policy_refresh_metric,
}
use chromium_log.Policy.Invalidator.Handling.{acknowledge_invalidation, handle_invalidation}
use chromium_log.Policy.Invalidator.Lifecycle.{
  note_stored_version, on_store_loaded, update_registration, named_object, update_registration-same,
}
use chromium_log.Policy.Invalidator.Settled.{HasInvalidation}
use chromium_log.Policy.Invalidator.Verdict.{is_acknowledged, acknowledge-answers}

-- The pending invalidation is acknowledged, its refresh is cancelled, and the client is told version 0.
abbrev pub IsDone : Invalidation → ℤ → Invalidator → Type 0
IsDone pending version i =
    (i.invalid ≡ false)
    × (i.refreshes ≡ [])
    × (i.client_version ≡ pos 0)
    × (is_acknowledged pending.ack i.calls ≡ true)
    × (version ≤ℤ i.highest_handled_invalidation_version)

eq_ℤ-refl : (a : ℤ) → eq_ℤ a a ≡ true
eq_ℤ-refl (pos a) = ==-refl a
eq_ℤ-refl (negsuc a) = ==-refl a

acknowledge-fields :
    (i : Invalidator)
    → ((acknowledge_invalidation i).invalid ≡ false)
      × ((acknowledge_invalidation i).refreshes ≡ [])
      × ((acknowledge_invalidation i).client_version ≡ pos 0)
      × ((acknowledge_invalidation i).is_registered ≡ i.is_registered)
      × ((acknowledge_invalidation i).object_id ≡ i.object_id)
unfolding acknowledge_invalidation
acknowledge-fields i = ground arith

record_metric-fields :
    (m : Metric) (i : Invalidator)
    → ((record_metric m i).invalid ≡ i.invalid)
      × ((record_metric m i).invalidation ≡ i.invalidation)
      × ((record_metric m i).invalidation_version ≡ i.invalidation_version)
      × ((record_metric m i).is_registered ≡ i.is_registered)
      × ((record_metric m i).object_id ≡ i.object_id)
record_metric-fields m i = ground arith

note_stored_version-IsDone :
    (w : World) (changed : Bool) (i : Invalidator) (pending : Invalidation)
    → HasInvalidation i
    → i.invalidation ≡ some pending
    → w.store.store_invalidation_version ≡ i.invalidation_version
    → IsDone pending i.invalidation_version (note_stored_version w changed i)
      × ((note_stored_version w changed i).is_registered ≡ i.is_registered)
      × ((note_stored_version w changed i).object_id ≡ i.object_id)
unfolding note_stored_version
note_stored_version-IsDone w changed i pending v was stored =
    let m = get_policy_refresh_metric w.now changed i in
    let same = record_metric-fields m i in
    let fields = acknowledge-fields (record_metric m i) in
    let invalid : (record_metric m i).invalid ≡ true = ground arith in
    let equal : eq_ℤ w.store.store_invalidation_version (record_metric m i).invalidation_version
        ≡ true =
      rw (stored, same.2, eq_ℤ-refl i.invalidation_version) refl in
    let answered = acknowledge-answers (record_metric m i) pending (ground arith) in ground arith

update_max_fetch_delay-IsDone :
    (delay : Option ℤ) (i : Invalidator) (pending : Invalidation) (version : ℤ)
    → IsDone pending version i
    → IsDone pending version (update_max_fetch_delay delay i)
unfolding update_max_fetch_delay set_max_fetch_delay
update_max_fetch_delay-IsDone none i pending version d = d
update_max_fetch_delay-IsDone (some (negsuc _)) i pending version d = d
update_max_fetch_delay-IsDone (some (pos delay)) i pending version d = ground arith

-- When the store loads a policy whose version is that of the pending invalidation, while the
-- invalidator is started and registered for the object that the policy names, then the policy is
-- valid again, no refresh is posted, the client is told version 0, the invalidation is acknowledged,
-- and the highest version handled is at least its version.
pub stored_version_settles :
    (w : World) (i : Invalidator) (pending : Invalidation)
    → HasInvalidation i
    → i.state ≡ started
    → i.is_registered ≡ true
    → i.invalidation ≡ some pending
    → w.store.store_invalidation_version ≡ i.invalidation_version
    → named_object w.store.policy ≡ some i.object_id
    → IsDone pending i.invalidation_version (on_store_loaded w i)
unfolding on_store_loaded is_policy_changed
stored_version_settles w i pending v s r was stored named =
    let seen = is_policy_changed w.store.policy (check (is_started i.state) i) in
    let noted = note_stored_version-IsDone w (seen.1) (seen.0) pending (ground arith) was stored in
    let k = note_stored_version w (seen.1) (seen.0) in
    let same = update_registration-same w k (ground arith) (ground arith) in
    let done =
      update_max_fetch_delay-IsDone w.store.delay_policy (update_registration w k) pending
        i.invalidation_version
        (subst (λ j. IsDone pending i.invalidation_version j) (sym same) noted.0) in
    subst
      (λ b. IsDone pending i.invalidation_version (
        update_max_fetch_delay w.store.delay_policy
          (update_registration w (if b then k else seen.0))))
      (sym r) done

second_branch :
    (a b : Bool) (i j k : Invalidator)
    → a ≡ false
    → b ≡ true
    → (if a then i else if b then j else k) ≡ j
second_branch a b i j k p q = ground arith

-- Once an invalidator is done with a version, `HandleInvalidation` only acknowledges an invalidation of
-- a known version up to that one, whatever the store holds.
late_invalidation_acknowledged :
    (w : World) (i : Invalidator) (pending late : Invalidation) (version : ℤ)
    → IsDone pending version i
    → late.is_unknown_version ≡ false
    → late.version ≤ℤ version
    → handle_invalidation w late i ≡ call (acknowledge late.ack) i
unfolding handle_invalidation
late_invalidation_acknowledged w i pending late version d known old =
    second_branch
      (i.invalid && not late.is_unknown_version && leq_ℤ late.version i.invalidation_version)
      (not late.is_unknown_version && leq_ℤ late.version i.highest_handled_invalidation_version) i
      (call (acknowledge late.ack) i) _ (ground arith) (ground arith)
