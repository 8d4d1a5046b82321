-- ===== src/Policy/Invalidator/Examples.antt =====
-- One invalidator on concrete events: what the theorems about it say there.
use chromium_log.Prelude.{
  ◌⊎◌, ℕ, ◌≡◌, refl, sym, subst, true, false, List, [], ◌∷◌, none, some, arith, run, Possible,
}
use chromium_log.Prelude.Int.{ℤ, pos}
use chromium_log.Policy.Invalidator.Defs.{
  started, Invalidation, PolicyData, World, Invalidator, new_invalidator, call, acknowledge,
  is_policy_changed, update_max_fetch_delay, set_max_fetch_delay, update_invalidations_enabled,
  get_invalidation_metric, get_policy_refresh_metric, get_invalidations_enabled,
}
use chromium_log.Policy.Invalidator.Handling.{
  handle_invalidation, consider_version, consider, is_expired_at, accept, acknowledge_invalidation,
  on_incoming_invalidation, refresh_policy,
}
use chromium_log.Policy.Invalidator.Lifecycle.{
  Event, initialized, shutting_down, store_loaded, incoming, refresh_due, step, on_store_loaded,
  initialize, on_refresh_scheduler_started, note_stored_version, update_registration, register,
  unregister, on_invalidator_state_change,
}
use chromium_log.Policy.Invalidator.Operations.{IsSettled}
use chromium_log.Policy.Invalidator.Operations.Runs.{CanHappen, run-IsSettled}
use chromium_log.Policy.Invalidator.Handled.Climbs.{handled_never_refetched}
use chromium_log.Policy.Invalidator.Verdict.{IsServed, no_invalidation_lost}
use chromium_log.Policy.Invalidator.Stored.{IsDone, stored_version_settles}

abbrev some_policy : PolicyData
some_policy = record {
  timestamp = 5000;
  policy_value_hash = some 17;
  invalidation_source = some 1;
  invalidation_name = some 2;
}

abbrev world_at : ℕ → ℤ → World
world_at now version = record {
  now = now;
  store = record {
    policy = some some_policy;
    store_invalidation_version = version;
    delay_policy = none;
  };
  service_enabled = true;
  ids_accepted = true;
  random = 20;
}

abbrev some_invalidation : ℕ → Invalidation
some_invalidation version = record {
  is_unknown_version = false;
  version = pos version;
  payload = 7 ∷ [];
  ack = version;
}

-- The core starts, an invalidation comes, its refresh runs, and the store loads its policy.
abbrev some_run : List (World × Event)
some_run =
    (world_at 6000000 (pos 0), initialized true)
    ∷ (world_at 7000000 (pos 0), incoming (some_invalidation 7000000) [])
    ∷ (world_at 8000000 (pos 0), refresh_due (record { is_missing_payload = false; delay = 20 }) [])
    ∷ (world_at 9000000 (pos 7000000), store_loaded)
    ∷ (world_at 9000000 (pos 7000000), shutting_down)
    ∷ []

abbrev first_run : List (World × Event)
first_run =
    (world_at 6000000 (pos 0), initialized true)
    ∷ (world_at 7000000 (pos 0), incoming (some_invalidation 7000000) [])
    ∷ []

some_run-Possible : Possible step CanHappen (new_invalidator false 0) some_run
unfolding new_invalidator step initialize on_refresh_scheduler_started on_store_loaded
    is_policy_changed note_stored_version update_registration update_max_fetch_delay
    set_max_fetch_delay register unregister on_invalidator_state_change acknowledge_invalidation
    update_invalidations_enabled on_incoming_invalidation handle_invalidation consider_version
    consider is_expired_at accept get_invalidation_metric get_policy_refresh_metric
    get_invalidations_enabled refresh_policy
some_run-Possible =
    ((refl, refl), ((refl, refl, ground arith), (refl, ((refl, refl), (ground arith, tt)))))

first_run-Possible : Possible step CanHappen (new_invalidator false 0) first_run
unfolding new_invalidator step initialize on_refresh_scheduler_started on_store_loaded
    is_policy_changed note_stored_version update_registration update_max_fetch_delay
    set_max_fetch_delay register unregister on_invalidator_state_change acknowledge_invalidation
    update_invalidations_enabled on_incoming_invalidation handle_invalidation consider_version
    consider is_expired_at accept get_invalidation_metric get_policy_refresh_metric
    get_invalidations_enabled refresh_policy
first_run-Possible = ((refl, refl), ((refl, refl, ground arith), tt))

-- With one invalidation pending.
abbrev pending_one : Invalidator
pending_one = run step (new_invalidator false 0) first_run

run-IsSettled_example : IsSettled (run step (new_invalidator false 0) some_run)
run-IsSettled_example = run-IsSettled false 0 some_run some_run-Possible

pending_one-IsSettled : IsSettled pending_one
pending_one-IsSettled = run-IsSettled false 0 first_run first_run-Possible

no_invalidation_lost_example :
    IsServed
      (some_invalidation 6500000)
      pending_one
      (handle_invalidation (world_at 8000000 (pos 0)) (some_invalidation 6500000) pending_one)
no_invalidation_lost_example =
    (no_invalidation_lost (world_at 8000000 (pos 0)) (some_invalidation 6500000) pending_one
      (ground arith) (pending_one-IsSettled.0)).0

pending_one_fields :
    (pending_one.state ≡ started)
    × (pending_one.is_registered ≡ true)
    × (pending_one.invalidation ≡ some (some_invalidation 7000000))
    × (pos 7000000 ≡ pending_one.invalidation_version)
    × (some (record { source = 1; name = 2 }) ≡ some (pending_one.object_id))
unfolding run new_invalidator step initialize on_refresh_scheduler_started on_store_loaded
    is_policy_changed note_stored_version update_registration update_max_fetch_delay
    set_max_fetch_delay register unregister on_invalidator_state_change acknowledge_invalidation
    update_invalidations_enabled on_incoming_invalidation handle_invalidation consider_version
    consider is_expired_at accept get_invalidation_metric get_policy_refresh_metric
    get_invalidations_enabled refresh_policy
pending_one_fields = (refl, refl, refl, refl, refl)

stored_version_settles_example :
    IsDone
      (some_invalidation 7000000)
      pending_one.invalidation_version
      (on_store_loaded (world_at 9000000 (pos 7000000)) pending_one)
stored_version_settles_example =
    stored_version_settles (world_at 9000000 (pos 7000000)) pending_one (some_invalidation 7000000)
      (pending_one-IsSettled.0) (pending_one_fields.0) (pending_one_fields.1) (pending_one_fields.2)
      (pending_one_fields.3) (pending_one_fields.4)

pending_one-IsDone :
    IsDone
      (some_invalidation 7000000)
      (pos 7000000)
      (on_store_loaded (world_at 9000000 (pos 7000000)) pending_one)
pending_one-IsDone =
    subst
      (λ v.
        IsDone (some_invalidation 7000000) v
          (on_store_loaded (world_at 9000000 (pos 7000000)) pending_one))
      (sym (pending_one_fields.3))
      (stored_version_settles (world_at 9000000 (pos 7000000)) pending_one
        (some_invalidation 7000000) (pending_one-IsSettled.0) (pending_one_fields.0)
        (pending_one_fields.1) (pending_one_fields.2) (pending_one_fields.3) (pending_one_fields.4))

handled_never_refetched_example :
    (handle_invalidation
        (world_at 9500000 (pos 0))
        (some_invalidation 6500000)
        (run step (new_invalidator false 7000000) some_run)
      ≡ run step (new_invalidator false 7000000) some_run)
    ⊎ (handle_invalidation
          (world_at 9500000 (pos 0))
          (some_invalidation 6500000)
          (run step (new_invalidator false 7000000) some_run)
        ≡ call (acknowledge 6500000) (run step (new_invalidator false 7000000) some_run))
unfolding new_invalidator
handled_never_refetched_example =
    handled_never_refetched (world_at 9500000 (pos 0)) (new_invalidator false 7000000) some_run
      (some_invalidation 6500000) refl (omega arith)
