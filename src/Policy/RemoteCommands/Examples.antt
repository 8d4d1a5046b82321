-- ===== src/Policy/RemoteCommands/Examples.antt =====
-- An invalidator that is started, registered, and shut down: the theorem at a concrete history.
use chromium_log.Prelude.{◌≡◌, refl, true, false, ◌&&◌, ◌||◌, not, List, [], ◌∷◌, some, run, arith}
use chromium_log.Policy.RemoteCommands.{
  Answers, Event, initializes, starts, state_changes, invalidations_come, policy_comes, shuts_down,
  started, same_state, new_invalidator, step,
}
use chromium_log.Policy.RemoteCommands.Registration.{served, agreed, run-Agrees}

abbrev yes : Answers
yes = record { enabled = true; accepted = true }

abbrev events : List Event
events =
    initializes
    ∷ starts
    ∷ policy_comes yes
        (some (record { command_invalidation_source = some 5; command_invalidation_name = some 6 }))
    ∷ invalidations_come 2
    ∷ state_changes false
    ∷ shuts_down yes
    ∷ []

run-Agrees_example :
    let i = run step new_invalidator events in
    (served i.calls ≡ agreed i.is_registered i.object_id)
    × (not i.is_registered || same_state i.state started ≡ true)
    × (i.invalidations_enabled ≡ i.invalidation_service_enabled && i.is_registered)
    × (i.checks ≡ true)
unfolding step
run-Agrees_example =
    run-Agrees events
      (refl, (refl, (refl, ((refl, omega arith), (refl, ((λ e. ground arith, refl), tt))))))
