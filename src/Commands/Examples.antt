-- ===== src/Commands/Examples.antt =====
-- A command that two observers watch: the theorems at concrete inputs.
use chromium_log.Prelude.{◌≡◌, refl, true, false, List, [], ◌∷◌, none, run}
use chromium_log.Commands.{
  CommandUpdater, new_command_updater, supports_command, is_command_enabled, is_some,
  execute_command_with_disposition, add_command_observer, Event, executes, adds_observer,
  removes_observer, updates, step, get_command,
}
use chromium_log.Commands.Table.{history_says, says_enabled, run-follows_history}
use chromium_log.Commands.Observers.{watches, heard, run-Knows}

abbrev events : List Event
events =
    adds_observer 5 1
    ∷ adds_observer 5 2
    ∷ updates 5 false
    ∷ removes_observer 5 2
    ∷ executes 5 1
    ∷ updates 5 true
    ∷ []

run-follows_history_example :
    let u = run step new_command_updater events in
    let state = history_says 5 none events in
    (supports_command 5 u ≡ is_some state)
    × (is_command_enabled 5 u ≡ says_enabled state)
    × ((execute_command_with_disposition 5 1 u).0 ≡ says_enabled state)
run-follows_history_example = run-follows_history 5 1 events

abbrev watched : CommandUpdater
watched = add_command_observer 5 1 new_command_updater

run-Knows_example :
    let v = run step watched events in
    (watches 1 (v.commands 5) ≡ true) × (heard 1 5 true v.calls ≡ is_command_enabled 5 v)
unfolding add_command_observer get_command
run-Knows_example =
    run-Knows 1 5 true watched events (tt, (tt, (tt, (refl, (tt, (tt, tt)))))) refl refl
