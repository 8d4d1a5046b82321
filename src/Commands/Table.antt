-- ===== src/Commands/Table.antt =====
-- command_updater.cc: the commands against the history of the calls.
use chromium_log.Prelude.{
  ℕ, ◌≡◌, refl, ap, ◌∙◌, inl, inr, Bool, true, false, List, [], ◌∷◌, Option, none, some, ◌==◌,
  if◌then◌else◌, Option-cases, arith, run,
}
use chromium_log.Commands.{
  Command, CommandUpdater, new_command_updater, supports_command, is_command_enabled, is_some,
  is_enabled, execute_command_with_disposition, get_command, add_command_observer,
  remove_command_observer, remove_from_all, update_found, update_command_enabled, Event, executes,
  adds_observer, removes_observer, removes_everywhere, updates, step,
}

-- A command that is named becomes known, and is enabled until it is said to be otherwise.
abbrev pub known : Option Bool → Option Bool
known none = some true
known (some enabled) = some enabled

-- What a call says of a command: nothing, that it is there, or whether it is enabled.
abbrev pub noted : ℕ → Event → Option Bool → Option Bool
noted id (executes k disposition) state = state
noted id (adds_observer k observer) state = if id == k then known state else state
noted id (removes_observer k observer) state = if id == k then known state else state
noted id (removes_everywhere observer) state = state
noted id (updates k enabled) state = if id == k then some enabled else state

-- What a history says of a command: none for one that is not known.
abbrev pub history_says : ℕ → Option Bool → List Event → Option Bool
history_says id state [] = state
history_says id state (e ∷ es) = history_says id (noted id e state) es

abbrev state_of : Option Command → Option Bool
state_of none = none
state_of (some command) = some command.enabled

abbrev state_in : ℕ → CommandUpdater → Option Bool
state_in id u = state_of (u.commands id)

add_command_observer-state :
    (id k observer : ℕ) (u : CommandUpdater)
    → state_in id (add_command_observer k observer u)
      ≡ (if id == k then known (state_in id u) else state_in id u)
unfolding add_command_observer get_command
add_command_observer-state id k observer u = ground arith

remove_command_observer-state :
    (id k observer : ℕ) (u : CommandUpdater)
    → state_in id (remove_command_observer k observer u)
      ≡ (if id == k then known (state_in id u) else state_in id u)
unfolding remove_command_observer get_command
remove_command_observer-state id k observer u = ground arith

update_command_enabled-state :
    (id k : ℕ) (enabled : Bool) (u : CommandUpdater)
    → state_in id (update_command_enabled k enabled u)
      ≡ (if id == k then some enabled else state_in id u)
unfolding update_command_enabled get_command update_found
update_command_enabled-state id k enabled u = ground arith

remove_from_all-state :
    (id observer : ℕ) (u : CommandUpdater)
    → state_in id (remove_from_all observer u) ≡ state_in id u
unfolding remove_from_all
remove_from_all-state id observer u = elim (Option-cases (u.commands id)) [
  | inl e ↦ rw e refl
  | inr (c, e) ↦ rw e refl
]

step-state :
    (id : ℕ) (e : Event) (u : CommandUpdater) → state_in id (step u e) ≡ noted id e (state_in id u)
unfolding step execute_command_with_disposition
step-state id (executes k disposition) u = ground arith
step-state id (adds_observer k observer) u = add_command_observer-state id k observer u
step-state id (removes_observer k observer) u = remove_command_observer-state id k observer u
step-state id (removes_everywhere observer) u = remove_from_all-state id observer u
step-state id (updates k enabled) u = update_command_enabled-state id k enabled u

run-state :
    (id : ℕ) (es : List Event) (u : CommandUpdater)
    → state_in id (run step u es) ≡ history_says id (state_in id u) es
unfolding run
run-state id [] u = refl
run-state id (e ∷ es) u =
    run-state id es (step u e) ∙ ap (λ s. history_says id s es) (step-state id e u)

-- Does the history say that the command is there, and that it is enabled?
abbrev pub says_enabled : Option Bool → Bool
says_enabled none = false
says_enabled (some enabled) = enabled

state_of-known : (command : Option Command) → is_some command ≡ is_some (state_of command)
state_of-known none = refl
state_of-known (some command) = refl

state_of-enabled : (command : Option Command) → is_enabled command ≡ says_enabled (state_of command)
state_of-enabled none = refl
state_of-enabled (some command) = refl

execute_command-enabled :
    (id disposition : ℕ) (u : CommandUpdater)
    → (execute_command_with_disposition id disposition u).0 ≡ is_command_enabled id u
unfolding execute_command_with_disposition
execute_command-enabled id disposition u = elim (Option-cases (u.commands id)) [
  | inl e ↦ rw e refl
  | inr (c, e) ↦ ground arith
]

-- The updater against a description of its calls' history, for every command after every history of a new
-- updater: it supports the command if an observer was added to or removed from it, or it was updated; it
-- is enabled as the last update says, and if there was none it is enabled once it is supported; and to
-- execute it succeeds just if it is enabled.
pub run-follows_history :
    (id disposition : ℕ) (es : List Event)
    → let u = run step new_command_updater es in
      let state = history_says id none es in
      (supports_command id u ≡ is_some state)
      × (is_command_enabled id u ≡ says_enabled state)
      × ((execute_command_with_disposition id disposition u).0 ≡ says_enabled state)
run-follows_history id disposition es =
    let u = run step new_command_updater es in
    let same = run-state id es new_command_updater in
    let enabled = state_of-enabled (u.commands id) ∙ ap says_enabled same in
    (
      state_of-known (u.commands id) ∙ ap is_some same,
      enabled,
      execute_command-enabled id disposition u ∙ enabled,
    )
