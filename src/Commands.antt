-- ===== src/Commands.antt =====
-- browser/command_updater.cc: which commands of a window can be executed, and who hears of a change. An
-- observer is a number, and an identifier is one. What is told to observers and to the delegate is in
-- `calls`, newest first. A base::ObserverList is a list of
-- observers in the order of their addition, each in it once.
pub mod Table
pub mod Observers
mod Examples
use chromium_log.Prelude.{
  ℕ, Bool, true, false, ◌&&◌, ◌||◌, not, List, [], ◌∷◌, ◌++◌, Option, none, some, ◌==◌,
  if◌then◌else◌,
}

pub record Command : Type 0 where
  pub enabled : Bool
  pub observers : List ℕ

abbrev pub new_command : Command
new_command = record { enabled = true; observers = [] }

pub data Call : Type 0 where
  execute : ℕ → ℕ → Call
  enabled_state_changed : ℕ → ℕ → Bool → Call

pub record CommandUpdater : Type 0 where
  pub commands : ℕ → Option Command
  pub calls : List Call
  pub dchecks : Bool

abbrev pub new_command_updater : CommandUpdater
new_command_updater = record { commands = λ id. none; calls = []; dchecks = true }

abbrev pub is_some {ℓ} : {A : Type ℓ} → Option A → Bool
is_some none = false
is_some (some _) = true

abbrev pub supports_command : ℕ → CommandUpdater → Bool
supports_command id u = is_some (u.commands id)

abbrev pub is_enabled : Option Command → Bool
is_enabled none = false
is_enabled (some command) = command.enabled

abbrev pub is_command_enabled : ℕ → CommandUpdater → Bool
is_command_enabled id u = is_enabled (u.commands id)

unfoldable pub execute_command_with_disposition : ℕ → ℕ → CommandUpdater → Bool × CommandUpdater
execute_command_with_disposition id disposition u =
    if supports_command id u && is_command_enabled id u
    then (true, record u { calls = execute id disposition ∷ u.calls })
    else (false, u)

abbrev pub current_tab : ℕ
current_tab = 1

unfoldable pub execute_command : ℕ → CommandUpdater → Bool × CommandUpdater
unfolding execute_command_with_disposition
execute_command id u = execute_command_with_disposition id current_tab u

abbrev pub set_command : ℕ → Command → CommandUpdater → CommandUpdater
set_command id command u = record u {
  commands = λ k. if k == id then some command else u.commands k;
}

-- `GetCommand`: the command, and the updater in which it is.
unfoldable pub get_command : ℕ → Bool → Option Command → CommandUpdater → Command × CommandUpdater
get_command id create (some command) u = (command, u)
get_command id create none u =
    (new_command, set_command id new_command (record u { dchecks = create && u.dchecks }))

abbrev pub contains : ℕ → List ℕ → Bool
contains observer [] = false
contains observer (o ∷ os) = o == observer || contains observer os

-- AddObserver and RemoveObserver of base::ObserverList.
abbrev pub add_observer : ℕ → Command → Command
add_observer observer c =
    if contains observer c.observers
    then c
    else record c { observers = c.observers ++ observer ∷ [] }

abbrev pub without : ℕ → List ℕ → List ℕ
without observer [] = []
without observer (o ∷ os) = if o == observer then without observer os else o ∷ without observer os

abbrev pub remove_observer : ℕ → Command → Command
remove_observer observer c = record c { observers = without observer c.observers }

unfoldable pub add_command_observer : ℕ → ℕ → CommandUpdater → CommandUpdater
unfolding get_command
add_command_observer id observer u =
    let (command, v) = get_command id true (u.commands id) u in
    set_command id (add_observer observer command) v

unfoldable pub remove_command_observer : ℕ → ℕ → CommandUpdater → CommandUpdater
unfolding get_command
remove_command_observer id observer u =
    let (command, v) = get_command id false (u.commands id) u in
    set_command id (remove_observer observer command) v

abbrev pub removed_from : ℕ → Option Command → Option Command
removed_from observer none = none
removed_from observer (some command) = some (remove_observer observer command)

-- The other `RemoveCommandObserver`.
unfoldable pub remove_from_all : ℕ → CommandUpdater → CommandUpdater
remove_from_all observer u = record u { commands = λ id. removed_from observer (u.commands id) }

abbrev pub same_bool : Bool → Bool → Bool
same_bool true b = b
same_bool false b = not b

-- The loop over the observers.
abbrev pub notify : ℕ → Bool → List ℕ → List Call → List Call
notify id enabled [] calls = calls
notify id enabled (o ∷ os) calls = notify id enabled os (enabled_state_changed o id enabled ∷ calls)

unfoldable pub update_found : ℕ → Bool → Command → CommandUpdater → CommandUpdater
update_found id enabled command u =
    if same_bool command.enabled enabled
    then u
    else record (set_command id (record command { enabled = enabled }) u) {
      calls = notify id enabled command.observers u.calls;
    }

unfoldable pub update_command_enabled : ℕ → Bool → CommandUpdater → CommandUpdater
unfolding get_command update_found
update_command_enabled id enabled u =
    let (command, v) = get_command id true (u.commands id) u in update_found id enabled command v

pub data Event : Type 0 where
  executes : ℕ → ℕ → Event
  adds_observer removes_observer : ℕ → ℕ → Event
  removes_everywhere : ℕ → Event
  updates : ℕ → Bool → Event

unfoldable pub step : CommandUpdater → Event → CommandUpdater
unfolding execute_command_with_disposition add_command_observer remove_command_observer
    remove_from_all update_command_enabled
step u (executes id disposition) = (execute_command_with_disposition id disposition u).1
step u (adds_observer id observer) = add_command_observer id observer u
step u (removes_observer id observer) = remove_command_observer id observer u
step u (removes_everywhere observer) = remove_from_all observer u
step u (updates id enabled) = update_command_enabled id enabled u
