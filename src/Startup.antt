-- ===== src/Startup.antt =====
-- browser/after_startup_task_utils.cc: tasks that wait until the browser has started. A task, with its
-- runner, is a number. A call of QueueTask that is posted to the UI thread is in `in_flight`, oldest
-- first, and what is posted to the runners is in `posted`, newest first, with its delay in seconds.
pub mod Tasks
mod Examples
use chromium_log.Prelude.{ℕ, Bool, true, false, ◌&&◌, not, List, [], ◌∷◌, ◌++◌, if◌then◌else◌}

pub data Posted : Type 0 where
  post_task : ℕ → Posted
  post_delayed_task : ℕ → ℕ → Posted

-- The two globals, the posted calls, and the observer: whether it is alive, whether it observes the
-- contents of a page, and how many seconds it waits at most.
pub record Startup : Type 0 where
  pub complete : Bool
  pub tasks : List ℕ
  pub in_flight : List ℕ
  pub posted : List Posted
  pub observer : Bool
  pub observes : Bool
  pub failsafe : ℕ

abbrev pub new_startup : Startup
new_startup = record {
  complete = false;
  tasks = [];
  in_flight = [];
  posted = [];
  observer = false;
  observes = false;
  failsafe = 0;
}

-- The random delay is an argument.
unfoldable pub schedule_task : ℕ → ℕ → Startup → Startup
schedule_task delay task s = record s { posted = post_delayed_task task delay ∷ s.posted }

-- `QueueTask` on the UI thread.
unfoldable pub queue_task : ℕ → ℕ → Startup → Startup
unfolding schedule_task
queue_task delay task s =
    if s.complete then schedule_task delay task s else record s { tasks = s.tasks ++ task ∷ [] }

-- `PostTask`, on the UI thread or another.
unfoldable pub post : Bool → ℕ → ℕ → Startup → Startup
unfolding queue_task
post on_ui delay task s =
    if s.complete
    then record s { posted = post_task task ∷ s.posted }
    else if on_ui
    then queue_task delay task s
    else record s { in_flight = s.in_flight ++ task ∷ [] }

-- The oldest posted call of `QueueTask` runs.
unfoldable pub queue_arrives : ℕ → List ℕ → Startup → Startup
unfolding queue_task
queue_arrives delay [] s = s
queue_arrives delay (task ∷ rest) s = queue_task delay task (record s { in_flight = rest })

unfoldable pub schedule_all : (ℕ → ℕ) → List ℕ → Startup → Startup
unfolding schedule_task
schedule_all delay [] s = s
schedule_all delay (task ∷ tasks) s = schedule_all delay tasks (schedule_task (delay task) task s)

unfoldable pub set_browser_startup_is_complete : (ℕ → ℕ) → Startup → Startup
unfolding schedule_all
set_browser_startup_is_complete delay s =
    record (schedule_all delay s.tasks (record s { complete = true })) { tasks = [] }

-- `OnStartupComplete`, if the observer is alive; it deletes itself.
unfoldable pub on_startup_complete : (ℕ → ℕ) → Startup → Startup
unfolding set_browser_startup_is_complete
on_startup_complete delay s =
    if s.observer
    then record (set_browser_startup_is_complete delay s) { observer = false; observes = false }
    else s

-- `StartMonitoringStartup`, where there is a visible page or not (on platforms other than Android).
unfoldable pub start_monitoring_startup : Bool → Startup → Startup
start_monitoring_startup has_contents s = record s {
  observer = true;
  observes = has_contents;
  failsafe = if has_contents then 180 else 3;
}

-- A load ends or fails in a frame that is the main frame or not.
unfoldable pub did_finish_load : (ℕ → ℕ) → Bool → Startup → Startup
unfolding on_startup_complete
did_finish_load delay is_main_frame s =
    if s.observes && is_main_frame then on_startup_complete delay s else s

unfoldable pub web_contents_destroyed : (ℕ → ℕ) → Startup → Startup
unfolding on_startup_complete
web_contents_destroyed delay s = if s.observes then on_startup_complete delay s else s

pub data Event : Type 0 where
  posts : Bool → ℕ → ℕ → Event
  queue_runs : ℕ → Event
  starts_monitoring : Bool → Event
  load_ends : (ℕ → ℕ) → Bool → Event
  contents_go failsafe_runs completes : (ℕ → ℕ) → Event

unfoldable pub step : Startup → Event → Startup
unfolding post queue_arrives start_monitoring_startup did_finish_load web_contents_destroyed
    on_startup_complete set_browser_startup_is_complete
step s (posts on_ui delay task) = post on_ui delay task s
step s (queue_runs delay) = queue_arrives delay s.in_flight s
step s (starts_monitoring has_contents) = start_monitoring_startup has_contents s
step s (load_ends delay is_main_frame) = did_finish_load delay is_main_frame s
step s (contents_go delay) = web_contents_destroyed delay s
step s (failsafe_runs delay) = on_startup_complete delay s
step s (completes delay) = set_browser_startup_is_complete delay s
