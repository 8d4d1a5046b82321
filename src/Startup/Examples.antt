-- ===== src/Startup/Examples.antt =====
-- Two tasks, one posted from another thread, and a page that loads: the theorem at a concrete history.
use chromium_log.Prelude.{◌+◌, ◌≡◌, true, false, List, [], ◌∷◌, run}
use chromium_log.Startup.{new_startup, Event, posts, queue_runs, starts_monitoring, load_ends, step}
use chromium_log.Startup.Tasks.{count_task, count_posted, count_asked, run-IsOnTime}

abbrev events : List Event
events =
    starts_monitoring true
    ∷ posts true 4 1
    ∷ posts false 5 2
    ∷ load_ends (λ task. 3) true
    ∷ queue_runs 6
    ∷ posts true 7 1
    ∷ []

run-IsOnTime_example :
    let s = run step new_startup events in
    (count_task 1 s.in_flight + count_task 1 s.tasks + count_posted 1 s.posted
      ≡ count_asked 1 events)
    × (s.complete ≡ false → s.posted ≡ [])
    × (s.complete ≡ true → s.tasks ≡ [])
run-IsOnTime_example = run-IsOnTime 1 events
