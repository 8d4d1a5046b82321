-- ===== src/Startup/Tasks.antt =====
-- after_startup_task_utils.cc: no task is lost, and none is posted too early.
use chromium_log.Prelude.{
  ℕ, ◌+◌, ◌≡◌, refl, ap, inl, inr, Bool, true, false, ◌&&◌, List, [], ◌∷◌, ◌++◌, ◌==◌,
  if◌then◌else◌, Bool-cases, arith, run,
}
use chromium_log.Startup.{
  Posted, post_task, post_delayed_task, Startup, new_startup, schedule_task, queue_task, post,
  queue_arrives, schedule_all, set_browser_startup_is_complete, on_startup_complete,
  start_monitoring_startup, did_finish_load, web_contents_destroyed, Event, posts, queue_runs,
  starts_monitoring, load_ends, contents_go, failsafe_runs, completes, step,
}

module _ (k : ℕ) where
  abbrev one : ℕ → ℕ
  one task = if task == k then 1 else 0

  abbrev pub count_task : List ℕ → ℕ
  count_task [] = 0
  count_task (t ∷ ts) = one t + count_task ts

  abbrev pub count_posted : List Posted → ℕ
  count_posted [] = 0
  count_posted (post_task t ∷ ps) = one t + count_posted ps
  count_posted (post_delayed_task t delay ∷ ps) = one t + count_posted ps

  abbrev asked : Event → ℕ
  asked (posts on_ui delay task) = one task
  asked _ = 0

  -- How often callers have posted the task.
  abbrev pub count_asked : List Event → ℕ
  count_asked [] = 0
  count_asked (e ∷ es) = asked e + count_asked es

  abbrev pub all_of : Startup → ℕ
  all_of s = count_task s.in_flight + count_task s.tasks + count_posted s.posted

  count_task_snoc : (ts : List ℕ) (t : ℕ) → count_task (ts ++ t ∷ []) ≡ count_task ts + one t
  count_task_snoc [] t = omega arith
  count_task_snoc (q ∷ ts) t = omega (arith, count_task_snoc ts t)

  -- Nothing is posted before the start is complete, and nothing is queued after.
  abbrev pub IsOnTime : Startup → Type 0
  IsOnTime s = (s.complete ≡ false → s.posted ≡ []) × (s.complete ≡ true → s.tasks ≡ [])

  -- So many more of the task, all in time.
  abbrev Keeps : ℕ → Startup → Startup → Type 0
  Keeps n s t = (all_of t ≡ n + all_of s) × IsOnTime t

  Keeps-either :
      (b : Bool) (n : ℕ) (s t u : Startup)
      → (b ≡ true → Keeps n s t)
      → (b ≡ false → Keeps n s u)
      → Keeps n s (if b then t else u)
  Keeps-either true n s t u h k = h refl
  Keeps-either false n s t u h k = k refl

  queue_task-Keeps :
      (delay task : ℕ) (s : Startup) → IsOnTime s → Keeps (one task) s (queue_task delay task s)
  unfolding queue_task schedule_task
  queue_task-Keeps delay task s h =
      let more = count_task_snoc s.tasks task in
      elim (Bool-cases s.complete) [
        | inl c ↦ rw c (omega arith, (λ e. absurd (ground arith), λ e. h.1 c))
        | inr c ↦ rw c (omega (arith, more), (λ e. h.0 c, λ e. absurd (ground arith)))
      ]

  schedule_all-parts :
      (delay : ℕ → ℕ) (ts : List ℕ) (s : Startup)
      → let t = schedule_all delay ts s in
        (count_posted t.posted ≡ count_task ts + count_posted s.posted)
        × (t.in_flight ≡ s.in_flight)
        × (t.complete ≡ s.complete)
  unfolding schedule_all schedule_task
  schedule_all-parts delay [] s = (omega arith, refl, refl)
  schedule_all-parts delay (t ∷ ts) s =
      let rest = schedule_all-parts delay ts (schedule_task (delay t) t s) in
      (omega (arith, rest), rest.1, rest.2)

  set_complete-Keeps :
      (delay : ℕ → ℕ) (s : Startup) → Keeps 0 s (set_browser_startup_is_complete delay s)
  unfolding set_browser_startup_is_complete
  set_complete-Keeps delay s =
      let parts = schedule_all-parts delay s.tasks (record s { complete = true }) in
      (omega (arith, parts, ap count_task parts.1), (λ e. absurd (ground arith), λ e. refl))

  on_startup_complete-Keeps :
      (delay : ℕ → ℕ) (s : Startup) → IsOnTime s → Keeps 0 s (on_startup_complete delay s)
  unfolding on_startup_complete
  on_startup_complete-Keeps delay s h =
      Keeps-either s.observer 0 s _ s (λ alive. set_complete-Keeps delay s)
        (λ gone. (omega arith, h))

  post-Keeps :
      (on_ui : Bool) (delay task : ℕ) (s : Startup)
      → IsOnTime s
      → Keeps (one task) s (post on_ui delay task s)
  unfolding post
  post-Keeps on_ui delay task s h =
      let more = count_task_snoc s.in_flight task in
      Keeps-either s.complete (one task) s _ _
        (λ c. (omega arith, (λ e. absurd (ground arith), h.1)))
        (λ c.
          Keeps-either on_ui (one task) s (queue_task delay task s) _
            (λ here. queue_task-Keeps delay task s h) (λ away. (omega (arith, more), h)))

  queue_arrives-Keeps :
      (delay : ℕ) (ts : List ℕ) (s : Startup)
      → s.in_flight ≡ ts
      → IsOnTime s
      → Keeps 0 s (queue_arrives delay ts s)
  unfolding queue_arrives
  queue_arrives-Keeps delay [] s e h = (omega arith, h)
  queue_arrives-Keeps delay (t ∷ ts) s e h =
      let queued = queue_task-Keeps delay t (record s { in_flight = ts }) h in
      (omega (arith, queued.0, ap count_task e), queued.1)

  step-Keeps : (s : Startup) (e : Event) → IsOnTime s → Keeps (asked e) s (step s e)
  unfolding step start_monitoring_startup did_finish_load web_contents_destroyed
  step-Keeps s (posts on_ui delay task) h = post-Keeps on_ui delay task s h
  step-Keeps s (queue_runs delay) h = queue_arrives-Keeps delay s.in_flight s refl h
  step-Keeps s (starts_monitoring has_contents) h = (omega arith, h)
  step-Keeps s (load_ends delay is_main_frame) h =
      Keeps-either (s.observes && is_main_frame) 0 s (on_startup_complete delay s) s
        (λ seen. on_startup_complete-Keeps delay s h) (λ not_seen. (omega arith, h))
  step-Keeps s (contents_go delay) h =
      Keeps-either s.observes 0 s (on_startup_complete delay s) s
        (λ seen. on_startup_complete-Keeps delay s h) (λ not_seen. (omega arith, h))
  step-Keeps s (failsafe_runs delay) h = on_startup_complete-Keeps delay s h
  step-Keeps s (completes delay) h = set_complete-Keeps delay s

  run-Keeps :
      (s : Startup) (es : List Event) → IsOnTime s → Keeps (count_asked es) s (run step s es)
  unfolding run
  run-Keeps s [] h = (omega arith, h)
  run-Keeps s (e ∷ es) h =
      let once = step-Keeps s e h in
      let rest = run-Keeps (step s e) es once.1 in (omega (arith, rest.0, once.0), rest.1)

-- After every history: each task that was posted is on its way to the UI thread, or in the queue, or
-- has been posted to its runner, as often in all as it was posted; nothing has been posted to a runner as
-- long as the start is not complete; and once it is, the queue is empty.
pub run-IsOnTime :
    (k : ℕ) (es : List Event)
    → let s = run step new_startup es in
      (count_task k s.in_flight + count_task k s.tasks + count_posted k s.posted ≡ count_asked k es)
      × (s.complete ≡ false → s.posted ≡ [])
      × (s.complete ≡ true → s.tasks ≡ [])
run-IsOnTime k es =
    let all = run-Keeps k new_startup es (λ e. refl, λ e. refl) in
    (omega (arith, all.0), all.1.0, all.1.1)
