-- ===== src/CaptivePortal/TabReloader/Consistency.antt =====
-- SetState's timer and its DCHECKs: what holds of a tab's reloader between two events.
use chromium_log.Prelude.{◌<◌, ◌≡◌, Bool, true, false, List, arith, run, run_inv, Possible}
use chromium_log.CaptivePortal.TabReloader.{
  TabReloader, State, timer_running, Page, Event, load_start, redirect, load_committed, abort,
  cert_error, timer_fired, run_posted_reload, portal_results, new_reloader, step,
}

abbrev pub is_timer_running : State → Bool
is_timer_running timer_running = true
is_timer_running _ = false

pub record IsConsistent (r : TabReloader) : Type 0 where
  pub timer : r.slow_ssl_load_timer ≡ is_timer_running r.state
  pub checked : r.dchecks ≡ true

-- The timer fires only while it runs, and a posted task runs only if one was posted.
abbrev pub CanHappen : TabReloader → Page × Event → Type 0
CanHappen r (page, timer_fired) = r.slow_ssl_load_timer ≡ true
CanHappen r (page, run_posted_reload) = 0 < r.posted_reloads
CanHappen r (page, _) = Unit

pub step-IsConsistent :
    (r : TabReloader) (e : Page × Event) → CanHappen r e → IsConsistent r → IsConsistent (step r e)
unfolding step
step-IsConsistent r (page, load_start is_ssl) can h = ground arith
step-IsConsistent r (page, redirect is_ssl) can h = ground arith
step-IsConsistent r (page, load_committed net_error) can h = ground arith
step-IsConsistent r (page, abort) can h = ground arith
step-IsConsistent r (page, cert_error) can h = ground arith
step-IsConsistent r (page, timer_fired) can h = ground arith
step-IsConsistent r (page, run_posted_reload) can h = ground arith
step-IsConsistent r (page, portal_results previous result) can h = ground arith

-- In every history of possible events of a new tab the timer runs exactly in state `timer_running`,
-- no transition is one that `SetState` does not expect, and no DCHECK fails.
pub run-IsConsistent :
    (es : List (Page × Event))
    → Possible step CanHappen new_reloader es
    → IsConsistent (run step new_reloader es)
unfolding new_reloader
run-IsConsistent es possible =
    run_inv step CanHappen IsConsistent step-IsConsistent new_reloader es possible (ground arith)
