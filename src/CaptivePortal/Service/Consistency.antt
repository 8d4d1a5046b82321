-- ===== src/CaptivePortal/Service/Consistency.antt =====
-- The service's timer, its detector and its DCHECKs: what holds between two events.
use chromium_log.Prelude.{ℕ, ◌<◌, ◌≡◌, Bool, true, false, List, arith, run, run_inv, Possible}
use chromium_log.CaptivePortal.Service.{
  State, timer_running, checking_for_portal, BackoffEntry, Service, Platform, detect_captive_portal,
  update_enabled_state, new_service, is_checking,
}
use chromium_log.CaptivePortal.Service.Checks.{
  detect, timer_fired, completed, preference, Happening, step, detect_captive_portal_internal,
  on_portal_detection_completed, CanHappen,
}

abbrev pub is_timer_running : State → Bool
is_timer_running timer_running = true
is_timer_running _ = false

-- The timer runs in its state, the detector works in its own, and only while the service is enabled.
pub record IsConsistent (s : Service) : Type 0 where
  pub timer : s.check_timer ≡ is_timer_running s.state
  pub detector : s.detecting ≡ is_checking s.state
  pub working : s.state ≡ checking_for_portal → s.enabled ≡ true
  pub counted : 0 < s.last_check_time → 0 < s.num_checks_with_same_result
  pub checked : s.dchecks ≡ true

module _ (time_until_release : BackoffEntry → ℕ → ℕ) where
  pub step-IsConsistent :
      (s : Service) (h : Happening)
      → CanHappen s h
      → IsConsistent s
      → IsConsistent (step time_until_release s h)
  unfolding step detect_captive_portal detect_captive_portal_internal update_enabled_state
      on_portal_detection_completed
  step-IsConsistent s (platform, now, detect) can c = ground arith
  step-IsConsistent s (platform, now, timer_fired) can c = ground arith
  step-IsConsistent s (platform, now, completed d) can c = ground arith
  step-IsConsistent s (platform, now, preference value) can c = ground arith

  -- In every history of possible happenings the timer runs exactly in state `timer_running`, the
  -- detector works exactly in state `checking_for_portal` and only while the service is enabled, and
  -- no DCHECK fails.
  pub happenings-IsConsistent :
      (platform : Platform) (now : ℕ) (value : Bool) (hs : List Happening)
      → let s = new_service time_until_release platform now value in
        Possible (step time_until_release) CanHappen s hs
        → IsConsistent (run (step time_until_release) s hs)
  unfolding new_service
  happenings-IsConsistent platform now value hs possible =
      run_inv (step time_until_release) CanHappen IsConsistent step-IsConsistent
        (new_service time_until_release platform now value) hs possible (ground arith)
