-- ===== src/CaptivePortal/Service/Requests.antt =====
-- Requests for a check: one at a time, each answered, and none lost when the service is switched.
use chromium_log.Prelude.{
  ℕ, suc, ◌+◌, ◌≤◌, ◌≡◌, ◌≢◌, ◌==◌, ◌||◌, Bool, true, false, not, List, [], ◌∷◌, arith, run,
  run_inv, Possible, if◌then◌else◌,
}
use chromium_log.CaptivePortal.Portal.{CaptivePortalResult, internet_connected, same_result}
use chromium_log.CaptivePortal.Service.{
  idle, timer_running, BackoffEntry, Results, Detection, Service, Platform, new_service, on_result,
  ignores_requests, detect_captive_portal, update_enabled_state, enabled_state,
}
use chromium_log.CaptivePortal.Service.Consistency.{IsConsistent, step-IsConsistent}
use chromium_log.CaptivePortal.Service.Checks.{
  detect, timer_fired, completed, preference, Happening, step, detect_captive_portal_internal,
  on_portal_detection_completed, CanHappen, record_stats, pace_checks,
}

-- Each notification reports as the previous result what the one before it reported as its result;
-- the first of all reports a connection. The newest comes first, and reported `last`.
abbrev pub IsChain : CaptivePortalResult → List Results → Type 0
IsChain last [] = last ≡ internet_connected
IsChain last (n ∷ ns) = (n.result ≡ last) × IsChain n.previous_result ns

-- How many of the notifications, from the newest on, reported `last`.
abbrev pub streak : CaptivePortalResult → List Results → ℕ
streak last [] = 0
streak last (n ∷ ns) =
    let more = streak last ns in if same_result n.result last then suc more else 0

pub record IsReported (s : Service) : Type 0 where
  pub chain : IsChain s.last_detection_result s.notifications
  pub repeated : s.num_checks_with_same_result ≤ streak s.last_detection_result s.notifications
  pub unchecked : s.last_check_time ≡ 0 → s.num_checks_with_same_result ≡ 0
  pub disabled : s.enabled ≡ false → s.num_checks_with_same_result ≡ 0

-- The fields that a report of the detector changes and that notifications depend on.
module _ (d : Detection) (now : ℕ) (s : Service) where
  record_stats-keeps :
      ((record_stats d now s).notifications ≡ s.notifications)
      × ((record_stats d now s).last_detection_result ≡ s.last_detection_result)
      × ((record_stats d now s).num_checks_with_same_result ≡ s.num_checks_with_same_result)
      × ((record_stats d now s).last_check_time ≡ s.last_check_time)
      × ((record_stats d now s).enabled ≡ s.enabled)
  unfolding record_stats
  record_stats-keeps = ground arith

  pace_checks-keeps :
      ((pace_checks d now s).notifications ≡ s.notifications)
      × ((pace_checks d now s).last_detection_result ≡ s.last_detection_result)
      × ((pace_checks d now s).num_checks_with_same_result ≡ (
          if s.last_check_time == 0 || not (same_result d.detected s.last_detection_result)
          then 1
          else s.num_checks_with_same_result + 1))
      × ((pace_checks d now s).last_check_time ≡ now)
      × ((pace_checks d now s).enabled ≡ s.enabled)
  unfolding pace_checks
  pace_checks-keeps = ground arith

completed_lem :
    (d : Detection) (now : ℕ) (s : Service)
    → let t = on_portal_detection_completed d now s in
      (t.state ≡ idle)
      × (t.notifications
          ≡ record {
            previous_result = s.last_detection_result;
            result = d.detected;
            landing_url = d.landing;
          }
            ∷ s.notifications)
      × (t.last_detection_result ≡ d.detected)
      × (t.num_checks_with_same_result ≡ (
          if s.last_check_time == 0 || not (same_result d.detected s.last_detection_result)
          then 1
          else s.num_checks_with_same_result + 1))
      × (t.last_check_time ≡ now)
      × (t.enabled ≡ s.enabled)
unfolding on_portal_detection_completed on_result
completed_lem d now s =
    ground (arith, record_stats-keeps d now s, pace_checks-keeps d now (record_stats d now s))

same_result-eq : (a b : CaptivePortalResult) → same_result a b ≡ true → a ≡ b
same_result-eq a b h = ground arith

module _ (time_until_release : BackoffEntry → ℕ → ℕ) where
  step-IsReported :
      (s : Service) (h : Happening)
      → CanHappen s h
      → IsConsistent s
      → IsReported s
      → IsReported (step time_until_release s h)
  unfolding step detect_captive_portal detect_captive_portal_internal update_enabled_state on_result
  step-IsReported s (platform, now, detect) can c v = ground arith
  step-IsReported s (platform, now, timer_fired) can c v = ground arith
  step-IsReported s (platform, now, completed d) can c v =
      ground (arith, completed_lem d now s, same_result-eq d.detected s.last_detection_result)
  step-IsReported s (platform, now, preference value) can c v = ground arith

  -- In every history of possible happenings the notifications form a chain: each reports as its
  -- previous result the result that the one before it reported, and the first reports a connection;
  -- and the service has not counted more checks in a row with the last result than notifications in
  -- a row have reported it.
  pub run-IsReported :
      (platform : Platform) (now : ℕ) (value : Bool) (hs : List Happening)
      → let s = new_service time_until_release platform now value in
        Possible (step time_until_release) CanHappen s hs
        → IsReported (run (step time_until_release) s hs)
  unfolding new_service
  run-IsReported platform now value hs possible =
      (run_inv (step time_until_release) CanHappen (λ s. IsConsistent s × IsReported s)
        (λ s h can v.
          (step-IsConsistent time_until_release s h can v.0, step-IsReported s h can v.0 v.1))
        (new_service time_until_release platform now value) hs possible
        (ground arith, ground arith)).1

  -- While the service does not ignore requests, a request leaves a check pending or running, with the
  -- delay that the backoff entry asks for if there was none, and a second request changes nothing.
  detect_once :
      (platform : Platform) (now later : ℕ) (s : Service)
      → ignores_requests platform.testing_state ≡ false
      → let t = step time_until_release s (platform, now, detect) in
        (t.state ≢ idle)
        × (s.state ≡ idle → t.check_delay ≡ time_until_release s.backoff_entry now)
        × (s.state ≢ idle → t ≡ s)
        × (step time_until_release t (platform, later, detect) ≡ t)
  unfolding step detect_captive_portal
  detect_once platform now later s i = ground arith

  -- A request of an idle service is answered: when its timer has fired and, if the service is enabled,
  -- the detector has reported, the service is idle again and has sent one more notification, of the
  -- detector's result, or of a connection if the service is disabled.
  pub request_answered :
      (platform : Platform) (now : ℕ) (d : Detection) (s : Service)
      → ignores_requests platform.testing_state ≡ false
      → s.state ≡ idle
      → let fired =
          run
            (step time_until_release)
            s
            ((platform, now, detect) ∷ (platform, now, timer_fired) ∷ []) in
        let t =
          (if s.enabled
            then step time_until_release fired (platform, now, completed d)
            else fired) in
        (t.state ≡ idle)
        × (t.notifications
            ≡ record {
              previous_result = s.last_detection_result;
              result = if s.enabled then d.detected else internet_connected;
              landing_url = if s.enabled then d.landing else 0;
            }
              ∷ s.notifications)
  unfolding step run detect_captive_portal detect_captive_portal_internal on_result
  request_answered platform now d s i e = ground (
    arith,
    completed_lem d now (
        detect_captive_portal_internal
          (record (detect_captive_portal time_until_release platform now s) {
            check_timer = false;
          })),
  )

  -- Switching the service does not lose a request: a check that was pending or running is pending
  -- again, and neither the detector nor a notification is left from the old one.
  pub preference-keeps_request :
      (platform : Platform) (now : ℕ) (value : Bool) (s : Service)
      → ignores_requests platform.testing_state ≡ false
      → IsConsistent s
      → s.state ≢ idle
      → enabled_state platform value ≢ s.enabled
      → let t = step time_until_release s (platform, now, preference value) in
        (t.state ≡ timer_running)
        × (t.check_timer ≡ true)
        × (t.detecting ≡ false)
        × (t.enabled ≡ enabled_state platform value)
        × (t.notifications ≡ s.notifications)
  unfolding step detect_captive_portal update_enabled_state
  preference-keeps_request platform now value s i v n c = ground arith
