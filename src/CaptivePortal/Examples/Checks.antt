-- ===== src/CaptivePortal/Examples/Checks.antt =====
-- The service: runs of its checks, and its theorems at concrete inputs.
use chromium_log.Prelude.{ℕ, ◌≡◌, refl, true, false, List, [], ◌∷◌, run, Possible, arith}
use chromium_log.CaptivePortal.Portal.{behind_captive_portal}
use chromium_log.CaptivePortal.Service.{
  idle, timer_running, BackoffEntry, Platform, not_testing, Detection, Service, new_service,
  enabled_state, detect_captive_portal, update_enabled_state,
}
use chromium_log.CaptivePortal.Service.Checks.{
  Happening, detect, timer_fired, completed, preference, step, CanHappen,
  detect_captive_portal_internal, on_portal_detection_completed,
}
use chromium_log.CaptivePortal.Service.Consistency.{IsConsistent, happenings-IsConsistent}
use chromium_log.CaptivePortal.Service.Backoff.{BacksOff, run-BacksOff}
use chromium_log.CaptivePortal.Service.Requests.{
  IsReported, run-IsReported, request_answered, preference-keeps_request,
}

-- A release time that is always the policy's delay.
abbrev plain_release : BackoffEntry → ℕ → ℕ
plain_release entry now = entry.initial_delay_ms

abbrev desktop : Platform
desktop = record { testing_state = not_testing; native_detection = false }

abbrev portal : Detection
portal = record {
  detected = behind_captive_portal;
  landing = 5;
  is_https = true;
  is_ip_address = false;
  retry_after_delta = 0;
}

abbrev started : Service
started = new_service plain_release desktop 1 true

-- Two checks in a row that meet the portal.
abbrev two_checks : List Happening
two_checks =
    (desktop, 2, detect)
    ∷ (desktop, 3, timer_fired)
    ∷ (desktop, 4, completed portal)
    ∷ (desktop, 5, detect)
    ∷ (desktop, 6, timer_fired)
    ∷ (desktop, 7, completed portal)
    ∷ []

two_checks_count : (run (step plain_release) started two_checks).num_checks_with_same_result ≡ 2
unfolding run step new_service enabled_state detect_captive_portal update_enabled_state
    detect_captive_portal_internal on_portal_detection_completed
two_checks_count = refl

two_checks-Possible : Possible (step plain_release) CanHappen started two_checks
unfolding step new_service enabled_state detect_captive_portal update_enabled_state
    detect_captive_portal_internal on_portal_detection_completed
two_checks-Possible = (
  omega arith,
  (
    (refl, omega arith),
    ((refl, omega arith), (omega arith, ((refl, omega arith), ((refl, omega arith), tt)))),
  ),
)

happenings-IsConsistent_example : IsConsistent (run (step plain_release) started two_checks)
happenings-IsConsistent_example =
    happenings-IsConsistent plain_release desktop 1 true two_checks two_checks-Possible

run-BacksOff_example : BacksOff (run (step plain_release) started two_checks)
run-BacksOff_example = run-BacksOff plain_release desktop 1 true two_checks two_checks-Possible

run-IsReported_example : IsReported (run (step plain_release) started two_checks)
run-IsReported_example = run-IsReported plain_release desktop 1 true two_checks two_checks-Possible

request_answered_example :
    (step plain_release
      (run (step plain_release) started ((desktop, 2, detect) ∷ (desktop, 2, timer_fired) ∷ []))
      (desktop, 2, completed portal)).state
    ≡ idle
unfolding new_service enabled_state update_enabled_state
request_answered_example = (request_answered plain_release desktop 2 portal started refl refl).0

abbrev pending : Service
pending = record started { state = timer_running; check_timer = true }

pending-IsConsistent : IsConsistent pending
unfolding new_service enabled_state update_enabled_state
pending-IsConsistent = ground arith

preference-keeps_request_example :
    (step plain_release pending (desktop, 3, preference false)).state ≡ timer_running
unfolding new_service enabled_state update_enabled_state
preference-keeps_request_example =
    (preference-keeps_request plain_release desktop 3 false pending refl pending-IsConsistent
      (λ e. cc) (λ e. cc)).0
