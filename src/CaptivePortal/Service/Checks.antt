-- ===== src/CaptivePortal/Service/Checks.antt =====
-- browser/captive_portal/captive_portal_service.cc: a check from the timer to its result, the
-- histograms that it feeds, and the events that drive the service.
use chromium_log.Prelude.{
  ℕ, ◌+◌, ◌-◌, ◌<◌, ◌≡◌, Bool, true, false, ◌&&◌, ◌||◌, not, ◌==◌, leb, if◌then◌else◌,
}
use chromium_log.CaptivePortal.Portal.{
  CaptivePortalResult, internet_connected, no_response, behind_captive_portal, same_result,
}
use chromium_log.CaptivePortal.Service.{
  checking_for_portal, BackoffEntry, inform_of_request, set_custom_release_time, Detection, Service,
  Platform, time_between_checks, detect_result, dcheck, is_checking, record_sample,
  record_repeat_histograms, reset_backoff_entry, backoff, on_result, detect_captive_portal,
  update_enabled_state,
}

-- CaptivePortalDetectionResult, in the order of the enum.
unfoldable pub histogram_entry : CaptivePortalResult → Bool → Bool → ℕ
histogram_entry internet_connected is_https is_ip = 0
histogram_entry no_response is_https is_ip =
    if is_ip then (if is_https then 7 else 5) else (if is_https then 3 else 1)
histogram_entry behind_captive_portal is_https is_ip =
    if is_ip then (if is_https then 8 else 6) else (if is_https then 4 else 2)

-- `OnPortalDetectionCompleted` up to its histograms.
unfoldable pub record_stats : Detection → ℕ → Service → Service
unfolding record_repeat_histograms histogram_entry
record_stats d now s =
    let t = record_sample (detect_result (histogram_entry d.detected d.is_https d.is_ip_address)) (
      dcheck (is_checking s.state && not s.check_timer && s.enabled)
        (record s { detecting = false })) in
    if t.last_check_time == 0
    then t
    else let u = record_sample (time_between_checks (now - t.last_check_time)) t in
      if same_result d.detected t.last_detection_result
      then u
      else record_repeat_histograms t.last_detection_result t.num_checks_with_same_result
          (now - t.first_check_time_with_same_result) u

-- Its second half: the counters, the backoff entry and `last_check_time_`.
unfoldable pub pace_checks : Detection → ℕ → Service → Service
unfolding reset_backoff_entry
pace_checks d now s =
    let t =
      (if s.last_check_time == 0 || not (same_result d.detected s.last_detection_result)
        then backoff (set_custom_release_time (now + d.retry_after_delta)) (
            reset_backoff_entry d.detected (record s {
              first_check_time_with_same_result = now;
              num_checks_with_same_result = 1;
            }))
        else backoff (inform_of_request false) (
            backoff (set_custom_release_time (now + d.retry_after_delta))
              (record (dcheck (leb 1 s.num_checks_with_same_result) s) {
                num_checks_with_same_result = s.num_checks_with_same_result + 1;
              }))) in
    record t { last_check_time = now }

unfoldable pub on_portal_detection_completed : Detection → ℕ → Service → Service
unfolding record_stats pace_checks on_result
on_portal_detection_completed d now s =
    on_result d.detected d.landing (pace_checks d now (record_stats d now s))

unfoldable pub detect_captive_portal_internal : Service → Service
unfolding on_result
detect_captive_portal_internal s =
    let t = record (dcheck (not (is_checking s.state) && not s.check_timer) s) {
      state = checking_for_portal;
    } in
    if not t.enabled
    then on_result internet_connected 0 (backoff (inform_of_request true) t)
    else record t { detecting = true }

unfoldable pub shutdown : ℕ → Service → Service
unfolding record_repeat_histograms
shutdown now s =
    if s.enabled
    then record_repeat_histograms s.last_detection_result s.num_checks_with_same_result
        (now - s.first_check_time_with_same_result) s
    else s

-- What drives the service: a client, its timer, the detector and the preference.
pub data Event : Type 0 where
  detect timer_fired : Event
  completed : Detection → Event
  preference : Bool → Event

-- An event with the platform and the time at which it comes.
abbrev pub Happening : Type 0
Happening = Platform × ℕ × Event

module _ (time_until_release : BackoffEntry → ℕ → ℕ) where
  -- A one-shot timer stops before it runs its task; the preference is stored before its observer runs.
  unfoldable pub step : Service → Happening → Service
  step s (platform, now, detect) = detect_captive_portal time_until_release platform now s
  step s (platform, now, timer_fired) =
      detect_captive_portal_internal (record s { check_timer = false })
  step s (platform, now, completed d) = on_portal_detection_completed d now s
  step s (platform, now, preference value) =
      update_enabled_state time_until_release platform now
        (record s { resolve_errors_with_web_service = value })

-- The timer fires while it runs, the detector reports while it is at work, and no time is null.
abbrev pub CanHappen : Service → Happening → Type 0
CanHappen s (platform, now, timer_fired) = (s.check_timer ≡ true) × (0 < now)
CanHappen s (platform, now, completed d) = (s.detecting ≡ true) × (0 < now)
CanHappen s (platform, now, _) = 0 < now
