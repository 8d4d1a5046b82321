-- ===== src/CaptivePortal/Service.antt =====
-- browser/captive_portal/captive_portal_service.cc and .h: the checks for a captive portal, one at a
-- time, with a backoff between them. Time is an argument, in ticks, and 0 is the null time.
-- net::BackoffEntry is not this repository's: it is kept as the policy's delay and the calls that
-- were made on it, and a parameter reads off the time until its release.
pub mod Checks
pub mod Consistency
pub mod Backoff
pub mod Requests
use chromium_log.Prelude.{
  ℕ, suc, ◌+◌, ◌-◌, ◌*◌, Bool, true, false, ◌&&◌, ◌||◌, not, List, [], ◌∷◌, ◌==◌, leb,
  if◌then◌else◌,
}
use chromium_log.Prelude.Int.{ℤ, negsuc}
use chromium_log.CaptivePortal.Portal.{
  CaptivePortalResult, internet_connected, no_response, behind_captive_portal, is_behind,
  same_result,
}

pub data TestingState : Type 0 where
  not_testing disabled_for_testing skip_os_check_for_testing ignore_requests_for_testing :
      TestingState

pub data State : Type 0 where
  idle timer_running checking_for_portal : State

-- The calls on the current net::BackoffEntry.
pub data BackoffCall : Type 0 where
  inform_of_request : Bool → BackoffCall
  set_custom_release_time : ℕ → BackoffCall

-- `initial_delay_ms` is the policy's when the entry was made; the newest call comes first.
pub record BackoffEntry : Type 0 where
  pub initial_delay_ms : ℕ
  pub backoff_calls : List BackoffCall

-- RecheckPolicy with the fields of its backoff policy; the factors are in hundredths.
pub record RecheckPolicy : Type 0 where
  pub initial_backoff_no_portal_ms : ℕ
  pub initial_backoff_portal_ms : ℕ
  pub num_errors_to_ignore : ℕ
  pub policy_initial_delay_ms : ℕ
  pub multiply_factor : ℕ
  pub jitter_factor : ℕ
  pub maximum_backoff_ms : ℕ
  pub entry_lifetime_ms : ℤ
  pub always_use_initial_delay : Bool

unfoldable pub default_recheck_policy : RecheckPolicy
default_recheck_policy = record {
  initial_backoff_no_portal_ms = 600 * 1000;
  initial_backoff_portal_ms = 20 * 1000;
  num_errors_to_ignore = 6;
  policy_initial_delay_ms = 600 * 1000;
  multiply_factor = 200;
  jitter_factor = 30;
  maximum_backoff_ms = 2 * 60 * 1000;
  entry_lifetime_ms = negsuc 0;
  always_use_initial_delay = true;
}

-- What observers of NOTIFICATION_CAPTIVE_PORTAL_CHECK_RESULT are told.
pub record Results : Type 0 where
  pub previous_result : CaptivePortalResult
  pub result : CaptivePortalResult
  pub landing_url : ℕ

-- What the detector reports: captive_portal::CaptivePortalDetector::Results, where the landing URL
-- is a number with the two facts that the code asks of it.
pub record Detection : Type 0 where
  pub detected : CaptivePortalResult
  pub landing : ℕ
  pub is_https : Bool
  pub is_ip_address : Bool
  pub retry_after_delta : ℕ

-- A sample of ResultRepeated and ResultDuration; the second is kept only for a count that is not 0.
pub data Sample : Type 0 where
  result_repeated : CaptivePortalResult → ℕ → Sample
  result_duration : CaptivePortalResult → ℕ → Sample
  time_between_checks : ℕ → Sample
  detect_result : ℕ → Sample

pub record Service : Type 0 where
  pub state : State
  pub enabled : Bool
  pub last_detection_result : CaptivePortalResult
  pub num_checks_with_same_result : ℕ
  pub first_check_time_with_same_result : ℕ
  pub last_check_time : ℕ
  pub recheck_policy : RecheckPolicy
  pub backoff_entry : BackoffEntry
  pub resolve_errors_with_web_service : Bool
  pub check_timer : Bool  -- is `check_captive_portal_timer_` running
  pub check_delay : ℕ  -- the delay that it was last started with
  pub detecting : Bool  -- is the detector at work
  pub notifications : List Results  -- newest first
  pub samples : List Sample  -- newest first
  pub dchecks : Bool

-- The rest of the world: the testing state, and whether the system detects portals by itself
-- (`ShouldDeferToNativeCaptivePortalDetection`, which asks for the version of Windows).
pub record Platform : Type 0 where
  pub testing_state : TestingState
  pub native_detection : Bool

abbrev pub dcheck : Bool → Service → Service
dcheck b s = record s { dchecks = b && s.dchecks }

abbrev pub is_idle : State → Bool
is_idle idle = true
is_idle _ = false

abbrev pub is_checking : State → Bool
is_checking checking_for_portal = true
is_checking _ = false

abbrev pub ignores_requests : TestingState → Bool
ignores_requests ignore_requests_for_testing = true
ignores_requests _ = false

abbrev pub is_disabled : TestingState → Bool
is_disabled disabled_for_testing = true
is_disabled _ = false

abbrev pub skips_os_check : TestingState → Bool
skips_os_check skip_os_check_for_testing = true
skips_os_check ignore_requests_for_testing = true
skips_os_check _ = false

abbrev pub record_sample : Sample → Service → Service
record_sample x s = record s { samples = x ∷ s.samples }

unfoldable pub record_repeat_histograms : CaptivePortalResult → ℕ → ℕ → Service → Service
record_repeat_histograms result repeat_count duration s =
    let t = record_sample (result_repeated result repeat_count) s in
    if repeat_count == 0 then t else record_sample (result_duration result duration) t

unfoldable pub reset_backoff_entry : CaptivePortalResult → Service → Service
reset_backoff_entry result s =
    let delay =
      (if not s.enabled || is_behind result
        then s.recheck_policy.initial_backoff_portal_ms
        else s.recheck_policy.initial_backoff_no_portal_ms) in
    record s {
      recheck_policy = record (s.recheck_policy) { policy_initial_delay_ms = delay };
      backoff_entry = record { initial_delay_ms = delay; backoff_calls = [] };
    }

abbrev pub backoff : BackoffCall → Service → Service
backoff c s = record s {
  backoff_entry = record (s.backoff_entry) { backoff_calls = c ∷ s.backoff_entry.backoff_calls };
}

unfoldable pub on_result : CaptivePortalResult → ℕ → Service → Service
on_result result landing_url s =
    let t = dcheck (is_checking s.state) s in
    record t {
      state = idle;
      last_detection_result = result;
      notifications =
          record {
            previous_result = t.last_detection_result;
            result = result;
            landing_url = landing_url;
          }
          ∷ t.notifications;
    }

-- What `UpdateEnabledState` assigns to `enabled_`, from the preference.
unfoldable pub enabled_state : Platform → Bool → Bool
enabled_state platform resolve_errors =
    let wanted = not (is_disabled platform.testing_state) && resolve_errors in
    if not (skips_os_check platform.testing_state) && platform.native_detection
    then false
    else wanted

-- `time_until_release` reads net::BackoffEntry::GetTimeUntilRelease at the time of the call.
module _ (time_until_release : BackoffEntry → ℕ → ℕ) where
  unfoldable pub detect_captive_portal : Platform → ℕ → Service → Service
  detect_captive_portal platform now s =
      if ignores_requests platform.testing_state
      then s
      else if not (is_idle s.state)
      then s
      else record s {
        state = timer_running;
        check_timer = true;
        check_delay = time_until_release s.backoff_entry now;
      }

  unfoldable pub update_enabled_state : Platform → ℕ → Service → Service
  unfolding detect_captive_portal reset_backoff_entry
  update_enabled_state platform now s =
      let enabled_now = enabled_state platform s.resolve_errors_with_web_service in
      let t = record s { enabled = enabled_now } in
      let u = reset_backoff_entry t.last_detection_result (record t {
        num_checks_with_same_result = 0;
        first_check_time_with_same_result = 0;
        last_check_time = 0;
      }) in
      if (s.enabled && enabled_now) || (not s.enabled && not enabled_now)
      then t
      else if not (is_idle u.state)
      then detect_captive_portal platform now
          (record u { check_timer = false; detecting = false; state = idle })
      else u

  -- The constructor, with the preference's first value.
  unfoldable pub new_service : Platform → ℕ → Bool → Service
  unfolding update_enabled_state reset_backoff_entry default_recheck_policy
  new_service platform now resolve_errors = update_enabled_state platform now (
      reset_backoff_entry internet_connected (record {
        state = idle;
        enabled = false;
        last_detection_result = internet_connected;
        num_checks_with_same_result = 0;
        first_check_time_with_same_result = 0;
        last_check_time = 0;
        recheck_policy = default_recheck_policy;
        backoff_entry = record { initial_delay_ms = 0; backoff_calls = [] };
        resolve_errors_with_web_service = resolve_errors;
        check_timer = false;
        check_delay = 0;
        detecting = false;
        notifications = [];
        samples = [];
        dchecks = true;
      }))
