-- ===== src/CaptivePortal/Service/Backoff.antt =====
-- How the service drives its backoff entry: the repeats of a result are its failures.
use chromium_log.Prelude.{
  ℕ, suc, ◌*◌, ◌≤◌, ◌<◌, ◌≡◌, ◌∙◌, ◌==◌, ◌↔◌, Bool, true, false, not, ◌||◌, List, [], arith, run,
  run_inv, Possible, ◌∷◌, if◌then◌else◌,
}
use chromium_log.CaptivePortal.Portal.{CaptivePortalResult, is_behind}
use chromium_log.CaptivePortal.Service.{
  checking_for_portal, BackoffEntry, BackoffCall, inform_of_request, Service, Platform, Detection,
  on_result, detect_captive_portal, update_enabled_state, new_service,
}
use chromium_log.CaptivePortal.Service.Consistency.{IsConsistent, step-IsConsistent}
use chromium_log.CaptivePortal.Service.Checks.{
  detect, timer_fired, completed, preference, Happening, step, detect_captive_portal_internal,
  on_portal_detection_completed, CanHappen, record_stats, pace_checks,
}

-- The failures that the entry was told of since it was made.
abbrev pub failures : List BackoffCall → ℕ
failures [] = 0
failures (inform_of_request false ∷ cs) = suc (failures cs)
failures (_ ∷ cs) = failures cs

pub record IsPaced (s : Service) : Type 0 where
  pub no_check :
      s.last_check_time ≡ 0
      → (s.num_checks_with_same_result ≡ 0) × (failures s.backoff_entry.backoff_calls ≡ 0)
  pub repeats :
      0 < s.last_check_time
      → s.num_checks_with_same_result ≡ suc (failures s.backoff_entry.backoff_calls)
  pub disabled : s.enabled ≡ false → s.last_check_time ≡ 0

-- The policy keeps its constants, and the entry was made with the delay for this result.
pub record HasDelay (result : CaptivePortalResult) (s : Service) : Type 0 where
  pub portal_ms : s.recheck_policy.initial_backoff_portal_ms ≡ 20 * 1000
  pub no_portal_ms : s.recheck_policy.initial_backoff_no_portal_ms ≡ 600 * 1000
  pub ignored : s.recheck_policy.num_errors_to_ignore ≡ 6
  pub delay :
      s.backoff_entry.initial_delay_ms
      ≡ (if not s.enabled || is_behind result then 20 * 1000 else 600 * 1000)

module _ (d : Detection) (now : ℕ) (s : Service) where
  record_stats-IsPaced : IsPaced s → IsPaced (record_stats d now s)
  unfolding record_stats
  record_stats-IsPaced c = ground arith

  record_stats-enabled : (record_stats d now s).enabled ≡ s.enabled
  unfolding record_stats
  record_stats-enabled = ground arith

  pace_checks-IsPaced : 0 < now → s.enabled ≡ true → IsPaced s → IsPaced (pace_checks d now s)
  unfolding pace_checks
  pace_checks-IsPaced n e c = ground arith

  record_stats-HasDelay :
      HasDelay s.last_detection_result s
      → HasDelay (record_stats d now s).last_detection_result (record_stats d now s)
  unfolding record_stats
  record_stats-HasDelay c = ground arith

  pace_checks-HasDelay :
      HasDelay s.last_detection_result s → HasDelay d.detected (pace_checks d now s)
  unfolding pace_checks
  pace_checks-HasDelay c = ground arith

checking_of_detecting :
    (s : Service) → IsConsistent s → s.detecting ≡ true → s.state ≡ checking_for_portal
checking_of_detecting s v w = ground arith

on_result-IsPaced :
    (result : CaptivePortalResult) (url : ℕ) (s : Service)
    → IsPaced s
    → IsPaced (on_result result url s)
unfolding on_result
on_result-IsPaced result url s c = ground arith

-- The counter and the backoff entry after a history.
pub record IsDriven (s : Service) : Type 0 where
  pub consistent : IsConsistent s
  pub paced : IsPaced s
  pub delayed : HasDelay s.last_detection_result s

-- The failures that the entry has seen against the checks in a row, and the delay of its policy.
abbrev pub BacksOff : Service → Type 0
BacksOff s =
    (s.num_checks_with_same_result ≡ (
      if s.last_check_time == 0
      then failures s.backoff_entry.backoff_calls
      else suc (failures s.backoff_entry.backoff_calls)))
    × (s.last_check_time ≡ 0 → failures s.backoff_entry.backoff_calls ≡ 0)
    × ((s.recheck_policy.num_errors_to_ignore < failures s.backoff_entry.backoff_calls)
        ↔ (8 ≤ s.num_checks_with_same_result))
    × (s.backoff_entry.initial_delay_ms
        ≡ (if not s.enabled || is_behind s.last_detection_result then 20 * 1000 else 600 * 1000))

IsDriven-BacksOff : (s : Service) → IsDriven s → BacksOff s
IsDriven-BacksOff s v =
    ground (arith, v.paced.no_check, v.paced.repeats, v.delayed.delay, v.delayed.ignored)

module _ (time_until_release : BackoffEntry → ℕ → ℕ) where
  step-IsPaced :
      (s : Service) (h : Happening)
      → CanHappen s h
      → IsConsistent s
      → IsPaced s
      → IsPaced (step time_until_release s h)
  unfolding step detect_captive_portal detect_captive_portal_internal update_enabled_state
      on_portal_detection_completed
  step-IsPaced s (platform, now, detect) can v c = ground arith
  step-IsPaced s (platform, now, timer_fired) can v c = ground arith
  step-IsPaced s (platform, now, completed d) can v c = on_result-IsPaced d.detected d.landing _ (
      pace_checks-IsPaced d now _ can.1
        (record_stats-enabled d now s ∙ v.working (checking_of_detecting s v can.0))
        (record_stats-IsPaced d now s c))
  step-IsPaced s (platform, now, preference value) can v c = ground arith

  step-HasDelay :
      (s : Service) (h : Happening)
      → HasDelay s.last_detection_result s
      → HasDelay (step time_until_release s h).last_detection_result (step time_until_release s h)
  unfolding step detect_captive_portal detect_captive_portal_internal update_enabled_state
      on_portal_detection_completed
  step-HasDelay s (platform, now, detect) c = ground arith
  step-HasDelay s (platform, now, timer_fired) c = ground arith
  step-HasDelay s (platform, now, completed d) c =
      let paced =
        pace_checks-HasDelay d now (record_stats d now s) (record_stats-HasDelay d now s c) in
      record {
        portal_ms = paced.portal_ms;
        no_portal_ms = paced.no_portal_ms;
        ignored = paced.ignored;
        delay = paced.delay;
      }
  step-HasDelay s (platform, now, preference value) c = ground arith

  step-IsDriven :
      (s : Service) (h : Happening)
      → CanHappen s h
      → IsDriven s
      → IsDriven (step time_until_release s h)
  step-IsDriven s h can v = record {
    consistent = step-IsConsistent time_until_release s h can v.consistent;
    paced = step-IsPaced s h can v.consistent v.paced;
    delayed = step-HasDelay s h v.delayed;
  }

  new_service-IsDriven :
      (platform : Platform) (now : ℕ) (value : Bool)
      → IsDriven (new_service time_until_release platform now value)
  unfolding new_service
  new_service-IsDriven platform now value = record {
    consistent = ground arith;
    paced = ground arith;
    delayed = ground arith;
  }

  -- In every history of possible happenings the backoff entry has been told of one failure fewer than
  -- there were checks in a row with the same result (of none before the first check), and it was made
  -- with a delay of 20 seconds if the service is disabled or the last result is the portal, and of 600
  -- seconds otherwise. So backoff sets in, with more failures than the policy ignores, exactly from
  -- the eighth check in a row with the same result.
  pub run-BacksOff :
      (platform : Platform) (now : ℕ) (value : Bool) (hs : List Happening)
      → let s = new_service time_until_release platform now value in
        Possible (step time_until_release) CanHappen s hs
        → BacksOff (run (step time_until_release) s hs)
  run-BacksOff platform now value hs possible =
      let start = new_service time_until_release platform now value in
      IsDriven-BacksOff _ (
        run_inv (step time_until_release) CanHappen IsDriven step-IsDriven start hs possible
          (new_service-IsDriven platform now value))
