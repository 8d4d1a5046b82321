-- ===== src/CaptivePortal/Examples/Tabs.antt =====
-- One tab: runs of its reloader, and the reloader's theorems at concrete inputs.
use chromium_log.Prelude.{◌≡◌, refl, true, false, List, [], ◌∷◌, run}
use chromium_log.CaptivePortal.Portal.{behind_captive_portal, internet_connected}
use chromium_log.CaptivePortal.TabReloader.{
  TabReloader, none, timer_running, maybe_broken_by_portal, broken_by_portal,
  err_connection_timed_out, err_ssl_protocol_error, Page, Event, load_start, load_committed,
  timer_fired, run_posted_reload, portal_results, start_timer, stop_timer, check_for_captive_portal,
  open_login_tab, new_reloader, step, ssl_net_error_may_imply_captive_portal,
}
use chromium_log.CaptivePortal.TabReloader.Consistency.{IsConsistent, run-IsConsistent}
use chromium_log.CaptivePortal.TabReloader.Transitions.{
  count_checks, count_reloads, step-checks, step-reloads,
}
use chromium_log.CaptivePortal.TabReloader.Story.{login_then_commit, reload_after_login}

abbrev page : Page
page = record { interstitial = false; has_post_data = false }

-- A slow SSL load behind a portal, up to the login.
abbrev slow_load : List (Page × Event)
slow_load =
    (page, load_start true)
    ∷ (page, timer_fired)
    ∷ (page, portal_results internet_connected behind_captive_portal)
    ∷ []

abbrev suspicious : TabReloader
suspicious = record new_reloader { state = maybe_broken_by_portal }

abbrev slow : TabReloader
slow = record new_reloader {
  state = timer_running;
  slow_ssl_load_timer = true;
  provisional_main_frame_load = true;
}

abbrev broken : TabReloader
broken = record new_reloader { state = broken_by_portal; provisional_main_frame_load = true }

slow_load_calls :
    (run step new_reloader slow_load).calls
    ≡ open_login_tab ∷ check_for_captive_portal ∷ stop_timer ∷ start_timer 30000 ∷ []
unfolding run step new_reloader
slow_load_calls = refl

run-IsConsistent_example : IsConsistent (run step new_reloader slow_load)
unfolding step new_reloader
run-IsConsistent_example = run-IsConsistent slow_load (tt, (refl, (tt, tt)))

step-checks_example :
    count_checks (step slow (page, load_committed err_ssl_protocol_error)).calls ≡ 1
unfolding new_reloader
step-checks_example = (step-checks slow page (load_committed err_ssl_protocol_error)).0

step-reloads_example :
    count_reloads
      (step
        (record broken { provisional_main_frame_load = false })
        (page, portal_results behind_captive_portal internet_connected)).calls
    ≡ 1
unfolding new_reloader
step-reloads_example =
    (step-reloads (record broken { provisional_main_frame_load = false }) page
      (portal_results behind_captive_portal internet_connected)).0

-- http, then https, then http again: the timer of the second URL is stopped by the third.
reload_after_login_example :
    (step
      (run step broken
        (login_then_commit page err_connection_timed_out behind_captive_portal internet_connected))
      (page, run_posted_reload)).state
    ≡ none
unfolding new_reloader ssl_net_error_may_imply_captive_portal
reload_after_login_example =
    (reload_after_login broken page err_connection_timed_out behind_captive_portal
      internet_connected refl refl refl refl refl refl).4
