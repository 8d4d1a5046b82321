-- ===== src/CaptivePortal/Examples/Helpers.antt =====
-- Tab helpers and login tabs: their theorems at concrete inputs.
use chromium_log.Prelude.{◌≡◌, true, false, [], ◌∷◌, run}
use chromium_log.CaptivePortal.Portal.{behind_captive_portal, internet_connected}
use chromium_log.CaptivePortal.TabReloader.{err_ssl_protocol_error, Page}
use chromium_log.CaptivePortal.LoginDetector.{new_detector, set_is_login_tab}
use chromium_log.CaptivePortal.TabHelper.{Navigations, Window, new_tab_helper}
use chromium_log.CaptivePortal.TabHelper.Tracking.{
  start, redirected, finished, step, IsTracking, run-IsTracking,
}
use chromium_log.CaptivePortal.TabHelper.LoginTab.{
  stopped_loading, results, asks, asks-set_is_login_tab,
}

abbrev page : Page
page = record { interstitial = false; has_post_data = false }

-- Every navigation of the store is the commit of an SSL error in the main frame.
abbrev navs : Navigations
navs n = record {
  is_in_main_frame = true;
  has_committed = true;
  scheme_is_cryptographic = true;
  net_error_code = err_ssl_protocol_error;
}

run-IsTracking_example : IsTracking (
    run step new_tab_helper
      ((page, navs, start 1) ∷ (page, navs, redirected 1) ∷ (page, navs, finished 1) ∷ []))
run-IsTracking_example =
    run-IsTracking
      ((page, navs, start 1) ∷ (page, navs, redirected 1) ∷ (page, navs, finished 1) ∷ [])
      (tt, (tt, (tt, tt)))

abbrev two_tabs : Window
two_tabs = record { tabs = new_tab_helper ∷ new_tab_helper ∷ []; active = 0 }

asks-set_is_login_tab_example :
    asks (set_is_login_tab new_detector) (
      stopped_loading
      ∷ stopped_loading
      ∷ results behind_captive_portal internet_connected
      ∷ stopped_loading
      ∷ [])
    ≡ 1
asks-set_is_login_tab_example = asks-set_is_login_tab new_detector (
    stopped_loading
    ∷ stopped_loading
    ∷ results behind_captive_portal internet_connected
    ∷ stopped_loading
    ∷ [])
