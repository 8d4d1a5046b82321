-- ===== src/CaptivePortal/LoginDetector.antt =====
-- browser/captive_portal/captive_portal_login_detector.cc: when a login tab asks for a new check.
use chromium_log.Prelude.{Bool, true, false, ◌||◌, not, if◌then◌else◌}
use chromium_log.CaptivePortal.Portal.{CaptivePortalResult, is_behind}

pub record LoginDetector : Type 0 where
  pub is_login_tab : Bool
  pub first_login_tab_load : Bool

abbrev pub new_detector : LoginDetector
new_detector = record { is_login_tab = false; first_login_tab_load = false }

-- The flag says whether the service is asked to detect a portal.
unfoldable pub on_stopped_loading : LoginDetector → LoginDetector × Bool
on_stopped_loading d =
    if not d.is_login_tab || d.first_login_tab_load
    then (record d { first_login_tab_load = false }, false)
    else (d, true)

unfoldable pub on_portal_results :
    CaptivePortalResult → CaptivePortalResult → LoginDetector → LoginDetector
on_portal_results previous result d =
    if not (is_behind result) then record d { is_login_tab = false } else d

unfoldable pub set_is_login_tab : LoginDetector → LoginDetector
set_is_login_tab d = record d { is_login_tab = true; first_login_tab_load = true }
