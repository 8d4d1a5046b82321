-- ===== src/CaptivePortal/TabHelper.antt =====
-- browser/captive_portal/captive_portal_tab_helper.cc: which navigation of a tab the reloader follows,
-- and the login tab of a window. A navigation handle is an address in a store that holds what its
-- methods return at the time of the call.
pub mod Tracking
pub mod LoginTab
use chromium_log.Prelude.{
  ℕ, suc, ◌+◌, Bool, true, false, ◌&&◌, ◌||◌, not, List, [], ◌∷◌, ◌++◌, Option, none, some, ◌==◌,
  if◌then◌else◌, length,
}
use chromium_log.CaptivePortal.Portal.{CaptivePortalResult}
use chromium_log.CaptivePortal.TabReloader.{
  TabReloader, NetError, Page, new_reloader, on_load_start, on_load_committed, on_abort,
  on_redirect, on_captive_portal_results, on_ssl_cert_error,
}
use chromium_log.CaptivePortal.LoginDetector.{
  LoginDetector, new_detector, on_stopped_loading, on_portal_results, set_is_login_tab,
}

pub record Navigation : Type 0 where
  pub is_in_main_frame : Bool
  pub has_committed : Bool
  pub scheme_is_cryptographic : Bool
  pub net_error_code : NetError

abbrev pub Navigations : Type 0
Navigations = ℕ → Navigation

pub record TabHelper : Type 0 where
  pub navigation_handle : Option ℕ
  pub tab_reloader : TabReloader
  pub login_detector : LoginDetector

unfoldable pub new_tab_helper : TabHelper
unfolding new_reloader
new_tab_helper = record {
  navigation_handle = none;
  tab_reloader = new_reloader;
  login_detector = new_detector;
}

abbrev pub is_handle : Option ℕ → ℕ → Bool
is_handle none n = false
is_handle (some m) n = m == n

-- Is a navigation tracked that has not committed?
abbrev pub is_uncommitted : Navigations → Option ℕ → Bool
is_uncommitted navs none = false
is_uncommitted navs (some m) = not ((navs m).has_committed)

unfoldable pub did_start_navigation : Page → Navigations → ℕ → TabHelper → TabHelper
did_start_navigation page navs n h =
    if not ((navs n).is_in_main_frame)
    then h
    else let r =
        (if is_uncommitted navs h.navigation_handle
          then on_abort page h.tab_reloader
          else h.tab_reloader) in
      record h {
        navigation_handle = some n;
        tab_reloader = on_load_start page ((navs n).scheme_is_cryptographic) r;
      }

-- Its DCHECK, that the tracked navigation is in the main frame, is left out: a call is told again of
-- each navigation what it is.
unfoldable pub did_redirect_navigation : Page → Navigations → ℕ → TabHelper → TabHelper
did_redirect_navigation page navs n h =
    if not (is_handle h.navigation_handle n) then h else record h {
      tab_reloader = on_redirect page ((navs n).scheme_is_cryptographic) h.tab_reloader;
    }

-- The end of `DidFinishNavigation`, for the navigation that is tracked by now.
finish : Page → Navigation → TabHelper → TabHelper
finish page nav h = record h {
  tab_reloader =
      if nav.has_committed
      then on_load_committed page nav.net_error_code h.tab_reloader
      else on_abort page h.tab_reloader;
  navigation_handle = none;
}

unfoldable pub did_finish_navigation : Page → Navigations → ℕ → TabHelper → TabHelper
unfolding finish did_start_navigation
did_finish_navigation page navs n h =
    if not ((navs n).is_in_main_frame)
    then h
    else if is_handle h.navigation_handle n
    then finish page (navs n) h
    else if not ((navs n).has_committed)
    then h
    else finish page (navs n) (did_start_navigation page navs n h)

-- The flag says whether the service is asked to detect a portal.
unfoldable pub did_stop_loading : TabHelper → TabHelper × Bool
unfolding on_stopped_loading
did_stop_loading h =
    let (d, asks) = on_stopped_loading h.login_detector in (record h { login_detector = d }, asks)

unfoldable pub on_results : Page → CaptivePortalResult → CaptivePortalResult → TabHelper → TabHelper
on_results page previous result h = record h {
  tab_reloader = on_captive_portal_results page previous result h.tab_reloader;
  login_detector = on_portal_results previous result h.login_detector;
}

unfoldable pub on_cert_error : Page → TabHelper → TabHelper
on_cert_error page h = record h { tab_reloader = on_ssl_cert_error page h.tab_reloader }

abbrev pub is_login_tab : TabHelper → Bool
is_login_tab h = h.login_detector.is_login_tab

unfoldable pub make_login_tab : TabHelper → TabHelper
unfolding set_is_login_tab
make_login_tab h = record h { login_detector = set_is_login_tab h.login_detector }

-- A browser window: the helpers of its tabs, and the tab that is selected.
pub record Window : Type 0 where
  pub tabs : List TabHelper
  pub active : ℕ

-- The index of the first login tab, counted from `i`.
unfoldable pub find_login_tab : ℕ → List TabHelper → Option ℕ
find_login_tab i [] = none
find_login_tab i (h ∷ hs) =
    let rest = find_login_tab (suc i) hs in if is_login_tab h then some i else rest

-- `opened` is the helper of a tab that was just added and selected: AddSelectedTabWithURL puts it
-- behind the others here. `none` stands for a profile without a tabbed window.
open_in : Bool → TabHelper → Window → Option ℕ → Window
unfolding make_login_tab
open_in focus opened w (some i) = if focus then record w { active = i } else w
open_in focus opened w none = record w {
  tabs = w.tabs ++ make_login_tab opened ∷ [];
  active = length w.tabs;
}

unfoldable pub open_login_tab : Bool → TabHelper → Option Window → Option Window
unfolding open_in find_login_tab
open_login_tab focus opened none = none
open_login_tab focus opened (some w) = some (open_in focus opened w (find_login_tab 0 w.tabs))
