-- ===== src/CaptivePortal/TabHelper/Tracking.antt =====
-- The reloader is told of one load at a time: the navigation that the helper tracks.
use chromium_log.Prelude.{
  ℕ, ◌<◌, ◌≡◌, Bool, true, false, ◌&&◌, Option, none, some, List, arith, run, run_inv, Possible,
  if◌then◌else◌,
}
use chromium_log.CaptivePortal.Portal.{CaptivePortalResult}
use chromium_log.CaptivePortal.TabReloader as Reloader
use chromium_log.CaptivePortal.TabReloader.{
  State, TabReloader, NetError, ok, Page, on_load_start, on_load_committed, on_abort, on_redirect,
  on_ssl_cert_error, on_captive_portal_results,
}
use chromium_log.CaptivePortal.TabReloader.Consistency.{IsConsistent, step-IsConsistent}
use chromium_log.CaptivePortal.TabHelper.{
  Navigation, Navigations, TabHelper, new_tab_helper, is_handle, is_uncommitted, finish,
  did_start_navigation, did_redirect_navigation, did_finish_navigation, did_stop_loading,
  on_results, on_cert_error, make_login_tab,
}

abbrev pub is_some : Option ℕ → Bool
is_some none = false
is_some (some _) = true

-- What happens to a tab: the calls of a WebContents, of the service and of the window on its helper,
-- and the two tasks of its reloader.
pub data Call : Type 0 where
  start redirected finished : ℕ → Call
  stopped cert_error timer_fired run_posted_reload login_tab : Call
  results : CaptivePortalResult → CaptivePortalResult → Call

pub step : TabHelper → Page × Navigations × Call → TabHelper
step h (page, navs, start n) = did_start_navigation page navs n h
step h (page, navs, redirected n) = did_redirect_navigation page navs n h
step h (page, navs, finished n) = did_finish_navigation page navs n h
step h (page, navs, stopped) = (did_stop_loading h).0
step h (page, navs, cert_error) = on_cert_error page h
step h (page, navs, login_tab) = make_login_tab h
step h (page, navs, results previous result) = on_results page previous result h
step h (page, navs, timer_fired) = record h {
  tab_reloader = Reloader.step h.tab_reloader (page, Reloader.timer_fired);
}
step h (page, navs, run_posted_reload) = record h {
  tab_reloader = Reloader.step h.tab_reloader (page, Reloader.run_posted_reload);
}

abbrev pub CanHappen : TabHelper → Page × Navigations × Call → Type 0
CanHappen h (page, navs, timer_fired) = h.tab_reloader.slow_ssl_load_timer ≡ true
CanHappen h (page, navs, run_posted_reload) = 0 < h.tab_reloader.posted_reloads
CanHappen h (page, navs, _) = Unit

-- The reloader believes that a load is going on exactly while a navigation is tracked, and its timer
-- and DCHECKs are in order.
pub record IsTracking (h : TabHelper) : Type 0 where
  pub load : h.tab_reloader.provisional_main_frame_load ≡ is_some h.navigation_handle
  pub reloader : IsConsistent h.tab_reloader

-- What the reloader's events leave of its belief that a load is going on.
abbrev believes : Reloader.Event → Bool → Bool
believes (Reloader.load_start _) loading = true
believes (Reloader.load_committed _) loading = false
believes Reloader.abort loading = false
believes _ loading = loading

reloader-believes :
    (r : TabReloader) (page : Page) (e : Reloader.Event)
    → (Reloader.step r (page, e)).provisional_main_frame_load
      ≡ believes e r.provisional_main_frame_load
unfolding Reloader.step
reloader-believes r page (Reloader.load_start is_ssl) = ground arith
reloader-believes r page _ = ground arith

abbrev Loads : Bool → TabReloader → Type 0
Loads loading r = IsConsistent r × (r.provisional_main_frame_load ≡ loading)

-- The calls of the helper on its reloader.
module _ (page : Page) (r : TabReloader) (c : IsConsistent r) where
  event-Loads :
      (e : Reloader.Event)
      → Reloader.Consistency.CanHappen r (page, e)
      → Loads (believes e r.provisional_main_frame_load) (Reloader.step r (page, e))
  event-Loads e can = (step-IsConsistent r (page, e) can c, reloader-believes r page e)

  start-Loads : (is_ssl : Bool) → Loads true (on_load_start page is_ssl r)
  unfolding Reloader.step
  start-Loads is_ssl = event-Loads (Reloader.load_start is_ssl) tt

  abort-Loads : Loads false (on_abort page r)
  unfolding Reloader.step
  abort-Loads = event-Loads Reloader.abort tt

  commit-Loads : (error : NetError) → Loads false (on_load_committed page error r)
  unfolding Reloader.step
  commit-Loads error = event-Loads (Reloader.load_committed error) tt

  redirect-Loads : (is_ssl : Bool) → Loads r.provisional_main_frame_load (on_redirect page is_ssl r)
  unfolding Reloader.step
  redirect-Loads is_ssl = event-Loads (Reloader.redirect is_ssl) tt

  cert_error-Loads : Loads r.provisional_main_frame_load (on_ssl_cert_error page r)
  unfolding Reloader.step
  cert_error-Loads = event-Loads Reloader.cert_error tt

  results-Loads :
      (previous result : CaptivePortalResult)
      → Loads r.provisional_main_frame_load (on_captive_portal_results page previous result r)
  unfolding Reloader.step
  results-Loads previous result = event-Loads (Reloader.portal_results previous result) tt

finish-IsTracking :
    (page : Page) (nav : Navigation) (h : TabHelper) → IsTracking h → IsTracking (finish page nav h)
unfolding finish
finish-IsTracking page nav h v = ground (
  arith,
  abort-Loads page h.tab_reloader v.reloader,
  commit-Loads page h.tab_reloader v.reloader nav.net_error_code,
)

module _ (page : Page) (navs : Navigations) (n : ℕ) (h : TabHelper) (v : IsTracking h) where
  start-IsTracking : IsTracking (did_start_navigation page navs n h)
  unfolding did_start_navigation
  start-IsTracking = ground (
    arith,
    abort-Loads page h.tab_reloader v.reloader,
    start-Loads page h.tab_reloader v.reloader ((navs n).scheme_is_cryptographic),
    λ (c : IsConsistent (on_abort page h.tab_reloader)).
        start-Loads page (on_abort page h.tab_reloader) c ((navs n).scheme_is_cryptographic),
  )

  redirected-IsTracking : IsTracking (did_redirect_navigation page navs n h)
  unfolding did_redirect_navigation
  redirected-IsTracking =
      ground
        (arith, redirect-Loads page h.tab_reloader v.reloader ((navs n).scheme_is_cryptographic))

  finished-IsTracking : IsTracking (did_finish_navigation page navs n h)
  unfolding did_finish_navigation
  finished-IsTracking = ground (
    arith,
    finish-IsTracking page (navs n) h v,
    finish-IsTracking page (navs n) (did_start_navigation page navs n h) start-IsTracking,
  )

step-IsTracking :
    (h : TabHelper) (c : Page × Navigations × Call)
    → CanHappen h c
    → IsTracking h
    → IsTracking (step h c)
unfolding step did_stop_loading on_cert_error make_login_tab on_results
step-IsTracking h (page, navs, start n) can v = start-IsTracking page navs n h v
step-IsTracking h (page, navs, redirected n) can v = redirected-IsTracking page navs n h v
step-IsTracking h (page, navs, finished n) can v = finished-IsTracking page navs n h v
step-IsTracking h (page, navs, stopped) can v = ground arith
step-IsTracking h (page, navs, login_tab) can v = ground arith
step-IsTracking h (page, navs, cert_error) can v =
    ground (arith, cert_error-Loads page h.tab_reloader v.reloader)
step-IsTracking h (page, navs, results previous result) can v =
    ground (arith, results-Loads page h.tab_reloader v.reloader previous result)
step-IsTracking h (page, navs, timer_fired) can v =
    ground (arith, event-Loads page h.tab_reloader v.reloader Reloader.timer_fired can)
step-IsTracking h (page, navs, run_posted_reload) can v =
    ground (arith, event-Loads page h.tab_reloader v.reloader Reloader.run_posted_reload can)

-- Whatever calls a new tab's helper gets, its reloader believes that a load is going on exactly while
-- the helper tracks a navigation, the slow-load timer runs exactly in its state, and no DCHECK of the
-- reloader fails.
pub run-IsTracking :
    (cs : List (Page × Navigations × Call))
    → Possible step CanHappen new_tab_helper cs
    → IsTracking (run step new_tab_helper cs)
unfolding new_tab_helper
run-IsTracking cs possible =
    run_inv step CanHappen IsTracking step-IsTracking new_tab_helper cs possible (ground arith)

-- A navigation outside the main frame, a redirect of a navigation that is not tracked, and the end of
-- one that is neither tracked nor committed, leave the helper as it was.
untracked_ignored :
    (page : Page) (navs : Navigations) (n : ℕ) (h : TabHelper)
    → is_handle h.navigation_handle n ≡ false
    → (did_redirect_navigation page navs n h ≡ h)
      × ((navs n).is_in_main_frame && (navs n).has_committed ≡ false
          → did_finish_navigation page navs n h ≡ h)
      × ((navs n).is_in_main_frame ≡ false → did_start_navigation page navs n h ≡ h)
unfolding did_redirect_navigation did_finish_navigation did_start_navigation
untracked_ignored page navs n h u = ground arith

-- When a committed main-frame navigation that is not tracked ends, the reloader has seen its start
-- (after the abort of the tracked one, if that has not committed) and its commit, and nothing is
-- tracked any more.
untracked_commit :
    (page : Page) (navs : Navigations) (n : ℕ) (h : TabHelper)
    → is_handle h.navigation_handle n ≡ false
    → (navs n).is_in_main_frame ≡ true
    → (navs n).has_committed ≡ true
    → did_finish_navigation page navs n h ≡ record h {
      navigation_handle = none;
      tab_reloader = on_load_committed page ((navs n).net_error_code) (
          on_load_start page ((navs n).scheme_is_cryptographic) (
            if is_uncommitted navs h.navigation_handle
            then on_abort page h.tab_reloader
            else h.tab_reloader));
    }
unfolding did_finish_navigation did_start_navigation finish
untracked_commit page navs n h u m c = ground arith
