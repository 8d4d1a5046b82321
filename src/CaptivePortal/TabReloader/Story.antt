-- ===== src/CaptivePortal/TabReloader/Story.antt =====
-- The login to a portal: a tab that the portal broke is reloaded when the portal is gone.
use chromium_log.Prelude.{suc, ◌≡◌, true, false, List, [], ◌∷◌, arith, run}
use chromium_log.CaptivePortal.Portal.{CaptivePortalResult, behind_captive_portal, is_behind}
use chromium_log.CaptivePortal.TabReloader.{
  TabReloader, none, broken_by_portal, NetError, Page, Event, load_start, load_committed,
  timer_fired, run_posted_reload, portal_results, ssl_net_error_may_imply_captive_portal, step,
}
use chromium_log.CaptivePortal.TabReloader.Transitions.{count_reloads, count_login_tabs}

-- A slow SSL load that meets a portal opens one login tab, and leaves the tab broken by the portal.
slow_load_finds_portal :
    (r : TabReloader) (page : Page) (previous : CaptivePortalResult)
    → let s = run step r (
        (page, load_start true)
        ∷ (page, timer_fired)
        ∷ (page, portal_results previous behind_captive_portal)
        ∷ []) in
      (s.state ≡ broken_by_portal)
      × (count_login_tabs s.calls ≡ suc (count_login_tabs r.calls))
      × (count_reloads s.calls ≡ count_reloads r.calls)
unfolding run step
slow_load_finds_portal r page previous = ground arith

-- The two ways in which the load of a broken tab and the login may end.
abbrev pub commit_then_login :
    Page → NetError → CaptivePortalResult → CaptivePortalResult → List (Page × Event)
commit_then_login page error previous result =
    (page, load_committed error) ∷ (page, portal_results previous result) ∷ []

abbrev pub login_then_commit :
    Page → NetError → CaptivePortalResult → CaptivePortalResult → List (Page × Event)
login_then_commit page error previous result =
    (page, portal_results previous result) ∷ (page, load_committed error) ∷ []

-- When a load is going on in a tab that is broken by a portal, the page has no interstitial and no form
-- data, the load commits with an SSL error that may come of a portal, and a result says that the portal
-- is gone, then the tab is reloaded exactly once and is back in state `none`: at once if the result
-- comes last, and otherwise by a task that the commit posts, when that task runs.
pub reload_after_login :
    (r : TabReloader) (page : Page) (error : NetError) (previous result : CaptivePortalResult)
    → r.state ≡ broken_by_portal
    → r.provisional_main_frame_load ≡ true
    → page.interstitial ≡ false
    → page.has_post_data ≡ false
    → ssl_net_error_may_imply_captive_portal error ≡ true
    → is_behind result ≡ false
    → let s = run step r (commit_then_login page error previous result) in
      let t = run step r (login_then_commit page error previous result) in
      let u = step t (page, run_posted_reload) in
      (s.state ≡ none)
      × (count_reloads s.calls ≡ suc (count_reloads r.calls))
      × (count_reloads t.calls ≡ count_reloads r.calls)
      × (t.posted_reloads ≡ suc r.posted_reloads)
      × (u.state ≡ none)
      × (count_reloads u.calls ≡ suc (count_reloads r.calls))
unfolding run step
reload_after_login r page error previous result b p i d e n = ground arith
