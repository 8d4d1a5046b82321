-- ===== src/CaptivePortal/TabReloader/Transitions.antt =====
-- What the tab does to the outside: login tabs, reloads and captive portal checks.
use chromium_log.Prelude.{
  ℕ, suc, ◌≡◌, ◌⊎◌, ◌≢◌, Bool, true, false, ◌&&◌, not, List, [], ◌∷◌, arith, if◌then◌else◌,
}
use chromium_log.CaptivePortal.Portal.{behind_captive_portal, is_behind}
use chromium_log.CaptivePortal.TabReloader.{
  TabReloader, State, none, timer_running, maybe_broken_by_portal, broken_by_portal, needs_reload,
  err_ssl_protocol_error, err_connection_timed_out, Page, Call, reload, open_login_tab,
  check_for_captive_portal, Event, load_committed, cert_error, timer_fired, run_posted_reload,
  portal_results, step,
}

abbrev pub count_reloads : List Call → ℕ
count_reloads [] = 0
count_reloads (reload ∷ cs) = suc (count_reloads cs)
count_reloads (_ ∷ cs) = count_reloads cs

abbrev pub count_login_tabs : List Call → ℕ
count_login_tabs [] = 0
count_login_tabs (open_login_tab ∷ cs) = suc (count_login_tabs cs)
count_login_tabs (_ ∷ cs) = count_login_tabs cs

abbrev pub count_checks : List Call → ℕ
count_checks [] = 0
count_checks (check_for_captive_portal ∷ cs) = suc (count_checks cs)
count_checks (_ ∷ cs) = count_checks cs

-- A portal was found while the tab may be broken by one.
abbrev pub finds_portal : State → Event → Bool
finds_portal maybe_broken_by_portal (portal_results previous behind_captive_portal) = true
finds_portal _ _ = false

-- The slow or failed load of an SSL page, which the tab suspects of being broken by a portal.
abbrev pub suspects : State → Event → Bool
suspects timer_running (load_committed err_ssl_protocol_error) = true
suspects timer_running (load_committed err_connection_timed_out) = true
suspects timer_running cert_error = true
suspects _ timer_fired = true
suspects _ _ = false

-- The portal is gone: the tab was broken by it, or it may be and the last result was the portal.
abbrev pub portal_gone : State → Event → Bool
portal_gone broken_by_portal (portal_results previous result) = not (is_behind result)
portal_gone maybe_broken_by_portal (portal_results previous result) =
    not (is_behind result) && is_behind previous
portal_gone timer_running (portal_results previous result) =
    not (is_behind result) && is_behind previous
portal_gone needs_reload run_posted_reload = true
portal_gone _ _ = false

module _ (r : TabReloader) (page : Page) where
  -- A login tab is opened exactly when a portal is found by a tab that may be broken by one, and
  -- finding one so is the only way into `broken_by_portal`.
  step-login_tabs :
      (e : Event)
      → (count_login_tabs (step r (page, e)).calls ≡ (
          if finds_portal r.state e
          then suc (count_login_tabs r.calls)
          else count_login_tabs r.calls))
        × ((step r (page, e)).state ≡ broken_by_portal
            → (finds_portal r.state e ≡ true) ⊎ (r.state ≡ broken_by_portal))
  unfolding step
  step-login_tabs (portal_results previous result) = ground arith
  step-login_tabs _ = ground arith

  -- The service is asked for a check exactly when the tab comes to suspect a portal, and that is
  -- also the only way into `maybe_broken_by_portal`.
  pub step-checks :
      (e : Event)
      → (count_checks (step r (page, e)).calls
          ≡ (if suspects r.state e then suc (count_checks r.calls) else count_checks r.calls))
        × ((step r (page, e)).state ≡ maybe_broken_by_portal
            → (suspects r.state e ≡ true) ⊎ (r.state ≡ maybe_broken_by_portal))
  unfolding step
  step-checks (portal_results previous result) = ground arith
  step-checks _ = ground arith

  -- The tab is reloaded exactly when the portal is gone, no load would be interrupted that shows no
  -- interstitial, and the page was not the answer to a form; and a reload leaves state `none`.
  pub step-reloads :
      (e : Event)
      → (count_reloads (step r (page, e)).calls ≡ (
          if portal_gone r.state e
            && not (r.provisional_main_frame_load && not page.interstitial)
            && not page.has_post_data
          then suc (count_reloads r.calls)
          else count_reloads r.calls))
        × (count_reloads r.calls ≢ count_reloads (step r (page, e)).calls
            → (step r (page, e)).state ≡ none)
  unfolding step
  step-reloads (portal_results previous result) = ground arith
  step-reloads _ = ground arith
