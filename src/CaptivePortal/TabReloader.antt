-- ===== src/CaptivePortal/TabReloader.antt =====
-- browser/captive_portal/captive_portal_tab_reloader.cc and .h: the state machine of one tab.
-- A method takes what it reads of the page, and returns the new record. The calls that it makes to
-- the timer, the service, the page and the login tab are entries of `calls`, newest first, and
-- `dchecks` says whether every DCHECK so far has held.
pub mod Consistency
pub mod Transitions
pub mod Redirects
pub mod Story
use chromium_log.Prelude.{
  ℕ, suc, ◌+◌, ◌-◌, ◌*◌, Bool, true, false, ◌&&◌, ◌||◌, not, List, [], ◌∷◌, ◌==◌, if◌then◌else◌,
}
use chromium_log.CaptivePortal.Portal.{CaptivePortalResult, is_behind}

pub data State : Type 0 where
  none timer_running maybe_broken_by_portal broken_by_portal needs_reload : State

pub data Call : Type 0 where
  start_timer : ℕ → Call
  stop_timer check_for_captive_portal reload open_login_tab : Call

-- What the methods read of the tab's WebContents.
pub record Page : Type 0 where
  pub interstitial : Bool
  pub has_post_data : Bool

pub record TabReloader : Type 0 where
  pub state : State
  pub provisional_main_frame_load : Bool
  pub ssl_url_in_redirect_chain : Bool
  pub slow_ssl_load_time : ℕ  -- milliseconds
  pub slow_ssl_load_timer : Bool  -- is it running
  pub posted_reloads : ℕ  -- tasks posted and not yet run
  pub calls : List Call
  pub dchecks : Bool

abbrev pub default_slow_ssl_time_seconds : ℕ
default_slow_ssl_time_seconds = 30

-- The errors of net/base/net_errors.h that the code tells apart; `other` is any other code.
pub data NetError : Type 0 where
  ok err_ssl_protocol_error err_connection_timed_out : NetError
  other : ℕ → NetError

abbrev pub same_error : NetError → NetError → Bool
same_error ok ok = true
same_error err_ssl_protocol_error err_ssl_protocol_error = true
same_error err_connection_timed_out err_connection_timed_out = true
same_error (other a) (other b) = a == b
same_error _ _ = false

unfoldable pub ssl_net_error_may_imply_captive_portal : NetError → Bool
ssl_net_error_may_imply_captive_portal error =
    if same_error error err_connection_timed_out
    then true
    else if same_error error err_ssl_protocol_error
    then true
    else false

unfoldable pub new_reloader : TabReloader
new_reloader = record {
  state = none;
  provisional_main_frame_load = false;
  ssl_url_in_redirect_chain = false;
  slow_ssl_load_time = default_slow_ssl_time_seconds * 1000;
  slow_ssl_load_timer = false;
  posted_reloads = 0;
  calls = [];
  dchecks = true;
}

abbrev pub call : Call → TabReloader → TabReloader
call c r = record r { calls = c ∷ r.calls }

abbrev pub dcheck : Bool → TabReloader → TabReloader
dcheck b r = record r { dchecks = b && r.dchecks }

-- The first part of `SetState`: stop the timer, which the other states must find stopped.
leave : State → TabReloader → TabReloader
leave timer_running r = call stop_timer (record r { slow_ssl_load_timer = false })
leave _ r = dcheck (not r.slow_ssl_load_timer) r

-- The transitions that the switch of `SetState` expects.
abbrev pub expected : State → State → Bool
expected none none = true
expected none timer_running = true
expected timer_running none = true
expected timer_running maybe_broken_by_portal = true
expected timer_running needs_reload = true
expected maybe_broken_by_portal none = true
expected maybe_broken_by_portal broken_by_portal = true
expected maybe_broken_by_portal needs_reload = true
expected broken_by_portal none = true
expected broken_by_portal needs_reload = true
expected needs_reload none = true
expected _ _ = false

-- `SetState` up to the assignment of `state_`.
move_to : State → TabReloader → TabReloader
unfolding leave
move_to new_state r = record (dcheck (expected r.state new_state) (leave r.state r)) {
  state = new_state;
}

reload_tab : Page → TabReloader → TabReloader
reload_tab page r = if page.has_post_data then r else call reload r

-- The call of `SetState(STATE_NONE)` is `move_to none`: the last switch of `SetState` has nothing to
-- do for that state (`set_state-none`).
reload_now : State → Page → TabReloader → TabReloader
unfolding move_to reload_tab
reload_now needs_reload page r =
    if r.provisional_main_frame_load && not page.interstitial
    then r
    else reload_tab page (move_to none r)
reload_now _ page r = r

unfoldable pub reload_tab_if_needed : Page → TabReloader → TabReloader
unfolding reload_now
reload_tab_if_needed page r = reload_now r.state page r

-- The last switch of `SetState`.
enter : State → Page → TabReloader → TabReloader
unfolding reload_tab_if_needed
enter timer_running page r =
    call (start_timer r.slow_ssl_load_time) (record r { slow_ssl_load_timer = true })
enter maybe_broken_by_portal page r = call check_for_captive_portal r
enter needs_reload page r = reload_tab_if_needed page r
enter _ page r = r

unfoldable pub set_state : Page → State → TabReloader → TabReloader
unfolding move_to enter
set_state page new_state r = enter new_state page (move_to new_state r)

unfoldable pub on_slow_ssl_connect : Page → TabReloader → TabReloader
unfolding set_state
on_slow_ssl_connect page r = set_state page maybe_broken_by_portal r

unfoldable pub on_load_start : Page → Bool → TabReloader → TabReloader
unfolding set_state
on_load_start page is_ssl r =
    let s =
      set_state page none
        (record r { provisional_main_frame_load = true; ssl_url_in_redirect_chain = is_ssl }) in
    if is_ssl then set_state page timer_running s else s

-- What `OnLoadCommitted` does for an error that a captive portal may cause.
commit_error : State → Page → TabReloader → TabReloader
unfolding on_slow_ssl_connect
commit_error timer_running page r = on_slow_ssl_connect page r
commit_error needs_reload page r = record r { posted_reloads = r.posted_reloads + 1 }
commit_error _ page r = r

abbrev pub is_none : State → Bool
is_none none = true
is_none _ = false

unfoldable pub on_load_committed : Page → NetError → TabReloader → TabReloader
unfolding set_state commit_error ssl_net_error_may_imply_captive_portal
on_load_committed page net_error r =
    let s = record r { provisional_main_frame_load = false; ssl_url_in_redirect_chain = false } in
    if is_none s.state
    then s
    else if not (ssl_net_error_may_imply_captive_portal net_error)
    then set_state page none s
    else commit_error s.state page s

unfoldable pub on_abort : Page → TabReloader → TabReloader
unfolding set_state
on_abort page r =
    set_state page none
      (record r { provisional_main_frame_load = false; ssl_url_in_redirect_chain = false })

unfoldable pub on_redirect : Page → Bool → TabReloader → TabReloader
unfolding set_state
on_redirect page is_ssl r =
    let s = set_state page none r in
    if not is_ssl
    then s
    else let t = if not s.ssl_url_in_redirect_chain then set_state page timer_running s else s in
      record t { ssl_url_in_redirect_chain = true }

-- `OnCaptivePortalResults` for a result that is BEHIND_CAPTIVE_PORTAL.
found_portal : State → Page → TabReloader → TabReloader
unfolding set_state
found_portal maybe_broken_by_portal page r = call open_login_tab (set_state page broken_by_portal r)
found_portal _ page r = r

-- Its switch, for every other result.
no_portal : State → CaptivePortalResult → Page → TabReloader → TabReloader
unfolding set_state
no_portal maybe_broken_by_portal previous page r =
    set_state page (if is_behind previous then needs_reload else none) r
no_portal timer_running previous page r =
    set_state page (if is_behind previous then needs_reload else none) r
no_portal broken_by_portal previous page r = set_state page needs_reload r
no_portal _ previous page r = r

unfoldable pub on_captive_portal_results :
    Page → CaptivePortalResult → CaptivePortalResult → TabReloader → TabReloader
unfolding found_portal no_portal
on_captive_portal_results page previous result r =
    if is_behind result then found_portal r.state page r else no_portal r.state previous page r

ssl_cert_error : State → Page → TabReloader → TabReloader
unfolding set_state
ssl_cert_error timer_running page r = set_state page maybe_broken_by_portal r
ssl_cert_error _ page r = r

unfoldable pub on_ssl_cert_error : Page → TabReloader → TabReloader
unfolding ssl_cert_error
on_ssl_cert_error page r = ssl_cert_error r.state page r

-- What happens to a tab: the calls of CaptivePortalTabHelper, and the two tasks of the tab itself.
pub data Event : Type 0 where
  load_start redirect : Bool → Event
  load_committed : NetError → Event
  abort cert_error timer_fired run_posted_reload : Event
  portal_results : CaptivePortalResult → CaptivePortalResult → Event

-- A one-shot timer stops before it runs its task; a posted task runs once.
unfoldable pub step : TabReloader → Page × Event → TabReloader
unfolding on_load_start on_redirect on_load_committed on_abort on_ssl_cert_error on_slow_ssl_connect
    reload_tab_if_needed on_captive_portal_results
step r (page, load_start is_ssl) = on_load_start page is_ssl r
step r (page, redirect is_ssl) = on_redirect page is_ssl r
step r (page, load_committed net_error) = on_load_committed page net_error r
step r (page, abort) = on_abort page r
step r (page, cert_error) = on_ssl_cert_error page r
step r (page, timer_fired) = on_slow_ssl_connect page (record r { slow_ssl_load_timer = false })
step r (page, run_posted_reload) =
    reload_tab_if_needed page (record r { posted_reloads = r.posted_reloads - 1 })
step r (page, portal_results previous result) = on_captive_portal_results page previous result r
