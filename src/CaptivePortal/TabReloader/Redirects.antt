-- ===== src/CaptivePortal/TabReloader/Redirects.antt =====
-- The slow-load timer along a chain of redirects.
use chromium_log.Prelude.{
  ◌≡◌, refl, Bool, true, false, ◌&&◌, ◌||◌, not, List, [], ◌∷◌, map, arith, if◌then◌else◌, run,
}
use chromium_log.CaptivePortal.TabReloader.{
  TabReloader, State, none, timer_running, Page, Event, load_start, redirect, step,
}

-- The last URL of the chain is its first SSL URL.
abbrev pub ends_at_first_ssl : List Bool → Bool
ends_at_first_ssl [] = false
ends_at_first_ssl (is_ssl ∷ []) = is_ssl
ends_at_first_ssl (true ∷ _ ∷ _) = false
ends_at_first_ssl (false ∷ is_ssl ∷ rest) = ends_at_first_ssl (is_ssl ∷ rest)

abbrev pub redirects : Page → List Bool → List (Page × Event)
redirects page = map λ is_ssl. (page, redirect is_ssl)

-- The state after the redirects, if the chain has seen an SSL URL already (`seen`) or not.
abbrev pub chain_state : State → Bool → List Bool → State
chain_state s seen [] = s
chain_state s true (is_ssl ∷ rest) = none
chain_state s false (is_ssl ∷ rest) =
    if ends_at_first_ssl (is_ssl ∷ rest) then timer_running else none

redirect_once :
    (page : Page) (r : TabReloader) (is_ssl : Bool)
    → ((step r (page, redirect is_ssl)).state
        ≡ (if is_ssl && not r.ssl_url_in_redirect_chain then timer_running else none))
      × ((step r (page, redirect is_ssl)).ssl_url_in_redirect_chain
          ≡ (is_ssl || r.ssl_url_in_redirect_chain))
unfolding step
redirect_once page r is_ssl = ground arith

redirects_state :
    (page : Page) (flags : List Bool) (r : TabReloader)
    → (run step r (redirects page flags)).state
      ≡ chain_state r.state r.ssl_url_in_redirect_chain flags
unfolding run
redirects_state page [] r = refl
redirects_state page (is_ssl ∷ []) r = ground (arith, redirect_once page r is_ssl)
redirects_state page (is_ssl ∷ next ∷ rest) r = ground (
  arith,
  redirect_once page r is_ssl,
  redirects_state page (next ∷ rest) (step r (page, redirect is_ssl)),
)

-- After a load has started and been redirected any number of times, the slow-load timer runs if the
-- last URL is the first SSL URL of the chain, and otherwise the state is `none`.
load-redirects :
    (page : Page) (r : TabReloader) (first : Bool) (rest : List Bool)
    → (run step r ((page, load_start first) ∷ redirects page rest)).state
      ≡ (if ends_at_first_ssl (first ∷ rest) then timer_running else none)
unfolding run step
load-redirects page r first [] = ground arith
load-redirects page r first (is_ssl ∷ rest) =
    ground (arith, redirects_state page (is_ssl ∷ rest) (step r (page, load_start first)))
