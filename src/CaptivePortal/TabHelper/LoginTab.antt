-- ===== src/CaptivePortal/TabHelper/LoginTab.antt =====
-- The login tab of a window, and the checks that it asks for.
use chromium_log.Prelude.{
  ℕ, zero, suc, ◌+◌, ◌-◌, max, Bool-cases, subst, ◌<◌, ◌≡◌, refl, Bool, true, false, List, [], ◌∷◌,
  ◌++◌, none, some, arith, length, if◌then◌else◌, Option-cases, inl, inr,
}
use chromium_log.CaptivePortal.Portal.{CaptivePortalResult, is_behind}
use chromium_log.CaptivePortal.LoginDetector.{
  LoginDetector, on_stopped_loading, on_portal_results, set_is_login_tab,
}
use chromium_log.CaptivePortal.TabHelper.{
  TabHelper, Window, is_login_tab, make_login_tab, find_login_tab, open_in, open_login_tab,
}

abbrev pub count_login_tabs : List TabHelper → ℕ
count_login_tabs [] = 0
count_login_tabs (h ∷ hs) =
    let rest = count_login_tabs hs in if is_login_tab h then suc rest else rest

count-append_login :
    (hs : List TabHelper) (h : TabHelper)
    → count_login_tabs (hs ++ make_login_tab h ∷ []) ≡ suc (count_login_tabs hs)
unfolding make_login_tab
count-append_login [] h = ground arith
count-append_login (x ∷ hs) h = ground (arith, count-append_login hs h)

find-none : (i : ℕ) (hs : List TabHelper) → find_login_tab i hs ≡ none → count_login_tabs hs ≡ 0
unfolding find_login_tab
find-none i [] e = refl
find-none i (h ∷ hs) e = ground (arith, find-none (suc i) hs)

-- Is the tab at this index a login tab?
abbrev pub login_at : List TabHelper → ℕ → Bool
login_at [] i = false
login_at (h ∷ hs) zero = is_login_tab h
login_at (h ∷ hs) (suc i) = login_at hs i

find-some :
    (i j : ℕ) (hs : List TabHelper)
    → find_login_tab i hs ≡ some j
    → (k : ℕ) × (j ≡ i + k) × (login_at hs k ≡ true) × (0 < count_login_tabs hs)
unfolding find_login_tab
find-some i j [] e = cc
find-some i j (h ∷ hs) e = elim (Bool-cases (is_login_tab h)) [
  | inl here ↦ (0, ground arith, here, ground arith)
  | inr later ↦
      let (k, j_eq, login, some_login) = find-some (suc i) j hs (ground arith) in
      (suc k, omega arith, login, ground arith)
]

login_at-append :
    (hs : List TabHelper) (h : TabHelper)
    → login_at (hs ++ make_login_tab h ∷ []) (length hs) ≡ true
unfolding make_login_tab
login_at-append [] h = refl
login_at-append (x ∷ hs) h = login_at-append hs h

-- After the request for a login tab a window has one if it had none, and otherwise as many as before.
-- The tabs change only if there was none: the new login tab is then the last one, and is selected.
-- An old login tab is selected only if the caller asks for the focus, and then one is.
open_login_tab_once :
    (focus : Bool) (opened : TabHelper) (w : Window)
    → (u : Window) × (open_login_tab focus opened (some w) ≡ some u)
      × (count_login_tabs u.tabs ≡ max 1 (count_login_tabs w.tabs))
      × (count_login_tabs w.tabs ≡ 0
          → (u.tabs ≡ w.tabs ++ make_login_tab opened ∷ []) × (login_at u.tabs u.active ≡ true))
      × (0 < count_login_tabs w.tabs
          → (u.tabs ≡ w.tabs)
            × (focus ≡ true → login_at u.tabs u.active ≡ true)
            × (focus ≡ false → u.active ≡ w.active))
unfolding open_login_tab
open_login_tab_once focus opened w = elim (Option-cases (find_login_tab 0 w.tabs)) [
  | inl missing ↦
      let empty = find-none 0 w.tabs missing in
      (
        open_in focus opened w none,
        rw missing,
        ground (arith, empty, count-append_login w.tabs opened),
        λ _. (refl, login_at-append w.tabs opened),
        λ h. absurd (omega (arith, empty)),
      )
  | inr (i, found) ↦
      let (k, i_eq, login, some_login) = find-some 0 i w.tabs found in
      let k_eq : k ≡ i = omega arith in
      let login_i = subst (λ j. login_at w.tabs j ≡ true) k_eq login in
      (
        open_in focus opened w (some i),
        rw found,
        ground (arith, some_login),
        λ h. absurd (omega (arith, some_login)),
        λ _. (ground arith, ground arith, ground arith),
      )
]

-- The loads of a login tab, and the results that come in between.
pub data Event : Type 0 where
  stopped_loading : Event
  results : CaptivePortalResult → CaptivePortalResult → Event

-- The number of checks that a detector asks for.
abbrev pub asks : LoginDetector → List Event → ℕ
asks d [] = 0
asks d (stopped_loading ∷ es) =
    let rest = asks (on_stopped_loading d).0 es in
    if (on_stopped_loading d).1 then suc rest else rest
asks d (results previous result ∷ es) = asks (on_portal_results previous result d) es

-- The loads up to the first result that is not the portal's.
abbrev pub loads_until_login : List Event → ℕ
loads_until_login [] = 0
loads_until_login (stopped_loading ∷ es) = suc (loads_until_login es)
loads_until_login (results previous result ∷ es) =
    let rest = loads_until_login es in if is_behind result then rest else 0

asks_nothing :
    (b : Bool) (es : List Event)
    → asks (record { is_login_tab = false; first_login_tab_load = b }) es ≡ 0
unfolding on_stopped_loading on_portal_results
asks_nothing b [] = refl
asks_nothing b (stopped_loading ∷ es) = asks_nothing false es
asks_nothing b (results previous result ∷ es) = ground (arith, asks_nothing b es)

asks_each :
    (b : Bool) (es : List Event)
    → asks (record { is_login_tab = true; first_login_tab_load = b }) es
      ≡ (if b then loads_until_login es - 1 else loads_until_login es)
unfolding on_stopped_loading on_portal_results
asks_each b [] = ground arith
asks_each b (stopped_loading ∷ es) = ground (arith, asks_each false es)
asks_each b (results previous result ∷ es) = ground (arith, asks_each b es, asks_nothing b es)

-- A tab that has become a login tab asks for a check after each of its loads but the first, until a
-- result comes that is not the portal's, and never after that.
pub asks-set_is_login_tab :
    (d : LoginDetector) (es : List Event) → asks (set_is_login_tab d) es ≡ loads_until_login es - 1
unfolding set_is_login_tab
asks-set_is_login_tab d es = asks_each true es
