-- ===== src/Banners/Blocked.antt =====
-- app_banner_settings_helper.cc: a banner that the user has dismissed stays away.
use chromium_log.Prelude.{
  ℕ, ◌+◌, ◌*◌, ◌≤◌, ◌<◌, ◌≡◌, ◌≢◌, sym, subst, inl, inr, Bool, true, false, List, [], ◌∷◌, ◌==◌,
  ==-refl, if◌then◌else◌, All, Bool-cases, arith, run,
}
use chromium_log.Banners.Parameters.{Parameters}
use chromium_log.Banners.Settings.{
  day, AppBannerEvent, did_show, did_block, did_add_to_homescreen, no_error_detected, SettingsOps,
  status_of, get_single_banner_event, record_banner_event, record_banner_dismiss_event,
  should_show_banner,
}
use chromium_log.Banners.Record.{IsSettings, is_recorded, record_banner_event-refines}

-- A call of `RecordBannerEvent`.
pub record Call : Type 0 where
  pub off_the_record : Bool
  pub origin : ℕ
  pub key : ℕ
  pub event : AppBannerEvent
  pub time : ℕ

status_of-blocked :
    (p : Parameters) (time added blocked shown : ℕ)
    → time < blocked + p.days_after_dismissed_to_show * day
    → status_of p time added blocked shown ≢ no_error_detected
unfolding status_of
status_of-blocked p time added blocked shown h e = ground arith

at_least_either : {n a b : ℕ} (c : Bool) → n ≤ a → n ≤ b → n ≤ (if c then a else b)
at_least_either true h k = h
at_least_either false h k = k

module _ {ℓ} {S : Type ℓ} (ops : SettingsOps S) (stored : ℕ → ℕ) where
  abbrev pub record_call : S → Call → S
  record_call s c = record_banner_event ops stored c.off_the_record c.origin c.key c.event c.time s

  -- The app was blocked at the time or later.
  abbrev IsBlocked : ℕ → ℕ → ℕ → S → Type 0
  IsBlocked origin key time s =
      stored time ≤ get_single_banner_event ops stored origin key did_block s

  should_show_banner-blocked :
      (p : Parameters) (origin key now : ℕ) (s : S)
      → now
        < get_single_banner_event ops stored origin key did_block s
          + p.days_after_dismissed_to_show * day
      → should_show_banner ops stored p origin key now s ≢ no_error_detected
  unfolding should_show_banner
  should_show_banner-blocked p origin key now s soon = elim (Bool-cases (key == 0)) [
    | inl empty ↦ rw empty (λ e. ground arith)
    | inr named ↦ rw named (
        status_of-blocked p now
          (get_single_banner_event ops stored origin key did_add_to_homescreen s)
          (get_single_banner_event ops stored origin key did_block s)
          (get_single_banner_event ops stored origin key did_show s) soon)
  ]

  record_call-IsBlocked :
      (origin key time : ℕ) (c : Call) (s : S)
      → IsSettings ops
      → stored time ≤ stored c.time
      → IsBlocked origin key time s
      → IsBlocked origin key time (record_call s c)
  record_call-IsBlocked origin key time c s laws later h =
      let refines =
        record_banner_event-refines ops stored c.off_the_record c.origin c.key c.event c.time s
          origin key did_block laws in
      subst (λ n. stored time ≤ n) (sym refines) (at_least_either _ later h)

  run-IsBlocked :
      (origin key time : ℕ) (calls : List Call) (s : S)
      → IsSettings ops
      → All (λ c. stored time ≤ stored c.time) calls
      → IsBlocked origin key time s
      → IsBlocked origin key time (run record_call s calls)
  unfolding run
  run-IsBlocked origin key time [] s laws later h = h
  run-IsBlocked origin key time (c ∷ cs) s laws later h =
      run-IsBlocked origin key time cs (record_call s c) laws later.1
        (record_call-IsBlocked origin key time c s laws later.0 h)

  -- Once the dismissal of an app's banner has been recorded, the banner is not shown for the number of
  -- days, 90 unless the field trial says otherwise, whatever else is recorded meanwhile, of whichever site
  -- and app, as long as the clock does not go back and no history is cleared.
  pub dismissed_not_shown :
      (p : Parameters) (origin key time now : ℕ) (s : S) (later : List Call)
      → IsSettings ops
      → is_recorded ops stored false origin key did_block s ≡ true
      → All (λ c. stored time ≤ stored c.time) later
      → now < stored time + p.days_after_dismissed_to_show * day
      → should_show_banner ops stored p origin key now
          (run record_call (record_banner_dismiss_event ops stored false origin key time s) later)
        ≢ no_error_detected
  unfolding record_banner_dismiss_event
  dismissed_not_shown p origin key time now s later laws recorded in_order soon =
      let dismissed = record_banner_event ops stored false origin key did_block time s in
      let refines =
        record_banner_event-refines ops stored false origin key did_block time s origin key
          did_block laws in
      let first : IsBlocked origin key time dismissed =
        subst (λ n. stored time ≤ n) (sym refines)
          (rw (recorded, ==-refl origin, ==-refl key) (omega arith)) in
      let blocked = run-IsBlocked origin key time later dismissed laws in_order first in
      should_show_banner-blocked p origin key now (run record_call dismissed later)
        (omega (arith, soon, blocked))
