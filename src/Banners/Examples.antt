-- ===== src/Banners/Examples.antt =====
-- A store of settings as a table by origin, and a site with three apps: the theorems at concrete inputs.
use chromium_log.Prelude.{
  ℕ, ◌*◌, ◌≤◌, ◌≡◌, ◌≢◌, refl, inl, inr, false, ◌&&◌, List, [], ◌∷◌, Option, none, some, ◌==◌,
  ==-refl, if◌then◌else◌, length, Bool-cases, arith, run,
}
use chromium_log.Banners.Parameters.{default_parameters}
use chromium_log.Banners.Settings.{
  day, max_apps_per_site, get_app_dict, find_dict, could_show, did_show, did_block, event_key,
  OriginDict, dictionary, no_error_detected, SettingsOps, get_origin_dict, get_single_banner_event,
  record_banner_event, record_banner_dismiss_event, should_show_banner,
}
use chromium_log.Banners.Record.{IsSettings, is_recorded, record_banner_event-refines}
use chromium_log.Banners.Blocked.{Call, record_call, dismissed_not_shown}
use chromium_log.Banners.Limit.{
  Change, recorded, cleared, change, run-IsLimited, further_app_forgotten,
}

abbrev Table : Type 0
Table = ℕ → Option OriginDict

abbrev table : SettingsOps Table
table = record {
  get_website_setting = λ origin s. s origin;
  set_website_setting = λ origin v s o. if o == origin then v else s o;
  flush = λ s. s;
}

get_other :
    (origin origin' : ℕ) (v : Option OriginDict) (s : Table)
    → origin' ≢ origin
    → (if origin' == origin then v else s origin') ≡ s origin'
get_other origin origin' v s differs = elim (Bool-cases (origin' == origin)) [
  | inl same ↦ absurd (ground arith)
  | inr n ↦ rw n refl
]

table-IsSettings : IsSettings table
table-IsSettings = record {
  get-set = λ origin v s. rw (==-refl origin) refl;
  get-set_other = λ origin origin' v s differs. get_other origin origin' v s differs;
  get-flush = λ origin s. refl;
}

-- Every time here is one that a double holds.
abbrev exact : ℕ → ℕ
exact time = time

abbrev nothing : Table
nothing origin = none

abbrev three_apps : Table
three_apps origin =
    some
      ((1, dictionary (λ e. none)) ∷ (2, dictionary (λ e. none)) ∷ (3, dictionary (λ e. none)) ∷ [])

record_banner_event-refines_example :
    get_single_banner_event table exact 7 1 did_block
      (record_banner_event table exact false 7 1 did_block (100 * day) nothing)
    ≡ (if is_recorded table exact false 7 1 did_block nothing
          && (7 == 7 && (1 == 1 && event_key did_block == event_key did_block))
        then exact (100 * day)
        else get_single_banner_event table exact 7 1 did_block nothing)
record_banner_event-refines_example =
    record_banner_event-refines table exact false 7 1 did_block (100 * day) nothing 7 1 did_block
      table-IsSettings

abbrev later : List Call
later =
    record { off_the_record = false; origin = 7; key = 1; event = could_show; time = 110 * day }
    ∷ record { off_the_record = false; origin = 7; key = 2; event = did_show; time = 120 * day }
    ∷ []

dismissed_not_shown_example :
    should_show_banner table exact (default_parameters 1) 7 1 (180 * day) (
      run
        (record_call table exact)
        (record_banner_dismiss_event table exact false 7 1 (100 * day) nothing)
        later)
    ≢ no_error_detected
unfolding get_app_dict
dismissed_not_shown_example =
    dismissed_not_shown table exact (default_parameters 1) 7 1 (100 * day) (180 * day) nothing later
      table-IsSettings refl (omega arith, (omega arith, tt)) (omega arith)

abbrev changes : List Change
changes = recorded false 7 4 did_show (100 * day) ∷ cleared (7 ∷ []) ∷ []

run-IsLimited_example :
    length (get_origin_dict table exact 7 (run (change table exact) three_apps changes))
    ≤ max_apps_per_site
run-IsLimited_example =
    run-IsLimited table exact three_apps changes table-IsSettings (λ origin. omega arith) 7

further_app_forgotten_example :
    let t = record_banner_event table exact false 7 4 did_block (100 * day) three_apps in
    (t ≡ three_apps)
    × (should_show_banner table exact (default_parameters 1) 7 4 (101 * day) t ≡ no_error_detected)
unfolding find_dict
further_app_forgotten_example =
    further_app_forgotten table exact (default_parameters 1) false 7 4 did_block (100 * day)
      (101 * day) three_apps refl refl (omega arith) (omega arith) (omega arith)
