-- ===== src/Banners/Limit.antt =====
-- app_banner_settings_helper.cc: how many apps of a site are remembered.
use chromium_log.Prelude.{
  ℕ, suc, ◌*◌, ◌≤◌, ◌≡◌, ◌≢◌, refl, inl, inr, Bool, true, false, ◌||◌, List, [], ◌∷◌, Option, none,
  some, ◌==◌, ==→eq, ltb, if◌then◌else◌, length, Bool-cases, Option-cases, arith, run, run_inv_all,
}
use chromium_log.Banners.Parameters.{Parameters}
use chromium_log.Banners.Settings.{
  max_apps_per_site, day, AppBannerEvent, did_show, did_block, did_add_to_homescreen, event_key,
  AppDict, dictionary, other, OriginDict, no_error_detected, SettingsOps, status_of, find_dict,
  set_dict, get_app_dict, app_dict_or_new, is_kept, is_flushed, set_time, get_origin_dict,
  get_single_banner_event, record_in, record_banner_event, should_show_banner,
  clear_history_for_urls,
}
use chromium_log.Banners.Record.{IsSettings, get_origin_dict-set}

length-set_dict :
    (key : ℕ) (app : AppDict) (d : OriginDict) → length (set_dict key app d) ≤ suc (length d)
unfolding set_dict
length-set_dict key app [] = omega arith
length-set_dict key app ((k, value) ∷ d) =
    let rest = length-set_dict key app d in
    elim (Bool-cases (k == key)) [ inl e ↦ rw e (omega arith) | inr n ↦ rw n (omega (arith, rest)) ]

length-set_found :
    (key : ℕ) (app found : AppDict) (d : OriginDict)
    → find_dict key d ≡ some found
    → length (set_dict key app d) ≡ length d
unfolding set_dict find_dict
length-set_found key app found [] e = absurd (ground arith)
length-set_found key app found ((k, dictionary value) ∷ d) e = elim (Bool-cases (k == key)) [
  | inl same ↦ rw same refl
  | inr n ↦ let rest = length-set_found key app found d (ground arith) in rw n (omega (arith, rest))
]
length-set_found key app found ((k, other) ∷ d) e = elim (Bool-cases (k == key)) [
  | inl same ↦ rw same refl
  | inr n ↦ let rest = length-set_found key app found d (ground arith) in rw n (omega (arith, rest))
]

set_dict-limited :
    (key : ℕ) (app found : AppDict) (d : OriginDict)
    → get_app_dict key d ≡ some found
    → length d ≤ max_apps_per_site
    → length (set_dict key app d) ≤ max_apps_per_site
unfolding get_app_dict app_dict_or_new
set_dict-limited key app found d e h = elim (Option-cases (find_dict key d)) [
  | inl missing ↦ elim (Bool-cases (ltb (length d) max_apps_per_site)) [
    | inl room ↦ let longer = length-set_dict key app d in ground arith
    | inr full ↦ absurd (ground arith)
  ]
  | inr (a, there) ↦ omega (arith, h, length-set_found key app a d there)
]

length-either :
    (c : Bool) (n : ℕ) (d d' : OriginDict)
    → length d ≤ n
    → length d' ≤ n
    → length (if c then d else d') ≤ n
length-either true n d d' h k = h
length-either false n d d' h k = k

-- What changes the settings: a call of `RecordBannerEvent` or of `ClearHistoryForURLs`.
pub data Change : Type 0 where
  recorded : Bool → ℕ → ℕ → AppBannerEvent → ℕ → Change
  cleared : List ℕ → Change

status_of-unrecorded :
    (p : Parameters) (now : ℕ)
    → p.days_after_dismissed_to_show * day ≤ now
    → p.days_after_ignored_to_show * day ≤ now
    → status_of p now 0 0 0 ≡ no_error_detected
unfolding status_of
status_of-unrecorded p now d i = ground arith

module _ {ℓ} {S : Type ℓ} (ops : SettingsOps S) (stored : ℕ → ℕ) where
  -- At most three apps are remembered of each site.
  abbrev pub IsLimited : S → Type 0
  IsLimited s = (origin : ℕ) → length (get_origin_dict ops stored origin s) ≤ max_apps_per_site

  record_in-IsLimited :
      (origin key : ℕ) (event : AppBannerEvent) (time : ℕ) (app : Option AppDict) (s : S)
      → IsSettings ops
      → get_app_dict key (get_origin_dict ops stored origin s) ≡ app
      → IsLimited s
      → IsLimited (record_in ops stored origin key event time app s)
  unfolding record_in
  record_in-IsLimited origin key event time none s laws e h o = h o
  record_in-IsLimited origin key event time (some app) s laws e h o =
      let d = get_origin_dict ops stored origin s in
      let changed = set_dict key (set_time (event_key event) (stored time) app) d in
      elim (Bool-cases (is_kept event app)) [
        | inl kept ↦ rw kept (h o)
        | inr taken ↦
            rw (taken, get_origin_dict-set ops stored (is_flushed event) origin o changed s laws)
              (length-either (o == origin) max_apps_per_site changed
                (get_origin_dict ops stored o s) (set_dict-limited key _ app d e (h origin)) (h o))
      ]

  record_banner_event-IsLimited :
      (off_the_record : Bool) (origin key : ℕ) (event : AppBannerEvent) (time : ℕ) (s : S)
      → IsSettings ops
      → IsLimited s
      → IsLimited (record_banner_event ops stored off_the_record origin key event time s)
  unfolding record_banner_event
  record_banner_event-IsLimited off_the_record origin key event time s laws h =
      elim (Bool-cases (off_the_record || key == 0)) [
        | inl refused ↦ rw refused h
        | inr allowed ↦ rw allowed (record_in-IsLimited origin key event time _ s laws refl h)
      ]

  clear-IsLimited :
      (origin : ℕ) (s : S)
      → IsSettings ops
      → IsLimited s
      → IsLimited (ops.flush (ops.set_website_setting origin none s))
  clear-IsLimited origin s laws h o =
      rw (laws.get-flush o (ops.set_website_setting origin none s))
        (elim (Bool-cases (o == origin)) [
          | inl same ↦ rw (==→eq o origin same, laws.get-set origin none s) (omega arith)
          | inr differs ↦ rw (laws.get-set_other origin o none s (ground arith)) (h o)
        ])

  clear_history_for_urls-IsLimited :
      (origins : List ℕ) (s : S)
      → IsSettings ops
      → IsLimited s
      → IsLimited (clear_history_for_urls ops stored origins s)
  unfolding clear_history_for_urls
  clear_history_for_urls-IsLimited [] s laws h = h
  clear_history_for_urls-IsLimited (origin ∷ origins) s laws h =
      clear_history_for_urls-IsLimited origins (ops.flush (ops.set_website_setting origin none s))
        laws (clear-IsLimited origin s laws h)

  abbrev pub change : S → Change → S
  change s (recorded off_the_record origin key event time) =
      record_banner_event ops stored off_the_record origin key event time s
  change s (cleared origins) = clear_history_for_urls ops stored origins s

  change-IsLimited : IsSettings ops → (s : S) (c : Change) → IsLimited s → IsLimited (change s c)
  change-IsLimited laws s (recorded off_the_record origin key event time) h =
      record_banner_event-IsLimited off_the_record origin key event time s laws h
  change-IsLimited laws s (cleared origins) h = clear_history_for_urls-IsLimited origins s laws h

  -- However events are recorded and histories cleared: if no site had more than three apps remembered to
  -- begin with, none has more at the end.
  pub run-IsLimited :
      (s : S) (changes : List Change)
      → IsSettings ops
      → ((origin : ℕ) → length (get_origin_dict ops stored origin s) ≤ max_apps_per_site)
      → (origin : ℕ)
      → length (get_origin_dict ops stored origin (run change s changes)) ≤ max_apps_per_site
  run-IsLimited s changes laws h = run_inv_all change IsLimited (change-IsLimited laws) s changes h

  module _ (origin key : ℕ) (s : S) where
    -- The site has no room for the app.
    abbrev IsFull : Type 0
    IsFull =
        (length (get_origin_dict ops stored origin s) ≡ max_apps_per_site)
        × (find_dict key (get_origin_dict ops stored origin s) ≡ none)

    full-no_dict : IsFull → get_app_dict key (get_origin_dict ops stored origin s) ≡ none
    unfolding get_app_dict app_dict_or_new
    full-no_dict full = rw (full.1, full.0) refl

    full-record :
        (off_the_record : Bool) (event : AppBannerEvent) (time : ℕ)
        → IsFull
        → record_banner_event ops stored off_the_record origin key event time s ≡ s
    unfolding record_banner_event record_in
    full-record off_the_record event time full = elim (Bool-cases (off_the_record || key == 0)) [
      | inl refused ↦ rw refused refl
      | inr allowed ↦ rw (allowed, full-no_dict full) refl
    ]

    full-no_event :
        (event : AppBannerEvent)
        → IsFull
        → get_single_banner_event ops stored origin key event s ≡ 0
    unfolding get_single_banner_event
    full-no_event event full = rw (full-no_dict full) refl

    full-shown :
        (p : Parameters) (now : ℕ)
        → IsFull
        → key ≢ 0
        → p.days_after_dismissed_to_show * day ≤ now
        → p.days_after_ignored_to_show * day ≤ now
        → should_show_banner ops stored p origin key now s ≡ no_error_detected
    unfolding should_show_banner
    full-shown p now full named d i =
        let name : (key == 0) ≡ false = ground arith in
        rw (name) (
          rw
            (
              full-no_event did_add_to_homescreen full,
              full-no_event did_block full,
              full-no_event did_show full,
            )
            (status_of-unrecorded p now d i))

  -- Where three apps of a site are remembered, no event of a further app is: whatever is recorded for
  -- it, its dismissal included, leaves the settings alone, and its banner may be shown at any time later
  -- than the two periods since the epoch.
  pub further_app_forgotten :
      (p : Parameters) (off_the_record : Bool) (origin key : ℕ) (event : AppBannerEvent)
      (time now : ℕ) (s : S)
      → length (get_origin_dict ops stored origin s) ≡ max_apps_per_site
      → find_dict key (get_origin_dict ops stored origin s) ≡ none
      → key ≢ 0
      → p.days_after_dismissed_to_show * day ≤ now
      → p.days_after_ignored_to_show * day ≤ now
      → let t = record_banner_event ops stored off_the_record origin key event time s in
        (t ≡ s) × (should_show_banner ops stored p origin key now t ≡ no_error_detected)
  further_app_forgotten p off_the_record origin key event time now s full missing named d i =
      let same = full-record origin key s off_the_record event time (full, missing) in
      (same, rw same (full-shown origin key s p now (full, missing) named d i))
