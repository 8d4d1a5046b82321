-- ===== src/Banners/Settings.antt =====
-- browser/banners/app_banner_settings_helper.cc: what is remembered of the banners of web sites. A site's
-- origin, an app's package name or start URL, and a URL's scope are numbers. Times are internal values
-- in microseconds, 0 for the null time. A setting holds base::DictionaryValue, here a list of keys and
-- values; an event's time is in it as a double, and what comes back of a time is `stored` of it.
use chromium_log.Prelude.{
  ℕ, zero, suc, ◌+◌, ◌-◌, ◌*◌, ◌/◌, Bool, true, false, ◌||◌, not, List, [], ◌∷◌, Option, none, some,
  ◌==◌, ltb, leb, if◌then◌else◌, length,
}
use chromium_log.Prelude.Int.{ℤ, pos, negsuc}
use chromium_log.Banners.Parameters.{Parameters}

abbrev pub max_apps_per_site : ℕ
max_apps_per_site = 3

abbrev pub recent_last_launch_in_days : ℕ
recent_last_launch_in_days = 10

abbrev pub day : ℕ
day = 86400000000

abbrev pub minute : ℕ
minute = 60000000

pub data AppBannerEvent : Type 0 where
  could_show did_show did_block did_add_to_homescreen : AppBannerEvent

-- The index of the event in kBannerEventKeys, for its key.
abbrev pub event_key : AppBannerEvent → ℕ
event_key could_show = 0
event_key did_show = 1
event_key did_block = 2
event_key did_add_to_homescreen = 3

-- The keys of the two dictionaries: an app's has times by the keys of events, and an origin's has
-- the apps'. A value that is no dictionary is `other`.
abbrev pub AppDict : Type 0
AppDict = ℕ → Option ℕ

pub data Value : Type 0 where
  dictionary : AppDict → Value
  other : Value

abbrev pub OriginDict : Type 0
OriginDict = List (ℕ × Value)

pub data StatusCode : Type 0 where
  no_error_detected package_name_or_start_url_empty already_installed previously_blocked
        previously_ignored :
      StatusCode

-- The operations of HostContentSettingsMap for the setting of banners.
pub record SettingsOps {ℓ} (S : Type ℓ) : Type ℓ where
  pub get_website_setting : ℕ → S → Option OriginDict
  pub set_website_setting : ℕ → Option OriginDict → S → S
  pub flush : S → S

abbrev negative : ℕ → ℤ
negative zero = pos 0
negative (suc n) = negsuc n

-- GetDictionaryWithoutPathExpansion.
unfoldable pub find_dict : ℕ → OriginDict → Option AppDict
find_dict key [] = none
find_dict key ((k, dictionary app) ∷ entries) =
    let rest = find_dict key entries in if k == key then some app else rest
find_dict key ((k, other) ∷ entries) =
    let rest = find_dict key entries in if k == key then none else rest

-- SetWithoutPathExpansion, which is also how a change of an app's dictionary gets into the origin's.
unfoldable pub set_dict : ℕ → AppDict → OriginDict → OriginDict
set_dict key app [] = (key, dictionary app) ∷ []
set_dict key app ((k, value) ∷ entries) =
    let rest = set_dict key app entries in
    if k == key then (k, dictionary app) ∷ entries else (k, value) ∷ rest

-- `GetAppDict`, given the dictionary that it finds: there may be none, and no room.
unfoldable pub app_dict_or_new : Option AppDict → OriginDict → Option AppDict
app_dict_or_new (some app) origin_dict = some app
app_dict_or_new none origin_dict =
    if ltb (length origin_dict) max_apps_per_site then some (λ event. none) else none

unfoldable pub get_app_dict : ℕ → OriginDict → Option AppDict
unfolding app_dict_or_new find_dict
get_app_dict key origin_dict = app_dict_or_new (find_dict key origin_dict) origin_dict

-- Is there a time for the event that is not to be overwritten?
abbrev pub is_some {ℓ} : {A : Type ℓ} → Option A → Bool
is_some none = false
is_some (some _) = true

abbrev pub is_kept : AppBannerEvent → AppDict → Bool
is_kept could_show app = is_some (app 0)
is_kept _ app = false

-- Is the setting flushed after the event?
abbrev pub is_flushed : AppBannerEvent → Bool
is_flushed did_add_to_homescreen = true
is_flushed _ = false

abbrev pub set_time : ℕ → ℕ → AppDict → AppDict
set_time key time app k = if k == key then some time else app k

abbrev pub or_null : Option ℕ → ℕ
or_null none = 0
or_null (some time) = time

abbrev pub or_empty : Option OriginDict → OriginDict
or_empty none = []
or_empty (some origin_dict) = origin_dict

abbrev pub time_in : ℕ → Option AppDict → ℕ
time_in event none = 0
time_in event (some app) = or_null (app event)

-- The loop of `WasLaunchedRecently`.
unfoldable pub launched_recently : ℕ → ℕ → OriginDict → Bool
launched_recently instant_apps_key now [] = false
launched_recently instant_apps_key now ((k, other) ∷ entries) =
    launched_recently instant_apps_key now entries
launched_recently instant_apps_key now ((k, dictionary app) ∷ entries) =
    let rest = launched_recently instant_apps_key now entries in
    elim (app 3) [
      | none ↦ rest
      | some time ↦
          if k == instant_apps_key
          then rest
          else leb now (time + recent_last_launch_in_days * day) || rest
    ]

-- The status of the times at which an app was added, blocked and shown.
unfoldable pub status_of : Parameters → ℕ → ℕ → ℕ → ℕ → StatusCode
status_of p time added blocked shown =
    if not (added == 0)
    then already_installed
    else if ltb time (blocked + p.days_after_dismissed_to_show * day)
    then previously_blocked
    else if ltb time (shown + p.days_after_ignored_to_show * day)
    then previously_ignored
    else no_error_detected

-- The Boolean is --bypass-app-banner-engagement-checks.
unfoldable pub has_sufficient_engagement : Bool → Parameters → ℕ → Bool
has_sufficient_engagement bypass p total_engagement =
    bypass || leb p.total_engagement_to_trigger total_engagement

module _ {ℓ} {S : Type ℓ} (ops : SettingsOps S) (stored : ℕ → ℕ) where
  abbrev pub get_origin_dict : ℕ → S → OriginDict
  get_origin_dict origin s = or_empty (ops.get_website_setting origin s)

  unfoldable pub get_single_banner_event : ℕ → ℕ → AppBannerEvent → S → ℕ
  unfolding get_app_dict
  get_single_banner_event origin key event s =
      time_in (event_key event) (get_app_dict key (get_origin_dict origin s))

  abbrev pub flush_if : Bool → S → S
  flush_if true s = ops.flush s
  flush_if false s = s

  -- The end of `RecordBannerEvent`, given the app's dictionary.
  unfoldable pub record_in : ℕ → ℕ → AppBannerEvent → ℕ → Option AppDict → S → S
  unfolding set_dict
  record_in origin key event time none s = s
  record_in origin key event time (some app) s =
      if is_kept event app
      then s
      else flush_if (is_flushed event) (
          ops.set_website_setting origin
            (some (
              set_dict key (set_time (event_key event) (stored time) app)
                (get_origin_dict origin s)))
            s)

  -- The profile is off the record or not. The empty name is 0.
  unfoldable pub record_banner_event : Bool → ℕ → ℕ → AppBannerEvent → ℕ → S → S
  unfolding record_in get_app_dict
  record_banner_event off_the_record origin key event time s =
      if off_the_record || key == 0
      then s
      else record_in origin key event time (get_app_dict key (get_origin_dict origin s)) s

  unfoldable pub record_banner_install_event : Bool → ℕ → ℕ → ℕ → S → S
  unfolding record_banner_event
  record_banner_install_event off_the_record origin key now s =
      record_banner_event off_the_record origin key did_add_to_homescreen now s

  unfoldable pub record_banner_dismiss_event : Bool → ℕ → ℕ → ℕ → S → S
  unfolding record_banner_event
  record_banner_dismiss_event off_the_record origin key now s =
      record_banner_event off_the_record origin key did_block now s

  unfoldable pub should_show_banner : Parameters → ℕ → ℕ → ℕ → S → StatusCode
  unfolding get_single_banner_event status_of
  should_show_banner p origin key time s =
      if key == 0
      then package_name_or_start_url_empty
      else status_of p time (get_single_banner_event origin key did_add_to_homescreen s)
          (get_single_banner_event origin key did_block s)
          (get_single_banner_event origin key did_show s)

  -- The minutes that are sampled; a time before the first visit gives a negative number.
  unfoldable pub minutes_from_first_visit_to_show : ℕ → ℕ → ℕ → S → ℤ
  unfolding get_single_banner_event
  minutes_from_first_visit_to_show origin key time s =
      let first = get_single_banner_event origin key could_show s in
      if first == 0
      then pos 0
      else if leb first time
      then pos ((time - first) / minute)
      else negative ((first - time) / minute)

  unfoldable pub was_launched_recently : ℕ → ℕ → ℕ → S → Bool
  unfolding launched_recently
  was_launched_recently instant_apps_key origin now s =
      launched_recently instant_apps_key now (get_origin_dict origin s)

  unfoldable pub clear_history_for_urls : List ℕ → S → S
  clear_history_for_urls [] s = s
  clear_history_for_urls (origin ∷ origins) s =
      clear_history_for_urls origins (ops.flush (ops.set_website_setting origin none s))
