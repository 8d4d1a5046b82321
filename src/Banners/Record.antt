-- ===== src/Banners/Record.antt =====
-- app_banner_settings_helper.cc: what the recorded events are after another was recorded.
use chromium_log.Prelude.{
  ℕ, ◌≡◌, ◌≢◌, refl, sym, ap, subst, ◌∙◌, inl, inr, Bool, true, false, ◌&&◌, ◌||◌, not, [], ◌∷◌,
  Option, none, some, ◌==◌, ==→eq, ==-refl, ltb, if◌then◌else◌, length, Bool-cases, Option-cases,
  arith,
}
use chromium_log.Banners.Settings.{
  max_apps_per_site, AppBannerEvent, event_key, AppDict, Value, dictionary, other, OriginDict,
  SettingsOps, find_dict, set_dict, app_dict_or_new, get_app_dict, is_kept, is_flushed, set_time,
  or_empty, time_in, flush_if, get_origin_dict, get_single_banner_event, record_in,
  record_banner_event,
}

-- What HostContentSettingsMap promises.
pub record IsSettings {ℓ} {S : Type ℓ} (ops : SettingsOps S) : Type ℓ where
  pub get-set :
      (origin : ℕ) (v : Option OriginDict) (s : S)
      → ops.get_website_setting origin (ops.set_website_setting origin v s) ≡ v
  pub get-set_other :
      (origin origin' : ℕ) (v : Option OriginDict) (s : S)
      → origin' ≢ origin
      → ops.get_website_setting origin' (ops.set_website_setting origin v s)
        ≡ ops.get_website_setting origin' s
  pub get-flush :
      (origin : ℕ) (s : S)
      → ops.get_website_setting origin (ops.flush s) ≡ ops.get_website_setting origin s

find_dict-skip :
    (key k : ℕ) (value : Value) (d : OriginDict)
    → (k == key) ≡ false
    → find_dict key ((k, value) ∷ d) ≡ find_dict key d
unfolding find_dict
find_dict-skip key k (dictionary app) d n = rw n refl
find_dict-skip key k other d n = rw n refl

find_dict-head :
    (key k : ℕ) (value : Value) (d d' : OriginDict)
    → (k == key) ≡ true
    → find_dict key ((k, value) ∷ d) ≡ find_dict key ((k, value) ∷ d')
unfolding find_dict
find_dict-head key k (dictionary app) d d' n = rw n refl
find_dict-head key k other d d' n = rw n refl

find_dict-set_dict :
    (key : ℕ) (app : AppDict) (d : OriginDict) → find_dict key (set_dict key app d) ≡ some app
unfolding find_dict set_dict
find_dict-set_dict key app [] = rw (==-refl key) refl
find_dict-set_dict key app ((k, value) ∷ d) =
    let rest = find_dict-set_dict key app d in
    elim (Bool-cases (k == key)) [
      | inl e ↦ rw e (rw e refl)
      | inr n ↦ rw n (find_dict-skip key k value (set_dict key app d) n ∙ rest)
    ]

set_dict-others :
    (key key' : ℕ) (app : AppDict) (d : OriginDict)
    → key' ≢ key
    → find_dict key' (set_dict key app d) ≡ find_dict key' d
unfolding set_dict
set_dict-others key key' app [] n = find_dict-skip key' key (dictionary app) [] (ground arith)
set_dict-others key key' app ((k, value) ∷ d) n = elim (Bool-cases (k == key)) [
  | inl e ↦
      let skips : (k == key') ≡ false = ground arith in
      rw e
        (find_dict-skip key' k (dictionary app) d skips ∙ sym (find_dict-skip key' k value d skips))
  | inr other_key ↦
      let rest = set_dict-others key key' app d n in
      rw other_key (elim (Bool-cases (k == key')) [
        | inl e ↦ find_dict-head key' k value (set_dict key app d) d e
        | inr skips ↦
            find_dict-skip key' k value (set_dict key app d) skips
            ∙ rest
            ∙ sym (find_dict-skip key' k value d skips)
      ])
]

time_in-get_app_dict :
    (event key : ℕ) (d : OriginDict)
    → time_in event (get_app_dict key d) ≡ time_in event (find_dict key d)
unfolding get_app_dict app_dict_or_new
time_in-get_app_dict event key d = elim (Option-cases (find_dict key d)) [
  | inl e ↦ elim (Bool-cases (ltb (length d) max_apps_per_site)) [
    | inl room ↦ rw (e, room) refl
    | inr full ↦ rw (e, full) refl
  ]
  | inr (app, e) ↦ rw e refl
]

-- The time of an event in an origin's dictionary.
abbrev time_at : ℕ → ℕ → OriginDict → ℕ
time_at event key d = time_in event (get_app_dict key d)

-- A dictionary with one more time, in the dictionary that the app had or gets.
time_at-set :
    (event event' key key' time : ℕ) (app : AppDict) (d : OriginDict)
    → get_app_dict key d ≡ some app
    → time_at event' key' (set_dict key (set_time event time app) d)
      ≡ (if key' == key && event' == event then time else time_at event' key' d)
time_at-set event event' key key' time app d e =
    let changed = set_dict key (set_time event time app) d in
    time_in-get_app_dict event' key' changed ∙ elim (Bool-cases (key' == key)) [
      | inl same ↦
          subst
            (λ k.
              time_in event' (find_dict k changed)
              ≡ (if k == key && event' == event then time else time_at event' k d))
            (sym (==→eq key' key same))
            (rw (find_dict-set_dict key (set_time event time app) d, ==-refl key)
              (elim (Bool-cases (event' == event)) [
                | inl same_event ↦ rw same_event refl
                | inr other_event ↦ rw other_event (sym (ap (time_in event') e))
              ]))
      | inr differs ↦ rw differs (
          ap (time_in event') (set_dict-others key key' (set_time event time app) d (ground arith))
          ∙ sym (time_in-get_app_dict event' key' d))
    ]

-- Is the event taken up in the app's dictionary, if there is one?
abbrev pub is_taken : AppBannerEvent → Option AppDict → Bool
is_taken event none = false
is_taken event (some app) = not (is_kept event app)

module _ {ℓ} {S : Type ℓ} (ops : SettingsOps S) (stored : ℕ → ℕ) where
  -- Does `RecordBannerEvent` record the event?
  abbrev pub is_recorded : Bool → ℕ → ℕ → AppBannerEvent → S → Bool
  is_recorded off_the_record origin key event s =
      not (off_the_record || key == 0)
      && is_taken event (get_app_dict key (get_origin_dict ops stored origin s))

  get_origin_dict-put :
      (origin origin' : ℕ) (d : OriginDict) (s : S)
      → IsSettings ops
      → get_origin_dict ops stored origin' (ops.set_website_setting origin (some d) s)
        ≡ (if origin' == origin then d else get_origin_dict ops stored origin' s)
  get_origin_dict-put origin origin' d s laws = elim (Bool-cases (origin' == origin)) [
    | inl same ↦
        rw (==→eq origin' origin same, ==-refl origin)
          (ap or_empty (laws.get-set origin (some d) s))
    | inr differs ↦
        rw differs (ap or_empty (laws.get-set_other origin origin' (some d) s (ground arith)))
  ]

  pub get_origin_dict-set :
      (flushed : Bool) (origin origin' : ℕ) (d : OriginDict) (s : S)
      → IsSettings ops
      → get_origin_dict ops stored origin'
          (flush_if ops stored flushed (ops.set_website_setting origin (some d) s))
        ≡ (if origin' == origin then d else get_origin_dict ops stored origin' s)
  get_origin_dict-set true origin origin' d s laws =
      ap or_empty (laws.get-flush origin' (ops.set_website_setting origin (some d) s))
      ∙ get_origin_dict-put origin origin' d s laws
  get_origin_dict-set false origin origin' d s laws = get_origin_dict-put origin origin' d s laws

  record_in-refines :
      (origin key : ℕ) (event : AppBannerEvent) (time : ℕ) (app : Option AppDict) (s : S)
      (origin' key' event' : ℕ)
      → IsSettings ops
      → get_app_dict key (get_origin_dict ops stored origin s) ≡ app
      → time_at event' key'
          (get_origin_dict ops stored origin' (record_in ops stored origin key event time app s))
        ≡ (if is_taken event app
              && (origin' == origin && (key' == key && event' == event_key event))
            then stored time
            else time_at event' key' (get_origin_dict ops stored origin' s))
  unfolding record_in
  record_in-refines origin key event time none s origin' key' event' laws e = refl
  record_in-refines origin key event time (some app) s origin' key' event' laws e =
      elim (Bool-cases (is_kept event app)) [
        | inl kept ↦ rw kept refl
        | inr taken ↦
            let d = get_origin_dict ops stored origin s in
            let changed = set_dict key (set_time (event_key event) (stored time) app) d in
            rw taken (
              ap (time_at event' key')
                (get_origin_dict-set (is_flushed event) origin origin' changed s laws)
              ∙ elim (Bool-cases (origin' == origin)) [
                | inl same ↦
                    rw (==→eq origin' origin same, ==-refl origin)
                      (time_at-set (event_key event) event' key key' (stored time) app d e)
                | inr differs ↦ rw differs refl
              ])
      ]

  -- The recorded events, as a table by origin, app and event, after `RecordBannerEvent`: if the event is
  -- recorded its time, as far as it can be stored, takes the place of the one before, and every other
  -- time stays. It is recorded unless the profile is off the record, the name is empty, the site has no
  -- room for one more app, or it could be shown already before.
  pub record_banner_event-refines :
      (off_the_record : Bool) (origin key : ℕ) (event : AppBannerEvent) (time : ℕ) (s : S)
      (origin' key' : ℕ) (event' : AppBannerEvent)
      → IsSettings ops
      → get_single_banner_event ops stored origin' key' event'
          (record_banner_event ops stored off_the_record origin key event time s)
        ≡ (if is_recorded off_the_record origin key event s
              && (origin' == origin && (key' == key && event_key event' == event_key event))
            then stored time
            else get_single_banner_event ops stored origin' key' event' s)
  unfolding get_single_banner_event record_banner_event
  record_banner_event-refines off_the_record origin key event time s origin' key' event' laws =
      elim (Bool-cases (off_the_record || key == 0)) [
        | inl refused ↦ rw refused refl
        | inr allowed ↦ rw allowed (
            record_in-refines origin key event time
              (get_app_dict key (get_origin_dict ops stored origin s)) s origin' key'
              (event_key event') laws refl)
      ]
