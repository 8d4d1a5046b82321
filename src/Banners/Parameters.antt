-- ===== src/Banners/Parameters.antt =====
-- app_banner_settings_helper.cc: the bounds on banners, and the field trial that may change them.
use chromium_log.Prelude.{ℕ, ◌*◌, List, [], ◌∷◌, Option, none, some, ◌==◌, if◌then◌else◌}
use chromium_log.Prelude.Int.{ℤ, pos}

-- The globals that a field trial may change. Engagement is in a unit in which each bound is whole.
pub record Parameters : Type 0 where
  pub total_engagement_to_trigger : ℕ
  pub days_after_dismissed_to_show : ℕ
  pub days_after_ignored_to_show : ℕ

abbrev pub default_parameters : ℕ → Parameters
default_parameters unit = record {
  total_engagement_to_trigger = 2 * unit;
  days_after_dismissed_to_show = 90;
  days_after_ignored_to_show = 14;
}

-- What the field trial says: texts, here lists of characters, none where it says nothing.
pub record Trial : Type 0 where
  pub dismiss_param : List ℕ
  pub ignore_param : List ℕ
  pub total_param : List ℕ
  pub language_param : List ℕ

pub data LanguageOption : Type 0 where
  language_option_default language_option_add language_option_install : LanguageOption

-- base::StringToUint, and base::StringToDouble in units of engagement.
module _ (string_to_uint : List ℕ → Option ℕ) (string_to_double : List ℕ → Option ℤ) where
  abbrev set_days : Option ℕ → Option ℕ → Parameters → Parameters
  set_days (some dismiss) (some ignore) p = record p {
    days_after_dismissed_to_show = dismiss;
    days_after_ignored_to_show = ignore;
  }
  set_days _ _ p = p

  unfoldable pub update_days_between_showing : Trial → Parameters → Parameters
  update_days_between_showing trial p = elim trial.dismiss_param [
    | [] ↦ p
    | _ ∷ _ ↦ elim trial.ignore_param [
      | [] ↦ p
      | _ ∷ _ ↦ set_days (string_to_uint trial.dismiss_param) (string_to_uint trial.ignore_param) p
    ]
  ]

  abbrev set_engagement : Option ℤ → Parameters → Parameters
  set_engagement (some (pos total)) p = record p { total_engagement_to_trigger = total }
  set_engagement _ p = p

  unfoldable pub update_site_engagement_to_trigger : Trial → Parameters → Parameters
  update_site_engagement_to_trigger trial p = elim trial.total_param [
    | [] ↦ p
    | _ ∷ _ ↦ set_engagement (string_to_double trial.total_param) p
  ]

  unfoldable pub update_from_field_trial : Trial → Parameters → Parameters
  unfolding update_days_between_showing update_site_engagement_to_trigger
  update_from_field_trial trial p =
      update_site_engagement_to_trigger trial (update_days_between_showing trial p)

  abbrev language_of : Option ℕ → LanguageOption
  language_of (some n) =
      if n == 1
      then language_option_add
      else if n == 2
      then language_option_install
      else language_option_default
  language_of none = language_option_default

  unfoldable pub get_homescreen_language_option : Trial → LanguageOption
  get_homescreen_language_option trial = elim trial.language_param [
    | [] ↦ language_option_default
    | _ ∷ _ ↦ language_of (string_to_uint trial.language_param)
  ]
