-- ===== src/InternalAuth/Defs.antt =====
-- browser/internal_auth.cc: the constants, the checks on what callers supply, and the passport.
-- A string is the list of its bytes, and the map of variables the list of its pairs in their order.
-- What comes from base and crypto is a parameter, `Base`.
use chromium_log.Prelude.{
  ℕ, zero, suc, ◌+◌, ◌-◌, ◌*◌, ◌/◌, ◌^◌, Bool, true, false, ◌&&◌, ◌||◌, not, List, [], ◌∷◌, ◌++◌,
  Option, none, some, ◌==◌, ltb, leb, length, if◌then◌else◌,
}
use chromium_log.Prelude.Int.{ℤ}

abbrev pub Bytes : Type 0
Bytes = List ℕ

abbrev pub VarValueMap : Type 0
VarValueMap = List (Bytes × Bytes)

-- Functions of base and crypto. An HMAC engine is known by the key that it was initialised with.
pub record Base : Type 0 where
  pub is_string_utf8 : Bytes → Bool
  pub is_string_ascii : Bytes → Bool
  pub int64_to_string : ℕ → Bytes
  pub string_to_int64 : Bytes → Option ℤ
  pub base64_encode : Bytes → Bytes
  pub hmac_init : Bytes → Bool
  pub hmac_sign : Bytes → Bytes → Option Bytes

abbrev pub tick_us : ℕ
tick_us = 10000

abbrev pub verification_window_ticks : ℕ
verification_window_ticks = 2000

abbrev pub generation_window_ticks : ℕ
generation_window_ticks = 20

abbrev pub key_regeneration_soft_ticks : ℕ
key_regeneration_soft_ticks = 500000

abbrev pub key_regeneration_hard_ticks : ℕ
key_regeneration_hard_ticks = key_regeneration_soft_ticks * 2

abbrev pub vars_limit : ℕ
vars_limit = 16

abbrev pub string_length_limit : ℕ
string_length_limit = 512

abbrev pub item_separator : ℕ
item_separator = 10

abbrev pub var_value_separator : ℕ
var_value_separator = b'='

abbrev pub key_size_in_bytes : ℕ
key_size_in_bytes = 128 / 8

abbrev pub hmac_size_in_bytes : ℕ
hmac_size_in_bytes = 256 / 8

abbrev pub base64_per_raw : ℕ → ℕ
base64_per_raw x = if ltb 0 x then ((x - 1) / 3 + 1) * 4 else 0

abbrev pub tick_string_length : ℕ
tick_string_length = 20

abbrev pub passport_size : ℕ
passport_size = base64_per_raw hmac_size_in_bytes + tick_string_length

-- `GetCurrentTick`, from the microseconds of base::Time::Now.
unfoldable pub get_current_tick : ℕ → ℕ
get_current_tick now =
    let tick = now / tick_us in
    if ltb tick verification_window_ticks
      || ltb tick key_regeneration_hard_ticks
      || ltb (2 ^ 63 - 1 - key_regeneration_hard_ticks) tick
    then 0
    else tick

-- `string::find_first_of` of one character: is it there?
abbrev pub has_byte : ℕ → Bytes → Bool
has_byte b [] = false
has_byte b (c ∷ cs) = c == b || has_byte b cs

abbrev pub is_empty : Bytes → Bool
is_empty [] = true
is_empty (_ ∷ _) = false

abbrev pub is_digit : ℕ → Bool
is_digit c = leb b'0' c && leb c b'9'

-- A letter, a digit or `_`: a character of `kAllowedChars`.
abbrev pub is_allowed_char : ℕ → Bool
is_allowed_char c =
    (leb b'A' c && leb c b'Z') || (leb b'a' c && leb c b'z') || is_digit c || c == b'_'

abbrev pub all_allowed : Bytes → Bool
all_allowed [] = true
all_allowed (c ∷ cs) = is_allowed_char c && all_allowed cs

abbrev pub starts_with_digit : Bytes → Bool
starts_with_digit [] = false
starts_with_digit (c ∷ _) = is_digit c

-- What `std::string(n, '0')` holds.
abbrev pub zeros : ℕ → Bytes
zeros zero = []
zeros (suc n) = b'0' ∷ zeros n

-- `var=value` and a separator for each variable.
unfoldable pub convert_var_value_map_to_blob : VarValueMap → Bytes
convert_var_value_map_to_blob [] = []
convert_var_value_map_to_blob ((var, value) ∷ items) =
    var ++ var_value_separator ∷ (value ++ item_separator ∷ convert_var_value_map_to_blob items)

-- The string of '0' with the HMAC written over its front and the tick over its end.
unfoldable pub place : Bytes → Bytes → Bytes
place hmac tick_decimal =
    hmac ++ (zeros (passport_size - length hmac - length tick_decimal) ++ tick_decimal)

module _ (base : Base) where
  open base use {is_string_utf8, is_string_ascii, int64_to_string, base64_encode, hmac_sign}

  unfoldable pub is_domain_sane : Bytes → Bool
  is_domain_sane domain =
      not (is_empty domain)
      && leb (length domain) string_length_limit
      && is_string_utf8 domain
      && not (has_byte item_separator domain)

  unfoldable pub is_var_sane : Bytes → Bool
  is_var_sane var =
      not (is_empty var)
      && leb (length var) string_length_limit
      && is_string_ascii var
      && all_allowed var
      && not (starts_with_digit var)

  unfoldable pub is_value_sane : Bytes → Bool
  is_value_sane value =
      leb (length value) string_length_limit
      && is_string_utf8 value
      && not (has_byte item_separator value)

  unfoldable pub are_items_sane : VarValueMap → Bool
  are_items_sane [] = true
  are_items_sane ((var, value) ∷ items) =
      is_var_sane var && is_value_sane value && are_items_sane items

  unfoldable pub is_var_value_map_sane : VarValueMap → Bool
  unfolding are_items_sane
  is_var_value_map_sane items =
      if ltb vars_limit (length items) then false else are_items_sane items

  -- The message that is signed.
  unfoldable pub passport_blob : Bytes → VarValueMap → ℕ → Bytes
  unfolding convert_var_value_map_to_blob
  passport_blob domain items tick =
      domain
      ++ item_separator
        ∷ (convert_var_value_map_to_blob items ++ item_separator ∷ int64_to_string tick)

  -- `CreatePassport` from the signature on; the empty string where it returns early.
  unfoldable pub finish_passport : Option Bytes → Bytes → Bytes
  unfolding place
  finish_passport none tick_decimal = []
  finish_passport (some hmac) tick_decimal =
      if length (base64_encode hmac) == base64_per_raw hmac_size_in_bytes
      then place (base64_encode hmac) tick_decimal
      else []

  unfoldable pub create_passport : Bytes → VarValueMap → ℕ → Bytes → Bytes
  unfolding passport_blob finish_passport
  create_passport domain items tick engine =
      finish_passport (hmac_sign engine (passport_blob domain items tick)) (int64_to_string tick)
