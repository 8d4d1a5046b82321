-- ===== src/InternalAuth/Examples.antt =====
-- Passports at concrete inputs, with a toy base library: a tick is written as one character, and an
-- HMAC in base64 is 44 zeros.
pub mod Decimal
use chromium_log.Prelude.{
  ℕ, zero, suc, ◌<◌, ◌≡◌, ◌⊎◌, inl, refl, true, false, [], ◌∷◌, ◌++◌, Option, none, some, arith,
  length, run,
}
use chromium_log.Prelude.Int.{ℤ, pos}
use chromium_log.InternalAuth.Defs.{
  Bytes, VarValueMap, Base, zeros, get_current_tick, is_domain_sane, is_var_sane, is_value_sane,
  is_var_value_map_sane, create_passport,
}
use chromium_log.InternalAuth.Blob.{passport_blob-injective}
use chromium_log.InternalAuth.Ticks.{has_tick, insert_tick, forget_below}
use chromium_log.InternalAuth.Verification.{
  Verifier, change, new_verifier, get_verification_window_ticks, named_tick, admissible,
  pre_verify_passport, is_reference, is_signed, record_tick, verify_passport, step,
}
use chromium_log.InternalAuth.Verification.Replay.{IsSpent, passport_accepted_once}
use chromium_log.InternalAuth.Verification.Acceptance.{IsTimely, verify_sound, verify_complete}
use chromium_log.InternalAuth.Generation.{
  Auth, Times, latest, renew_key, get_unused_tick, generate_passport, take_tick, free_tick,
  sign_tick,
}
use chromium_log.InternalAuth.Generation.Fresh.{IsFresh, now_tick, get_unused_tick-IsFresh}
use chromium_log.InternalAuth.Generation.Window
use chromium_log.InternalAuth.Generation.Window.{IsLimited, run_generator-IsLimited}

abbrev read_last : Bytes → Option ℤ
read_last [] = none
read_last (c ∷ []) = some (pos c)
read_last (c ∷ d ∷ cs) = read_last (d ∷ cs)

abbrev toy : Base
toy = record {
  is_string_utf8 = λ s. true;
  is_string_ascii = λ s. true;
  int64_to_string = λ tick. tick ∷ [];
  string_to_int64 = read_last;
  base64_encode = λ raw. zeros 44;
  hmac_init = λ key. true;
  hmac_sign = λ key message. some message;
}

-- 15 000 seconds are 1 500 000 ticks.
abbrev noon : ℕ
noon = 15_000_000_000

abbrev tick : ℕ
tick = 1_500_000

abbrev a_key : Bytes
a_key = zeros 16

abbrev a_domain : Bytes
a_domain = b'd' ∷ []

abbrev items : VarValueMap
items = (b'v' ∷ [], b'1' ∷ []) ∷ []

abbrev keyed : Verifier
keyed = record new_verifier { key = a_key; engine = some a_key; key_change_tick = tick }

abbrev passport : Bytes
passport = create_passport toy a_domain items tick a_key

passport_blob-injective_example : (a_domain ≡ a_domain) × (items ≡ items) × (tick ≡ tick)
unfolding is_domain_sane is_var_value_map_sane is_var_sane is_value_sane
passport_blob-injective_example =
    passport_blob-injective toy (λ s t e. cc) a_domain a_domain items items tick tick refl refl refl
      refl refl

passport_accepted : (verify_passport toy 0 noon passport a_domain items keyed).1 ≡ true
unfolding verify_passport get_verification_window_ticks get_current_tick pre_verify_passport
    named_tick admissible is_domain_sane is_var_value_map_sane is_var_sane is_value_sane is_signed
    is_reference create_passport record_tick insert_tick has_tick new_verifier
passport_accepted = refl

-- Neither the same domain nor another, nor a new key, makes it pass a second time.
passport_accepted_once_example :
    let w =
      run
        (step toy)
        (verify_passport toy 0 noon passport a_domain items keyed).0
        (change noon a_key ∷ []) in
    verify_passport toy 0 noon passport (b'e' ∷ []) [] w ≡ (w, false)
passport_accepted_once_example =
    passport_accepted_once toy keyed passport a_domain (b'e' ∷ []) items [] 0 noon 0 noon
      (change noon a_key ∷ []) passport_accepted

verify_sound_example : is_domain_sane toy a_domain ≡ true
verify_sound_example = (verify_sound toy 0 noon passport a_domain items keyed passport_accepted).6

keyed-IsTimely : IsTimely toy (get_verification_window_ticks 0) (get_current_tick noon) tick keyed
unfolding get_verification_window_ticks get_current_tick new_verifier has_tick
keyed-IsTimely = record {
  positive = omega arith;
  current_lit = omega arith;
  lit = omega arith;
  recent = omega arith;
  key_alive = omega arith;
  key_covers = omega arith;
  unused = refl;
}

verify_complete_example :
    let (after, accepted) = verify_passport toy 0 noon passport a_domain items keyed in
    (accepted ≡ true)
    × (after.key ≡ a_key)
    × (after.engine ≡ some a_key)
    × (after.key_change_tick ≡ tick)
    × IsSpent tick after
    × ((s : ℕ) → IsSpent s keyed → IsSpent s after)
unfolding is_domain_sane is_var_value_map_sane is_var_sane is_value_sane create_passport named_tick
    new_verifier
verify_complete_example =
    verify_complete toy 0 noon tick a_domain items a_key keyed refl (λ e. cc) keyed-IsTimely refl
      refl refl refl refl

abbrev ready : Auth
ready = record {
  engine = some a_key;
  key_regeneration_tick = tick;
  generated_ticks = [];
  verifier = keyed;
}

abbrev times : Times
times = record { asked = noon; regenerated = noon; changed = noon }

get_unused_tick-IsFresh_example :
    let r = get_unused_tick toy times a_key a_domain ready in
    ((r.1 ≡ 0) × (length r.0.generated_ticks ≡ 20))
    ⊎ (IsFresh (now_tick times ready) r.1 [] r.0.generated_ticks
        × (length r.0.generated_ticks < 20))
unfolding get_current_tick latest is_domain_sane
get_unused_tick-IsFresh_example =
    get_unused_tick-IsFresh toy times a_key a_domain ready (omega arith) tt refl refl
      (inl (ground arith))

run_generator-IsLimited_example : IsLimited (
    run
      (Window.step toy)
      ready
      (Window.generate times a_key a_domain items ∷ Window.new_key times a_key ∷ []))
unfolding get_current_tick
run_generator-IsLimited_example =
    run_generator-IsLimited toy ready
      (Window.generate times a_key a_domain items ∷ Window.new_key times a_key ∷ []) refl
      (omega arith, (tt, tt))
