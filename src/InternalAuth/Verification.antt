-- ===== src/InternalAuth/Verification.antt =====
-- browser/internal_auth.cc: InternalAuthVerificationService. The public functions hold a lock around
-- each call, so the calls are steps. The time of a call is an argument, and so is the static
-- `verification_window_seconds_`, which only tests change. A tick that is verified is positive, and no
-- tick is near the end of int64_t, so sums do not wrap (`get_current_tick_range`).
pub mod Replay
pub mod Acceptance
use chromium_log.Prelude.{
  ℕ, zero, suc, ◌+◌, ◌-◌, ◌*◌, ◌/◌, ◌%◌, ◌^◌, ◌≤◌, ◌<◌, ◌≡◌, max, min, Bool, true, false, ◌&&◌,
  ◌||◌, not, List, [], ◌∷◌, Option, none, some, ◌==◌, ltb, leb, length, if◌then◌else◌, drop,
}
use chromium_log.Prelude.Int.{ℤ, pos, negsuc}
use chromium_log.InternalAuth.Defs.{
  Bytes, VarValueMap, Base, tick_us, verification_window_ticks, key_regeneration_hard_ticks,
  key_size_in_bytes, hmac_size_in_bytes, base64_per_raw, passport_size, get_current_tick, is_empty,
  is_domain_sane, is_var_value_map_sane, create_passport,
}
use chromium_log.InternalAuth.Ticks.{insert_tick, has_tick, forget_below}

-- InternalAuthVerification::get_verification_window_ticks. The candidate is cut to the 32 bits of an
-- int; a negative one gives 1, as 0 does.
unfoldable pub get_verification_window_ticks : ℕ → ℕ
get_verification_window_ticks verification_window_seconds =
    let wrapped = verification_window_seconds * 1000000 / tick_us % 2 ^ 32 in
    let candidate =
      (if ltb 0 verification_window_seconds
        then if ltb wrapped (2 ^ 31) then wrapped else 0
        else verification_window_ticks) in
    max 1 (min candidate verification_window_ticks)

pub record Verifier : Type 0 where
  pub key : Bytes
  pub old_key : Bytes
  pub engine : Option Bytes
  pub old_engine : Option Bytes
  pub key_change_tick : ℕ
  pub used_ticks : List ℕ  -- the largest first
  pub dark_tick : ℕ

unfoldable pub new_verifier : Verifier
new_verifier = record {
  key = [];
  old_key = [];
  engine = none;
  old_engine = none;
  key_change_tick = 0;
  used_ticks = [];
  dark_tick = 0;
}

abbrev pub is_null : Option Bytes → Bool
is_null none = true
is_null (some _) = false

abbrev pub bytes_eq : Bytes → Bytes → Bool
bytes_eq [] [] = true
bytes_eq [] (_ ∷ _) = false
bytes_eq (_ ∷ _) [] = false
bytes_eq (x ∷ xs) (y ∷ ys) = x == y && bytes_eq xs ys

-- The tick that a passport names: what base::StringToInt64 makes of its end.
unfoldable pub named_tick : Base → Bytes → Option ℤ
named_tick base passport = base.string_to_int64 (drop (base64_per_raw hmac_size_in_bytes) passport)

-- The tests on the tick that `PreVerifyPassport` reads. A negative tick is at most `dark_tick_`.
unfoldable pub admissible : ℕ → ℕ → Verifier → Option ℤ → ℕ
admissible window current_tick v none = 0
admissible window current_tick v (some (negsuc _)) = 0
admissible window current_tick v (some (pos tick)) =
    if leb tick v.dark_tick
      || ltb (v.key_change_tick + key_regeneration_hard_ticks) tick
      || ltb tick (current_tick - window)
      || has_tick tick v.used_ticks
    then 0
    else tick

-- Record a used tick, and consider pruning.
unfoldable pub record_tick : ℕ → ℕ → ℕ → Verifier → Verifier
record_tick window current_tick tick v =
    let ticks = insert_tick tick v.used_ticks in
    let dark = max v.dark_tick (current_tick - window) in
    if ltb 50 (length ticks)
    then record v { dark_tick = dark; used_ticks = forget_below (dark + 1) ticks }
    else record v { used_ticks = ticks }

-- The calls that other code makes.
pub data Call : Type 0 where
  verify : ℕ → ℕ → Bytes → Bytes → VarValueMap → Call
  change : ℕ → Bytes → Call

module _ (base : Base) where
  -- The tick bound to the passport, or zero on failure.
  unfoldable pub pre_verify_passport : ℕ → Bytes → Bytes → ℕ → Verifier → ℕ
  pre_verify_passport window passport domain current_tick v =
      if not (length passport == passport_size)
        || not (base.is_string_ascii passport)
        || not (is_domain_sane base domain)
        || leb current_tick v.dark_tick
        || ltb (v.key_change_tick + key_regeneration_hard_ticks) current_tick
        || is_empty v.key
        || is_null v.engine
      then 0
      else admissible window current_tick v (named_tick base passport)

  -- Is it the passport that this engine makes? `CreatePassport` is not called without an engine.
  unfoldable pub is_reference : Bytes → Bytes → VarValueMap → ℕ → Option Bytes → Bool
  is_reference passport domain items tick none = false
  is_reference passport domain items tick (some engine) =
      bytes_eq passport (create_passport base domain items tick engine)

  -- The comparison with the current key and, where it may be meant, with the old one.
  unfoldable pub is_signed : ℕ → Bytes → Bytes → VarValueMap → ℕ → Verifier → Bool
  is_signed window passport domain items tick v =
      if not (is_reference passport domain items tick v.engine)
      then if ltb (v.key_change_tick + window) tick
        then false
        else if is_empty v.old_key || is_null v.old_engine
        then false
        else is_reference passport domain items tick v.old_engine
      else true

  unfoldable pub verify_passport : ℕ → ℕ → Bytes → Bytes → VarValueMap → Verifier → Verifier × Bool
  verify_passport window_seconds now passport domain items v =
      let window = get_verification_window_ticks window_seconds in
      let current_tick = get_current_tick now in
      let tick = pre_verify_passport window passport domain current_tick v in
      if tick == 0
      then (v, false)
      else if not (is_var_value_map_sane base items)
      then (v, false)
      else if not (is_signed window passport domain items tick v)
      then (v, false)
      else (record_tick window current_tick tick v, true)

  unfoldable pub change_key : ℕ → Bytes → Verifier → Verifier
  change_key now key v =
      let w = record v { old_key = v.key; key = []; old_engine = v.engine; engine = none } in
      if not (length key == key_size_in_bytes)
      then w
      else if not (base.hmac_init key)
      then w
      else record w { engine = some key; key = key; key_change_tick = get_current_tick now }

  unfoldable pub step : Verifier → Call → Verifier
  step v (verify window_seconds now passport domain items) =
      (verify_passport window_seconds now passport domain items v).0
  step v (change now key) = change_key now key v
