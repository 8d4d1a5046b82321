-- ===== src/InternalAuth/Generation.antt =====
-- browser/internal_auth.cc: InternalAuthGenerationService, which changes the verifier's key with its
-- own. Random bytes and the times at which the clock is read are arguments.
pub mod Fresh
pub mod Window
use chromium_log.Prelude.{
  ℕ, zero, suc, ◌+◌, ◌-◌, ◌≤◌, ◌<◌, ◌≡◌, Bool, true, false, not, List, [], ◌∷◌, Option, none, some,
  ◌==◌, ltb, leb, length, if◌then◌else◌,
}
use chromium_log.InternalAuth.Defs.{
  Bytes, VarValueMap, Base, generation_window_ticks, key_regeneration_hard_ticks, get_current_tick,
  is_domain_sane, is_var_value_map_sane, create_passport,
}
use chromium_log.InternalAuth.Ticks.{insert_tick, forget_below}
use chromium_log.InternalAuth.Verification.{Verifier, change_key, is_null}

-- The generator and the verifier that it hands its keys to.
pub record Auth : Type 0 where
  pub engine : Option Bytes
  pub key_regeneration_tick : ℕ
  pub generated_ticks : List ℕ  -- its `used_ticks_`, the largest first
  pub verifier : Verifier

-- When the clock is read: in `GetUnusedTick`, and twice for a new key.
pub record Times : Type 0 where
  pub asked : ℕ
  pub regenerated : ℕ
  pub changed : ℕ

-- `used_ticks_.back()` if it is later than the current tick.
unfoldable pub latest : ℕ → List ℕ → ℕ
latest current [] = current
latest current (t ∷ ts) = if ltb current t then t else current

-- The search of `GetUnusedTick`, with the rounds left: `used_ticks_[idx]` goes down the deque with
-- the tick, and an index below 0 is the end of the list. No round left is NOTREACHED.
unfoldable pub free_tick : ℕ → ℕ → List ℕ → ℕ
free_tick zero tick ts = 0
free_tick (suc n) tick [] = tick
free_tick (suc n) tick (t ∷ ts) =
    let rest = free_tick n (tick - 1) ts in if t == tick then rest else tick

module _ (base : Base) where
  unfoldable pub generate_new_key : Times → Bytes → Auth → Auth
  generate_new_key times key a = if not (base.hmac_init key) then a else record a {
    engine = some key;
    key_regeneration_tick = get_current_tick times.regenerated;
    verifier = change_key base times.changed key a.verifier;
  }

  abbrev pub is_key_alive : ℕ → Auth → Bool
  is_key_alive current a = ltb current (a.key_regeneration_tick + key_regeneration_hard_ticks)

  -- The loop that regenerates the key at most once.
  unfoldable pub renew_key : Times → Bytes → ℕ → Auth → Auth
  unfolding generate_new_key
  renew_key times key current a = if is_key_alive current a then a else generate_new_key times key a

  -- `GetUnusedTick` once the key is known to be alive.
  unfoldable pub take_tick : ℕ → Auth → Auth × ℕ
  unfolding free_tick
  take_tick current a =
      let kept = forget_below (current + 1 - generation_window_ticks) a.generated_ticks in
      let b = record a { generated_ticks = kept } in
      if leb generation_window_ticks (length kept)
      then (b, 0)
      else (b, free_tick generation_window_ticks current kept)

  -- Returns zero on failure.
  unfoldable pub get_unused_tick : Times → Bytes → Bytes → Auth → Auth × ℕ
  get_unused_tick times key domain a =
      if is_null a.engine
      then (a, 0)
      else if not (is_domain_sane base domain)
      then (a, 0)
      else let current = latest (get_current_tick times.asked) a.generated_ticks in
        let b = renew_key times key current a in
        if not (is_key_alive current b) then (b, 0) else take_tick current b

  -- The end of `GeneratePassport`. Without an engine there is no call of `CreatePassport`.
  unfoldable pub sign_tick : Bytes → VarValueMap → ℕ → Option Bytes → Auth → Auth × Bytes
  sign_tick domain items tick none a = (a, [])
  sign_tick domain items tick (some engine) a = (
    record a { generated_ticks = insert_tick tick a.generated_ticks },
    create_passport base domain items tick engine,
  )

  -- `GeneratePassport` with the tick 0, as InternalAuthGeneration calls it.
  unfoldable pub generate_passport : Times → Bytes → Bytes → VarValueMap → Auth → Auth × Bytes
  generate_passport times key domain items a =
      let (b, tick) = get_unused_tick times key domain a in
      if tick == 0
      then (b, [])
      else if not (is_var_value_map_sane base items)
      then (b, [])
      else sign_tick domain items tick b.engine b
