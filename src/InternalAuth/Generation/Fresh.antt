-- ===== src/InternalAuth/Generation/Fresh.antt =====
-- The ticks of the generator: each is new, and at most twenty lie in any window.
use chromium_log.Prelude.{
  ℕ, zero, suc, ◌+◌, ◌-◌, ◌≤◌, ◌<◌, ◌≡◌, ◌≢◌, ◌⊎◌, true, false, List, [], ◌∷◌, arith, length,
}
use chromium_log.InternalAuth.Defs.{
  Bytes, Base, generation_window_ticks, key_regeneration_hard_ticks, get_current_tick,
  is_domain_sane,
}
use chromium_log.InternalAuth.Passport.{get_current_tick_range}
use chromium_log.InternalAuth.Ticks.{
  forget_below, has_tick, Below, IsFalling, forget_below-Below, Below-mono, has_tick-forget_below,
}
use chromium_log.InternalAuth.Verification.{is_null}
use chromium_log.InternalAuth.Generation.{
  Auth, Times, latest, free_tick, is_key_alive, renew_key, take_tick, get_unused_tick,
}

pub latest_above :
    (current : ℕ) (ts : List ℕ)
    → IsFalling ts
    → (current ≤ latest current ts) × Below (latest current ts + 1) ts
unfolding latest
latest_above current [] f = ground arith
latest_above current (t ∷ ts) f = ground arith

-- The search finds a tick that is not used, within its rounds.
free_tick_free :
    (n tick : ℕ) (ts : List ℕ)
    → Below (tick + 1) ts
    → length ts < n
    → n ≤ tick
    → let found = free_tick n tick ts in
      (has_tick found ts ≡ false) × (0 < found) × (found ≤ tick) × (tick < found + n)
unfolding free_tick has_tick
free_tick_free zero tick ts b l h = absurd (omega arith)
free_tick_free (suc n) tick [] b l h = ground arith
free_tick_free (suc n) tick (t ∷ ts) b l h =
    ground (arith, free_tick_free n (tick - 1) ts, Below-mono t (tick - 1 + 1) ts)

-- Distinct ticks from a bound up are at most as many as there are numbers in between.
length-window :
    (n bound : ℕ) (ts : List ℕ) → Below n ts → length (forget_below bound ts) ≤ n - bound
unfolding forget_below
length-window n bound [] b = omega arith
length-window n bound (t ∷ ts) b = ground (arith, length-window t bound ts)

-- What a tick handed out at `current` is: in the window, and unused before and after the pruning.
pub record IsFresh (current tick : ℕ) (before after : List ℕ) : Type 0 where
  pub positive : 0 < tick
  pub not_later : tick ≤ current
  pub in_window : current < tick + generation_window_ticks
  pub unused : has_tick tick after ≡ false
  pub never_used : has_tick tick before ≡ false

pub take_tick-IsFresh :
    (base : Base) (current : ℕ) (a : Auth)
    → generation_window_ticks ≤ current
    → IsFalling a.generated_ticks
    → Below (current + 1) a.generated_ticks
    → let r = take_tick base current a in
      ((r.1 ≡ 0) × (length r.0.generated_ticks ≡ generation_window_ticks))
      ⊎ (IsFresh current r.1 a.generated_ticks r.0.generated_ticks
          × (length r.0.generated_ticks < generation_window_ticks))
unfolding take_tick
take_tick-IsFresh base current a h f b =
    let bound = current + 1 - generation_window_ticks in
    let kept = forget_below bound a.generated_ticks in
    let found = free_tick generation_window_ticks current kept in
    ground (
      arith,
      length-window (current + 1) bound a.generated_ticks b,
      free_tick_free generation_window_ticks current kept
          (forget_below-Below (current + 1) bound a.generated_ticks b),
      has_tick-forget_below bound found a.generated_ticks,
    )

take_tick_keeps :
    (base : Base) (current : ℕ) (a : Auth)
    → ((take_tick base current a).0.engine ≡ a.engine)
      × ((take_tick base current a).0.verifier ≡ a.verifier)
      × ((take_tick base current a).0.key_regeneration_tick ≡ a.key_regeneration_tick)
      × ((take_tick base current a).0.generated_ticks
          ≡ forget_below (current + 1 - generation_window_ticks) a.generated_ticks)
unfolding take_tick
take_tick_keeps base current a = ground arith

-- The tick at which `GetUnusedTick` works: the clock's, or the last used one if that is later.
abbrev pub now_tick : Times → Auth → ℕ
now_tick times a = latest (get_current_tick times.asked) a.generated_ticks

module _ (base : Base) (times : Times) (key domain : Bytes) (a : Auth) where
  -- The key is alive at this tick, or a new one can be made that is.
  abbrev pub CanLive : Type 0
  CanLive =
      (is_key_alive base (now_tick times a) a ≡ true)
      ⊎ ((base.hmac_init key ≡ true)
          × (now_tick times a < get_current_tick times.regenerated + key_regeneration_hard_ticks))

  renew_key-ticks :
      (renew_key base times key (now_tick times a) a).generated_ticks ≡ a.generated_ticks
  unfolding renew_key
  renew_key-ticks = ground arith

  renew_key-alive :
      CanLive
      → is_key_alive base (now_tick times a) (renew_key base times key (now_tick times a) a) ≡ true
  unfolding renew_key
  renew_key-alive live = ground arith

  -- When the clock is good, the used ticks are in order, the generator has an engine, the domain is
  -- sane, and the key is alive at this tick or a new one can be made that is, `GetUnusedTick` either
  -- finds twenty ticks used in the window, and gives none, or gives a fresh tick of the window; fewer
  -- than twenty are then used there.
  pub get_unused_tick-IsFresh :
      get_current_tick times.asked ≢ 0
      → IsFalling a.generated_ticks
      → is_null a.engine ≡ false
      → is_domain_sane base domain ≡ true
      → CanLive
      → let r = get_unused_tick base times key domain a in
        ((r.1 ≡ 0) × (length r.0.generated_ticks ≡ generation_window_ticks))
        ⊎ (IsFresh (now_tick times a) r.1 a.generated_ticks r.0.generated_ticks
            × (length r.0.generated_ticks < generation_window_ticks))
  unfolding get_unused_tick renew_key
  get_unused_tick-IsFresh c f e d live =
      let renewed = renew_key base times key (now_tick times a) a in
      let above = latest_above (get_current_tick times.asked) a.generated_ticks f in
      let early : generation_window_ticks ≤ (now_tick times a) =
        omega (arith, get_current_tick_range times.asked) in
      let falling : IsFalling renewed.generated_ticks = rw renew_key-ticks f in
      let below : Below ((now_tick times a) + 1) renewed.generated_ticks =
        rw renew_key-ticks above.1 in
      rw (e, d, renew_key-alive live)
        (rw renew_key-ticks at
          (take_tick-IsFresh base (now_tick times a) renewed early falling below))

  -- While the key is alive the generator and the verifier keep theirs.
  pub get_unused_tick_alive :
      get_current_tick times.asked ≢ 0
      → IsFalling a.generated_ticks
      → is_null a.engine ≡ false
      → is_domain_sane base domain ≡ true
      → is_key_alive base (now_tick times a) a ≡ true
      → let r = get_unused_tick base times key domain a in
        (r.0.engine ≡ a.engine)
        × (r.0.verifier ≡ a.verifier)
        × (r.0.key_regeneration_tick ≡ a.key_regeneration_tick)
        × (r.0.generated_ticks
            ≡ forget_below (now_tick times a + 1 - generation_window_ticks) a.generated_ticks)
        × (r.1 ≢ 0 → IsFresh (now_tick times a) r.1 a.generated_ticks r.0.generated_ticks)
  unfolding get_unused_tick renew_key
  get_unused_tick_alive c f e d alive =
      let above = latest_above (get_current_tick times.asked) a.generated_ticks f in
      let early : generation_window_ticks ≤ now_tick times a =
        omega (arith, get_current_tick_range times.asked) in
      rw (e, d, alive, alive)
        (ground (
          arith,
          take_tick_keeps base (now_tick times a) a,
          take_tick-IsFresh base (now_tick times a) a early f above.1,
        ))
