-- ===== src/InternalAuth/Generation/Window.antt =====
-- The rate limit of the generator over a whole history.
use chromium_log.Prelude.{
  ℕ, ◌+◌, ◌-◌, ◌≤◌, ◌<◌, ◌≡◌, ◌≢◌, false, List, [], Option, none, some, arith, length, run, run_inv,
  Possible,
}
use chromium_log.InternalAuth.Defs.{
  Bytes, VarValueMap, Base, generation_window_ticks, get_current_tick,
}
use chromium_log.InternalAuth.Passport.{get_current_tick_range}
use chromium_log.InternalAuth.Ticks.{
  has_tick, Below, IsFalling, forget_below-IsFalling, insert_tick-IsFalling, length-insert_tick,
}
use chromium_log.InternalAuth.Generation.{
  Auth, Times, generate_new_key, renew_key, take_tick, get_unused_tick, sign_tick,
  generate_passport,
}
use chromium_log.InternalAuth.Generation.Fresh.{now_tick, latest_above, take_tick-IsFresh}

-- The calls of InternalAuthGeneration.
pub data Call : Type 0 where
  generate : Times → Bytes → Bytes → VarValueMap → Call
  new_key : Times → Bytes → Call

pub step : Base → Auth → Call → Auth
step base a (generate times key domain items) = (generate_passport base times key domain items a).0
step base a (new_key times key) = generate_new_key base times key a

-- The clock is good at the call.
abbrev pub CanHappen : Auth → Call → Type 0
CanHappen a (generate times key domain items) = get_current_tick times.asked ≢ 0
CanHappen a (new_key times key) = Unit

-- The used ticks are in order and distinct, and at most as many as the window has.
pub record IsLimited (a : Auth) : Type 0 where
  pub falling : IsFalling a.generated_ticks
  pub limited : length a.generated_ticks ≤ generation_window_ticks

-- After `GetUnusedTick` there is room for the tick that it gave.
abbrev HasRoom : Auth × ℕ → Type 0
HasRoom (a, tick) =
    IsLimited a
    × (tick ≢ 0
        → (has_tick tick a.generated_ticks ≡ false)
          × (length a.generated_ticks < generation_window_ticks))

module _ (base : Base) where
  take_tick-HasRoom :
      (current : ℕ) (a : Auth)
      → generation_window_ticks ≤ current
      → Below (current + 1) a.generated_ticks
      → IsLimited a
      → HasRoom (take_tick base current a)
  unfolding take_tick
  take_tick-HasRoom current a h b v = ground (
    arith,
    take_tick-IsFresh base current a h v.falling b,
    forget_below-IsFalling (current + 1 - generation_window_ticks) a.generated_ticks v.falling,
  )

  renew_key-IsLimited :
      (times : Times) (key : Bytes) (current : ℕ) (a : Auth)
      → (renew_key base times key current a).generated_ticks ≡ a.generated_ticks
  unfolding renew_key
  renew_key-IsLimited times key current a = ground arith

  get_unused_tick-HasRoom :
      (times : Times) (key domain : Bytes) (a : Auth)
      → get_current_tick times.asked ≢ 0
      → IsLimited a
      → HasRoom (get_unused_tick base times key domain a)
  unfolding get_unused_tick
  get_unused_tick-HasRoom times key domain a c v =
      let current = now_tick times a in
      let renewed = renew_key base times key current a in
      let ticks_eq = renew_key-IsLimited times key current a in
      let above = latest_above (get_current_tick times.asked) a.generated_ticks v.falling in
      let early : generation_window_ticks ≤ current =
        omega (arith, get_current_tick_range times.asked) in
      let limited : IsLimited renewed = record {
        falling = rw ticks_eq v.falling;
        limited = rw ticks_eq v.limited;
      } in
      ground (arith, take_tick-HasRoom current renewed early (rw ticks_eq above.1) limited, limited)

  sign_tick-IsLimited :
      (domain : Bytes) (items : VarValueMap) (tick : ℕ) (engine : Option Bytes) (a : Auth)
      → has_tick tick a.generated_ticks ≡ false
      → length a.generated_ticks < generation_window_ticks
      → IsLimited a
      → IsLimited (sign_tick base domain items tick engine a).0
  unfolding sign_tick
  sign_tick-IsLimited domain items tick none a h l v = v
  sign_tick-IsLimited domain items tick (some key) a h l v = record {
    falling = insert_tick-IsFalling tick a.generated_ticks h v.falling;
    limited = omega (arith, length-insert_tick tick a.generated_ticks);
  }

  step-IsLimited : (a : Auth) (c : Call) → CanHappen a c → IsLimited a → IsLimited (step base a c)
  unfolding step generate_new_key generate_passport
  step-IsLimited a (new_key times key) can v = ground arith
  step-IsLimited a (generate times key domain items) can v =
      let r = get_unused_tick base times key domain a in
      let room = get_unused_tick-HasRoom times key domain a can v in
      ground (arith, room, sign_tick-IsLimited domain items r.1 r.0.engine r.0)

  -- In every history, with a good clock at each request, the ticks that the generator remembers are in
  -- order and distinct, and at most twenty: the DCHECK on their number never fails.
  pub run_generator-IsLimited :
      (a : Auth) (cs : List Call)
      → a.generated_ticks ≡ []
      → Possible (step base) CanHappen a cs
      → IsLimited (run (step base) a cs)
  run_generator-IsLimited a cs e possible =
      run_inv (step base) CanHappen IsLimited step-IsLimited a cs possible
        (record { falling = rw e tt; limited = rw e (omega arith) })
