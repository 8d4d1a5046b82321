-- ===== src/InternalAuth/Agreement.antt =====
-- The generator and the verifier of browser/internal_auth.cc, as far as they agree.
use chromium_log.Prelude.{
  ℕ, ◌+◌, ◌-◌, ◌≤◌, ◌≡◌, ◌≢◌, ◌∙◌, ◌⊎◌, refl, sym, max, true, List, [], some, arith, length,
}
use chromium_log.InternalAuth.Defs.{
  Bytes, Base, generation_window_ticks, key_size_in_bytes, get_current_tick,
}
use chromium_log.InternalAuth.Ticks.{
  insert_tick, has_tick, forget_below, has_tick-insert_tick, has_tick-forget_below,
  has_tick-of_forget_below,
}
use chromium_log.InternalAuth.Verification.{
  Verifier, record_tick, change_key, get_verification_window_ticks,
}
use chromium_log.InternalAuth.Verification.Acceptance.{record_tick_keeps}
use chromium_log.InternalAuth.Generation.{
  Auth, Times, is_key_alive, generate_new_key, get_unused_tick,
}
use chromium_log.InternalAuth.Generation.Fresh.{now_tick}

module _ (base : Base) where
  -- The generator's key is the verifier's current one, since its last change, which was not earlier
  -- than the generator's; and what the verifier has seen used the generator has used or is out of its
  -- window at this tick.
  pub record InSync (current : ℕ) (a : Auth) : Type 0 where
    pub shared_key : Bytes
    pub generator_key : a.engine ≡ some shared_key
    pub verifier_key : a.verifier.engine ≡ some shared_key
    pub has_key : a.verifier.key ≢ []
    pub changed : a.key_regeneration_tick ≤ a.verifier.key_change_tick
    pub seen :
        (tick : ℕ)
        → has_tick tick a.verifier.used_ticks ≡ true
        → (has_tick tick a.generated_ticks ≡ true) ⊎ (tick + generation_window_ticks ≤ current)

  -- With a new key of the right size and no tick used yet, the two are in step.
  pub new_key-InSync :
      (times : Times) (key : Bytes) (current : ℕ) (a : Auth)
      → base.hmac_init key ≡ true
      → length key ≡ key_size_in_bytes
      → get_current_tick times.regenerated ≤ get_current_tick times.changed
      → a.verifier.used_ticks ≡ []
      → InSync current (generate_new_key base times key a)
  unfolding generate_new_key change_key has_tick
  new_key-InSync times key current a good size l none_used =
      rw (good, generate_new_key)
        (rw (size, change_key)
          (record {
            shared_key = key;
            generator_key = refl;
            verifier_key = refl;
            has_key = λ e. ground arith;
            changed = l;
            seen = λ t h. ground arith;
          }))

  -- What the verifier has seen once it has recorded the tick that was made.
  seen-record_tick :
      (current window later tick s : ℕ) (ts : List ℕ) (v : Verifier)
      → ((has_tick s v.used_ticks ≡ true)
          → (has_tick s ts ≡ true) ⊎ (s + generation_window_ticks ≤ current))
      → has_tick s (record_tick window later tick v).used_ticks ≡ true
      → (has_tick s (insert_tick tick (forget_below (current + 1 - generation_window_ticks) ts))
          ≡ true)
        ⊎ (s + generation_window_ticks ≤ current)
  unfolding record_tick
  seen-record_tick current window later tick s ts v seen h =
      let bound = current + 1 - generation_window_ticks in
      ground (
        arith,
        has_tick-insert_tick s tick (forget_below bound ts),
        has_tick-insert_tick s tick v.used_ticks,
        has_tick-forget_below bound s ts,
        has_tick-of_forget_below (max v.dark_tick (later - window) + 1) s
            (insert_tick tick v.used_ticks),
      )

  -- While the key is alive, the two stay in step when the verifier has recorded the tick of a passport.
  pub exchange-InSync :
      (times : Times) (later : ℕ) (key domain : Bytes) (a : Auth)
      → is_key_alive base (now_tick times a) a ≡ true
      → InSync (now_tick times a) a
      → let r = get_unused_tick base times key domain a in
        (r.0.engine ≡ a.engine)
        → (r.0.key_regeneration_tick ≡ a.key_regeneration_tick)
        → (r.0.generated_ticks
            ≡ forget_below (now_tick times a + 1 - generation_window_ticks) a.generated_ticks)
        → InSync (now_tick times a) (record r.0 {
          generated_ticks = insert_tick r.1 r.0.generated_ticks;
          verifier =
              record_tick (get_verification_window_ticks 0) (get_current_tick later) r.1 a.verifier;
        })
  exchange-InSync times later key domain a alive sync e t g =
      let r = get_unused_tick base times key domain a in
      let window = get_verification_window_ticks 0 in
      let keeps = record_tick_keeps base window (get_current_tick later) r.1 a.verifier in
      record {
        shared_key = sync.shared_key;
        generator_key = e ∙ sync.generator_key;
        verifier_key = keeps.1 ∙ sync.verifier_key;
        has_key = λ h. sync.has_key (sym keeps.0 ∙ h);
        changed = rw (t, keeps.2) sync.changed;
        seen = λ s h. rw g (
            seen-record_tick (now_tick times a) window (get_current_tick later) r.1 s
              a.generated_ticks a.verifier (sync.seen s) h);
      }
