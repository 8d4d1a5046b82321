-- ===== src/InternalAuth/RoundTrip.antt =====
-- A passport that the generator makes is accepted by the verifier that has its key.
use chromium_log.Prelude.{
  ℕ, ◌+◌, ◌-◌, ◌≤◌, ◌<◌, ◌^◌, ◌≡◌, ◌≢◌, ◌∙◌, refl, inl, inr, true, List, [], ◌++◌, some, arith,
  length, ltb→lt,
}
use chromium_log.Prelude.Int.{pos}
use chromium_log.InternalAuth.Defs.{
  Bytes, VarValueMap, Base, generation_window_ticks, key_regeneration_hard_ticks,
  tick_string_length, verification_window_ticks, passport_size, get_current_tick, zeros,
  is_domain_sane, is_var_value_map_sane, create_passport,
}
use chromium_log.InternalAuth.Passport.{create_passport-HasParts, get_current_tick_range}
use chromium_log.InternalAuth.Ticks.{insert_tick, IsFalling}
use chromium_log.InternalAuth.Verification.{
  named_tick, verify_passport, get_verification_window_ticks,
}
use chromium_log.InternalAuth.Verification.Acceptance.{IsTimely, verify_accepts}
use chromium_log.InternalAuth.Generation.{
  Auth, Times, is_key_alive, get_unused_tick, sign_tick, generate_passport,
}
use chromium_log.InternalAuth.Generation.Fresh.{IsFresh, now_tick, get_unused_tick_alive}
use chromium_log.InternalAuth.Agreement.{InSync, exchange-InSync}

-- What the round trip needs of base on an int64_t that is not negative: it has at most 20 digits,
-- base::StringToInt64 reads it back from its digits with zeros in front, and base64 and digits are
-- ASCII.
pub record ReadsBack (base : Base) : Type 0 where
  pub short : (tick : ℕ) → tick < 2 ^ 63 → length (base.int64_to_string tick) ≤ tick_string_length
  pub reads :
      (n tick : ℕ)
      → tick < 2 ^ 63
      → base.string_to_int64 (zeros n ++ base.int64_to_string tick) ≡ some (pos tick)
  pub ascii :
      (raw : Bytes) (n tick : ℕ)
      → tick < 2 ^ 63
      → base.is_string_ascii (base.base64_encode raw ++ (zeros n ++ base.int64_to_string tick))
        ≡ true

module _ (base : Base) (laws : ReadsBack base) where
  -- A passport that was made has what the verifier looks at first.
  made_passport :
      (domain key : Bytes) (items : VarValueMap) (tick : ℕ)
      → tick < 2 ^ 63
      → let passport = create_passport base domain items tick key in
        passport ≢ []
        → (length passport ≡ passport_size)
          × (base.is_string_ascii passport ≡ true)
          × (named_tick base passport ≡ some (pos tick))
  unfolding named_tick
  made_passport domain key items tick small h =
      elim (create_passport-HasParts base domain key items tick (laws.short tick small)) [
        | inl empty ↦ absurd (h empty)
        | inr (hmac, signed, size, parts, end) ↦
            let n = tick_string_length - length (base.int64_to_string tick) in
            (
              size,
              rw parts (laws.ascii hmac n tick small),
              rw (end, named_tick) (laws.reads n tick small),
            )
      ]

  generate_made :
      (times : Times) (key domain shared : Bytes) (items : VarValueMap) (a : Auth)
      → let r = get_unused_tick base times key domain a in
        let made = generate_passport base times key domain items a in
        r.0.engine ≡ some shared
        → made.1 ≢ []
        → (r.1 ≢ 0)
          × (is_var_value_map_sane base items ≡ true)
          × (made.1 ≡ create_passport base domain items r.1 shared)
          × (made.0 ≡ record r.0 { generated_ticks = insert_tick r.1 r.0.generated_ticks })
  unfolding generate_passport sign_tick
  generate_made times key domain shared items a e h = ground arith

  fresh-IsTimely :
      (times : Times) (later tick : ℕ) (a : Auth) (after : List ℕ)
      → InSync base (now_tick times a) a
      → is_key_alive base (now_tick times a) a ≡ true
      → a.verifier.dark_tick + generation_window_ticks ≤ now_tick times a
      → now_tick times a ≤ get_current_tick later
      → get_current_tick later + generation_window_ticks
        ≤ now_tick times a + verification_window_ticks
      → get_current_tick later ≤ a.verifier.key_change_tick + key_regeneration_hard_ticks
      → IsFresh (now_tick times a) tick a.generated_ticks after
      → IsTimely base (get_verification_window_ticks 0) (get_current_tick later) tick a.verifier
  unfolding get_verification_window_ticks
  fresh-IsTimely times later tick a after sync alive dark l1 l2 l3 fresh =
      let covers = ltb→lt _ _ alive in
      record {
        positive = fresh.positive;
        current_lit = omega (arith, fresh.positive);
        lit = omega (arith, fresh.in_window);
        recent = omega (arith, fresh.in_window);
        key_alive = l3;
        key_covers = omega (arith, fresh.not_later, sync.changed, covers);
        unused = ground (arith, sync.seen tick, fresh.in_window, fresh.never_used);
      }

  -- A tick made before `later` is an int64_t.
  fresh-small :
      (current later tick : ℕ) (before after : List ℕ)
      → current ≤ get_current_tick later
      → IsFresh current tick before after
      → tick < 2 ^ 63
  fresh-small current later tick before after l fresh =
      omega (arith, fresh.positive, fresh.not_later, get_current_tick_range later)

  -- While the key is alive, the clock is good and the used ticks are in order, a passport that the
  -- generator makes for a sane domain, unless it gives none, is accepted for the same domain and variables, if it is verified in time: not
  -- before the tick at which it was made, less than the two windows' difference later, and while the
  -- key lives. That is so if the dark ticks of the verifier lie before the generator's window, and
  -- generator and verifier are in step: they have the same key, which the verifier did not change
  -- earlier than the generator, and each tick that the verifier has seen used is one that the generator
  -- has used or is out of its window. Afterwards they are in step again. Of base it is assumed that an
  -- int64_t that is not negative has at most 20 digits and is read back from them with zeros in front,
  -- and that base64 and digits are ASCII.
  pub generate-verify :
      (times : Times) (key domain : Bytes) (items : VarValueMap) (later : ℕ) (a : Auth)
      → get_current_tick times.asked ≢ 0
      → IsFalling a.generated_ticks
      → is_domain_sane base domain ≡ true
      → is_key_alive base (now_tick times a) a ≡ true
      → InSync base (now_tick times a) a
      → a.verifier.dark_tick + generation_window_ticks ≤ now_tick times a
      → now_tick times a ≤ get_current_tick later
      → get_current_tick later + generation_window_ticks
        ≤ now_tick times a + verification_window_ticks
      → get_current_tick later ≤ a.verifier.key_change_tick + key_regeneration_hard_ticks
      → let (b, passport) = generate_passport base times key domain items a in
        let (v, accepted) = verify_passport base 0 later passport domain items b.verifier in
        passport ≢ []
        → (accepted ≡ true) × InSync base (now_tick times a) (record b { verifier = v })
  generate-verify times key domain items later a c f d alive sync dark l1 l2 l3 made =
      let r = get_unused_tick base times key domain a in
      let shared = sync.shared_key in
      let kept = get_unused_tick_alive base times key domain a c f (ground arith) d alive in
      let (tick_ne, sane, passport_eq, after_eq) =
        generate_made times key domain shared items a (kept.0 ∙ sync.generator_key) made in
      let fresh = kept.4 tick_ne in
      let small =
        fresh-small (now_tick times a) later r.1 a.generated_ticks r.0.generated_ticks l1 fresh in
      let (size, ascii, named) =
        made_passport domain shared items r.1 small (rw passport_eq at made) in
      let accepted =
        verify_accepts base 0 later r.1 domain items shared a.verifier sync.verifier_key
          sync.has_key
          (fresh-IsTimely times later r.1 a r.0.generated_ticks sync alive dark l1 l2 l3 fresh) d
          sane size ascii named in
      rw (after_eq, kept.1, passport_eq, accepted)
        (refl, exchange-InSync base times later key domain a alive sync kept.0 kept.2 kept.3)
