-- ===== src/InternalAuth/Verification/Acceptance.antt =====
-- When a passport is accepted: what an acceptance shows, and which passports are accepted.
use chromium_log.Prelude.{
  ℕ, ◌+◌, ◌≤◌, ◌<◌, ◌≡◌, ◌≢◌, ◌⊎◌, inl, inr, refl, true, false, [], ◌∷◌, Option, none, some, arith,
  length, Bool-cases, ◌∙◌,
}
use chromium_log.Prelude.Int.{ℤ, pos, negsuc}
use chromium_log.InternalAuth.Defs.{
  Bytes, VarValueMap, Base, key_regeneration_hard_ticks, passport_size, get_current_tick,
  is_domain_sane, is_var_value_map_sane, create_passport,
}
use chromium_log.InternalAuth.Ticks.{has_tick}
use chromium_log.InternalAuth.Verification.Replay.{IsSpent, record_tick-IsSpent}
use chromium_log.InternalAuth.Verification.{
  Verifier, get_verification_window_ticks, named_tick, admissible, pre_verify_passport, is_signed,
  is_reference, record_tick, verify_passport, bytes_eq,
}

bytes_eq_sound : (a b : Bytes) → bytes_eq a b ≡ true → a ≡ b
bytes_eq_sound [] [] h = refl
bytes_eq_sound [] (_ ∷ _) h = cc
bytes_eq_sound (_ ∷ _) [] h = cc
bytes_eq_sound (x ∷ a) (y ∷ b) h = ground (arith, bytes_eq_sound a b)

bytes_eq_refl : (a : Bytes) → bytes_eq a a ≡ true
bytes_eq_refl [] = refl
bytes_eq_refl (x ∷ a) = ground (arith, bytes_eq_refl a)

module _ (base : Base) where
  -- The passport is the one that this key makes for the domain, the variables and the tick.
  abbrev pub IsMadeBy : Bytes → Bytes → Bytes → VarValueMap → ℕ → Type 0
  IsMadeBy key passport domain items tick = passport ≡ create_passport base domain items tick key

  -- The tick is one that the verifier may accept at this time.
  pub record IsTimely (window current tick : ℕ) (v : Verifier) : Type 0 where
    pub positive : 0 < tick
    pub current_lit : v.dark_tick < current
    pub lit : v.dark_tick < tick
    pub recent : current ≤ tick + window
    pub key_alive : current ≤ v.key_change_tick + key_regeneration_hard_ticks
    pub key_covers : tick ≤ v.key_change_tick + key_regeneration_hard_ticks
    pub unused : has_tick tick v.used_ticks ≡ false

  -- A key that counts for the tick: the current one, or the old one if the tick is not later than the
  -- window after the last change.
  abbrev pub Counts : ℕ → ℕ → Bytes → Verifier → Type 0
  Counts window tick key v =
      (v.engine ≡ some key)
      ⊎ ((v.old_engine ≡ some key) × (v.old_key ≢ []) × (tick ≤ v.key_change_tick + window))

  admissible-IsTimely :
      (window current : ℕ) (v : Verifier) (named : Option ℤ)
      → let tick = admissible window current v named in
        tick ≢ 0
        → (named ≡ some (pos tick))
          × (v.dark_tick < tick)
          × (current ≤ tick + window)
          × (tick ≤ v.key_change_tick + key_regeneration_hard_ticks)
          × (has_tick tick v.used_ticks ≡ false)
  unfolding admissible
  admissible-IsTimely window current v none h = absurd (h refl)
  admissible-IsTimely window current v (some (negsuc n)) h = absurd (h refl)
  admissible-IsTimely window current v (some (pos tick)) h = ground arith

  pre_verify-IsTimely :
      (window current : ℕ) (passport domain : Bytes) (v : Verifier)
      → let tick = pre_verify_passport base window passport domain current v in
        tick ≢ 0
        → (named_tick base passport ≡ some (pos tick))
          × (is_domain_sane base domain ≡ true)
          × IsTimely window current tick v
  unfolding pre_verify_passport
  pre_verify-IsTimely window current passport domain v h =
      ground (arith, admissible-IsTimely window current v (named_tick base passport))

  is_reference-IsMadeBy :
      (passport domain : Bytes) (items : VarValueMap) (tick : ℕ) (engine : Option Bytes)
      → is_reference base passport domain items tick engine ≡ true
      → (key : Bytes) × (engine ≡ some key) × IsMadeBy key passport domain items tick
  unfolding is_reference
  is_reference-IsMadeBy passport domain items tick none h = cc
  is_reference-IsMadeBy passport domain items tick (some key) h =
      (key, refl, bytes_eq_sound passport _ h)

  is_signed-Counts :
      (window : ℕ) (passport domain : Bytes) (items : VarValueMap) (tick : ℕ) (v : Verifier)
      → is_signed base window passport domain items tick v ≡ true
      → (key : Bytes) × Counts window tick key v × IsMadeBy key passport domain items tick
  unfolding is_signed
  is_signed-Counts window passport domain items tick v h =
      elim (Bool-cases (is_reference base passport domain items tick v.engine)) [
        | inl current ↦
            let (key, e, made) =
              is_reference-IsMadeBy passport domain items tick v.engine current in
            (key, inl e, made)
        | inr other ↦
            let (key, e, made) =
              is_reference-IsMadeBy passport domain items tick v.old_engine (ground arith) in
            (key, inr (e, ground arith, ground arith), made)
      ]

  -- If a passport is accepted, then it is the one that the current key, or an old key that still
  -- counts, makes for this domain, these variables and the tick that it names; domain and variables
  -- are sane; and the tick is timely: positive, later than the dark tick, at most a window old, not
  -- past the life of the key, and not used before.
  pub verify_sound :
      (window_seconds now : ℕ) (passport domain : Bytes) (items : VarValueMap) (v : Verifier)
      → let window = get_verification_window_ticks window_seconds in
        (verify_passport base window_seconds now passport domain items v).1 ≡ true
        → (tick : ℕ) × (key : Bytes) × (named_tick base passport ≡ some (pos tick))
          × IsMadeBy key passport domain items tick
          × Counts window tick key v
          × IsTimely window (get_current_tick now) tick v
          × (is_domain_sane base domain ≡ true)
          × (is_var_value_map_sane base items ≡ true)
  unfolding verify_passport
  verify_sound window_seconds now passport domain items v h =
      let window = get_verification_window_ticks window_seconds in
      let current = get_current_tick now in
      let tick = pre_verify_passport base window passport domain current v in
      let timely = pre_verify-IsTimely window current passport domain v (ground arith) in
      let (key, counts, made) =
        is_signed-Counts window passport domain items tick v (ground arith) in
      (tick, key, timely.0, made, counts, timely.2, timely.1, ground arith)

  -- The branch of `verify_passport` that accepts.
  pub verify_accepts :
      (window_seconds now tick : ℕ) (domain : Bytes) (items : VarValueMap) (key : Bytes)
      (v : Verifier)
      → let passport = create_passport base domain items tick key in
        let window = get_verification_window_ticks window_seconds in
        v.engine ≡ some key
        → v.key ≢ []
        → IsTimely window (get_current_tick now) tick v
        → is_domain_sane base domain ≡ true
        → is_var_value_map_sane base items ≡ true
        → length passport ≡ passport_size
        → base.is_string_ascii passport ≡ true
        → named_tick base passport ≡ some (pos tick)
        → verify_passport base window_seconds now passport domain items v
          ≡ (record_tick window (get_current_tick now) tick v, true)
  unfolding verify_passport
  verify_accepts window_seconds now tick domain items key v e k t d m l a n =
      let passport = create_passport base domain items tick key in
      let window = get_verification_window_ticks window_seconds in
      let current = get_current_tick now in
      let pre : pre_verify_passport base window passport domain current v ≡ tick =
        unfold pre_verify_passport admissible in rw n (ground arith) in
      let signed : is_signed base window passport domain items tick v ≡ true =
        unfold is_signed is_reference in rw e (ground (arith, bytes_eq_refl passport)) in
      rw (pre, m, signed) (ground (arith, t.positive))

  pub record_tick_keeps :
      (window current tick : ℕ) (v : Verifier)
      → ((record_tick window current tick v).key ≡ v.key)
        × ((record_tick window current tick v).engine ≡ v.engine)
        × ((record_tick window current tick v).key_change_tick ≡ v.key_change_tick)
  unfolding record_tick
  record_tick_keeps window current tick v = ground arith

  -- A passport that the current key makes for sane arguments and a timely tick, of the right size, in
  -- ASCII, and naming that tick, is accepted by a verifier that has a key. The verifier then keeps its key, and the tick and each
  -- tick that was spent before are spent: among the used ticks, or not later than the dark tick.
  pub verify_complete :
      (window_seconds now tick : ℕ) (domain : Bytes) (items : VarValueMap) (key : Bytes)
      (v : Verifier)
      → let passport = create_passport base domain items tick key in
        let window = get_verification_window_ticks window_seconds in
        let (after, accepted) = verify_passport base window_seconds now passport domain items v in
        v.engine ≡ some key
        → v.key ≢ []
        → IsTimely window (get_current_tick now) tick v
        → is_domain_sane base domain ≡ true
        → is_var_value_map_sane base items ≡ true
        → length passport ≡ passport_size
        → base.is_string_ascii passport ≡ true
        → named_tick base passport ≡ some (pos tick)
        → (accepted ≡ true)
          × (after.key ≡ v.key)
          × (after.engine ≡ some key)
          × (after.key_change_tick ≡ v.key_change_tick)
          × IsSpent tick after
          × ((s : ℕ) → IsSpent s v → IsSpent s after)
  verify_complete window_seconds now tick domain items key v e k t d m l a n =
      let window = get_verification_window_ticks window_seconds in
      let current = get_current_tick now in
      let keeps = record_tick_keeps window current tick v in
      rw (verify_accepts window_seconds now tick domain items key v e k t d m l a n) (
        refl,
        keeps.0,
        keeps.1 ∙ e,
        keeps.2,
        record_tick-IsSpent window current tick tick v (inl refl),
        λ s spent. record_tick-IsSpent window current tick s v (inr spent),
      )
