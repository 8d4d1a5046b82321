-- ===== src/InternalAuth/Passport.antt =====
-- Ticks and passports in numbers: the range of a tick, and the size and the parts of a passport.
use chromium_log.Prelude.{
  ℕ, zero, suc, ◌+◌, ◌-◌, ◌*◌, ◌^◌, ◌≤◌, ◌<◌, ◌≡◌, ◌⊎◌, refl, [], ◌++◌, Option, none, some, arith,
  ◌==◌, length, length-append, inl, inr, Bool-cases, ==→eq, drop, drop-append,
}
use chromium_log.InternalAuth.Defs.{
  Bytes, VarValueMap, Base, tick_us, verification_window_ticks, key_regeneration_hard_ticks,
  tick_string_length, hmac_size_in_bytes, base64_per_raw, passport_size, get_current_tick, zeros,
  place, passport_blob, create_passport, finish_passport,
}

-- A tick is 0, or so far from both ends of int64_t that neither the windows of the services nor the
-- life of a key take a sum or a difference out of it.
pub get_current_tick_range :
    (now : ℕ)
    → (get_current_tick now ≡ 0)
      ⊎ ((verification_window_ticks ≤ get_current_tick now)
          × (key_regeneration_hard_ticks ≤ get_current_tick now)
          × (get_current_tick now + key_regeneration_hard_ticks < 2 ^ 63)
          × (get_current_tick now * tick_us ≤ now))
unfolding get_current_tick
get_current_tick_range now = ground arith

length-zeros : (n : ℕ) → length (zeros n) ≡ n
length-zeros zero = refl
length-zeros (suc n) = omega (arith, length-zeros n)

length-place :
    (hmac digits : Bytes)
    → length hmac + length digits ≤ passport_size
    → length (place hmac digits) ≡ passport_size
unfolding place
length-place hmac digits h = omega (
  arith,
  length-append hmac (zeros (passport_size - length hmac - length digits) ++ digits),
  length-append (zeros (passport_size - length hmac - length digits)) digits,
  length-zeros (passport_size - length hmac - length digits),
)

module _ (base : Base) where
  -- A signature and the digits of a tick, put together.
  abbrev pub HasParts : Option Bytes → Bytes → Bytes → Type 0
  HasParts signature digits passport =
      (hmac : Bytes) × (signature ≡ some hmac)
      × (length passport ≡ passport_size)
      × (passport
          ≡ base.base64_encode hmac ++ (zeros (tick_string_length - length digits) ++ digits))
      × (drop (base64_per_raw hmac_size_in_bytes) passport
          ≡ zeros (tick_string_length - length digits) ++ digits)

  place-parts :
      (encoded digits : Bytes)
      → length encoded ≡ base64_per_raw hmac_size_in_bytes
      → length digits ≤ tick_string_length
      → place encoded digits ≡ encoded ++ (zeros (tick_string_length - length digits) ++ digits)
  unfolding place
  place-parts encoded digits e h =
      let n_eq : passport_size - length encoded - length digits
          ≡ tick_string_length - length digits =
        omega arith in
      rw n_eq

  finish-parts :
      (signature : Option Bytes) (digits : Bytes)
      → length digits ≤ tick_string_length
      → (finish_passport base signature digits ≡ [])
        ⊎ HasParts signature digits (finish_passport base signature digits)
  unfolding finish_passport
  finish-parts none digits h = inl refl
  finish-parts (some hmac) digits h =
      elim (Bool-cases (length (base.base64_encode hmac) == base64_per_raw hmac_size_in_bytes)) [
        | inl good ↦
            let encoded = base.base64_encode hmac in
            let size = ==→eq (length encoded) (base64_per_raw hmac_size_in_bytes) good in
            inr (
              hmac,
              refl,
              rw good (length-place encoded digits (omega arith)),
              rw good (place-parts encoded digits size h),
              rw (good, place-parts encoded digits size h)
                  (drop-append (base64_per_raw hmac_size_in_bytes) encoded _ size),
            )
        | inr bad ↦ inl (rw bad)
      ]

  -- If the tick has at most 20 digits, a passport is empty, or it has its full size, begins with the
  -- HMAC of its message in base64, and ends in the tick, filled up with zeros to 20 characters, where
  -- the verifier looks for it.
  pub create_passport-HasParts :
      (domain key : Bytes) (items : VarValueMap) (tick : ℕ)
      → length (base.int64_to_string tick) ≤ tick_string_length
      → (create_passport base domain items tick key ≡ [])
        ⊎ HasParts
            (base.hmac_sign key (passport_blob base domain items tick))
            (base.int64_to_string tick)
            (create_passport base domain items tick key)
  unfolding create_passport
  create_passport-HasParts domain key items tick h =
      finish-parts (base.hmac_sign key (passport_blob base domain items tick))
        (base.int64_to_string tick) h
