-- ===== src/InternalAuth/Verification/Replay.antt =====
-- A passport is accepted once: its tick is remembered, or lies in the dark.
use chromium_log.Prelude.{
  ℕ, ◌+◌, ◌-◌, ◌≤◌, ◌≡◌, ◌≢◌, ◌⊎◌, inl, inr, refl, true, false, List, Option, none, some, arith,
  run, run_inv_all, max,
}
use chromium_log.Prelude.Int.{ℤ, pos, negsuc}
use chromium_log.InternalAuth.Defs.{Bytes, VarValueMap, Base, get_current_tick}
use chromium_log.InternalAuth.Ticks.{
  insert_tick, has_tick, IsFalling, insert_tick-IsFalling, has_tick-insert_tick,
  has_tick-forget_below, forget_below-IsFalling,
}
use chromium_log.InternalAuth.Verification.{
  Verifier, Call, verify, change, new_verifier, get_verification_window_ticks, named_tick,
  admissible, pre_verify_passport, record_tick, verify_passport, change_key, step,
}

-- The tick can no longer be accepted.
abbrev pub IsSpent : ℕ → Verifier → Type 0
IsSpent tick v = (tick ≤ v.dark_tick) ⊎ (has_tick tick v.used_ticks ≡ true)

pub record_tick-IsSpent :
    (window current tick t : ℕ) (v : Verifier)
    → (t ≡ tick) ⊎ IsSpent t v
    → IsSpent t (record_tick window current tick v)
unfolding record_tick
record_tick-IsSpent window current tick t v s = ground (
  arith,
  has_tick-insert_tick t tick v.used_ticks,
  has_tick-forget_below (max v.dark_tick (current - window) + 1) t (insert_tick tick v.used_ticks),
)

-- A spent tick is not admissible.
admissible-spent :
    (window current tick : ℕ) (v : Verifier)
    → IsSpent tick v
    → admissible window current v (some (pos tick)) ≡ 0
unfolding admissible
admissible-spent window current tick v s = ground arith

admissible-named :
    (window current : ℕ) (v : Verifier) (named : Option ℤ)
    → admissible window current v named ≢ 0
    → (named ≡ some (pos (admissible window current v named)))
      × (has_tick (admissible window current v named) v.used_ticks ≡ false)
unfolding admissible
admissible-named window current v none h = absurd (h refl)
admissible-named window current v (some (negsuc n)) h = absurd (h refl)
admissible-named window current v (some (pos tick)) h = ground arith

module _ (base : Base) where
  pre_verify-spent :
      (window tick current : ℕ) (passport domain : Bytes) (v : Verifier)
      → named_tick base passport ≡ some (pos tick)
      → IsSpent tick v
      → pre_verify_passport base window passport domain current v ≡ 0
  unfolding pre_verify_passport
  pre_verify-spent window tick current passport domain v e s =
      rw e (ground (arith, admissible-spent window current tick v s))

  pre_verify-named :
      (window current : ℕ) (passport domain : Bytes) (v : Verifier)
      → let tick = pre_verify_passport base window passport domain current v in
        tick ≢ 0
        → (named_tick base passport ≡ some (pos tick)) × (has_tick tick v.used_ticks ≡ false)
  unfolding pre_verify_passport
  pre_verify-named window current passport domain v h =
      ground (arith, admissible-named window current v (named_tick base passport))

  -- A verification that succeeds spends the tick that the passport names.
  verify-spends :
      (window_seconds now : ℕ) (passport domain : Bytes) (items : VarValueMap) (v : Verifier)
      → let r = verify_passport base window_seconds now passport domain items v in
        r.1 ≡ true → (tick : ℕ) × (named_tick base passport ≡ some (pos tick)) × IsSpent tick r.0
  unfolding verify_passport
  verify-spends window_seconds now passport domain items v e =
      let window = get_verification_window_ticks window_seconds in
      let current = get_current_tick now in
      let tick = pre_verify_passport base window passport domain current v in
      (
        tick,
        ground (arith, pre_verify-named window current passport domain v),
        ground (arith, record_tick-IsSpent window current tick tick v (inl refl)),
      )

  verify-keeps_IsSpent :
      (window_seconds now tick : ℕ) (passport domain : Bytes) (items : VarValueMap) (v : Verifier)
      → IsSpent tick v
      → IsSpent tick (verify_passport base window_seconds now passport domain items v).0
  unfolding verify_passport
  verify-keeps_IsSpent window_seconds now tick passport domain items v s =
      let window = get_verification_window_ticks window_seconds in
      let current = get_current_tick now in
      let new_tick = pre_verify_passport base window passport domain current v in
      ground (arith, record_tick-IsSpent window current new_tick tick v (inr s))

  step-IsSpent :
      (tick : ℕ) (v : Verifier) (c : Call) → IsSpent tick v → IsSpent tick (step base v c)
  unfolding step change_key
  step-IsSpent tick v (verify window_seconds now passport domain items) s =
      verify-keeps_IsSpent window_seconds now tick passport domain items v s
  step-IsSpent tick v (change now key) s = ground arith

  run-IsSpent :
      (tick : ℕ) (cs : List Call) (v : Verifier)
      → IsSpent tick v
      → IsSpent tick (run (step base) v cs)
  run-IsSpent tick cs v s = run_inv_all (step base) (IsSpent tick) (step-IsSpent tick) v cs s

  -- Once a passport has been accepted, no later call accepts it again, whatever calls come between,
  -- with any domain, variables, times and windows, and under any keys; and the refusal changes nothing.
  pub passport_accepted_once :
      (v : Verifier) (passport domain domain' : Bytes) (items items' : VarValueMap)
      (window_seconds now window_seconds' now' : ℕ) (between : List Call)
      → let r = verify_passport base window_seconds now passport domain items v in
        let w = run (step base) r.0 between in
        r.1 ≡ true
        → verify_passport base window_seconds' now' passport domain' items' w ≡ (w, false)
  unfolding verify_passport
  passport_accepted_once v passport domain domain' items items' ws now ws' now' between e =
      let (tick, named, spent) = verify-spends ws now passport domain items v e in
      let w = run (step base) (verify_passport base ws now passport domain items v).0 between in
      rw
        (pre_verify-spent (get_verification_window_ticks ws') tick (get_current_tick now') passport
          domain' w named (run-IsSpent tick between _ spent))
        refl

  step-IsFalling :
      (v : Verifier) (c : Call) → IsFalling v.used_ticks → IsFalling (step base v c).used_ticks
  unfolding step change_key verify_passport record_tick
  step-IsFalling v (change now key) f = ground arith
  step-IsFalling v (verify window_seconds now passport domain items) f =
      let window = get_verification_window_ticks window_seconds in
      let current = get_current_tick now in
      let tick = pre_verify_passport base window passport domain current v in
      ground (
        arith,
        pre_verify-named window current passport domain v,
        insert_tick-IsFalling tick v.used_ticks,
        forget_below-IsFalling (max v.dark_tick (current - window) + 1)
            (insert_tick tick v.used_ticks),
      )

  -- In every history of a new verifier the used ticks are in order and distinct, as the binary
  -- searches of the code want them.
  run_verifier-IsFalling : (cs : List Call) → IsFalling (run (step base) new_verifier cs).used_ticks
  unfolding new_verifier
  run_verifier-IsFalling cs =
      run_inv_all (step base) (λ v. IsFalling v.used_ticks) step-IsFalling new_verifier cs tt
