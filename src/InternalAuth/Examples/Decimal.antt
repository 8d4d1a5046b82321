-- ===== src/InternalAuth/Examples/Decimal.antt =====
-- A base library whose numbers are real decimals in bytes, and a passport made and verified with it.
use chromium_log.Prelude.{
  ℕ, zero, suc, ◌+◌, ◌-◌, ◌*◌, ◌/◌, ◌%◌, ◌^◌, ◌≤◌, ◌<◌, ◌≡◌, refl, ap, ◌∙◌, Bool, true, ◌&&◌, [],
  ◌∷◌, ◌++◌, Option, none, some, arith, ltb, sym, append_assoc, inl, inr, Bool-cases, length,
  length-append, if◌then◌else◌,
}
use chromium_log.Prelude.Int.{ℤ, pos}
use chromium_log.InternalAuth.Defs.{
  Bytes, VarValueMap, Base, is_digit, zeros, get_current_tick, is_domain_sane, is_var_sane,
  is_value_sane, is_var_value_map_sane, create_passport,
}
use chromium_log.InternalAuth.Ticks.{forget_below}
use chromium_log.InternalAuth.Verification.{new_verifier, change_key, verify_passport}
use chromium_log.InternalAuth.Generation.{
  Auth, Times, latest, free_tick, generate_new_key, renew_key, take_tick, get_unused_tick,
  sign_tick, generate_passport,
}
use chromium_log.InternalAuth.Generation.Fresh.{now_tick}
use chromium_log.InternalAuth.Agreement.{InSync, new_key-InSync}
use chromium_log.InternalAuth.RoundTrip.{ReadsBack, generate-verify}

-- At most so many digits.
abbrev decimal : ℕ → ℕ → Bytes
decimal zero n = []
decimal (suc k) n =
    let front = decimal k (n / 10) in
    if ltb n 10 then (b'0' + n) ∷ [] else front ++ (b'0' + n % 10) ∷ []

abbrev power : ℕ → ℕ
power zero = 1
power (suc k) = 10 * power k

-- Another digit, where int64_t has room for it.
abbrev read_digit : Option ℕ → ℕ → Option ℕ
read_digit none c = none
read_digit (some v) c =
    let w = v * 10 + (c - b'0') in if is_digit c && ltb w (2 ^ 63) then some w else none

abbrev read_digits : Option ℕ → Bytes → Option ℕ
read_digits v [] = v
read_digits v (c ∷ cs) = read_digits (read_digit v c) cs

abbrev to_pos : Option ℕ → Option ℤ
to_pos none = none
to_pos (some n) = some (pos n)

-- base::StringToInt64 of what has no sign.
abbrev read : Bytes → Option ℤ
read [] = none
read (c ∷ cs) = to_pos (read_digits (some 0) (c ∷ cs))

abbrev all_ascii : Bytes → Bool
all_ascii [] = true
all_ascii (c ∷ cs) = ltb c 128 && all_ascii cs

abbrev decimal_base : Base
decimal_base = record {
  is_string_utf8 = all_ascii;
  is_string_ascii = all_ascii;
  int64_to_string = decimal 20;
  string_to_int64 = read;
  base64_encode = λ raw. zeros 44;
  hmac_init = λ key. true;
  hmac_sign = λ key message. some message;
}

read_digits-append :
    (v : Option ℕ) (xs ys : Bytes) → read_digits v (xs ++ ys) ≡ read_digits (read_digits v xs) ys
read_digits-append v [] ys = refl
read_digits-append v (x ∷ xs) ys = read_digits-append (read_digit v x) xs ys

read_digits-zeros :
    (n : ℕ) (ys : Bytes) → read_digits (some 0) (zeros n ++ ys) ≡ read_digits (some 0) ys
read_digits-zeros zero ys = refl
read_digits-zeros (suc n) ys = read_digits-zeros n ys

read_digits-decimal :
    (k n : ℕ) → n < power k → n < 2 ^ 63 → read_digits (some 0) (decimal k n) ≡ some n
read_digits-decimal zero n h small = ground arith
read_digits-decimal (suc k) n h small =
    let last = (b'0' + n % 10) ∷ [] in
    let front = read_digits-decimal k (n / 10) (omega arith) (omega arith) in
    let parts = read_digits-append (some 0) (decimal k (n / 10)) last in ground arith

length-decimal : (k n : ℕ) → length (decimal k n) ≤ k
length-decimal zero n = omega arith
length-decimal (suc k) n =
    ground
      (arith, length-append (decimal k (n / 10)) ((b'0' + n % 10) ∷ []), length-decimal k (n / 10))

all_ascii-append : (xs ys : Bytes) → all_ascii (xs ++ ys) ≡ (all_ascii xs && all_ascii ys)
all_ascii-append [] ys = refl
all_ascii-append (x ∷ xs) ys = ground (arith, all_ascii-append xs ys)

all_ascii-zeros : (n : ℕ) (ys : Bytes) → all_ascii (zeros n ++ ys) ≡ all_ascii ys
all_ascii-zeros zero ys = refl
all_ascii-zeros (suc n) ys = all_ascii-zeros n ys

all_ascii-decimal : (k n : ℕ) → all_ascii (decimal k n) ≡ true
all_ascii-decimal zero n = refl
all_ascii-decimal (suc k) n = ground (
  arith,
  all_ascii-append (decimal k (n / 10)) ((b'0' + n % 10) ∷ []),
  all_ascii-decimal k (n / 10),
)

-- What is not empty is read from its first digit on.
read-not_empty :
    (xs ys : Bytes) (c : ℕ) → read (xs ++ c ∷ ys) ≡ to_pos (read_digits (some 0) (xs ++ c ∷ ys))
read-not_empty [] ys c = refl
read-not_empty (x ∷ xs) ys c = refl

decimal-last : (k n : ℕ) → (front : Bytes) × (last : ℕ) × (decimal (suc k) n ≡ front ++ last ∷ [])
decimal-last k n = elim (Bool-cases (ltb n 10)) [
  | inl small ↦ ([], b'0' + n, ground arith)
  | inr large ↦ (decimal k (n / 10), b'0' + n % 10, ground arith)
]

read-decimal : (n tick : ℕ) → tick < 2 ^ 63 → read (zeros n ++ decimal 20 tick) ≡ some (pos tick)
read-decimal n tick small =
    let (front, last, e) = decimal-last 19 tick in
    let assoc : zeros n ++ decimal 20 tick ≡ (zeros n ++ front) ++ last ∷ [] =
      ap (λ xs. zeros n ++ xs) e ∙ sym (append_assoc (zeros n) front (last ∷ [])) in
    ap read assoc
    ∙ read-not_empty (zeros n ++ front) [] last
    ∙ ap (λ xs. to_pos (read_digits (some 0) xs)) (sym assoc)
    ∙ ap to_pos (read_digits-zeros n (decimal 20 tick))
    ∙ ap to_pos (read_digits-decimal 20 tick (omega arith) small)

decimal-ReadsBack : ReadsBack decimal_base
decimal-ReadsBack = record {
  short = λ tick small. length-decimal 20 tick;
  reads = read-decimal;
  ascii = λ raw n tick small. all_ascii-zeros n (decimal 20 tick) ∙ all_ascii-decimal 20 tick;
}

-- 15 000 seconds are 1 500 000 ticks.
abbrev noon : ℕ
noon = 15_000_000_000

abbrev times : Times
times = record { asked = noon; regenerated = noon; changed = noon }

abbrev a_key : Bytes
a_key = zeros 16

abbrev a_domain : Bytes
a_domain = b'd' ∷ []

abbrev items : VarValueMap
items = (b'v' ∷ [], b'1' ∷ []) ∷ []

abbrev keyless : Auth
keyless = record {
  engine = none;
  key_regeneration_tick = 0;
  generated_ticks = [];
  verifier = new_verifier;
}

-- The services once `InternalAuthVerification` has its first key.
abbrev ready : Auth
ready = generate_new_key decimal_base times a_key keyless

ready-InSync : InSync decimal_base (now_tick times ready) ready
unfolding new_verifier
ready-InSync =
    new_key-InSync decimal_base times a_key (now_tick times ready) keyless refl refl (omega arith)
      refl

-- One second later.
abbrev later : ℕ
later = 15_001_000_000

generate-verify_example :
    let (b, passport) = generate_passport decimal_base times a_key a_domain items ready in
    let (v, accepted) = verify_passport decimal_base 0 later passport a_domain items b.verifier in
    (accepted ≡ true) × InSync decimal_base (now_tick times ready) (record b { verifier = v })
unfolding get_current_tick latest is_domain_sane is_var_value_map_sane is_var_sane is_value_sane
    generate_passport get_unused_tick renew_key take_tick free_tick forget_below sign_tick
    create_passport new_verifier generate_new_key change_key
generate-verify_example =
    generate-verify decimal_base decimal-ReadsBack times a_key a_domain items later ready
      (omega arith) tt refl refl ready-InSync (omega arith) (omega arith) (omega arith)
      (omega arith) (λ e. cc)
